-- ===== src/Remove/Steps.antt =====
-- RemovePackage of internal/remove.go: what each of its parts does to the tables.
use aurforge.Common.{
  ℕ, ◌≡◌, refl, sym, ap, ◌∙◌, List, [], ◌∷◌, arith, Bool, true, false, not, ◌==◌, select, Text,
}
use aurforge.Store.{Tables, Job}
use aurforge.Session.{ok, Env, Session, Effect, perform}
use aurforge.Session.Ensures.{
  Ensures, ok_injective, Ensures-bind, Ensures-weaken, Ensures-pure, Untouched, Within,
  Ensures-execute, Ensures-commit, Ensures-perform, Ensures-is_absent,
}
use aurforge.Remove.{
  member, delete_artifacts, delete_jobs, delete_dependencies, delete_versions, delete_package,
  each_remove, unless_done, unless_absent, remove_from_repository, remove_files, remove_job_files,
  delete_job_rows, delete_version_rows, delete_rows,
}

select-all : {A : Type 0} (p : A → Bool) (xs : List A) → ((x : A) → p x ≡ true) → select p xs ≡ xs
select-all p [] h = refl
select-all p (x ∷ xs) h = cc (h x, select-all p xs h)

-- The tables without the package, its versions and what hangs on those.
abbrev pub without_package : ℕ → List ℕ → List ℕ → Tables → Tables
without_package package_id versions jobs t = record {
  packages = select (λ p. not (p.id == package_id)) t.packages;
  versions = select (λ v. not (member v.id versions)) t.versions;
  dependencies = select (λ d. not (member d.package_version_id versions)) t.dependencies;
  jobs = select (λ j. not (member j.id jobs)) t.jobs;
  artifacts = select (λ a. not (member a.job_id jobs)) t.artifacts;
}

delete_no_jobs : (t : Tables) → delete_jobs [] (delete_artifacts [] t) ≡ t
unfolding delete_jobs delete_artifacts
delete_no_jobs t = λ i. record t {
  jobs = select-all (λ j. not (member j.id [])) t.jobs (λ j. refl) i;
  artifacts = select-all (λ a. not (member a.job_id [])) t.artifacts (λ a. refl) i;
}

delete_no_versions : (t : Tables) → delete_versions [] (delete_dependencies [] t) ≡ t
unfolding delete_versions delete_dependencies
delete_no_versions t = λ i. record t {
  versions = select-all (λ v. not (member v.id [])) t.versions (λ v. refl) i;
  dependencies =
      select-all (λ d. not (member d.package_version_id [])) t.dependencies (λ d. refl) i;
}

delete_all :
    (id : ℕ) (vs js : List ℕ) (t u : Tables)
    → delete_package id
        (delete_versions vs (delete_dependencies vs (delete_jobs js (delete_artifacts js t))))
      ≡ ok u
    → u ≡ without_package id vs js t
unfolding delete_package delete_versions delete_dependencies delete_jobs delete_artifacts
delete_all id vs js t u h = ground arith

module _ (env : Env) (base : Tables) where
  abbrev pub Kept : Session → Type 0
  Kept = Untouched env base

  pub at_working : (s : Session) → s.committed ≡ base → Within env base s.working s
  at_working s c = record { untouched = c; now_at = refl }

  delete_job_rows_lem :
      (ids : List ℕ) (s : Session)
      → Within env base base s
      → Ensures
          (delete_job_rows env ids)
          s
          (λ _. Within env base (delete_jobs ids (delete_artifacts ids base)))
          Kept
  unfolding delete_job_rows
  delete_job_rows_lem [] s w =
      Ensures-pure tt s
        (record { untouched = w.untouched; now_at = w.now_at ∙ sym (delete_no_jobs base) })
  delete_job_rows_lem (i ∷ ids) s w =
      Ensures-bind _ _ s _ _ (Ensures-execute env base s w _) λ _ s₁ (e, c).
        Ensures-weaken _ s₁ _ _ (Ensures-execute env base s₁ (at_working s₁ c) _) λ _ s₂ (e₂, c₂).
          record {
            untouched = c₂;
            now_at = sym (ok_injective e₂) ∙ ap (delete_jobs (i ∷ ids)) (sym (ok_injective e));
          }

  delete_version_rows_lem :
      (ids : List ℕ) (t : Tables) (s : Session)
      → Within env base t s
      → Ensures
          (delete_version_rows env ids)
          s
          (λ _. Within env base (delete_versions ids (delete_dependencies ids t)))
          Kept
  unfolding delete_version_rows
  delete_version_rows_lem [] t s w =
      Ensures-pure tt s
        (record { untouched = w.untouched; now_at = w.now_at ∙ sym (delete_no_versions t) })
  delete_version_rows_lem (i ∷ ids) t s w =
      Ensures-bind _ _ s _ _ (Ensures-execute env base s w _) λ _ s₁ (e, c).
        Ensures-weaken _ s₁ _ _ (Ensures-execute env base s₁ (at_working s₁ c) _) λ _ s₂ (e₂, c₂).
          record {
            untouched = c₂;
            now_at = sym (ok_injective e₂) ∙ ap (delete_versions (i ∷ ids)) (sym (ok_injective e));
          }

  pub delete_rows_lem :
      (id : ℕ) (vs js : List ℕ) (s : Session)
      → Within env base base s
      → Ensures
          (delete_rows env id vs js)
          s
          (λ _ t. t.committed ≡ without_package id vs js base)
          Kept
  unfolding delete_rows
  delete_rows_lem id vs js s w = Ensures-bind _ _ s _ _ (delete_job_rows_lem js s w) λ _ s₁ w₁.
      Ensures-bind _ _ s₁ _ _ (delete_version_rows_lem vs _ s₁ w₁) λ _ s₂ w₂.
        Ensures-bind _ _ s₂ _ _ (Ensures-execute env base s₂ w₂ _) λ _ s₃ (e₃, c₃).
          Ensures-weaken _ s₃ _ _ (Ensures-commit env base s₃ (at_working s₃ c₃))
            λ _ s₄ done. done ∙ delete_all id vs js base s₃.working e₃

  -- What runs outside the transaction leaves the tables as they are, at `t` say.
  module _ (t : Tables) where
    abbrev pub At : Session → Type 0
    At s = s.committed ≡ t

    pub perform_lem : (e : Effect) (s : Session) → At s → Ensures (perform env e) s (λ _. At) Kept
    perform_lem e s h = Ensures-weaken _ s _ _ (Ensures-perform env base e s) λ _ u k. k ∙ h

    each_remove_lem :
        (names : List Text) (s : Session) → At s → Ensures (each_remove env names) s (λ _. At) Kept
    unfolding each_remove
    each_remove_lem [] s h = Ensures-pure tt s h
    each_remove_lem (n ∷ ns) s h =
        Ensures-bind _ _ s _ _ (perform_lem _ s h) λ _ s₁ h₁. each_remove_lem ns s₁ h₁

    unless_done_lem :
        (names : List Text) (done : Bool) (s : Session)
        → At s
        → Ensures (unless_done env names done) s (λ _. At) Kept
    unfolding unless_done
    unless_done_lem names true s h = Ensures-pure tt s h
    unless_done_lem names false s h = each_remove_lem names s h

    unless_absent_lem :
        (names : List Text) (gone : Bool) (s : Session)
        → At s
        → Ensures (unless_absent env names gone) s (λ _. At) Kept
    unfolding unless_absent
    unless_absent_lem names true s h = Ensures-pure tt s h
    unless_absent_lem names false s h =
        Ensures-bind _ _ s _ _ (perform_lem _ s h) λ done s₁ h₁. unless_done_lem names done s₁ h₁

    pub remove_from_repository_lem :
        (names : List Text) (s : Session)
        → At s
        → Ensures (remove_from_repository env names) s (λ _. At) Kept
    unfolding remove_from_repository
    remove_from_repository_lem [] s h = Ensures-pure tt s h
    remove_from_repository_lem (n ∷ ns) s h =
        Ensures-bind _ _ s _ _
          (Ensures-weaken _ s _ (λ _. At) (Ensures-is_absent env base s) λ _ u k. k ∙ h)
          λ gone s₁ h₁. unless_absent_lem (n ∷ ns) gone s₁ h₁

    pub remove_files_lem :
        (names : List Text) (s : Session) → At s → Ensures (remove_files env names) s (λ _. At) Kept
    unfolding remove_files
    remove_files_lem [] s h = Ensures-pure tt s h
    remove_files_lem (n ∷ ns) s h = Ensures-bind _ _ s _ _ (perform_lem _ s h) λ _ s₁ h₁.
        Ensures-bind _ _ s₁ _ _ (perform_lem _ s₁ h₁) λ _ s₂ h₂. remove_files_lem ns s₂ h₂

    pub remove_job_files_lem :
        (js : List Job) (s : Session) → At s → Ensures (remove_job_files env js) s (λ _. At) Kept
    unfolding remove_job_files
    remove_job_files_lem [] s h = Ensures-pure tt s h
    remove_job_files_lem (j ∷ js) s h = Ensures-bind _ _ s _ _ (perform_lem _ s h) λ _ s₁ h₁.
        Ensures-bind _ _ s₁ _ _ (perform_lem _ s₁ h₁) λ _ s₂ h₂. remove_job_files_lem js s₂ h₂
