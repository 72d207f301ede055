-- ===== src/Remove/Outcome.antt =====
-- RemovePackage of internal/remove.go: what it leaves in the tables, as a whole.
use aurforge.Common.{
  ℕ, ◌≡◌, refl, sym, ap, subst, ◌∙◌, Option, none, some, List, [], ◌∷◌, true, false, Memᴰ, inl, inr,
  Bool-cases, if◌then◌else◌, select, select-All, mem-select, All, All-mem, Text,
}
use aurforge.Store.{Tables, Job, PackageVersion, ManagedPackage, is_running, source_kind_text}
use aurforge.Session.{not_found, Result, ok, err, Env, Session, remove_sources}
use aurforge.Session.Ensures.{
  Ensures, ok_injective, Ensures-bind, Ensures-weaken, Ensures-pure, Ensures-raise, Ensures-begin,
  Ensures-or_rollback, Ensures-client_query,
}
use aurforge.Registry.{find_package, has_name, only_row}
use aurforge.Registry.Registered.{only_row-mem, has_name-eq}
use aurforge.Remove.{
  Removal, member, version_ids, job_ids, first_running, repo_names, filenames, removal,
  own_versions, jobs_of, unmanaged, query_jobs, query_artifacts, remove_checked,
  remove_unless_running, remove_package,
}
use aurforge.Remove.Steps.{
  without_package, Kept, At, delete_rows_lem, remove_from_repository_lem, remove_files_lem,
  remove_job_files_lem, perform_lem,
}

-- The package of that name is gone, with its versions, their dependencies and jobs and the
-- artifacts of those; none of the jobs was running. Nothing else has changed.
pub record IsRemoved (base after : Tables) (name : Text) : Type 0 where
  pub row : ManagedPackage
  pub was_managed : Memᴰ row base.packages
  pub named : row.name ≡ name
  pub was_idle :
      All (λ j. is_running j.status ≡ false) (jobs_of (version_ids (own_versions row.id base)) base)
  pub left :
      after
      ≡ without_package row.id
          (version_ids (own_versions row.id base))
          (job_ids (jobs_of (version_ids (own_versions row.id base)) base))
          base

first_running-none :
    (js : List Job) → first_running js ≡ none → All (λ j. is_running j.status ≡ false) js
first_running-none [] h = tt
first_running-none (j ∷ js) h = elim (Bool-cases (is_running j.status)) [
  | inl e ↦ cc e
  | inr e ↦
      (e, first_running-none js (ap (λ b. if b then some j else first_running js) (sym e) ∙ h))
]

jobs_of-nil : (t : Tables) → jobs_of [] t ≡ []
unfolding jobs_of
jobs_of-nil t = none_of t.jobs
  where
    none_of : (js : List Job) → select (λ j. member j.package_version_id []) js ≡ []
    none_of [] = refl
    none_of (j ∷ js) = none_of js

find_package-row :
    (name : Text) (t : Tables) (p : ManagedPackage)
    → unmanaged name (find_package name t) ≡ ok p
    → Memᴰ p t.packages × (p.name ≡ name)
unfolding unmanaged find_package
find_package-row name t p h = found (only_row (select (has_name name) t.packages)) h refl
  where
    found :
        (r : Result ManagedPackage)
        → unmanaged name r ≡ ok p
        → r ≡ only_row (select (has_name name) t.packages)
        → Memᴰ p t.packages × (p.name ≡ name)
    found (err not_found) h e = cc
    found (err _) h e = cc
    found (ok q) h e =
        let m = only_row-mem (select (has_name name) t.packages) (sym e ∙ h) in
        (
          mem-select (has_name name) t.packages m,
          has_name-eq name p (
              All-mem (λ x. has_name name x ≡ true) (select (has_name name) t.packages)
                (select-All (has_name name) t.packages) m),
        )

module _ (env : Env) (base : Tables) where
  query_jobs_lem :
      (ids : List ℕ) (s : Session)
      → At env base base s
      → Ensures
          (query_jobs env ids)
          s
          (λ js t. (js ≡ jobs_of ids base) × At env base base t)
          (Kept env base)
  unfolding query_jobs
  query_jobs_lem [] s h = Ensures-pure [] s (sym (jobs_of-nil base), h)
  query_jobs_lem (i ∷ ids) s h =
      Ensures-weaken _ s _ _ (Ensures-client_query env base s h _)
        λ js t (e, c). (sym (ok_injective e), c)

  query_artifacts_lem :
      (ids : List ℕ) (s : Session)
      → At env base base s
      → Ensures (query_artifacts env ids) s (λ _. At env base base) (Kept env base)
  unfolding query_artifacts
  query_artifacts_lem [] s h = Ensures-pure [] s h
  query_artifacts_lem (i ∷ ids) s h =
      Ensures-weaken _ s _ _ (Ensures-client_query env base s h _) λ js t (e, c). c

module _ (env : Env) (base : Tables) (name : Text) where
  abbrev Goal : Removal → Session → Type 0
  Goal _ s = IsRemoved base s.committed name

  remove_checked_lem :
      (pkg : ManagedPackage) (versions : List PackageVersion) (jobs : List Job) (s : Session)
      → At env base base s
      → Ensures
          (remove_checked env pkg versions jobs)
          s
          (λ _ t. t.committed ≡ without_package pkg.id (version_ids versions) (job_ids jobs) base)
          (Kept env base)
  unfolding remove_checked
  remove_checked_lem pkg versions jobs s h =
      let after = without_package pkg.id (version_ids versions) (job_ids jobs) base in
      Ensures-bind _ _ s _ _ (query_artifacts_lem env base (job_ids jobs) s h) λ artifacts s₁ h₁.
        Ensures-bind _ _ s₁ _ _
          (remove_from_repository_lem env base base (repo_names pkg versions (filenames artifacts))
            s₁ h₁)
          λ _ s₂ h₂.
            Ensures-bind _ _ s₂ _ _ (remove_files_lem env base base (filenames artifacts) s₂ h₂)
              λ _ s₃ h₃. Ensures-bind _ _ s₃ _ _ (Ensures-begin env base s₃ h₃) λ _ s₄ (w₄, _).
                Ensures-bind _ _ s₄ _ _
                  (Ensures-or_rollback env base _ s₄
                    (delete_rows_lem env base pkg.id (version_ids versions) (job_ids jobs) s₄ w₄))
                  λ _ s₅ h₅.
                    Ensures-bind _ _ s₅ _ _ (remove_job_files_lem env base after jobs s₅ h₅)
                      λ _ s₆ h₆.
                        Ensures-bind _ _ s₆ _ _
                          (perform_lem env base after
                            (remove_sources (source_kind_text pkg.source_kind) pkg.name) s₆ h₆)
                          λ _ s₇ h₇. Ensures-pure (removal pkg versions artifacts) s₇ h₇

  remove_unless_running_lem :
      (pkg : ManagedPackage)
      → Memᴰ pkg base.packages
      → pkg.name ≡ name
      → (versions : List PackageVersion) → versions ≡ own_versions pkg.id base
      → (jobs : List Job) → jobs ≡ jobs_of (version_ids versions) base
      → (o : Option Job) → o ≡ first_running jobs
      → (s : Session) → At env base base s
      → Ensures (remove_unless_running env name pkg versions jobs o) s Goal (Kept env base)
  unfolding remove_unless_running
  remove_unless_running_lem pkg m n versions ev jobs ej (some j) eo s h = Ensures-raise _ s h
  remove_unless_running_lem pkg m n versions ev jobs ej none eo s h =
      let own = ap (λ vs. jobs_of (version_ids vs) base) ev in
      Ensures-weaken _ s _ Goal (remove_checked_lem pkg versions jobs s h) λ r t e. record {
        row = pkg;
        was_managed = m;
        named = n;
        was_idle =
            subst (All (λ j. is_running j.status ≡ false)) (ej ∙ own)
              (first_running-none jobs (sym eo));
        left =
            e
            ∙ ap (λ vs. without_package pkg.id (version_ids vs) (job_ids jobs) base) ev
            ∙ ap
                (λ js.
                  without_package pkg.id (version_ids (own_versions pkg.id base)) (job_ids js) base)
                (ej ∙ own);
      }

-- A removal that returns has removed a package of that name, none of whose builds was running,
-- with all that hangs on it and nothing else; one that fails has left every table as it was.
pub remove_package-IsRemoved :
    (env : Env) (name : Text) (s : Session)
    → Ensures
        (remove_package env name)
        s
        (λ _ t. IsRemoved s.committed t.committed name)
        (λ t. t.committed ≡ s.committed)
unfolding remove_package
remove_package-IsRemoved env name s =
    let base = s.committed in
    let Goal = λ (_ : Removal) (t : Session). IsRemoved base t.committed name in
    Ensures-bind _ _ s _ Goal
      (Ensures-client_query env base s refl (λ t. unmanaged name (find_package name t)))
      λ pkg s₁ (p, h₁).
        Ensures-bind _ _ s₁ _ Goal
          (Ensures-client_query env base s₁ h₁ (λ t. ok (own_versions pkg.id t)))
          λ versions s₂ (v, h₂).
            Ensures-bind _ _ s₂ _ Goal (query_jobs_lem env base (version_ids versions) s₂ h₂)
              λ jobs s₃ (j, h₃).
                let (m, n) = find_package-row name base pkg p in
                remove_unless_running_lem env base name pkg m n versions (sym (ok_injective v)) jobs
                  j (first_running jobs) refl s₃ h₃
