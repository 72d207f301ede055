-- ===== src/Listing/Lines.antt =====
-- ListPackages of internal/db.go: what its lines say.
use aurforge.Common.{
  ℕ, Text, codes, Bool, List, [], ◌∷◌, map, Option, none, some, ◌≡◌, ◌⊎◌, inl, inr, refl, sym, ◌∙◌,
  ap, arith, subst, Bool-cases,
}
use aurforge.Store.{Tables, ManagedPackage, PackageVersion, Job, status_text}
use aurforge.Session.{driver, Result, ok, err, Env, Session, attempt, client_query}
use aurforge.Session.Ensures.{
  ok_injective, Ensures, Ensures-bind, Ensures-pure, Ensures-raise, Ensures-client_query,
  Ensures-weaken,
}
use aurforge.Queue.{first_row}
use aurforge.Listing.{
  by_name, last_seen, last_job, line_of, job_line, version_line, package_lines, list_packages,
}

-- The status of a package: that of the last job of its last version, or `new` where one is missing.
abbrev pub status_of_job : Option Job → Text
status_of_job none = codes "new"
status_of_job (some job) = status_text job.status

abbrev pub status_of_version : Tables → Option PackageVersion → Text
status_of_version t none = codes "new"
status_of_version t (some v) = status_of_job (last_job v.id t)

abbrev pub package_line : Tables → ManagedPackage → Text
package_line t pkg = line_of pkg (status_of_version t (last_seen pkg.id t))

module _ (env : Env) (base : Tables) where
  abbrev Same : Session → Type 0
  Same t = t.committed ≡ base

  abbrev Says : ManagedPackage → Text → Text → Session → Type 0
  Says pkg status line t = (line ≡ line_of pkg status) × Same t

  -- A query for the first row, whose error the code looks at.
  looked_up :
      {A : Type 0} (q : Tables → Option A) (s : Session)
      → Same s
      → Ensures
          (attempt (client_query env (λ t. first_row (q t))))
          s
          (λ r t. ((r ≡ first_row (q base)) ⊎ ((n : ℕ) × (r ≡ err (driver n)))) × Same t)
          Same
  unfolding client_query
  looked_up q s h = record {
    success = λ a e. elim (Bool-cases (env.fails s.calls)) [
      | inl y ↦ (inr (s.calls, ground arith), ground arith)
      | inr n ↦ (inl (ground arith), ground arith)
    ];
    failure = λ e q'. cc;
  }

  job_line_lem :
      (pkg : ManagedPackage) (r : Result Job) (found : Option Job) (s : Session)
      → Same s
      → (r ≡ first_row found) ⊎ ((n : ℕ) × (r ≡ err (driver n)))
      → Ensures (job_line env pkg r) s (Says pkg (status_of_job found)) Same
  unfolding job_line
  job_line_lem pkg r found s h (inl e) =
      subst (λ x. Ensures (job_line env pkg x) s (Says pkg (status_of_job found)) Same) (sym e)
        (at found)
    where
      at :
          (found : Option Job)
          → Ensures (job_line env pkg (first_row found)) s (Says pkg (status_of_job found)) Same
      at none = Ensures-pure _ s (refl, h)
      at (some job) = Ensures-pure _ s (refl, h)
  job_line_lem pkg r found s h (inr (n, e)) =
      subst (λ x. Ensures (job_line env pkg x) s (Says pkg (status_of_job found)) Same) (sym e)
        (Ensures-raise (driver n) s h)

  version_line_lem :
      (pkg : ManagedPackage) (r : Result PackageVersion) (found : Option PackageVersion)
      (s : Session)
      → Same s
      → (r ≡ first_row found) ⊎ ((n : ℕ) × (r ≡ err (driver n)))
      → Ensures (version_line env pkg r) s (Says pkg (status_of_version base found)) Same
  unfolding version_line
  version_line_lem pkg r found s h (inl e) =
      subst (λ x. Ensures (version_line env pkg x) s (Says pkg (status_of_version base found)) Same)
        (sym e) (at found)
    where
      at :
          (found : Option PackageVersion)
          → Ensures
              (version_line env pkg (first_row found))
              s
              (Says pkg (status_of_version base found))
              Same
      at none = Ensures-pure _ s (refl, h)
      at (some v) =
          Ensures-bind (attempt (client_query env (λ t. first_row (last_job v.id t))))
            (job_line env pkg) s _ _ (looked_up (last_job v.id) s h)
            λ job s₁ (o, h₁). job_line_lem pkg job (last_job v.id base) s₁ h₁ o
  version_line_lem pkg r found s h (inr (n, e)) =
      subst (λ x. Ensures (version_line env pkg x) s (Says pkg (status_of_version base found)) Same)
        (sym e) (Ensures-raise (driver n) s h)

  package_lines_lem :
      (pkgs : List ManagedPackage) (s : Session)
      → Same s
      → Ensures
          (package_lines env pkgs)
          s
          (λ lines t. (lines ≡ map (package_line base) pkgs) × Same t)
          Same
  unfolding package_lines
  package_lines_lem [] s h = Ensures-pure [] s (refl, h)
  package_lines_lem (pkg ∷ pkgs) s h =
      let Goal = λ (lines : List Text) (t : Session).
        (lines ≡ map (package_line base) (pkg ∷ pkgs)) × Same t in
      Ensures-bind (attempt (client_query env (λ t. first_row (last_seen pkg.id t)))) _ s _ Goal
        (looked_up (last_seen pkg.id) s h)
        λ latest s₁ (o, h₁).
          Ensures-bind (version_line env pkg latest) _ s₁ _ Goal
            (version_line_lem pkg latest (last_seen pkg.id base) s₁ h₁ o)
            λ line s₂ (l, h₂).
              Ensures-bind (package_lines env pkgs) _ s₂ _ Goal (package_lines_lem pkgs s₂ h₂)
                λ lines s₃ (ls, h₃). Ensures-pure (line ∷ lines) s₃ (cc (l, ls), h₃)

-- The lines are those of the packages in the order of their names, each with the status of the
-- last job of the version last seen, or `new` where one is missing; no table changes.
pub list_packages-map :
    (env : Env) (before : Text → Text → Bool) (s : Session)
    → Ensures
        (list_packages env before)
        s
        (λ lines t.
          (lines ≡ map (package_line s.committed) (by_name before s.committed.packages))
          × (t.committed ≡ s.committed))
        (λ t. t.committed ≡ s.committed)
unfolding list_packages
list_packages-map env before s =
    let base = s.committed in
    Ensures-bind _ _ s _ _
      (Ensures-client_query env base s refl (λ t. ok (by_name before t.packages)))
      λ pkgs s₁ (p, h₁).
        Ensures-weaken _ s₁ _ _ (package_lines_lem env base pkgs s₁ h₁)
          λ lines t (l, h). (l ∙ ap (map (package_line base)) (sym (ok_injective p)), h)
