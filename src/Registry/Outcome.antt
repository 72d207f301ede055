-- ===== src/Registry/Outcome.antt =====
-- CreatePackage of internal/db.go: what it leaves in the tables, as a whole.
use aurforge.Common.{ℕ, ◌≡◌, refl, sym, subst, Memᴰ, Text}
use aurforge.Store.{Tables, PackageVersion, ManagedPackage, Instant}
use aurforge.Session.{Result, ok, Env, Session, query, attempt}
use aurforge.Session.Ensures.{
  Ensures, Ensures-bind, Ensures-pure, Within, Ensures-begin, Ensures-commit, Ensures-or_rollback,
  Ensures-attempt-query,
}
use aurforge.Package.{PackageInfo}
use aurforge.Registry.{
  has_name, has_revision, find_package, find_version, save_and_commit, register_revision,
  register_found, register, create_package,
}
use aurforge.Registry.Steps.{SameQueue, Kept, save_package_lem}
use aurforge.Registry.Registered.{
  Imported, IsManaged, Registered, found_row, has_name-eq, has_revision-eq, save_version_lem,
}

module _ (env : Env) (pkg : PackageInfo) (revision digest : Text) (eligible_at : Instant)
    (base : Tables) where
  abbrev Goal : ℕ → Session → Type 0
  Goal = Imported pkg revision digest eligible_at base

  save_and_commit_lem :
      (managed : ManagedPackage) (known : Result PackageVersion) (s : Session)
      → s.committed ≡ base
      → SameQueue base s.working
      → IsManaged pkg managed.id s.working
      → ((v : PackageVersion)
          → known ≡ ok v
          → Memᴰ v base.versions × (v.package_id ≡ managed.id) × (v.revision ≡ revision))
      → Ensures
          (save_and_commit env pkg revision digest eligible_at managed known)
          s
          Goal
          (Kept env base)
  unfolding save_and_commit
  save_and_commit_lem managed known s c q m h =
      Ensures-bind _ _ s _ Goal
        (save_version_lem env base pkg revision digest eligible_at managed.id known s c q m h)
        λ version s₁ (c₁, m₁, r₁).
          Ensures-bind _ _ s₁ _ Goal
            (Ensures-commit env base {current = s₁.working} s₁
              (record { untouched = c₁; now_at = refl }))
            λ _ s₂ done. Ensures-pure version.id s₂ (
              managed.id,
              subst (IsManaged pkg managed.id) (sym done) m₁,
              subst (λ t. Registered base pkg revision digest eligible_at managed.id t version.id)
                  (sym done) r₁,
            )

  register_revision_lem :
      (managed : ManagedPackage) (s : Session)
      → s.committed ≡ base
      → SameQueue base s.working
      → IsManaged pkg managed.id s.working
      → Ensures
          (register_revision env pkg revision digest eligible_at managed)
          s
          Goal
          (Kept env base)
  unfolding register_revision find_version
  register_revision_lem managed s c q m =
      Ensures-bind (attempt (query env (find_version managed.id revision)))
        (save_and_commit env pkg revision digest eligible_at managed) s _ Goal
        (Ensures-attempt-query env base {current = s.working} s
          (record { untouched = c; now_at = refl }) (find_version managed.id revision))
        λ known s₁ (k, w₁).
          save_and_commit_lem managed known s₁ w₁.untouched
            (subst (SameQueue base) (sym w₁.now_at) q)
            (subst (IsManaged pkg managed.id) (sym w₁.now_at) m)
            (λ v e.
              let (n, t) =
                found_row (has_revision managed.id revision) s.working.versions known k v e in
              let (p, r) = has_revision-eq managed.id revision v t in
              (subst (Memᴰ v) q.versions n, p, r))

  register_lem :
      (path : Text) (s : Session)
      → Within env base base s
      → Ensures (register env pkg path revision digest eligible_at) s Goal (Kept env base)
  unfolding register register_found find_package
  register_lem path s w =
      Ensures-bind (attempt (query env (find_package pkg.name)))
        (register_found env pkg path revision digest eligible_at) s _ Goal
        (Ensures-attempt-query env base s w (find_package pkg.name))
        λ found s₁ (f, w₁).
          Ensures-bind _ _ s₁ _ Goal
            (save_package_lem env base pkg path found s₁ w₁ (λ m e.
              let (n, t) = found_row (has_name pkg.name) base.packages found f m e in
              (n, has_name-eq pkg.name m t)))
            λ managed s₂ (c₂, q₂, m₂, n₂).
              register_revision_lem managed s₂ c₂ q₂
                (record { row = managed; in_table = m₂; named = n₂; row_id = refl })

-- A call of CreatePackage that returns an id has left the package in the table of packages, and
-- either its revision was known or it is new and queued; a call that fails has changed nothing.
pub create_package-Registered :
    (env : Env) (pkg : PackageInfo) (path revision digest : Text) (eligible_at : Instant)
    (s : Session)
    → Ensures
        (create_package env pkg path revision digest eligible_at)
        s
        (Imported pkg revision digest eligible_at s.committed)
        (λ t. t.committed ≡ s.committed)
unfolding create_package
create_package-Registered env pkg path revision digest eligible_at s =
    let base = s.committed in
    Ensures-bind _ _ s _ (Imported pkg revision digest eligible_at base)
      (Ensures-begin env base s refl)
      λ _ s₁ (w₁, _).
        Ensures-or_rollback env base _ s₁
          (register_lem env pkg revision digest eligible_at base path s₁ w₁)
