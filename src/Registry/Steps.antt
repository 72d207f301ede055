-- ===== src/Registry/Steps.antt =====
-- CreatePackage of internal/db.go: what each of its parts does inside the transaction.
use aurforge.Common.{
  ℕ, mem-snoc, mem-update, update-none, ◌≡◌, refl, sym, ap, subst, ◌∙◌, List, [], ◌∷◌, ◌++◌, arith,
  false, ◌==◌, ==_iff, Memᴰ, update, select, Text,
}
use aurforge.Store.{
  Tables, Job, PackageVersion, ManagedPackage, Dependency, Instant, source_kind_of,
}
use aurforge.Session.{not_found, Result, ok, err, Env, Session, now}
use aurforge.Session.Ensures.{
  Ensures, ok_injective, Ensures-bind, Ensures-weaken, Ensures-pure, Ensures-raise, Untouched,
  Within, Ensures-now, Ensures-execute, Ensures-insert, Ensures-query,
}
use aurforge.Package.{PackageInfo, Requirement}
use aurforge.Queue.{mark_superseded}
use aurforge.Registry.{
  insert_package, insert_dependency, update_package, new_package, renew_package, validated,
  is_other_version, is_waiting_for, version_ids, skip_waiting, save_package, save_dependencies,
  skip_versions, skip_pending_jobs_for_package,
}

-- Two states of the tables that differ in the packages at most.
pub record SameQueue (t u : Tables) : Type 0 where
  pub versions : u.versions ≡ t.versions
  pub jobs : u.jobs ≡ t.jobs
  pub dependencies : u.dependencies ≡ t.dependencies
  pub artifacts : u.artifacts ≡ t.artifacts

pub insert_package-SameQueue :
    (p m : ManagedPackage) (t u : Tables)
    → insert_package p t ≡ ok (m, u)
    → SameQueue t u × (m ≡ p) × (u.packages ≡ t.packages ++ p ∷ [])
unfolding insert_package
insert_package-SameQueue p m t u h = ground arith

pub update_package-SameQueue :
    (id : ℕ) (f : ManagedPackage → ManagedPackage) (t u : Tables)
    → update_package id f t ≡ ok u
    → SameQueue t u × (u.packages ≡ update (λ p. p.id == id) f t.packages)
unfolding update_package
update_package-SameQueue id f t u h = ground arith

module _ (env : Env) (base : Tables) where
  abbrev pub Kept : Session → Type 0
  Kept = Untouched env base

  pub Ensures-lift :
      {A : Type 0} (r : Result A) (s : Session) {current : Tables}
      → Within env base current s
      → Ensures (λ s. (r, s)) s (λ a t. (r ≡ ok a) × Within env base current t) Kept
  Ensures-lift (ok a) s w = Ensures-pure a s (refl, w)
  Ensures-lift (err e) s w = Ensures-raise e s w.untouched

  -- Inside the transaction, with the package saved, and tables that differ from those at the
  -- start in the packages at most.
  abbrev pub Saved : PackageInfo → ManagedPackage → Session → Type 0
  Saved pkg m s =
      (s.committed ≡ base)
      × SameQueue base s.working
      × Memᴰ m s.working.packages
      × (m.name ≡ pkg.name)

  pub save_package_lem :
      (pkg : PackageInfo) (path : Text) (r : Result ManagedPackage) (s : Session)
      → Within env base base s
      → ((m : ManagedPackage) → r ≡ ok m → Memᴰ m base.packages × (m.name ≡ pkg.name))
      → Ensures (save_package env pkg path r) s (Saved pkg) Kept
  unfolding save_package
  save_package_lem pkg path (err not_found) s w h =
      Ensures-bind (now env) _ s _ (Saved pkg) (Ensures-now env base s w) λ created s₁ (_, w₁).
        Ensures-bind (now env) _ s₁ _ (Saved pkg) (Ensures-now env base s₁ w₁) λ updated s₂ (_, w₂).
          Ensures-bind _ _ s₂ _ (Saved pkg)
            (Ensures-lift (validated (source_kind_of pkg.source_kind)) s₂ w₂)
            λ kind s₃ (_, w₃).
              Ensures-weaken _ s₃ _ (Saved pkg) (Ensures-insert env base s₃ w₃ _ _ _) λ m t (e, c).
                let p = new_package pkg kind path created updated s₃.identities.next_package in
                let (q, same, ps) = insert_package-SameQueue p m base t.working e in
                (
                  c,
                  q,
                  rw (same, ps) (mem-snoc p base.packages),
                  ap (λ (x : ManagedPackage). x.name) same,
                )
  save_package_lem pkg path (err e) s w h = Ensures-raise e s w.untouched
  save_package_lem pkg path (ok managed) s w h =
      Ensures-bind (now env) _ s _ (Saved pkg) (Ensures-now env base s w) λ updated s₁ (_, w₁).
        Ensures-bind _ _ s₁ _ (Saved pkg)
          (Ensures-lift (validated (source_kind_of pkg.source_kind)) s₁ w₁)
          λ kind s₂ (_, w₂).
            Ensures-bind _ _ s₂ _ (Saved pkg) (Ensures-execute env base s₂ w₂ _) λ _ s₃ (e, c).
              let f = renew_package pkg kind path updated in
              let (q, ps) = update_package-SameQueue managed.id f base s₃.working e in
              Ensures-pure (f managed) s₃ (
                c,
                q,
                rw ps (
                    mem-update (λ (p : ManagedPackage). p.id == managed.id) f base.packages
                      ((==_iff managed.id managed.id).1 refl) (h managed refl).0),
                (h managed refl).1,
              )

  -- The working tables differ from `t` in the dependencies at most.
  pub record OnlyDependencies (t : Tables) (s : Session) : Type 0 where
    pub untouched : s.committed ≡ base
    pub packages : s.working.packages ≡ t.packages
    pub versions : s.working.versions ≡ t.versions
    pub jobs : s.working.jobs ≡ t.jobs
    pub artifacts : s.working.artifacts ≡ t.artifacts

  insert_dependency-OnlyDependencies :
      (d : Dependency) (t u : Tables) (s : Session)
      → OnlyDependencies t s
      → insert_dependency d s.working ≡ ok (tt, u)
      → (v : Session) → v.committed ≡ base
      → v.working ≡ u
      → OnlyDependencies t v
  unfolding insert_dependency
  insert_dependency-OnlyDependencies d t u s w e v c q = ground arith

  pub save_dependencies_lem :
      (id : ℕ) (deps : List Requirement) (t : Tables) (s : Session)
      → OnlyDependencies t s
      → Ensures (save_dependencies env id deps) s (λ _. OnlyDependencies t) Kept
  unfolding save_dependencies
  save_dependencies_lem id [] t s w = Ensures-pure tt s w
  save_dependencies_lem id (dep ∷ deps) t s w =
      Ensures-bind _ _ s _ (λ _. OnlyDependencies t)
        (Ensures-insert env base {current = s.working} s
          (record { untouched = w.untouched; now_at = refl }) _ _ _)
        λ _ s₁ (e, c).
          save_dependencies_lem id deps t s₁
            (insert_dependency-OnlyDependencies _ t s₁.working s w e s₁ c refl)

  -- The jobs of the other versions of the package that waited are skipped, and no others.
  abbrev pub Skipped : ℕ → ℕ → Tables → Session → Type 0
  Skipped package_id keep t s =
      (s.committed ≡ base)
      × (s.working.packages ≡ t.packages)
      × (s.working.versions ≡ t.versions)
      × (s.working.artifacts ≡ t.artifacts)
      × (time : Instant) × (s.working.jobs
          ≡ update
              (is_waiting_for (version_ids (select (is_other_version package_id keep) t.versions)))
              (mark_superseded time) t.jobs)

  is_waiting_for-nil : (j : Job) → is_waiting_for [] j ≡ false
  unfolding is_waiting_for
  is_waiting_for-nil j = ground arith

  skip_versions_lem :
      (vs : List PackageVersion) (t : Tables) (s : Session)
      → OnlyDependencies t s
      → Ensures
          (skip_versions env vs)
          s
          (λ _ u.
            (u.committed ≡ base)
            × (u.working.packages ≡ t.packages)
            × (u.working.versions ≡ t.versions)
            × (u.working.artifacts ≡ t.artifacts)
            × (time : Instant) × (u.working.jobs
                ≡ update (is_waiting_for (version_ids vs)) (mark_superseded time) t.jobs))
          Kept
  unfolding skip_versions skip_waiting
  skip_versions_lem [] t s w = Ensures-pure tt s (
    w.untouched,
    w.packages,
    w.versions,
    w.artifacts,
    0,
    w.jobs ∙ sym (update-none (is_waiting_for []) (mark_superseded 0) t.jobs is_waiting_for-nil),
  )
  skip_versions_lem (v ∷ vs) t s w =
      Ensures-bind _ _ s _ _
        (Ensures-now env base {current = s.working} s
          (record { untouched = w.untouched; now_at = refl }))
        λ time s₁ (_, w₁). Ensures-weaken _ s₁ _ _ (Ensures-execute env base s₁ w₁ _) λ _ u (e, c).
          let done : u.working ≡ record s.working {
            jobs =
                update (is_waiting_for (version_ids (v ∷ vs))) (mark_superseded time)
                  s.working.jobs;
          } =
            cc in
          rw done (
            c,
            w.packages,
            w.versions,
            w.artifacts,
            time,
            ap (update (is_waiting_for (version_ids (v ∷ vs))) (mark_superseded time)) w.jobs,
          )

  pub skip_pending_jobs_lem :
      (package_id keep : ℕ) (t : Tables) (s : Session)
      → OnlyDependencies t s
      → Ensures
          (skip_pending_jobs_for_package env package_id keep)
          s
          (λ _. Skipped package_id keep t)
          Kept
  unfolding skip_pending_jobs_for_package
  skip_pending_jobs_lem package_id keep t s w =
      Ensures-bind _ _ s _ _
        (Ensures-query env base {current = s.working} s
          (record { untouched = w.untouched; now_at = refl }) _)
        λ vs s₁ (e, w₁).
          let found : select (is_other_version package_id keep) t.versions ≡ vs =
            ap (select (is_other_version package_id keep)) (sym w.versions) ∙ ok_injective e in
          subst (λ l. Ensures (skip_versions env l) s₁ (λ _. Skipped package_id keep t) Kept) found
            (skip_versions_lem (select (is_other_version package_id keep) t.versions) t s₁ (record {
              untouched = w₁.untouched;
              packages = ap (λ (x : Tables). x.packages) w₁.now_at ∙ w.packages;
              versions = ap (λ (x : Tables). x.versions) w₁.now_at ∙ w.versions;
              jobs = ap (λ (x : Tables). x.jobs) w₁.now_at ∙ w.jobs;
              artifacts = ap (λ (x : Tables). x.artifacts) w₁.now_at ∙ w.artifacts;
            }))
