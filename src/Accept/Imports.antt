-- ===== src/Accept/Imports.antt =====
-- AcceptAUR and AcceptLocal of internal/import.go: what an accepted preview leaves in the tables is
-- what CreatePackage leaves.
use aurforge.Common.{ℕ, Text, codes, Bool, true, false, Option, none, some, ◌≡◌, refl, ◌∙◌, subst}
use aurforge.Store.{Tables, Instant}
use aurforge.Session.{
  import_failed, Env, Session, M, ◌>>=◌, now, perform, is_absent, Effect, make_target, copy_source,
  move_source, make_readable,
}
use aurforge.Session.Ensures.{
  Ensures, Ensures-bind, Ensures-pure, Ensures-raise, Ensures-weaken-failure,
}
use aurforge.Package.{PackageInfo}
use aurforge.Queue.{Duration, eligible_at_from_commit}
use aurforge.Registry.{create_package}
use aurforge.Registry.Outcome.{create_package-Registered}
use aurforge.Registry.Registered.{Registered, IsManaged}
use aurforge.Import.{Preview}
use aurforge.Accept.{
  or_fail, move_or_copy, keep_aur_sources, keep_local_sources, commit_time_of, accept_aur,
  accept_local, target_path,
}

module _ (env : Env) (base : Tables) where
  abbrev Same : Session → Type 0
  Same t = t.committed ≡ base

  abbrev Quiet : M (Unit {0}) → Type 0
  Quiet m = (s : Session) → Same s → Ensures m s (λ _. Same) Same

  or_fail-Quiet : (b : Bool) → Quiet (or_fail env b)
  unfolding or_fail
  or_fail-Quiet true s h = Ensures-pure tt s h
  or_fail-Quiet false s h = Ensures-raise import_failed s h

  perform-Same : (x : Effect) (s : Session) → Same s → Ensures (perform env x) s (λ _. Same) Same
  unfolding perform
  perform-Same x s h = record { success = λ a e. h; failure = λ e q. cc }

  -- An operation on files whose error is returned.
  checked-Quiet : (x : Effect) → Quiet (λ s. (perform env x >>= or_fail env) s)
  checked-Quiet x s h =
      Ensures-bind (perform env x) (or_fail env) s _ _ (perform-Same x s h)
        λ b s₁ h₁. or_fail-Quiet b s₁ h₁

  move_or_copy-Quiet : (target : Text) (b : Bool) → Quiet (move_or_copy env target b)
  unfolding move_or_copy
  move_or_copy-Quiet target true s h = Ensures-pure tt s h
  move_or_copy-Quiet target false s h = checked-Quiet (copy_source target) s h

  keep_aur_sources-Quiet :
      (target : Text) (absent : Bool) → Quiet (keep_aur_sources env target absent)
  unfolding keep_aur_sources
  keep_aur_sources-Quiet target false s h = Ensures-pure tt s h
  keep_aur_sources-Quiet target true s h =
      let Goal = λ (_ : Unit {0}) (t : Session). Same t in
      Ensures-bind _ _ s _ Goal (perform-Same (make_target target) s h) λ made s₁ h₁.
        Ensures-bind (or_fail env made) _ s₁ _ Goal (or_fail-Quiet made s₁ h₁) λ _ s₂ h₂.
          Ensures-bind (perform env (move_source target)) _ s₂ _ Goal
            (perform-Same (move_source target) s₂ h₂)
            λ moved s₃ h₃.
              Ensures-bind (move_or_copy env target moved) _ s₃ _ Goal
                (move_or_copy-Quiet target moved s₃ h₃)
                λ _ s₄ h₄. checked-Quiet (make_readable target) s₄ h₄

  keep_local_sources-Quiet :
      (target : Text) (absent : Bool) → Quiet (keep_local_sources env target absent)
  unfolding keep_local_sources
  keep_local_sources-Quiet target false s h = Ensures-pure tt s h
  keep_local_sources-Quiet target true s h =
      let Goal = λ (_ : Unit {0}) (t : Session). Same t in
      Ensures-bind _ _ s _ Goal (perform-Same (make_target target) s h) λ made s₁ h₁.
        Ensures-bind (or_fail env made) _ s₁ _ Goal (or_fail-Quiet made s₁ h₁) λ _ s₂ h₂.
          Ensures-bind _ _ s₂ _ Goal (perform-Same (copy_source target) s₂ h₂) λ copied s₃ h₃.
            Ensures-bind (or_fail env copied) _ s₃ _ Goal (or_fail-Quiet copied s₃ h₃)
              λ _ s₄ h₄. checked-Quiet (make_readable target) s₄ h₄

  commit_time_of_lem :
      (found : Option Instant) (s : Session)
      → Same s
      → Ensures (commit_time_of env found) s (λ time t. (found ≡ some time) × Same t) Same
  unfolding commit_time_of
  commit_time_of_lem none s h = Ensures-raise import_failed s h
  commit_time_of_lem (some time) s h = Ensures-pure time s (refl, h)

  now-Same : (s : Session) → Same s → Ensures (now env) s (λ _. Same) Same
  unfolding now
  now-Same s h = record { success = λ a e. h; failure = λ e q. cc }

  is_absent-Same : (s : Session) → Same s → Ensures (is_absent env) s (λ _. Same) Same
  unfolding is_absent
  is_absent-Same s h = record { success = λ a e. h; failure = λ e q. cc }

-- The import of a revision that returned an id.
pub record Enters (before : Tables) (pkg : PackageInfo) (revision digest : Text)
    (eligible_at : Instant) (id : ℕ) (after : Tables) : Type 0 where
  pub package_id : ℕ
  pub managed : IsManaged pkg package_id after
  pub registered : Registered before pkg revision digest eligible_at package_id after id

-- An import at the tables `base`.
module _ (env : Env) (pkg : PackageInfo) (path revision digest : Text) (eligible_at : Instant)
    (base : Tables) (s : Session) where
  create_package-Enters :
      s.committed ≡ base
      → Ensures
          (create_package env pkg path revision digest eligible_at)
          s
          (λ id t. Enters base pkg revision digest eligible_at id t.committed)
          (λ t. t.committed ≡ base)
  create_package-Enters h =
      Ensures-weaken-failure _ s
        (create_package-Registered env pkg path revision digest eligible_at s)
        (λ id (n, m, r).
          let moved =
            subst
              (λ b.
                Registered b pkg revision digest eligible_at n
                  (create_package env pkg path revision digest eligible_at s).1.committed id)
              h r in
          record { package_id = n; managed = m; registered = moved })
        (λ same. same ∙ h)

-- An AUR revision enters the database eligible from the commit time of the kept directory on.
pub accept_aur-Enters :
    (env : Env) (committed_at : Text → Option Instant) (root : Text) (delay : Duration)
    (preview : Preview) (revision : Text) (base : Tables) (s : Session)
    → s.committed ≡ base
    → Ensures
        (accept_aur env committed_at root delay preview revision)
        s
        (λ id t.
          (commit_time time : Instant) × (committed_at
              (target_path root (codes "aur") preview.info.name revision)
            ≡ some commit_time)
          × Enters base preview.info revision preview.digest
              (eligible_at_from_commit commit_time delay time)
              id
              t.committed)
        (λ t. t.committed ≡ base)
unfolding accept_aur
accept_aur-Enters env committed_at root delay preview revision base s h =
    let target = target_path root (codes "aur") preview.info.name revision in
    let Goal = λ (id : ℕ) (t : Session).
      (commit_time time : Instant) × (committed_at target ≡ some commit_time)
      × Enters base preview.info revision preview.digest
          (eligible_at_from_commit commit_time delay time) id t.committed in
    Ensures-bind _ _ s _ Goal (is_absent-Same env base s h) λ absent s₁ h₁.
      Ensures-bind (keep_aur_sources env target absent) _ s₁ _ Goal
        (keep_aur_sources-Quiet env base target absent s₁ h₁)
        λ _ s₂ h₂.
          Ensures-bind (commit_time_of env (committed_at target)) _ s₂ _ Goal
            (commit_time_of_lem env base (committed_at target) s₂ h₂)
            λ commit_time s₃ (f, h₃).
              Ensures-bind (now env) _ s₃ _ Goal (now-Same env base s₃ h₃) λ time s₄ h₄.
                Ensures-weaken-failure _ s₄
                  (create_package-Enters env preview.info target revision preview.digest
                    (eligible_at_from_commit commit_time delay time) base s₄ h₄)
                  (λ id e. (commit_time, time, f, e)) (λ same. same)

-- A local preview enters the database with its digest as the revision.
pub accept_local-Enters :
    (env : Env) (root : Text) (preview : Preview) (base : Tables) (s : Session)
    → s.committed ≡ base
    → Ensures
        (accept_local env root preview)
        s
        (λ id t.
          (time : Instant) × Enters base preview.info preview.digest preview.digest time id
            t.committed)
        (λ t. t.committed ≡ base)
unfolding accept_local
accept_local-Enters env root preview base s h =
    let target = target_path root (codes "local") preview.info.name preview.digest in
    let Goal = λ (id : ℕ) (t : Session).
      (time : Instant) × Enters base preview.info preview.digest preview.digest time id
        t.committed in
    Ensures-bind _ _ s _ Goal (is_absent-Same env base s h) λ absent s₁ h₁.
      Ensures-bind (keep_local_sources env target absent) _ s₁ _ Goal
        (keep_local_sources-Quiet env base target absent s₁ h₁)
        λ _ s₂ h₂. Ensures-bind (now env) _ s₂ _ Goal (now-Same env base s₂ h₂) λ time s₃ h₃.
          Ensures-weaken-failure _ s₃
            (create_package-Enters env preview.info target preview.digest preview.digest time base
              s₃ h₃)
            (λ id e. (time, e)) (λ same. same)
