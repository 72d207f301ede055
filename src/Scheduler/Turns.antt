-- ===== src/Scheduler/Turns.antt =====
-- refreshAUR, refreshLocal and the loop of RunScheduler of internal/roles.go: whatever fails, the
-- tables change by whole imports only.
use aurforge.Common.{ℕ, zero, suc, Text, ◌≡◌, inl, inr, refl, sym, subst, Memᴰ}
use aurforge.Store.{Tables, aur, local, Instant}
use aurforge.Session.{Result, ok, Env, Session, M, attempt, client_query}
use aurforge.Session.Ensures.{
  Ensures, Ensures-bind, Ensures-pure, Ensures-client_query, Ensures-weaken-failure,
  Ensures-attempt, ok_injective,
}
use aurforge.Config.{Config}
use aurforge.Package.{PackageInfo}
use aurforge.Accept.Chain.{
  Imports, no_import, KeepsHistory, KeepsHistory-refl, KeepsHistory-trans, Imports-KeepsHistory,
}
use aurforge.Scheduler.{
  Surroundings, tracked_packages, is_aur, is_local, refresh_aur_package, refresh_aur,
  refresh_local_package, refresh_local, scheduler_round, run_scheduler,
}
use aurforge.Scheduler.Due.{
  tracked_packages-IsTracked, is_aur-eq, is_local-eq, AurDue, LocalDue, Grown, each_package-Grows,
}
use aurforge.Scheduler.Aur.{refresh_aur_package-Grows}
use aurforge.Scheduler.Local.{refresh_local_package-Grows}

-- The first query of a refresh leaves no import behind.
still-Grown :
    (env : Env) (Due : Tables → PackageInfo → Text → Instant → Type 0) (s : Session) {A : Type 0}
    (q : Tables → Result A)
    → Ensures
        (client_query env q)
        s
        (λ a t. (q s.committed ≡ ok a) × (t.committed ≡ s.committed))
        (λ t. t.committed ≡ s.committed)
    → Ensures
        (client_query env q)
        s
        (λ a t. (q s.committed ≡ ok a) × Grown env s.committed Due t)
        (Grown env s.committed Due)
still-Grown env Due s q h =
    Ensures-weaken-failure _ s h
      (λ a (e, same). (e, subst (Imports Due s.committed) (sym same) no_import))
      (λ same. subst (Imports Due s.committed) (sym same) no_import)

-- `if err := m; err != nil { logger.Error(...) }`
logged :
    (m : M (Unit {0})) (s : Session) {E : Session → Type 0}
    → Ensures m s (λ _. E) E
    → Ensures (attempt m) s (λ _. E) (λ _. ⊥)
logged m s {E} h =
    Ensures-weaken-failure _ s (Ensures-attempt m s {F = λ _. ⊥} h)
      (λ r c. elim c [ inl (a, e, k) ↦ k | inr (x, e, k) ↦ k ]) (λ never. never)

-- A turn of RunScheduler: imports of packages of the AUR, and then of local ones.
pub record IsTurn (cfg : Config) (around : Surroundings) (before after : Tables) : Type 0 where
  pub between : Tables
  pub from_aur : Imports (AurDue cfg around before) before between
  pub from_local : Imports (LocalDue cfg around between) between after

module _ (env : Env) (cfg : Config) (around : Surroundings) where
  refresh_aur-Imports :
      (s : Session)
      → Ensures
          (refresh_aur env cfg around)
          s
          (λ _. Grown env s.committed (AurDue cfg around s.committed))
          (Grown env s.committed (AurDue cfg around s.committed))
  unfolding refresh_aur
  refresh_aur-Imports s =
      let before = s.committed in
      let Due = AurDue cfg around before in
      Ensures-bind _ _ s _ (λ _. Grown env before Due)
        (still-Grown env Due s _
          (Ensures-client_query env before s refl (λ t. ok (tracked_packages is_aur t))))
        λ packages t (e, g).
          each_package-Grows env before Due (refresh_aur_package env cfg around) packages
            (λ p m. refresh_aur_package-Grows env cfg around before p (
              tracked_packages-IsTracked aur is_aur before p is_aur-eq
                (subst (Memᴰ p) (sym (ok_injective e)) m)))
            t g

  refresh_local-Imports :
      (s : Session)
      → Ensures
          (refresh_local env cfg around)
          s
          (λ _. Grown env s.committed (LocalDue cfg around s.committed))
          (Grown env s.committed (LocalDue cfg around s.committed))
  unfolding refresh_local
  refresh_local-Imports s =
      let before = s.committed in
      let Due = LocalDue cfg around before in
      Ensures-bind _ _ s _ (λ _. Grown env before Due)
        (still-Grown env Due s _
          (Ensures-client_query env before s refl (λ t. ok (tracked_packages is_local t))))
        λ packages t (e, g).
          each_package-Grows env before Due (refresh_local_package env cfg around) packages
            (λ p m. refresh_local_package-Grows env cfg around before p (
              tracked_packages-IsTracked local is_local before p is_local-eq
                (subst (Memᴰ p) (sym (ok_injective e)) m)))
            t g

  -- A turn of the scheduler ends without an error of its own, and changes the tables by whole
  -- imports only, first those of tracked packages of the AUR that wait for the delay of the
  -- configuration, then those of tracked local packages that kept their names and whose
  -- digests are new, whatever calls fail.
  pub scheduler_round-IsTurn :
      (s : Session)
      → Ensures
          (scheduler_round env cfg around)
          s
          (λ _ t. IsTurn cfg around s.committed t.committed)
          (λ _. ⊥)
  unfolding scheduler_round
  scheduler_round-IsTurn s =
      let before = s.committed in
      let Goal = λ (_ : Unit {0}) (t : Session). IsTurn cfg around before t.committed in
      Ensures-bind _ _ s (λ _. Grown env before (AurDue cfg around before)) Goal
        (logged (refresh_aur env cfg around) s (refresh_aur-Imports s))
        λ _ u g.
          Ensures-bind _ _ u (λ _. Grown env u.committed (LocalDue cfg around u.committed)) Goal
            (logged (refresh_local env cfg around) u (refresh_local-Imports u))
            λ _ t h.
              Ensures-pure tt t (record { between = u.committed; from_aur = g; from_local = h })

  scheduler_round-KeepsHistory :
      (s : Session)
      → Ensures
          (scheduler_round env cfg around)
          s
          (λ _ t. KeepsHistory s.committed t.committed)
          (λ _. ⊥)
  scheduler_round-KeepsHistory s =
      Ensures-weaken-failure _ s (scheduler_round-IsTurn s)
        (λ _ turn.
          KeepsHistory-trans (Imports-KeepsHistory turn.from_aur)
            (Imports-KeepsHistory turn.from_local))
        (λ never. never)

  -- However many turns the scheduler makes and whatever fails, it ends without an error, no job
  -- but those that wait has changed, no version and no artifact is lost or changed, and each job
  -- that was not there before waits or was skipped.
  pub run_scheduler-KeepsHistory :
      (turns : ℕ) (s : Session)
      → Ensures
          (run_scheduler env cfg around turns)
          s
          (λ _ t. KeepsHistory s.committed t.committed)
          (λ _. ⊥)
  unfolding run_scheduler
  run_scheduler-KeepsHistory zero s = Ensures-pure tt s (KeepsHistory-refl s.committed)
  run_scheduler-KeepsHistory (suc turns) s =
      Ensures-bind _ (λ _. run_scheduler env cfg around turns) s _
        (λ _ t. KeepsHistory s.committed t.committed) (scheduler_round-KeepsHistory s)
        λ _ u h.
          Ensures-weaken-failure _ u (run_scheduler-KeepsHistory turns u)
            (λ _ k. KeepsHistory-trans h k) (λ never. never)
