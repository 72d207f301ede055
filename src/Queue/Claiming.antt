-- ===== src/Queue/Claiming.antt =====
-- ClaimJob of internal/db.go: what one round of its loop does to the tables.
use aurforge.Common.{
  ℕ, ◌+◌, ◌≡◌, ◌≢◌, ◌⊎◌, refl, sym, ◌∙◌, ap, subst, Option, none, some, Bool-cases, inl, inr, ◌==◌,
  ==_iff,
}
use aurforge.Store.{Tables, Job, PackageVersion, ManagedPackage, Instant}
use aurforge.Session.{
  not_found, driver, Result, ok, err, Env, Session, query, now, attempt, pure, raise, rollback,
}
use aurforge.Session.Ensures.{
  Ensures, Ensures-bind, Ensures-pure, Ensures-raise, Untouched, Within, Ensures-begin, Ensures-now,
  Ensures-execute, Ensures-commit, Ensures-query, Ensures-or_rollback, Ensures-rollback,
  Ensures-attempt-query,
}
use aurforge.Queue.{
  Claim, idle, superseded, claimed, ClaimedJob, claim_round, claim_found, take_or_skip, start,
  supersede, next_due, version_by_id, package_by_id, latest_version, update_job, mark_superseded,
  mark_running, first_row,
}

-- What a round is meant to do at a time: nothing where no job is due; else skip the first job due
-- if its version is not the latest of its package, and hand it out as running if it is.
pub data ClaimStep (env : Env) (time : Instant) (base after : Tables) : Claim → Type 0 where
  nothing_due : next_due time base.jobs ≡ none → after ≡ base → ClaimStep env time base after idle
  skip_old :
      (job : Job) (version latest : PackageVersion) (k : ℕ)
      → next_due time base.jobs ≡ some job
      → version_by_id job.package_version_id base.versions ≡ some version
      → latest_version version.package_id base.versions ≡ some latest
      → latest.id ≢ version.id
      → update_job job.id (mark_superseded (env.clock k)) base ≡ ok after
      → ClaimStep env time base after superseded
  hand_out :
      (job : Job) (version latest : PackageVersion) (pkg : ManagedPackage) (k : ℕ)
      → next_due time base.jobs ≡ some job
      → version_by_id job.package_version_id base.versions ≡ some version
      → latest_version version.package_id base.versions ≡ some latest
      → latest.id ≡ version.id
      → package_by_id version.package_id after.packages ≡ some pkg
      → update_job job.id (mark_running (env.clock k) job.attempts) base ≡ ok after
      → (c : ClaimedJob)
      → c ≡ record {
        id = job.id;
        package_name = pkg.name;
        source_path = pkg.source_path;
        package_version = version.id;
      }
      → ClaimStep env time base after (claimed c)

first_row_ok {ℓ} : {A : Type ℓ} (o : Option A) {a : A} → first_row o ≡ ok a → o ≡ some a
first_row_ok none h = cc
first_row_ok (some b) h = cc

first_row_not_found {ℓ} : {A : Type ℓ} (o : Option A) → first_row o ≡ err not_found → o ≡ none
first_row_not_found none h = refl
first_row_not_found (some b) h = cc

module _ (env : Env) (base : Tables) (time : Instant) where
  abbrev Goal : Claim → Session → Type 0
  Goal c t = ClaimStep env time base t.committed c

  abbrev Kept : Session → Type 0
  Kept = Untouched env base

  module _ (job : Job) (version latest : PackageVersion) (due : next_due time base.jobs ≡ some job)
      (at : version_by_id job.package_version_id base.versions ≡ some version)
      (newest : latest_version version.package_id base.versions ≡ some latest) where
    supersede-step :
        (s : Session)
        → Within env base base s
        → latest.id ≢ version.id
        → Ensures (supersede env job) s Goal Kept
    unfolding supersede
    supersede-step s w old =
        Ensures-bind (now env) _ s _ Goal (Ensures-now env base s w) λ t s₁ (k, w₁).
          Ensures-bind _ _ s₁ _ Goal
            (Ensures-or_rollback env base _ s₁ (Ensures-execute env base s₁ w₁ _))
            λ _ s₂ (u, c₂).
              Ensures-bind _ _ s₂ _ Goal
                (Ensures-commit env base {current = s₂.working} s₂
                  (record { untouched = c₂; now_at = refl }))
                λ _ s₃ c₃.
                  Ensures-pure superseded s₃
                    (skip_old job version latest s.calls due at newest old (cc))

    start-step :
        (s : Session)
        → Within env base base s
        → latest.id ≡ version.id
        → Ensures (start env job version) s Goal Kept
    unfolding start
    start-step s w same =
        Ensures-bind (now env) _ s _ Goal (Ensures-now env base s w) λ t s₁ (k, w₁).
          Ensures-bind _ _ s₁ _ Goal
            (Ensures-or_rollback env base _ s₁ (Ensures-execute env base s₁ w₁ _))
            λ _ s₂ (u, c₂).
              Ensures-bind _ _ s₂ _ Goal
                (Ensures-or_rollback env base _ s₂ (
                  Ensures-query env base {current = s₂.working} s₂
                    (record { untouched = c₂; now_at = refl }) _))
                λ pkg s₃ (p, w₃).
                  Ensures-bind _ _ s₃ _ Goal (Ensures-commit env base {current = s₂.working} s₃ w₃)
                    λ _ s₄ c₄. Ensures-pure _ s₄ (
                      hand_out job version latest pkg s.calls due at newest same
                        (first_row_ok _ (cc)) (cc) _ refl)

    take_or_skip-step :
        (s : Session)
        → Within env base base s
        → Ensures (take_or_skip env job version latest) s Goal Kept
    unfolding take_or_skip
    take_or_skip-step s w = elim (Bool-cases (latest.id == version.id)) [
      | inl same ↦ rw same (start-step s w ((==_iff _ _).0 same))
      | inr old ↦ rw old (supersede-step s w (λ e. cc ((==_iff _ _).1 e)))
    ]

  claim_found-step :
      (r : Result Job) (s : Session)
      → Within env base base s
      → (r ≡ first_row (next_due time base.jobs)) ⊎ ((n : ℕ) × (r ≡ err (driver n)))
      → Ensures (claim_found env r) s Goal Kept
  unfolding claim_found
  claim_found-step (err not_found) s w (inl e) =
      Ensures-bind rollback (λ _. pure idle) s _ Goal (Ensures-rollback env base s w.untouched)
        λ _ s₁ h. Ensures-pure idle s₁ (nothing_due (first_row_not_found _ (sym e)) h)
  claim_found-step (err not_found) s w (inr (n, e)) = cc
  claim_found-step (err e) s w h =
      Ensures-bind rollback (λ _. raise e) s _ Goal (Ensures-rollback env base s w.untouched)
        λ _ s₁ h'. Ensures-raise e s₁ h'
  claim_found-step (ok job) s w (inr (n, e)) = cc
  claim_found-step (ok job) s w (inl e) =
      Ensures-bind _ _ s _ Goal (Ensures-or_rollback env base _ s (Ensures-query env base s w _))
        λ version s₁ (at, w₁).
          Ensures-bind _ _ s₁ _ Goal
            (Ensures-or_rollback env base _ s₁ (Ensures-query env base s₁ w₁ _))
            λ latest s₂ (newest, w₂).
              take_or_skip-step job version latest (first_row_ok _ (sym e)) (first_row_ok _ at)
                (first_row_ok _ newest) s₂ w₂

-- What a round that began in the session `s` is meant to leave.
abbrev pub RoundDone : Env → Session → Claim → Session → Type 0
RoundDone env s c t = ClaimStep env (env.clock (s.calls + 1)) s.committed t.committed c

-- One round does what `ClaimStep` says at the time it read after its transaction began; where it
-- fails, the tables are as they were.
pub claim_round-ClaimStep :
    (env : Env) (s : Session)
    → Ensures (claim_round env) s (RoundDone env s) (λ t. t.committed ≡ s.committed)
unfolding claim_round
claim_round-ClaimStep env s =
    let base = s.committed in
    Ensures-bind _ _ s _ (RoundDone env s) (Ensures-begin env base s refl) λ _ s₁ (w₁, k₁).
      Ensures-bind _ _ s₁ _ (RoundDone env s) (Ensures-now env base s₁ w₁) λ time s₂ (at, w₂).
        Ensures-bind (attempt (query env (λ t. first_row (next_due time t.jobs)))) (claim_found env)
          s₂ _ (RoundDone env s) (Ensures-attempt-query env base s₂ w₂ _)
          λ found s₃ (r, w₃). claim_found-step env base (env.clock (s.calls + 1)) found s₃ w₃ (
            subst
              (λ x.
                (found ≡ first_row (next_due x base.jobs)) ⊎ ((n : ℕ) × (found ≡ err (driver n))))
              (at ∙ ap env.clock k₁) r)
