-- ===== src/Queue/Loop.antt =====
-- ClaimJob of internal/db.go, the whole loop: it ends, and each of its rounds does what one round
-- is meant to do.
use aurforge.Common.{
  ℕ, zero, suc, ◌≡◌, ◌<◌, ◌≤◌, refl, sym, subst, Option, none, some, List, [], ◌∷◌, arith, true,
  ◌==◌, Memᴰ, if◌then◌else◌, update,
}
use aurforge.Store.{Tables, Job, Instant, is_pending}
use aurforge.Session.{Error, Result, ok, err, Env, Session}
use aurforge.Queue.{
  Claim, idle, superseded, claimed, ClaimedJob, claim_round, claim_job, after_round, update_job,
  mark_superseded, is_due,
}
use aurforge.Queue.Order.{next_due-least}
use aurforge.Queue.Claiming.{ClaimStep, skip_old, RoundDone, claim_round-ClaimStep}

-- The rounds of a call: those that skip a job, and the last one.
pub data ClaimRun (env : Env) : Session → Session → Result (Option ClaimedJob) → Type 0 where
  stop : {s t : Session} → RoundDone env s idle t → ClaimRun env s t (ok none)
  hand :
      {s t : Session} {c : ClaimedJob}
      → RoundDone env s (claimed c) t
      → ClaimRun env s t (ok (some c))
  fail : {s t : Session} {e : Error} → t.committed ≡ s.committed → ClaimRun env s t (err e)
  skip :
      {s t u : Session} {r : Result (Option ClaimedJob)}
      → RoundDone env s superseded t
      → ClaimRun env t u r
      → ClaimRun env s u r

abbrev pub pending_count : List Job → ℕ
pending_count [] = 0
pending_count (j ∷ js) =
    let rest = pending_count js in if is_pending j.status then suc rest else rest

module _ (id : ℕ) (time : Instant) where
  pending_count-update-le :
      (js : List Job)
      → pending_count (update (λ j. j.id == id) (mark_superseded time) js) ≤ pending_count js
  pending_count-update-le [] = omega arith
  pending_count-update-le (j ∷ js) = ground (arith, pending_count-update-le js)

  pending_count-update-lt :
      (j : Job) (js : List Job)
      → Memᴰ j js
      → j.id ≡ id
      → is_pending j.status ≡ true
      → pending_count (update (λ j. j.id == id) (mark_superseded time) js) < pending_count js
  pending_count-update-lt j [] m e p = elim m [ ]
  pending_count-update-lt j (k ∷ js) (Memᴰ.head q) e p = ground (arith, pending_count-update-le js)
  pending_count-update-lt j (k ∷ js) (Memᴰ.tail m) e p =
      ground (arith, pending_count-update-lt j js m e p)

pub update_job_jobs :
    (id : ℕ) (f : Job → Job) (t u : Tables)
    → update_job id f t ≡ ok u
    → u ≡ record t { jobs = update (λ j. j.id == id) f t.jobs }
unfolding update_job
update_job_jobs id f t u h = ground arith

-- A round that skips a job leaves fewer pending jobs.
superseded-lt :
    (env : Env) (time : Instant) (base after : Tables)
    → ClaimStep env time base after superseded
    → pending_count after.jobs < pending_count base.jobs
unfolding is_due
superseded-lt env time base after (skip_old job version latest k due at newest old done) =
    let (m, d, l) = next_due-least time base.jobs job due in
    subst (λ t. pending_count t.jobs < pending_count base.jobs)
      (sym (update_job_jobs job.id _ base after done))
      (pending_count-update-lt job.id (env.clock k) job base.jobs m refl (ground arith))

module _ (env : Env) where
  -- With more fuel than jobs are pending the loop ends, and its rounds are as they should be.
  pub claim_job-ClaimRun :
      (fuel : ℕ) (s : Session)
      → pending_count s.committed.jobs < fuel
      → (r : Result (Option ClaimedJob)) × (t : Session) × (claim_job env fuel s ≡ some (r, t))
        × ClaimRun env s t r
  unfolding claim_job
  claim_job-ClaimRun zero s h = absurd (omega arith)
  claim_job-ClaimRun (suc fuel) s h =
      round (claim_round env s).0 (claim_round env s).1 (claim_round-ClaimStep env s).success
        (claim_round-ClaimStep env s).failure (λ t lt. claim_job-ClaimRun fuel t (omega arith))
    where
      round :
          (c : Result Claim) (t : Session)
          → ((a : Claim) → c ≡ ok a → RoundDone env s a t)
          → ((e : Error) → c ≡ err e → t.committed ≡ s.committed)
          → ((t : Session)
              → pending_count t.committed.jobs < pending_count s.committed.jobs
              → (r : Result (Option ClaimedJob)) × (u : Session) × (claim_job env fuel t
                  ≡ some (r, u))
                × ClaimRun env t u r)
          → (r : Result (Option ClaimedJob)) × (u : Session) × (after_round env
                (claim_job env fuel)
                c
                t
              ≡ some (r, u))
            × ClaimRun env s u r
      round (err e) t done failed rest = (err e, t, refl, fail (failed e refl))
      round (ok idle) t done failed rest = (ok none, t, refl, stop (done idle refl))
      round (ok (claimed c)) t done failed rest =
          (ok (some c), t, refl, hand (done (claimed c) refl))
      round (ok superseded) t done failed rest =
          let (r, u, e, run) =
            rest t (superseded-lt env _ s.committed t.committed (done superseded refl)) in
          (r, u, e, skip (done superseded refl) run)
