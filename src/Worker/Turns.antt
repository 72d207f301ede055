-- ===== src/Worker/Turns.antt =====
-- A turn of RunWorker of internal/roles.go: what becomes of the job that it claims.
use aurforge.Common.{
  ℕ, ◌<◌, Text, [], Option, none, some, ◌≡◌, ◌⊎◌, inl, inr, refl, sym, ◌∙◌, ap, subst, true, false,
  false≢true,
}
use aurforge.Store.{Tables, built, failed}
use aurforge.Session.{Error, Result, ok, err, Env, Session, attempt, continue, pure}
use aurforge.Session.Ensures.{Ensures-bind, Ensures-pure, Ensures-attempted, Ensures-out}
use aurforge.Config.{Config}
use aurforge.Queue.{ClaimedJob, claim_job, mark_job}
use aurforge.Queue.Loop.{ClaimRun, claim_job-ClaimRun, pending_count}
use aurforge.Queue.Marking.{Marked, mark_job_lem}
use aurforge.Notify.{notify_failure}
use aurforge.Notify.Quiet.{notify_failure_lem}
use aurforge.Worker.{
  Floats, log_file, WorkerStep, waiting, worked, build_job, after_build, work_on, after_claim,
  worker_round,
}
use aurforge.Worker.Confined.{build_job-IsConfined}

-- By the outcome of its build a job that was claimed is marked as built, or as failed with the text
-- of the error. Where MarkJob itself returns an error, at the session that the build left, no table
-- changes, and the worker stops with that error after a success.
pub data Worked (env : Env) (cfg : Config) (error_text : Error → Text) (job : ClaimedJob)
    (outcome : Result (Unit {0})) (built_at : Session) (before after : Tables)
    : Result WorkerStep → Type 0 where
  as_built :
      outcome ≡ ok tt
      → Marked job.id built (log_file cfg job.id) [] before after
      → Worked env cfg error_text job outcome built_at before after (ok worked)
  as_failed :
      {e : Error}
      → outcome ≡ err e
      → Marked job.id failed (log_file cfg job.id) (error_text e) before after
      → Worked env cfg error_text job outcome built_at before after (ok worked)
  failure_not_marked :
      {e x : Error}
      → outcome ≡ err e
      → (mark_job env job.id failed (log_file cfg job.id) (error_text e) built_at).0 ≡ err x
      → after ≡ before
      → Worked env cfg error_text job outcome built_at before after (ok worked)
  success_not_marked :
      {x : Error}
      → outcome ≡ ok tt
      → (mark_job env job.id built (log_file cfg job.id) [] built_at).0 ≡ err x
      → after ≡ before
      → Worked env cfg error_text job outcome built_at before after (err x)

module _ (env : Env) (cfg : Config) (floats : Floats) (cpu_count : Option Text)
    (error_text : Error → Text) where
  -- A turn: the run of ClaimJob, and the work on the job that it hands out.
  pub data IsTurn (s t : Session) : Result WorkerStep → Type 0 where
    nothing_due : ClaimRun env s t (ok none) → IsTurn s t (ok waiting)
    not_claimed : {e : Error} → ClaimRun env s t (err e) → IsTurn s t (err e)
    one_job :
        {job : ClaimedJob} {u : Session} {r : Result WorkerStep}
        → ClaimRun env s u (ok (some job))
        → Worked env cfg error_text job
            (build_job env cfg floats cpu_count error_text job u).0
            (build_job env cfg floats cpu_count error_text job u).1
            u.committed
            t.committed
            r
        → IsTurn s t r

  module _ (job : ClaimedJob) where
    -- What an attempt at a marking leaves.
    after_marking :
        (e : Error) (s : Session) {after : Tables} {r : Result (Unit {0})}
        → r ≡ (mark_job env job.id failed (log_file cfg job.id) (error_text e) s).0
        → ((u : Unit {0}) × (r ≡ ok u)
            × Marked job.id failed (log_file cfg job.id) (error_text e) s.committed after)
          ⊎ ((x : Error) × (r ≡ err x) × (after ≡ s.committed))
        → Worked env cfg error_text job (err e) s s.committed after (ok worked)
    after_marking e s q (inl (_, _, m)) = as_failed refl m
    after_marking e s q (inr (_, f, same)) = failure_not_marked refl (sym q ∙ f) same

    -- After a success the error of the marking is returned.
    built-Worked :
        (s t : Session) (r : Result (Unit {0}))
        → (mark_job env job.id built (log_file cfg job.id) [] s).0 ≡ r
        → ((u : Unit {0})
            → r ≡ ok u
            → Marked job.id built (log_file cfg job.id) [] s.committed t.committed)
        → ((x : Error) → r ≡ err x → t.committed ≡ s.committed)
        → Worked env cfg error_text job
            (ok tt)
            s
            s.committed
            (continue r (λ _. pure worked) t).1.committed
            (continue r (λ _. pure worked) t).0
    built-Worked s t (ok u) q m same = as_built refl (m u refl)
    built-Worked s t (err x) q m same = success_not_marked refl q (same x refl)

    after_build-Worked :
        (outcome : Result (Unit {0})) (s : Session)
        → Worked env cfg error_text job outcome s s.committed
            (after_build env cfg floats cpu_count error_text job outcome s).1.committed
            (after_build env cfg floats cpu_count error_text job outcome s).0
    unfolding after_build
    after_build-Worked (ok tt) s =
        let h = mark_job_lem env job.id built (log_file cfg job.id) [] s in
        built-Worked s (mark_job env job.id built (log_file cfg job.id) [] s).1
          (mark_job env job.id built (log_file cfg job.id) [] s).0 refl h.success h.failure
    after_build-Worked (err e) s =
        Ensures-out (after_build env cfg floats cpu_count error_text job (err e)) s
          (λ r t. Worked env cfg error_text job (err e) s s.committed t.committed r)
          (Ensures-bind {E = λ t. false ≡ true}
            (attempt (mark_job env job.id failed (log_file cfg job.id) (error_text e))) _ s _
            (λ w t. Worked env cfg error_text job (err e) s s.committed t.committed (ok w))
            (Ensures-attempted (mark_job env job.id failed (log_file cfg job.id) (error_text e)) s
              (mark_job_lem env job.id failed (log_file cfg job.id) (error_text e) s))
            λ _ s₁ o.
              Ensures-bind (notify_failure env cfg job.package_name (error_text e)) _ s₁ _ _
                (notify_failure_lem env cfg job.package_name (error_text e) s₁)
                λ _ s₂ c. Ensures-pure worked s₂ (
                  subst (λ t. Worked env cfg error_text job (err e) s s.committed t (ok worked))
                    (sym c) (after_marking e s refl o)))
          (λ w q. q) (λ x off. absurd (false≢true off))

    -- The build itself changes no table.
    build_job-tables :
        (s : Session)
        → (build_job env cfg floats cpu_count error_text job s).1.committed ≡ s.committed
    build_job-tables s =
        Ensures-out (build_job env cfg floats cpu_count error_text job) s
          (λ _ t. t.committed ≡ s.committed)
          (build_job-IsConfined env cfg floats cpu_count error_text job s) (λ _ (d, _). d.tables)
          (λ _ d. d.tables)

    work_on-Worked :
        (s : Session)
        → Worked env cfg error_text job
            (build_job env cfg floats cpu_count error_text job s).0
            (build_job env cfg floats cpu_count error_text job s).1
            s.committed
            (work_on env cfg floats cpu_count error_text job s).1.committed
            (work_on env cfg floats cpu_count error_text job s).0
    unfolding work_on
    work_on-Worked s =
        let (outcome, u) = build_job env cfg floats cpu_count error_text job s in
        subst
          (λ b.
            Worked env cfg error_text job outcome u b
              (after_build env cfg floats cpu_count error_text job outcome u).1.committed
              (after_build env cfg floats cpu_count error_text job outcome u).0)
          (build_job-tables s) (after_build-Worked outcome u)

  -- With more fuel than jobs are pending, a turn of the worker ends: nothing is due, or no job
  -- could be claimed, or the job that ClaimJob hands out is marked by the outcome of its build, but
  -- where MarkJob itself returns an error, and then its row is left and the worker goes on after
  -- a failed build and stops with that error after a success.
  pub worker_round-IsTurn :
      (fuel : ℕ) (s : Session)
      → pending_count s.committed.jobs < fuel
      → (r : Result WorkerStep) × (t : Session) × (worker_round env cfg floats cpu_count error_text
            fuel s
          ≡ some (r, t))
        × IsTurn s t r
  unfolding worker_round after_claim
  worker_round-IsTurn fuel s h =
      let (r, u, e, run) = claim_job-ClaimRun env fuel s h in turn r u e run
    where
      turn :
          (r : Result (Option ClaimedJob)) (u : Session)
          → claim_job env fuel s ≡ some (r, u)
          → ClaimRun env s u r
          → (w : Result WorkerStep) × (t : Session) × (after_claim env cfg floats cpu_count
                error_text
                (claim_job env fuel s)
              ≡ some (w, t))
            × IsTurn s t w
      turn (err x) u e run =
          (err x, u, ap (after_claim env cfg floats cpu_count error_text) e, not_claimed run)
      turn (ok none) u e run =
          (ok waiting, u, ap (after_claim env cfg floats cpu_count error_text) e, nothing_due run)
      turn (ok (some job)) u e run = (
        (work_on env cfg floats cpu_count error_text job u).0,
        (work_on env cfg floats cpu_count error_text job u).1,
        ap (after_claim env cfg floats cpu_count error_text) e,
        one_job run (work_on-Worked job u),
      )
