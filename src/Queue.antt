-- ===== src/Queue.antt =====
-- internal/db.go: the build queue.
pub mod Claiming
pub mod Order
pub mod Picked
pub mod Loop
pub mod Handed
pub mod Marking
use aurforge.Common.{
  ℕ, zero, suc, ◌+◌, ◌-◌, Text, codes, text_eq, Bool, true, false, ◌&&◌, ◌||◌, List, [], ◌∷◌,
  Option, none, some, ltb, leb, ◌==◌, if◌then◌else◌, select, update, any, first_by,
}
use aurforge.Store.{
  Instant, Tables, Job, PackageVersion, ManagedPackage, Status, running, skipped, published,
  is_pending,
}
use aurforge.Session.{
  Error, not_found, Result, ok, err, Env, Session, M, ◌>>=◌, ◌>>◌, pure, raise, attempt,
  or_rollback, now, begin, commit, query, execute, client_execute, rollback,
}

-- First(ctx): the first row of an ordered selection.
abbrev pub first_row {ℓ} : {A : Type ℓ} → Option A → Result A
first_row none = err not_found
first_row (some a) = ok a

-- Order(Asc(FieldEligibleAt), Asc(FieldID))
unfoldable pub due_before : Job → Job → Bool
due_before a b =
    ltb a.eligible_at b.eligible_at || (a.eligible_at == b.eligible_at && ltb a.id b.id)

-- Where(StatusEQ(StatusPending), EligibleAtLTE(time))
unfoldable pub is_due : Instant → Job → Bool
is_due time job = is_pending job.status && leb job.eligible_at time

unfoldable pub next_due : Instant → List Job → Option Job
next_due time jobs = first_by due_before (select (is_due time) jobs)

-- Order(Desc(FieldFirstSeenAt), Desc(FieldID))
unfoldable pub newer : PackageVersion → PackageVersion → Bool
newer a b =
    ltb b.first_seen_at a.first_seen_at || (a.first_seen_at == b.first_seen_at && ltb b.id a.id)

unfoldable pub latest_version : ℕ → List PackageVersion → Option PackageVersion
latest_version package_id versions =
    first_by newer (select (λ v. v.package_id == package_id) versions)

unfoldable pub version_by_id : ℕ → List PackageVersion → Option PackageVersion
version_by_id id [] = none
version_by_id id (v ∷ vs) = if v.id == id then some v else version_by_id id vs

unfoldable pub package_by_id : ℕ → List ManagedPackage → Option ManagedPackage
package_by_id id [] = none
package_by_id id (p ∷ ps) = if p.id == id then some p else package_by_id id ps

-- UpdateOneID(id): the error is a NotFoundError where no row has the id.
unfoldable pub update_job : ℕ → (Job → Job) → Tables → Result Tables
update_job id f t =
    if any (λ j. j.id == id) t.jobs
    then ok (record t { jobs = update (λ j. j.id == id) f t.jobs })
    else err not_found

abbrev pub superseded_error : Text
superseded_error = codes "superseded by newer revision"

abbrev pub mark_superseded : Instant → Job → Job
mark_superseded time j = record j {
  status = skipped;
  finished_at = some time;
  error = superseded_error;
}

abbrev pub mark_running : Instant → ℕ → Job → Job
mark_running time attempts j = record j {
  status = running;
  claimed_at = some time;
  attempts = attempts + 1;
}

-- SetLogPath and SetError run only where the text is not empty.
unfoldable pub mark_row : Instant → Status → Text → Text → Job → Job
mark_row time status log_path failure j = record j {
  status = status;
  finished_at = some time;
  log_path = if text_eq log_path [] then j.log_path else log_path;
  error = if text_eq failure [] then j.error else failure;
}

unfoldable pub publish_row : Instant → Job → Job
publish_row time j = record j { status = published; finished_at = some time }

-- `Job` of db.go: what the worker is told of a claimed job.
pub record ClaimedJob : Type 0 where
  pub id : ℕ
  pub package_name : Text
  pub source_path : Text
  pub package_version : ℕ

-- How one round of the loop of ClaimJob ends: by a return, or by `continue`.
pub data Claim : Type 0 where
  idle superseded : Claim
  claimed : ClaimedJob → Claim

module _ (env : Env) where
  supersede : Job → M Claim
  supersede job = do
    time ← now env
    or_rollback (execute env (update_job job.id (mark_superseded time)))
    commit env
    pure superseded

  start : Job → PackageVersion → M Claim
  start job version = do
    time ← now env
    or_rollback (execute env (update_job job.id (mark_running time job.attempts)))
    pkg ← or_rollback (query env (λ t. first_row (package_by_id version.package_id t.packages)))
    commit env
    pure (
        claimed (record {
          id = job.id;
          package_name = pkg.name;
          source_path = pkg.source_path;
          package_version = version.id;
        }))

  take_or_skip : Job → PackageVersion → PackageVersion → M Claim
  unfolding supersede start
  take_or_skip job version latest =
      if latest.id == version.id then start job version else supersede job

  claim_found : Result Job → M Claim
  unfolding take_or_skip
  claim_found (err not_found) = do rollback; pure idle
  claim_found (err e) = do rollback; raise e
  claim_found (ok job) = do
    version ←
        or_rollback (query env (λ t. first_row (version_by_id job.package_version_id t.versions)))
    latest ← or_rollback (query env (λ t. first_row (latest_version version.package_id t.versions)))
    take_or_skip job version latest

  unfoldable pub claim_round : M Claim
  unfolding claim_found
  claim_round = do
    begin env
    time ← now env
    found ← attempt (query env (λ t. first_row (next_due time t.jobs)))
    claim_found found

  -- The `for` of ClaimJob on fuel: `none` means that the fuel ran out.
  after_round :
      (Session → Option (Result (Option ClaimedJob) × Session))
      → Result Claim
      → Session
      → Option (Result (Option ClaimedJob) × Session)
  after_round rest (err e) s = some (err e, s)
  after_round rest (ok idle) s = some (ok none, s)
  after_round rest (ok (claimed c)) s = some (ok (some c), s)
  after_round rest (ok superseded) s = rest s

  unfoldable pub claim_job : ℕ → Session → Option (Result (Option ClaimedJob) × Session)
  unfolding after_round
  claim_job zero s = none
  claim_job (suc fuel) s = after_round (claim_job fuel) (claim_round s).0 (claim_round s).1

  unfoldable pub mark_job : ℕ → Status → Text → Text → M (Unit {0})
  unfolding mark_row
  mark_job id status log_path failure = do
    time ← now env
    client_execute env (update_job id (mark_row time status log_path failure))

  unfoldable pub job_artifacts : ℕ → M (Unit {0})
  unfolding publish_row
  job_artifacts id = do time ← now env; client_execute env (update_job id (publish_row time))

-- A sum of times and durations; a duration is a whole number of nanoseconds. The instants are
-- counted from the earliest time that Go represents, so the subtraction is exact.
pub data Duration : Type 0 where
  ahead : ℕ → Duration
  back : ℕ → Duration

abbrev pub add_duration : Instant → Duration → Instant
add_duration t (ahead d) = t + d
add_duration t (back d) = t - d

unfoldable pub eligible_at_from_commit : Instant → Duration → Instant → Instant
eligible_at_from_commit commit_time delay time =
    let eligible = add_duration commit_time delay in if ltb time eligible then eligible else time
