-- ===== src/Queue/Handed.antt =====
-- ClaimJob of internal/db.go: what is known of a job that it hands out.
use aurforge.Common.{
  ℕ, ◌≡◌, ◌<◌, refl, sym, subst, ◌∙◌, Option, some, arith, false, ◌==◌, ==_iff, Memᴰ, mem-update,
}
use aurforge.Store.{Tables, Job, PackageVersion, Instant, running}
use aurforge.Session.{Result, ok, Env, Session}
use aurforge.Queue.{claimed, ClaimedJob, claim_job, mark_running, newer}
use aurforge.Queue.Order.{next_due-least, latest_version-newest, version_by_id-mem}
use aurforge.Queue.Claiming.{ClaimStep, hand_out}
use aurforge.Queue.Loop
use aurforge.Queue.Loop.{ClaimRun, hand, skip, update_job_jobs, claim_job-ClaimRun, pending_count}

-- What the worker may rely on: the job is running, it is an attempt at the version it names, and
-- no version of the same package is newer.
pub record IsHanded (t : Tables) (c : ClaimedJob) : Type 0 where
  pub job : Job
  pub version : PackageVersion
  pub in_queue : Memᴰ job t.jobs
  pub job_id : job.id ≡ c.id
  pub is_running : job.status ≡ running
  pub attempted : 0 < job.attempts
  pub version_known : Memᴰ version t.versions
  pub version_id : version.id ≡ c.package_version
  pub job_version : job.package_version_id ≡ c.package_version
  pub newest :
      (v : PackageVersion)
      → Memᴰ v t.versions
      → v.package_id ≡ version.package_id
      → newer v version ≡ false

ClaimStep-IsHanded :
    {env : Env} {time : Instant} {base after : Tables} {c : ClaimedJob}
    → ClaimStep env time base after (claimed c)
    → IsHanded after c
ClaimStep-IsHanded {env} {time} {base} {after}
      (hand_out job version latest pkg k due at newest same p done c e) =
    let (m, d, l) = next_due-least time base.jobs job due in
    let (n, own, top) = latest_version-newest version.package_id base.versions latest newest in
    let (vm, vid) = version_by_id-mem job.package_version_id base.versions version at in
    let mark = mark_running (env.clock k) job.attempts in
    subst (IsHanded after) (sym e) (
      subst
        (λ t. IsHanded t (record {
          id = job.id;
          package_name = pkg.name;
          source_path = pkg.source_path;
          package_version = version.id;
        }))
        (sym (update_job_jobs job.id mark base after done))
        (record {
          job = mark job;
          version = latest;
          in_queue =
              mem-update (λ (j : Job). j.id == job.id) mark base.jobs
                ((==_iff job.id job.id).1 refl) m;
          job_id = refl;
          is_running = refl;
          attempted = omega arith;
          version_known = n;
          version_id = same;
          job_version = sym vid;
          newest = λ v w q. top v w (q ∙ own);
        }))

ClaimRun-IsHanded :
    {env : Env} {s t : Session} {r : Result (Option ClaimedJob)} {c : ClaimedJob}
    → ClaimRun env s t r
    → r ≡ ok (some c)
    → IsHanded t.committed c
ClaimRun-IsHanded (hand {c = d} done) e = subst (IsHanded _) (cc) (ClaimStep-IsHanded done)
ClaimRun-IsHanded (skip _ run) e = ClaimRun-IsHanded run e
ClaimRun-IsHanded (Loop.stop _) e = cc
ClaimRun-IsHanded (Loop.fail _) e = cc

-- Whatever calls fail and whatever the clock shows, a job that ClaimJob hands out is running, is
-- counted as an attempt, and is for the latest version of its package.
pub claim_job-IsHanded :
    (env : Env) (fuel : ℕ) (s t : Session) (c : ClaimedJob)
    → pending_count s.committed.jobs < fuel
    → claim_job env fuel s ≡ some (ok (some c), t)
    → IsHanded t.committed c
claim_job-IsHanded env fuel s t c h e =
    let (r, u, e', run) = claim_job-ClaimRun env fuel s h in
    let same : u ≡ t = cc in
    let out : r ≡ ok (some c) = cc in
    subst (λ (x : Session). IsHanded x.committed c) same (ClaimRun-IsHanded run out)
