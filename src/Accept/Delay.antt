-- ===== src/Accept/Delay.antt =====
-- AcceptAUR of internal/import.go with EligibleAtFromCommit of internal/db.go: a revision waits
-- for the delay that the operator set.
use aurforge.Common.{
  ℕ, ◌≤◌, Text, codes, Option, some, ◌≡◌, refl, sym, subst, arith, Memᴰ, mem-snoc,
}
use aurforge.Store.{PackageVersion, Tables, Job, Instant, pending}
use aurforge.Session.{Env, Session}
use aurforge.Session.Ensures.{Ensures, Ensures-weaken}
use aurforge.Package.{PackageInfo}
use aurforge.Queue.{Duration, add_duration, eligible_at_from_commit}
use aurforge.Registry.{new_job}
use aurforge.Registry.Registered.{Registered, already_known, newly_queued}
use aurforge.Import.{Preview}
use aurforge.Accept.{accept_aur, target_path}
use aurforge.Accept.Imports.{accept_aur-Enters}

pub eligible_at_from_commit-le :
    (commit_time time : Instant) (delay : Duration)
    → (time ≤ eligible_at_from_commit commit_time delay time)
      × (add_duration commit_time delay ≤ eligible_at_from_commit commit_time delay time)
unfolding eligible_at_from_commit
eligible_at_from_commit-le commit_time time delay = ground arith

-- The version is one of before and no job has changed, or the version has a job that waits until
-- the delay after its commit.
pub data IsDelayed (committed_at : Option Instant) (delay : Duration) (id : ℕ)
    (before after : Tables) : Type 0 where
  unchanged :
      {version : PackageVersion}
      → Memᴰ version before.versions
      → version.id ≡ id
      → after.jobs ≡ before.jobs
      → IsDelayed committed_at delay id before after
  delayed :
      {commit_time : Instant} {job : Job}
      → committed_at ≡ some commit_time
      → Memᴰ job after.jobs
      → job.package_version_id ≡ id
      → job.status ≡ pending
      → add_duration commit_time delay ≤ job.eligible_at
      → IsDelayed committed_at delay id before after

-- What CreatePackage leaves, at the time that AcceptAUR gives it.
Registered-IsDelayed :
    (pkg : PackageInfo) (revision digest : Text) (delay : Duration) (commit_time time : Instant)
    (found : Option Instant) (package_id : ℕ) {id : ℕ} (before after : Tables)
    → found ≡ some commit_time
    → Registered before pkg revision digest
        (eligible_at_from_commit commit_time delay time)
        package_id
        after
        id
    → IsDelayed found delay id before after
Registered-IsDelayed pkg revision digest delay commit_time time found package_id before after f
      (already_known v same m p r) =
    unchanged m refl same.jobs
Registered-IsDelayed pkg revision digest delay commit_time time found package_id before after f
      (newly_queued id job_id seen skip_time created vs js as_before unknown) =
    delayed f
      (subst (Memᴰ (new_job id (eligible_at_from_commit commit_time delay time) created job_id))
        (sym js) (mem-snoc _ _))
      refl refl (eligible_at_from_commit-le commit_time time delay).1

-- An AUR revision that is accepted changes no job, if it was known, or has a job that waits and
-- is not eligible before its commit time and the delay; where accepting it fails, no table has
-- changed.
pub accept_aur-IsDelayed :
    (env : Env) (committed_at : Text → Option Instant) (root : Text) (delay : Duration)
    (preview : Preview) (revision : Text) (s : Session)
    → Ensures
        (accept_aur env committed_at root delay preview revision)
        s
        (λ id t.
          IsDelayed
            (committed_at (target_path root (codes "aur") preview.info.name revision))
            delay
            id
            s.committed
            t.committed)
        (λ t. t.committed ≡ s.committed)
unfolding accept_aur
accept_aur-IsDelayed env committed_at root delay preview revision s =
    let base = s.committed in
    let target = target_path root (codes "aur") preview.info.name revision in
    Ensures-weaken _ s _ (λ id t. IsDelayed (committed_at target) delay id base t.committed)
      (accept_aur-Enters env committed_at root delay preview revision base s refl)
      λ id t (commit_time, time, f, e).
        Registered-IsDelayed preview.info revision preview.digest delay commit_time time
          (committed_at target) e.package_id base t.committed f e.registered
