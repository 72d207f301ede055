-- ===== src/Queue/Picked.antt =====
-- The two orders by which internal/db.go picks a row, written out: the job that ClaimJob takes and
-- the version that is the latest.
use aurforge.Common.{
  ℕ, ◌≤◌, ◌<◌, ◌≡◌, ◌⊎◌, refl, sym, subst, inl, inr, [], Bool-cases, Option-cases, Option, none,
  some, List, arith, true, false, ◌==◌, ==_iff, ltb, Memᴰ, select, select-mem, first_by-none,
}
use aurforge.Store.{Job, PackageVersion, Instant, pending, is_pending, Status}
use aurforge.Queue.{due_before, is_due, next_due, newer, latest_version}
use aurforge.Queue.Order.{next_due-least, latest_version-newest}

-- A row with a time and an id stands before another one: it has the earlier time, or the same time
-- and an id that is not greater.
abbrev pub Precedes : Instant × ℕ → Instant × ℕ → Type 0
Precedes (time, id) (other_time, other_id) =
    (time < other_time) ⊎ ((time ≡ other_time) × (id ≤ other_id))

-- A job that waits and whose time has come.
pub record IsReady (time : Instant) (job : Job) : Type 0 where
  pub waits : job.status ≡ pending
  pub due : job.eligible_at ≤ time

-- What the query for a job picks: the one that is ready and stands before every other that is, by
-- the time from which it may run and its id, or nothing, where none is ready.
pub data IsPick (time : Instant) (jobs : List Job) : Option Job → Type 0 where
  nothing_ready : ((k : Job) → Memᴰ k jobs → IsReady time k → ⊥) → IsPick time jobs none
  first_ready :
      {job : Job}
      → Memᴰ job jobs
      → IsReady time job
      → ((k : Job)
          → Memᴰ k jobs
          → IsReady time k
          → Precedes (job.eligible_at, job.id) (k.eligible_at, k.id))
      → IsPick time jobs (some job)

-- What the query for the latest version picks: the one of the package that every other one of it
-- stands before, by the time at which it was first seen and its id, or nothing, where there is none.
pub data IsLatest (package_id : ℕ) (versions : List PackageVersion)
    : Option PackageVersion → Type 0 where
  no_version :
      ((v : PackageVersion) → Memᴰ v versions → v.package_id ≡ package_id → ⊥)
      → IsLatest package_id versions none
  last_version :
      {latest : PackageVersion}
      → Memᴰ latest versions
      → latest.package_id ≡ package_id
      → ((v : PackageVersion)
          → Memᴰ v versions
          → v.package_id ≡ package_id
          → Precedes (v.first_seen_at, v.id) (latest.first_seen_at, latest.id))
      → IsLatest package_id versions (some latest)

is_pending-eq : (s : Status) → is_pending s ≡ true → s ≡ pending
is_pending-eq pending h = refl
is_pending-eq Status.running h = cc
is_pending-eq Status.built h = cc
is_pending-eq Status.published h = cc
is_pending-eq Status.failed h = cc
is_pending-eq Status.skipped h = cc

is_due-IsReady : (time : Instant) (job : Job) → is_due time job ≡ true → IsReady time job
unfolding is_due
is_due-IsReady time job h = record {
  waits = is_pending-eq job.status (ground arith);
  due = ground arith;
}

IsReady-is_due : (time : Instant) (job : Job) → IsReady time job → is_due time job ≡ true
unfolding is_due
IsReady-is_due time job r = let w = r.waits in let d = r.due in rw w (ground arith)

not_before :
    (job k : Job)
    → due_before k job ≡ false
    → Precedes (job.eligible_at, job.id) (k.eligible_at, k.id)
unfolding due_before
not_before job k h = elim (Bool-cases (ltb job.eligible_at k.eligible_at)) [
  | inl e ↦ inl (ground arith)
  | inr e ↦ inr (ground arith, ground arith)
]

not_newer :
    (v latest : PackageVersion)
    → newer v latest ≡ false
    → Precedes (v.first_seen_at, v.id) (latest.first_seen_at, latest.id)
unfolding newer
not_newer v latest h = elim (Bool-cases (ltb v.first_seen_at latest.first_seen_at)) [
  | inl e ↦ inl (ground arith)
  | inr e ↦ inr (ground arith, ground arith)
]

nothing-selected {ℓ} : {A : Type ℓ} {x : A} (xs : List A) → xs ≡ [] → Memᴰ x xs → ⊥
nothing-selected xs e m = elim (subst (Memᴰ _) e m) [ ]

-- Of the jobs that wait and whose time has come, ClaimJob takes the one that may run the earliest,
-- of those that may run at the same time the one with the least id; it takes none only where there
-- is no such job.
pub next_due-IsPick : (time : Instant) (jobs : List Job) → IsPick time jobs (next_due time jobs)
next_due-IsPick time jobs = elim (Option-cases (next_due time jobs)) [
  | inl e ↦ subst (IsPick time jobs) (sym e) (
      nothing_ready λ k m r.
        nothing-selected (select (is_due time) jobs)
          (first_by-none due_before (select (is_due time) jobs) (unfold next_due in e))
          (select-mem (is_due time) jobs (IsReady-is_due time k r) m))
  | inr (job, e) ↦
      let (m, d, l) = next_due-least time jobs job e in
      subst (IsPick time jobs) (sym e) (
        first_ready m (is_due-IsReady time job d)
          λ k n r. not_before job k (l k n (IsReady-is_due time k r)))
]

-- The latest version of a package is the one that was seen last, of those that were seen at the
-- same time the one with the greatest id; there is none only where the package has no version.
pub latest_version-IsLatest :
    (package_id : ℕ) (versions : List PackageVersion)
    → IsLatest package_id versions (latest_version package_id versions)
latest_version-IsLatest package_id versions =
    elim (Option-cases (latest_version package_id versions)) [
      | inl e ↦
          let mine = λ (v : PackageVersion). v.package_id == package_id in
          subst (IsLatest package_id versions) (sym e) (
            no_version λ v m own.
              nothing-selected (select mine versions)
                (first_by-none newer (select mine versions) (unfold latest_version in e))
                (select-mem mine versions ((==_iff _ _).1 own) m))
      | inr (latest, e) ↦
          let (m, own, l) = latest_version-newest package_id versions latest e in
          subst (IsLatest package_id versions) (sym e)
            (last_version m own λ v n p. not_newer v latest (l v n p))
    ]
