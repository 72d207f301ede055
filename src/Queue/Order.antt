-- ===== src/Queue/Order.antt =====
-- The two orders by which internal/db.go picks a row: the job that is due first and the version
-- that is the latest.
use aurforge.Common.{
  ℕ, ◌≡◌, sym, ap, subst, ◌∙◌, inl, inr, [], ◌∷◌, Bool-cases, some_inj, if◌then◌else◌, some, List,
  arith, true, false, ◌==◌, ==_iff, Memᴰ, All-mem, mem-select, select-All, select-mem,
  first_by-Least, select,
}
use aurforge.Store.{Job, PackageVersion, Instant}
use aurforge.Queue.{due_before, is_due, next_due, newer, latest_version, version_by_id}

due_before_asym : (a b : Job) → due_before a b ≡ true → due_before b a ≡ false
unfolding due_before
due_before_asym a b h = ground arith

due_before_through :
    (a b c : Job) → due_before c b ≡ false → due_before b a ≡ false → due_before c a ≡ false
unfolding due_before
due_before_through a b c h k = ground arith

newer_asym : (a b : PackageVersion) → newer a b ≡ true → newer b a ≡ false
unfolding newer
newer_asym a b h = ground arith

newer_through : (a b c : PackageVersion) → newer c b ≡ false → newer b a ≡ false → newer c a ≡ false
unfolding newer
newer_through a b c h k = ground arith

-- The job picked is a pending job of the queue whose time has come, and no other such job is
-- before it in the order of eligibility and id.
pub next_due-least :
    (time : Instant) (jobs : List Job) (job : Job)
    → next_due time jobs ≡ some job
    → Memᴰ job jobs
      × (is_due time job ≡ true)
      × ((j : Job) → Memᴰ j jobs → is_due time j ≡ true → due_before j job ≡ false)
unfolding next_due
next_due-least time jobs job h =
    let (m, l) =
      first_by-Least due_before due_before_asym due_before_through (select (is_due time) jobs) h in
    (
      mem-select (is_due time) jobs m,
      All-mem (λ j. is_due time j ≡ true) (select (is_due time) jobs)
          (select-All (is_due time) jobs) m,
      λ j n d.
          All-mem (λ i. due_before i job ≡ false) (select (is_due time) jobs) l
            (select-mem (is_due time) jobs d n),
    )

-- The version picked belongs to the package, and none of the package was seen after it (nor, seen
-- at the same time, has a greater id).
pub latest_version-newest :
    (package_id : ℕ) (versions : List PackageVersion) (latest : PackageVersion)
    → latest_version package_id versions ≡ some latest
    → Memᴰ latest versions
      × (latest.package_id ≡ package_id)
      × ((v : PackageVersion)
          → Memᴰ v versions
          → v.package_id ≡ package_id
          → newer v latest ≡ false)
unfolding latest_version
latest_version-newest package_id versions latest h =
    let mine = λ (v : PackageVersion). v.package_id == package_id in
    let (m, l) = first_by-Least newer newer_asym newer_through (select mine versions) h in
    (
      mem-select mine versions m,
      (==_iff _ _).0
          (All-mem (λ v. mine v ≡ true) (select mine versions) (select-All mine versions) m),
      λ v n e.
          All-mem (λ i. newer i latest ≡ false) (select mine versions) l
            (select-mem mine versions ((==_iff _ _).1 e) n),
    )

pub version_by_id-mem :
    (id : ℕ) (versions : List PackageVersion) (v : PackageVersion)
    → version_by_id id versions ≡ some v
    → Memᴰ v versions × (v.id ≡ id)
unfolding version_by_id
version_by_id-mem id [] v h = cc
version_by_id-mem id (w ∷ ws) v h = elim (Bool-cases (w.id == id)) [
  | inl e ↦
      let q = some_inj (subst (λ b. (if b then some w else version_by_id id ws) ≡ some v) e h) in
      (Memᴰ.head (sym q), ap (λ (x : PackageVersion). x.id) (sym q) ∙ (==_iff _ _).0 e)
  | inr e ↦
      let r =
        version_by_id-mem id ws v
          (subst (λ b. (if b then some w else version_by_id id ws) ≡ some v) e h) in
      (Memᴰ.tail r.0, r.1)
]
