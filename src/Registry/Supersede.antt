-- ===== src/Registry/Supersede.antt =====
-- CreatePackage of internal/db.go: the jobs of older revisions do not wait any longer.
use aurforge.Common.{
  ℕ, ◌++◌, refl, ◌≡◌, ◌≢◌, sym, ap, subst, ◌∙◌, List, [], ◌∷◌, arith, true, ◌==◌, ==_iff, Memᴰ, inl,
  inr, false≢true, Bool-cases, update, text_eq_iff, false, select, select-mem, mem-append,
  mem-update-cases, Text, any,
}
use aurforge.Store.{Tables, Job, PackageVersion, Instant, pending, skipped}
use aurforge.Session.{ok, Env, Session}
use aurforge.Package.{PackageInfo}
use aurforge.Queue.{mark_superseded}
use aurforge.Registry.{
  has_revision, new_version, is_other_version, is_waiting_for, version_ids, new_job, create_package,
}
use aurforge.Registry.Outcome.{create_package-Registered}
use aurforge.Registry.Registered.{Registered, already_known, newly_queued, IsManaged}

pending≢skipped : pending ≢ skipped
pending≢skipped e = cc

any-id :
    (id : ℕ) (v : PackageVersion) (vs : List PackageVersion)
    → Memᴰ v vs
    → v.id ≡ id
    → any (λ i. i == id) (version_ids vs) ≡ true
any-id id v [] m e = elim m [ ]
any-id id v (w ∷ ws) (Memᴰ.head q) e =
    let f : w.id ≡ id = ap (λ (x : PackageVersion). x.id) (sym q) ∙ e in ground arith
any-id id v (w ∷ ws) (Memᴰ.tail m) e = ground (arith, any-id id v ws m e)

-- Every job of the package that waits is a job of the version named.
abbrev pub WaitsOnlyFor : ℕ → ℕ → Tables → Type 0
WaitsOnlyFor package_id id t =
    (j : Job) (v : PackageVersion)
    → Memᴰ j t.jobs
    → j.status ≡ pending
    → Memᴰ v t.versions
    → v.id ≡ j.package_version_id
    → v.package_id ≡ package_id
    → j.package_version_id ≡ id

module _ (package_id id : ℕ) (versions : List PackageVersion) (v : PackageVersion)
    (known : Memᴰ v versions) (own : v.package_id ≡ package_id) where
  abbrev others : List ℕ
  others = version_ids (select (is_other_version package_id id) versions)

  is_waiting :
      (j : Job)
      → j.status ≡ pending
      → v.id ≡ j.package_version_id
      → v.id ≢ id
      → is_waiting_for others j ≡ true
  unfolding is_waiting_for
  is_waiting j p e n =
      let other : is_other_version package_id id v ≡ true =
        unfold is_other_version in ground arith in
      let m = select-mem (is_other_version package_id id) versions other known in
      ground (
        arith,
        any-id j.package_version_id v (select (is_other_version package_id id) versions) m e,
      )

  -- A job that waits after the update was not among those to skip.
  left_waiting :
      (time : Instant) (js : List Job) (j : Job)
      → Memᴰ j (update (is_waiting_for others) (mark_superseded time) js)
      → j.status ≡ pending
      → v.id ≡ j.package_version_id
      → v.id ≡ id
  left_waiting time js j m p e =
      let (y, n, c) = mem-update-cases (is_waiting_for others) (mark_superseded time) js m in
      elim c [
        | inl (h, q) ↦
            let gone : j.status ≡ skipped = ap (λ (x : Job). x.status) q in
            absurd (pending≢skipped (sym p ∙ gone))
        | inr (h, q) ↦ elim (Bool-cases (v.id == id)) [
          | inl same ↦ (==_iff v.id id).0 same
          | inr other ↦
              let w : is_waiting_for others j ≡ true =
                is_waiting j p e (λ r. cc ((==_iff v.id id).1 r)) in
              absurd (false≢true (sym h ∙ ap (is_waiting_for others) (sym q) ∙ w))
        ]
      ]

mem-last : {A : Type 0} (xs : List A) (x : A) → Memᴰ x (xs ++ x ∷ [])
mem-last [] x = Memᴰ.head refl
mem-last (y ∷ xs) x = Memᴰ.tail (mem-last xs x)

-- How an import that returns an id leaves the versions and the jobs of its package: a version with
-- the revision was there, and nothing changes, or there was none, and the new one has a job that
-- waits, the only one of the package.
pub data IsQueued (base : Tables) (revision : Text) (eligible_at : Instant) (package_id id : ℕ)
    (after : Tables) : Type 0 where
  known :
      (v : PackageVersion)
      → Memᴰ v base.versions
      → v.package_id ≡ package_id
      → v.revision ≡ revision
      → v.id ≡ id
      → after.versions ≡ base.versions
      → after.jobs ≡ base.jobs
      → IsQueued base revision eligible_at package_id id after
  unknown :
      (v : PackageVersion) (j : Job)
      → ((w : PackageVersion)
          → Memᴰ w base.versions
          → w.package_id ≡ package_id
          → w.revision ≢ revision)
      → Memᴰ v after.versions
      → v.package_id ≡ package_id
      → v.revision ≡ revision
      → v.id ≡ id
      → Memᴰ j after.jobs
      → j.status ≡ pending
      → j.package_version_id ≡ id
      → j.eligible_at ≡ eligible_at
      → WaitsOnlyFor package_id id after
      → IsQueued base revision eligible_at package_id id after

no_revision :
    (package_id : ℕ) (revision : Text) (vs : List PackageVersion) (w : PackageVersion)
    → any (has_revision package_id revision) vs ≡ false
    → Memᴰ w vs
    → w.package_id ≡ package_id
    → w.revision ≢ revision
unfolding has_revision
no_revision package_id revision [] w e m o r = elim m [ ]
no_revision package_id revision (v ∷ vs) w e (Memᴰ.head q) o r =
    let own : v.package_id ≡ package_id = ap (λ (x : PackageVersion). x.package_id) (sym q) ∙ o in
    let same =
      (text_eq_iff v.revision revision).1 (ap (λ (x : PackageVersion). x.revision) (sym q) ∙ r) in
    ground arith
no_revision package_id revision (v ∷ vs) w e (Memᴰ.tail m) o r =
    no_revision package_id revision vs w (ground arith) m o r

-- An import that returns an id and does not find its revision known at the package adds a version
-- with that id and a job for it that waits, from the given time on, and of all the jobs of the
-- package only the jobs of that version wait then; one that finds it known returns the id of the
-- version that has it, and changes no job and no version. The package is in its table under its name.
pub create_package-supersedes :
    (env : Env) (pkg : PackageInfo) (path revision digest : Text) (eligible_at : Instant)
    (s : Session) (id : ℕ)
    → (create_package env pkg path revision digest eligible_at s).0 ≡ ok id
    → let after = (create_package env pkg path revision digest eligible_at s).1.committed in
      (package_id : ℕ) × IsQueued s.committed revision eligible_at package_id id after
      × IsManaged pkg package_id after
create_package-supersedes env pkg path revision digest eligible_at s id h =
    let (package_id, managed, done) =
      (create_package-Registered env pkg path revision digest eligible_at s).success id h in
    (package_id, outcome s.committed _ package_id id done, managed)
  where
    only_job : {j k : Job} → Memᴰ j (k ∷ []) → j.package_version_id ≡ k.package_version_id
    only_job (Memᴰ.head q) = ap (λ (x : Job). x.package_version_id) q
    only_job (Memᴰ.tail m) = elim m [ ]

    outcome :
        (base after : Tables) (package_id id : ℕ)
        → Registered base pkg revision digest eligible_at package_id after id
        → IsQueued base revision eligible_at package_id id after
    outcome base after package_id _ (already_known v q m p r) = known v m p r refl q.versions q.jobs
    outcome base after package_id _ (newly_queued n job_id seen skip_time created vs js same new) =
        let waiting =
          is_waiting_for (version_ids (select (is_other_version package_id n) after.versions)) in
        let row = new_version pkg package_id revision digest seen n in
        let job = new_job n eligible_at created job_id in
        unknown row job (λ w m o. no_revision package_id revision base.versions w new m o)
          (subst (Memᴰ row) (sym vs) (mem-last base.versions row)) refl refl refl
          (subst (Memᴰ job) (sym js)
            (mem-last (update waiting (mark_superseded skip_time) base.jobs) job))
          refl refl refl
          λ j v m p known e own.
            elim (mem-append (update waiting (mark_superseded skip_time) base.jobs) (job ∷ [])
              (subst (Memᴰ j) js m)) [
                | inl old ↦
                    sym e
                    ∙ left_waiting package_id n after.versions v known own skip_time base.jobs j old
                        p e
                | inr new ↦ only_job new
              ]
