-- ===== src/Registry/Registered.antt =====
-- CreatePackage of internal/db.go: how a revision is saved, and the ways in which an import ends.
use aurforge.Common.{
  ℕ, ◌≡◌, refl, sym, ap, subst, ◌∙◌, List, [], ◌∷◌, ◌++◌, arith, Bool, true, false, any, Memᴰ, inl,
  inr, ◌⊎◌, update, select, select-All, mem-select, All-mem, Text, text_eq_iff,
}
use aurforge.Store.{Tables, Job, PackageVersion, ManagedPackage, Instant}
use aurforge.Session.{not_found, driver, Result, ok, err, Env, Session}
use aurforge.Session.Ensures.{
  Ensures, ok_injective, Ensures-bind, Ensures-pure, Ensures-raise, Ensures-now, Ensures-insert,
}
use aurforge.Package.{PackageInfo}
use aurforge.Queue.{mark_superseded}
use aurforge.Registry.{
  only_row, has_name, has_revision, insert_version, insert_job, new_version, new_job,
  is_other_version, is_waiting_for, version_ids, save_version,
}
use aurforge.Registry.Steps.{SameQueue, Kept, save_dependencies_lem, skip_pending_jobs_lem}

-- The package is in the table under its name.
pub record IsManaged (pkg : PackageInfo) (package_id : ℕ) (after : Tables) : Type 0 where
  pub row : ManagedPackage
  pub in_table : Memᴰ row after.packages
  pub named : row.name ≡ pkg.name
  pub row_id : row.id ≡ package_id

-- The two ways in which an import ends, with the id that it returns.
pub data Registered (base : Tables) (pkg : PackageInfo) (revision digest : Text)
    (eligible_at : Instant) (package_id : ℕ) (after : Tables) : ℕ → Type 0 where
  already_known :
      (v : PackageVersion)
      → SameQueue base after
      → Memᴰ v base.versions
      → v.package_id ≡ package_id
      → v.revision ≡ revision
      → Registered base pkg revision digest eligible_at package_id after v.id
  newly_queued :
      (id job_id : ℕ) (seen skip_time created : Instant)
      → after.versions ≡ base.versions ++ new_version pkg package_id revision digest seen id ∷ []
      → after.jobs
        ≡ update
            (is_waiting_for (version_ids (select (is_other_version package_id id) after.versions)))
            (mark_superseded skip_time)
            base.jobs
          ++ new_job id eligible_at created job_id ∷ []
      → after.artifacts ≡ base.artifacts
      → any (has_revision package_id revision) base.versions ≡ false
      → Registered base pkg revision digest eligible_at package_id after id

pub only_row-mem : {A : Type 0} (xs : List A) {a : A} → only_row xs ≡ ok a → Memᴰ a xs
only_row-mem [] h = cc
only_row-mem (x ∷ []) h = Memᴰ.head (sym (ok_injective h))
only_row-mem (x ∷ y ∷ xs) h = cc

pub insert_version_lem :
    (v m : PackageVersion) (t u : Tables)
    → insert_version v t ≡ ok (m, u)
    → (m ≡ v)
      × (u ≡ record t { versions = t.versions ++ v ∷ [] })
      × (any (has_revision v.package_id v.revision) t.versions ≡ false)
unfolding insert_version
insert_version_lem v m t u h = ground arith

pub insert_job_lem :
    (j : Job) (t u : Tables)
    → insert_job j t ≡ ok (tt, u)
    → u ≡ record t { jobs = t.jobs ++ j ∷ [] }
unfolding insert_job
insert_job_lem j t u h = ground arith

module _ (env : Env) (base : Tables) (pkg : PackageInfo) (revision digest : Text)
    (eligible_at : Instant) (package_id : ℕ) where
  -- Just before the commit.
  abbrev pub Ready : PackageVersion → Session → Type 0
  Ready v s =
      (s.committed ≡ base)
      × IsManaged pkg package_id s.working
      × Registered base pkg revision digest eligible_at package_id s.working v.id

  -- The tables after the insertion of the version, after the jobs were skipped, and after the job
  -- was inserted, put together.
  pub newly_queued_lem :
      (t₁ t₂ t₄ t₆ : Tables) (id : ℕ) (seen skip_time created : Instant) (job_id : ℕ)
      → SameQueue base t₁
      → t₂ ≡ record t₁ {
        versions = t₁.versions ++ new_version pkg package_id revision digest seen id ∷ [];
      }
      → t₄.versions ≡ t₂.versions
      → t₄.artifacts ≡ t₂.artifacts
      → t₄.jobs
        ≡ update
            (is_waiting_for (version_ids (select (is_other_version package_id id) t₂.versions)))
            (mark_superseded skip_time)
            t₂.jobs
      → t₆ ≡ record t₄ { jobs = t₄.jobs ++ new_job id eligible_at created job_id ∷ [] }
      → any (has_revision package_id revision) t₁.versions ≡ false
      → Registered base pkg revision digest eligible_at package_id t₆ id
  newly_queued_lem t₁ t₂ t₄ t₆ id seen skip_time created job_id q e₂ v₄ a₄ j₄ e₆ new =
      let row = new_version pkg package_id revision digest seen id in
      let vs : t₆.versions ≡ t₂.versions = ap (λ (x : Tables). x.versions) e₆ ∙ v₄ in
      let js : t₂.jobs ≡ base.jobs = ap (λ (x : Tables). x.jobs) e₂ ∙ q.jobs in
      newly_queued id job_id seen skip_time created
        (vs ∙ ap (λ (x : Tables). x.versions) e₂ ∙ ap (λ l. l ++ row ∷ []) q.versions)
        (ap (λ (x : Tables). x.jobs) e₆
          ∙ ap (λ l. l ++ new_job id eligible_at created job_id ∷ [])
              (j₄
                ∙ ap
                    (λ l.
                      update
                        (is_waiting_for (version_ids (select (is_other_version package_id id) l)))
                        (mark_superseded skip_time) t₂.jobs)
                    (sym vs)
                ∙ ap
                    (update
                      (is_waiting_for
                        (version_ids (select (is_other_version package_id id) t₆.versions)))
                      (mark_superseded skip_time))
                    js))
        (ap (λ (x : Tables). x.artifacts) e₆
          ∙ a₄
          ∙ ap (λ (x : Tables). x.artifacts) e₂
          ∙ q.artifacts)
        (subst (λ l. any (has_revision package_id revision) l ≡ false) q.versions new)

  pub IsManaged-moved :
      (t u : Tables)
      → u.packages ≡ t.packages
      → IsManaged pkg package_id t
      → IsManaged pkg package_id u
  IsManaged-moved t u e m = record {
    row = m.row;
    in_table = subst (Memᴰ m.row) (sym e) m.in_table;
    named = m.named;
    row_id = m.row_id;
  }

  pub save_version_lem :
      (r : Result PackageVersion) (s : Session)
      → s.committed ≡ base
      → SameQueue base s.working
      → IsManaged pkg package_id s.working
      → ((v : PackageVersion)
          → r ≡ ok v
          → Memᴰ v base.versions × (v.package_id ≡ package_id) × (v.revision ≡ revision))
      → Ensures
          (save_version env pkg package_id revision digest eligible_at r)
          s
          Ready
          (Kept env base)
  unfolding save_version
  save_version_lem (ok v) s c q m h =
      let (n, p, e) = h v refl in Ensures-pure v s (c, m, already_known v q n p e)
  save_version_lem (err not_found) s c q m h =
      Ensures-bind _ _ s _ Ready
        (Ensures-now env base {current = s.working} s (record { untouched = c; now_at = refl }))
        λ seen s₁ (_, w₁).
          Ensures-bind _ _ s₁ _ Ready (Ensures-insert env base s₁ w₁ _ _ _) λ v s₂ (e₂, c₂).
            let row = new_version pkg package_id revision digest seen s₁.identities.next_version in
            let (is_row, t₂, unknown) = insert_version_lem row v s.working s₂.working e₂ in
            Ensures-bind _ _ s₂ _ Ready
              (save_dependencies_lem env base v.id pkg.dependencies s₂.working s₂ (record {
                untouched = c₂;
                packages = refl;
                versions = refl;
                jobs = refl;
                artifacts = refl;
              }))
              λ _ s₃ w₃.
                Ensures-bind _ _ s₃ _ Ready
                  (skip_pending_jobs_lem env base package_id v.id s₂.working s₃ w₃)
                  λ _ s₄ (c₄, p₄, v₄, a₄, skip_time, j₄).
                    Ensures-bind _ _ s₄ _ Ready
                      (Ensures-now env base {current = s₄.working} s₄
                        (record { untouched = c₄; now_at = refl }))
                      λ created s₅ (_, w₅).
                        Ensures-bind _ _ s₅ _ Ready (Ensures-insert env base s₅ w₅ _ _ _)
                          λ _ s₆ (e₆, c₆).
                            let t₆ =
                              insert_job_lem
                                (new_job v.id eligible_at created s₅.identities.next_job) s₄.working
                                s₆.working e₆ in
                            let same_id = ap (λ (x : PackageVersion). x.id) is_row in
                            Ensures-pure v s₆ (
                              c₆,
                              IsManaged-moved s.working s₆.working
                                  (ap (λ (x : Tables). x.packages) t₆
                                    ∙ p₄
                                    ∙ ap (λ (x : Tables). x.packages) t₂)
                                  m,
                              newly_queued_lem s.working s₂.working s₄.working s₆.working v.id seen
                                  skip_time created s₅.identities.next_job q
                                  (t₂
                                    ∙ ap
                                        (λ i. record s.working {
                                          versions =
                                              s.working.versions
                                              ++ new_version pkg package_id revision digest seen i
                                                ∷ [];
                                        })
                                        (sym same_id))
                                  v₄ a₄ j₄ t₆ unknown,
                            )
  save_version_lem (err e) s c q m h = Ensures-raise e s c

-- The row that an `Only` found is in the table and passes its test.
pub found_row :
    {A : Type 0} (test : A → Bool) (xs : List A) (r : Result A)
    → (r ≡ only_row (select test xs)) ⊎ ((n : ℕ) × (r ≡ err (driver n)))
    → (a : A) → r ≡ ok a
    → Memᴰ a xs × (test a ≡ true)
found_row test xs r (inl e) a h =
    let m = only_row-mem (select test xs) (sym e ∙ h) in
    (mem-select test xs m, All-mem (λ x. test x ≡ true) (select test xs) (select-All test xs) m)
found_row test xs r (inr (n, e)) a h = cc

pub has_name-eq : (name : Text) (p : ManagedPackage) → has_name name p ≡ true → p.name ≡ name
unfolding has_name
has_name-eq name p h = (text_eq_iff p.name name).0 h

pub has_revision-eq :
    (id : ℕ) (revision : Text) (v : PackageVersion)
    → has_revision id revision v ≡ true
    → (v.package_id ≡ id) × (v.revision ≡ revision)
unfolding has_revision
has_revision-eq id revision v h = ground (arith, text_eq_iff v.revision revision)

-- How an import that returns an id leaves the tables.
abbrev pub Imported : PackageInfo → Text → Text → Instant → Tables → ℕ → Session → Type 0
Imported pkg revision digest eligible_at base id t =
    (package_id : ℕ) × IsManaged pkg package_id t.committed
    × Registered base pkg revision digest eligible_at package_id t.committed id
