-- ===== src/Publish/Outcome.antt =====
-- publishJob of internal/roles.go: what is in the database when it returns, with and without an
-- error, and how the publisher leaves the job.
use aurforge.Common.{
  codes, ◌++◌, decimal, ℕ, Text, List, [], ◌∷◌, map, Option, none, some, ◌≡◌, ◌≢◌, ◌⊎◌, inl, inr,
  true, false, refl, sym, ◌∙◌, ap, subst, Memᴰ, select,
}
use aurforge.Store.{Tables, Instant, failed}
use aurforge.Session.{
  Error, Result, ok, err, Env, Session, attempt, perform, make_repo, repo_add, no_package_files,
  now, file_error,
}
use aurforge.Session.Ensures.{
  Ensures, Ensures-bind, Ensures-pure, Ensures-raise, Ensures-client_execute, Ensures-weaken,
  Ensures-weaken-failure, Ensures-attempted,
}
use aurforge.Queue.{update_job, publish_row, mark_row, mark_job, job_artifacts}
use aurforge.Queue.Marking.{Marked, mark_job_lem}
use aurforge.Config.{Config}
use aurforge.Notify.{notify_failure}
use aurforge.Notify.Quiet.{notify_failure_lem}
use aurforge.Queue.Loop.{update_job_jobs}
use aurforge.Publish.{
  Entry, is_package_file, directory_entries, unless_failed, publish_files, add_to_repository,
  publish_job, after_publish, publish_or_fail,
}
use aurforge.Publish.Published.{
  Adds, IsRecorded, Adds-same, Adds-trans, Kept, now_lem, perform_lem, moved, unless_failed_lem,
  publish_files_lem,
}

-- What publishJob leaves when it returns without an error: each package file of the directory is
-- an artifact, there is one, and the job is marked as published.
pub record IsPublished (staged : ℕ → Option (List Entry)) (id : ℕ) (before after : Tables)
    : Type 0 where
  pub entries : List Entry
  pub listed : staged id ≡ some entries
  pub has_file : select is_package_file entries ≢ []
  pub recorded :
      (e : Entry) → Memᴰ e entries → is_package_file e ≡ true → IsRecorded id after e.name
  pub with_artifacts : Tables
  pub adds : Adds id before with_artifacts
  pub time : Instant
  pub marked : update_job id (publish_row time) with_artifacts ≡ ok after

-- And with one: artifacts may be there, and the job is marked as failed, but where MarkJob itself
-- returns an error at the session that publishJob left.
pub record IsFailed (env : Env) (id : ℕ) (published_at : Session) (before after : Tables)
    (text : Text) : Type 0 where
  pub with_artifacts : Tables
  pub adds : Adds id before with_artifacts
  pub marked :
      ((x : Error) × ((mark_job env id failed [] text published_at).0 ≡ err x)
        × (after ≡ with_artifacts))
      ⊎ ((time : Instant) × (update_job id (mark_row time failed [] text) with_artifacts
            ≡ ok after))

module _ (env : Env) (cfg : Config) (staged : ℕ → Option (List Entry)) (error_text : Error → Text)
    (id : ℕ) (base : Tables) where
  abbrev Stays : Session → Type 0
  Stays = Kept env cfg staged error_text id base

  directory_entries_lem :
      (found : Option (List Entry)) (s : Session)
      → Stays s
      → Ensures
          (directory_entries id found)
          s
          (λ entries t. (found ≡ some entries) × (t.committed ≡ s.committed))
          Stays
  directory_entries_lem none s h = Ensures-raise (file_error id) s h
  directory_entries_lem (some entries) s h = Ensures-pure entries s (refl, refl)

  add_to_repository_lem :
      (files : List Text) (s : Session)
      → Stays s
      → Ensures
          (add_to_repository env cfg staged error_text id files)
          s
          (λ _ t. (files ≢ []) × (t.committed ≡ s.committed))
          Stays
  unfolding add_to_repository
  add_to_repository_lem [] s h = Ensures-raise no_package_files s h
  add_to_repository_lem (f ∷ fs) s h =
      Ensures-bind (perform env (repo_add (f ∷ fs))) _ s _ _
        (perform_lem env cfg staged error_text id base (repo_add (f ∷ fs)) s)
        λ added s₁ c₁.
          Ensures-weaken _ s₁ _ _
            (unless_failed_lem env cfg staged error_text id base added s₁
              (moved env cfg staged error_text id base h c₁))
            λ _ t c. ((λ e. cc), c ∙ c₁)

  job_artifacts_lem :
      (s : Session)
      → Stays s
      → Ensures
          (job_artifacts env id)
          s
          (λ _ t.
            (time : Instant) × (update_job id (publish_row time) s.committed ≡ ok t.committed))
          Stays
  unfolding job_artifacts
  job_artifacts_lem s h =
      Ensures-bind (now env) _ s _ _ (now_lem env cfg staged error_text id base s) λ time s₁ c₁.
        Ensures-weaken-failure _ s₁
          (Ensures-client_execute env s₁ (update_job id (publish_row time)))
          (λ _ q. (time, ap (update_job id (publish_row time)) (sym c₁) ∙ q))
          (λ q. moved env cfg staged error_text id base h (q ∙ c₁))

  update_job-IsRecorded :
      (mid after : Tables) (time : Instant) {name : Text}
      → update_job id (publish_row time) mid ≡ ok after
      → IsRecorded id mid name
      → IsRecorded id after name
  update_job-IsRecorded mid after time q (a, m, j, f) = (
    a,
    subst (λ (t : Tables). Memᴰ a t.artifacts) (sym (update_job_jobs id _ mid after q)) m,
    j,
    f,
  )

  publish_job_lem :
      (s : Session)
      → s.committed ≡ base
      → Ensures
          (publish_job env cfg staged error_text id)
          s
          (λ _ t. IsPublished staged id base t.committed)
          Stays
  unfolding publish_job
  publish_job_lem s h =
      let Goal = λ (_ : Unit {0}) (t : Session). IsPublished staged id base t.committed in
      Ensures-bind _ _ s _ Goal (directory_entries_lem (staged id) s (Adds-same id h))
        λ entries s₁ (l, c₁).
          Ensures-bind (perform env make_repo) _ s₁ _ Goal
            (perform_lem env cfg staged error_text id base make_repo s₁)
            λ made s₂ c₂.
              Ensures-bind (unless_failed id made) _ s₂ _ Goal
                (unless_failed_lem env cfg staged error_text id base made s₂
                  (Adds-same id (c₂ ∙ c₁ ∙ h)))
                λ _ s₃ c₃.
                  Ensures-bind (publish_files env cfg staged error_text id entries) _ s₃ _ Goal
                    (publish_files_lem env cfg staged error_text id base entries s₃
                      (Adds-same id (c₃ ∙ c₂ ∙ c₁ ∙ h)))
                    λ files s₄ (a, n, rs).
                      let a' : Adds id base s₄.committed =
                        Adds-trans id (Adds-same id (c₃ ∙ c₂ ∙ c₁ ∙ h)) a in
                      Ensures-bind (add_to_repository env cfg staged error_text id files) _ s₄ _
                        Goal (add_to_repository_lem files s₄ a')
                        λ _ s₅ (ne, c₅).
                          Ensures-weaken _ s₅ _ Goal
                            (job_artifacts_lem s₅ (moved env cfg staged error_text id base a' c₅))
                            λ _ t (time, q).
                              let q' : update_job id (publish_row time) s₄.committed
                                  ≡ ok t.committed =
                                ap (update_job id (publish_row time)) (sym c₅) ∙ q in
                              record {
                                entries = entries;
                                listed = l;
                                has_file = λ e. ne (n ∙ ap (map (λ (x : Entry). x.name)) e);
                                recorded = λ e m on.
                                    update_job-IsRecorded s₄.committed t.committed time q'
                                      (rs e m on);
                                with_artifacts = s₄.committed;
                                adds = a';
                                time = time;
                                marked = q';
                              }

-- If publishJob returns without an error, its directory has a package file, each of them is an
-- artifact of the job and the job is marked as published; with one, no job has changed. In both
-- cases the only other rows that are new are artifacts of the job, and none is lost.
pub publish_job-IsPublished :
    (env : Env) (cfg : Config) (staged : ℕ → Option (List Entry)) (error_text : Error → Text)
    (id : ℕ) (s : Session)
    → Ensures
        (publish_job env cfg staged error_text id)
        s
        (λ _ t. IsPublished staged id s.committed t.committed)
        (λ t. Adds id s.committed t.committed)
publish_job-IsPublished env cfg staged error_text id s =
    publish_job_lem env cfg staged error_text id s.committed s refl

-- How the publisher leaves a job: as published, or with a failed publication behind it.
-- `outcome` is what publishJob returns, and `published_at` the session that it leaves.
pub data IsSettled (env : Env) (staged : ℕ → Option (List Entry)) (error_text : Error → Text)
    (id : ℕ) (outcome : Result (Unit {0})) (published_at : Session) (before after : Tables)
    : Type 0 where
  as_published :
      outcome ≡ ok tt
      → IsPublished staged id before after
      → IsSettled env staged error_text id outcome published_at before after
  as_failed :
      (e : Error)
      → outcome ≡ err e
      → IsFailed env id published_at before after (error_text e)
      → IsSettled env staged error_text id outcome published_at before after

module _ (env : Env) (cfg : Config) (staged : ℕ → Option (List Entry)) (error_text : Error → Text)
    (id : ℕ) (base : Tables) where
  abbrev Settled : Result (Unit {0}) → Session → Unit {0} → Session → Type 0
  Settled outcome at_session _ t =
      IsSettled env staged error_text id outcome at_session base t.committed

  mark_failed_lem :
      {F : Session → Type 0} (text : Text) (s : Session)
      → Adds id base s.committed
      → Ensures
          (attempt (mark_job env id failed [] text))
          s
          (λ _ t. IsFailed env id s base t.committed text)
          F
  mark_failed_lem text s a =
      Ensures-weaken _ s _ _
        (Ensures-attempted (mark_job env id failed [] text) s
          (mark_job_lem env id failed [] text s))
        (λ r t o. failed_from t.committed o)
    where
      failed_from :
          (after : Tables)
          → ((u : Unit {0}) × ((mark_job env id failed [] text s).0 ≡ ok u)
              × Marked id failed [] text s.committed after)
            ⊎ ((e : Error) × ((mark_job env id failed [] text s).0 ≡ err e) × (after ≡ s.committed))
          → IsFailed env id s base after text
      failed_from after (inl (_, _, done)) = record {
        with_artifacts = s.committed;
        adds = a;
        marked = inr done;
      }
      failed_from after (inr (x, f, same)) = record {
        with_artifacts = s.committed;
        adds = a;
        marked = inl (x, f, same);
      }

  after_publish_lem :
      {F : Session → Type 0} (r : Result (Unit {0})) (s : Session)
      → ((u : Unit {0}) × (r ≡ ok u) × IsPublished staged id base s.committed)
        ⊎ ((e : Error) × (r ≡ err e) × Adds id base s.committed)
      → Ensures (after_publish env cfg staged error_text id r) s (Settled r s) F
  unfolding after_publish
  after_publish_lem (ok tt) s (inl (_, _, p)) = Ensures-pure tt s (as_published refl p)
  after_publish_lem (ok u) s (inr (_, e, _)) = cc
  after_publish_lem (err e) s (inl (_, h, _)) = cc
  after_publish_lem (err e) s (inr (_, _, a)) =
      Ensures-bind (attempt (mark_job env id failed [] (error_text e))) _ s _ (Settled (err e) s)
        (mark_failed_lem (error_text e) s a)
        λ _ s₁ f.
          Ensures-bind (notify_failure env cfg (codes "job " ++ decimal id) (error_text e)) _ s₁ _
            (Settled (err e) s)
            (notify_failure_lem env cfg (codes "job " ++ decimal id) (error_text e) s₁)
            λ _ s₂ c.
              Ensures-pure tt s₂
                (as_failed e refl (subst (λ t. IsFailed env id s base t (error_text e)) (sym c) f))

-- The publisher goes on after each job without an error of its own: where publishJob returns no
-- error the job is as it left it, and where it does the job is marked as failed with the text of
-- that error, but where MarkJob returns an error too, and then no job has changed.
pub publish_or_fail-IsSettled :
    (env : Env) (cfg : Config) (staged : ℕ → Option (List Entry)) (error_text : Error → Text)
    (id : ℕ) (s : Session)
    → Ensures
        (publish_or_fail env cfg staged error_text id)
        s
        (λ _ t.
          IsSettled env staged error_text id
            (publish_job env cfg staged error_text id s).0
            (publish_job env cfg staged error_text id s).1
            s.committed
            t.committed)
        (λ _. false ≡ true)
unfolding publish_or_fail
publish_or_fail-IsSettled env cfg staged error_text id s =
    let publish = publish_job env cfg staged error_text id in
    let outcome =
      Ensures-attempted publish s {F = λ _. false ≡ true}
        (publish_job-IsPublished env cfg staged error_text id s) in
    let h =
      after_publish_lem env cfg staged error_text id s.committed {F = λ _. false ≡ true}
        (publish s).0 (publish s).1 (outcome.success (publish s).0 refl) in
    record { success = h.success; failure = h.failure }
