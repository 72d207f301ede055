-- ===== src/Publish.antt =====
-- RunPublisher and publishJob of internal/roles.go: what a worker built enters the repository.
pub mod Published
pub mod Outcome
pub mod Rounds
use aurforge.Common.{
  decimal, ℕ, ◌+◌, Text, codes, text_eq, contains, Bool, true, false, not, ◌&&◌, List, [], ◌∷◌,
  ◌++◌, Option, none, some, ltb, ◌==◌, if◌then◌else◌, select, any,
}
use aurforge.Store.{Tables, Job, Artifact, Identities, failed, is_built}
use aurforge.Session.{
  Error, constraint, file_error, no_package_files, Result, ok, err, Env, Session, M, ◌>>=◌, ◌>>◌,
  pure, raise, attempt, now, client_query, client_insert, perform, make_repo, copy_to_repo,
  repo_add,
}
use aurforge.Config.{Config}
use aurforge.Notify.{notify_failure}
use aurforge.Queue.{mark_job, job_artifacts}

-- An entry of the staging directory of a job, with what copying it finds of its bytes.
pub record Entry : Type 0 where
  pub name : Text
  pub is_dir : Bool
  pub sha256 : Text
  pub size_bytes : ℕ

unfoldable pub is_package_file : Entry → Bool
is_package_file e = not e.is_dir && contains (codes ".pkg.tar") e.name

unfoldable pub is_artifact : ℕ → Text → Artifact → Bool
is_artifact job_id filename a = a.job_id == job_id && text_eq a.filename filename

-- The insertion of an artifact, with the unique index of its table.
unfoldable pub insert_artifact : Artifact → Tables → Result (Unit {0} × Tables)
insert_artifact a t =
    if any (is_artifact a.job_id a.filename) t.artifacts
    then err constraint
    else ok (tt, record t { artifacts = t.artifacts ++ a ∷ [] })

abbrev pub directory_entries : ℕ → Option (List Entry) → M (List Entry)
directory_entries id none = raise (file_error id)
directory_entries id (some entries) = pure entries

-- `if err != nil { return err }` behind an operation on files.
abbrev pub unless_failed : ℕ → Bool → M (Unit {0})
unless_failed id true = pure tt
unless_failed id false = raise (file_error id)

-- Where(StatusEQ(StatusBuilt)), Order(Asc(FieldID))
unfoldable pub insert_by_id : Job → List Job → List Job
insert_by_id j [] = j ∷ []
insert_by_id j (k ∷ ks) =
    let rest = insert_by_id j ks in if ltb k.id j.id then k ∷ rest else j ∷ k ∷ ks

unfoldable pub by_id : List Job → List Job
unfolding insert_by_id
by_id [] = []
by_id (j ∷ js) = insert_by_id j (by_id js)

unfoldable pub built_jobs : Tables → List Job
unfolding by_id
built_jobs t = by_id (select (λ j. is_built j.status) t.jobs)

-- `staged` is what os.ReadDir returns of a job's staging directory (`none` is an error), and
-- `error_text` the text of an error.
module _ (env : Env) (cfg : Config) (staged : ℕ → Option (List Entry))
    (error_text : Error → Text) where
  pub record_artifact : ℕ → Entry → Bool → M (Unit {0})
  record_artifact id e true = pure tt
  record_artifact id e false = do
    time ← now env
    client_insert env (λ ids. ids.next_artifact)
        (λ ids. record ids { next_artifact = ids.next_artifact + 1 })
        (λ key. insert_artifact (record {
          id = key;
          job_id = id;
          filename = e.name;
          sha256 = e.sha256;
          size_bytes = e.size_bytes;
          published_at = some time;
        }))

  -- One turn of the loop over the entries, at a package file.
  pub publish_file : ℕ → Entry → M (Unit {0})
  unfolding record_artifact
  publish_file id e = do
    copied ← perform env (copy_to_repo id e.name)
    unless_failed id copied
    known ← client_query env (λ t. ok (any (is_artifact id e.name) t.artifacts))
    record_artifact id e known

  -- The loop; its value is the list `files`, by their names in the repository.
  pub publish_files : ℕ → List Entry → M (List Text)
  unfolding publish_file
  publish_files id [] = pure []
  publish_files id (e ∷ es) = elim (is_package_file e) [
    | true ↦ (do publish_file id e; files ← publish_files id es; pure (e.name ∷ files))
    | false ↦ publish_files id es
  ]

  pub add_to_repository : ℕ → List Text → M (Unit {0})
  add_to_repository id [] = raise no_package_files
  add_to_repository id (f ∷ fs) = do added ← perform env (repo_add (f ∷ fs)); unless_failed id added

  unfoldable pub publish_job : ℕ → M (Unit {0})
  unfolding publish_files add_to_repository
  publish_job id = do
    entries ← directory_entries id (staged id)
    made ← perform env make_repo
    unless_failed id made
    files ← publish_files id entries
    add_to_repository id files
    job_artifacts env id

  -- What the publisher does with the error of publishJob: those of MarkJob and of the notice are
  -- dropped.
  pub after_publish : ℕ → Result (Unit {0}) → M (Unit {0})
  after_publish id (ok _) = pure tt
  after_publish id (err e) = do
    attempt (mark_job env id failed [] (error_text e))
    notify_failure env cfg (codes "job " ++ decimal id) (error_text e)
    pure tt

  unfoldable pub publish_or_fail : ℕ → M (Unit {0})
  unfolding publish_job after_publish
  publish_or_fail id = do outcome ← attempt (publish_job id); after_publish id outcome

  publish_each : List Job → M (Unit {0})
  unfolding publish_or_fail
  publish_each [] = pure tt
  publish_each (j ∷ js) = do publish_or_fail j.id; publish_each js

  -- One turn of the loop of RunPublisher, up to the wait.
  unfoldable pub publisher_round : M (Unit {0})
  unfolding publish_each
  publisher_round = do jobs ← client_query env (λ t. ok (built_jobs t)); publish_each jobs
