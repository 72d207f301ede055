-- ===== src/Tests/Publish.antt =====
-- A built job with one package file and a log in its staging directory.
use aurforge.Common.{
  none, ℕ, ◌+◌, Text, codes, true, false, [], ◌∷◌, Option, some, ◌≡◌, refl, map, contains, List,
  ◌==◌,
}
use aurforge.Store.{Job, Status, built, published, failed}
use aurforge.Session.{
  Error, Env, Session, now, perform, client_query, client_insert, client_execute,
}
use aurforge.Session.Ensures.{Ensures}
use aurforge.Queue.{job_artifacts, update_job, publish_row, mark_row, mark_job}
use aurforge.Config.{Config, config_of, minutes, env_or, trim_right_of, trim_left_of}
use aurforge.Notify.{notify_failure}
use aurforge.Publish.{
  Entry, publish_job, publish_or_fail, publisher_round, built_jobs, by_id, insert_by_id,
  is_package_file, is_artifact, insert_artifact,
}
use aurforge.Publish.Published.{Adds}
use aurforge.Publish.Rounds.{IsQueue, AllSettled, publisher_round-AllSettled}
use aurforge.Publish.Outcome.{
  IsPublished, IsSettled, publish_job-IsPublished, publish_or_fail-IsSettled,
}

abbrev quiet : Env
quiet = record { fails = λ n. false; absent = λ n. false; clock = λ n. n + 100 }

-- Nothing fails but the insertion of the artifact.
abbrev no_insertion : Env
no_insertion = record { fails = λ n. n == 5; absent = λ n. false; clock = λ n. n + 100 }

abbrev built_job : ℕ → Job
built_job id = record {
  id = id;
  package_version_id = 1;
  kind = codes "build";
  status = built;
  eligible_at = 5;
  claimed_at = some 6;
  finished_at = some 7;
  attempts = 1;
  log_path = codes "log";
  error = [];
  created_at = 1;
}

abbrev one_built : Session
one_built = record {
  committed = record {
    packages = [];
    versions = [];
    dependencies = [];
    jobs = built_job 4 ∷ [];
    artifacts = [];
  };
  working = record { packages = []; versions = []; dependencies = []; jobs = []; artifacts = [] };
  identities = record {
    next_package = 2;
    next_version = 2;
    next_dependency = 1;
    next_job = 5;
    next_artifact = 1;
  };
  effects = [];
  calls = 0;
}

abbrev staging : ℕ → Option (List Entry)
staging id = some (
    record { name = codes "log"; is_dir = false; sha256 = []; size_bytes = 3 }
    ∷ record {
      name = codes "demo-1-1-any.pkg.tar.zst";
      is_dir = false;
      sha256 = codes "ab";
      size_bytes = 9;
    }
    ∷ [])

abbrev text_of : Error → Text
text_of e = codes "error"

abbrev no_variables : Text → Text
no_variables key = []

abbrev settings : Config
settings = config_of no_variables (λ text. none) (minutes 30) (minutes 60) (minutes 30)

abbrev statuses : Session → List Status
statuses s = map (λ (j : Job). j.status) s.committed.jobs

published_run :
    statuses (publisher_round quiet settings staging text_of one_built).1 ≡ published ∷ []
unfolding publisher_round publish_or_fail publish_job built_jobs by_id insert_by_id is_package_file
    is_artifact insert_artifact now perform client_query client_insert client_execute mark_job
    job_artifacts update_job publish_row mark_row contains notify_failure config_of env_or
    trim_right_of trim_left_of
published_run = refl

failed_run :
    statuses (publisher_round no_insertion settings staging text_of one_built).1 ≡ failed ∷ []
unfolding publisher_round publish_or_fail publish_job built_jobs by_id insert_by_id is_package_file
    is_artifact insert_artifact now perform client_query client_insert client_execute mark_job
    job_artifacts update_job publish_row mark_row contains notify_failure config_of env_or
    trim_right_of trim_left_of
failed_run = refl

publish_job-IsPublished_example :
    Ensures
      (publish_job quiet settings staging text_of 4)
      one_built
      (λ _ t. IsPublished staging 4 one_built.committed t.committed)
      (λ t. Adds 4 one_built.committed t.committed)
publish_job-IsPublished_example = publish_job-IsPublished quiet settings staging text_of 4 one_built

publish_or_fail-IsSettled_example :
    Ensures
      (publish_or_fail no_insertion settings staging text_of 4)
      one_built
      (λ _ t.
        IsSettled no_insertion staging text_of 4
          (publish_job no_insertion settings staging text_of 4 one_built).0
          (publish_job no_insertion settings staging text_of 4 one_built).1
          one_built.committed
          t.committed)
      (λ _. false ≡ true)
publish_or_fail-IsSettled_example =
    publish_or_fail-IsSettled no_insertion settings staging text_of 4 one_built

publisher_round-AllSettled_example :
    Ensures
      (publisher_round quiet settings staging text_of)
      one_built
      (λ _ t.
        (jobs : List Job) × (first : Session) × IsQueue one_built.committed jobs
        × (first.committed ≡ one_built.committed)
        × AllSettled quiet settings staging text_of jobs first t)
      (λ t. t.committed ≡ one_built.committed)
publisher_round-AllSettled_example =
    publisher_round-AllSettled quiet settings staging text_of one_built
