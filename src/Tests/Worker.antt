-- ===== src/Tests/Worker.antt =====
-- A worker with one due job, on a machine where nothing fails, and on one where docker does.
use aurforge.Common.{
  ℕ, ◌+◌, ◌*◌, ◌/◌, Text, codes, true, false, [], ◌∷◌, Option, none, some, ◌≡◌, refl, map, List,
  arith, ◌==◌, leb, ltb, ◌&&◌, digits, digits_onto, decimal, decimal_onto, Memᴰ, has_prefix,
  has_suffix, trim_suffix, trim_space, split, join, text_eq,
}
use aurforge.Store.{Tables, Job, Status, local, pending, built, failed}
use aurforge.Session.{
  Error, Result, Env, Session, now, begin, commit, query, execute, perform, client_execute,
  docker_run,
}
use aurforge.Session.Ensures.{Ensures}
use aurforge.Session.Effects.{Does}
use aurforge.Config.{Config, config_of, minutes, env_or, trim_right_of, trim_left_of}
use aurforge.Queue.{
  ClaimedJob, claim_round, claim_job, next_due, latest_version, due_before, is_due, newer,
  version_by_id, package_by_id, update_job, mark_row, mark_job,
}
use aurforge.Host.Paths.{
  clean, clean_parts, push_parts, push_part, is_abs, join_path, relative_path, differ,
}
use aurforge.Notify.{notify_failure}
use aurforge.Worker.{
  Floats, WorkerStep, worker_round, work_on, build_job, resolve_cpu_cap, resolve_percentage,
}
use aurforge.Worker.Confined.{IsBuild, IsConfined, build_job-IsConfined}
use aurforge.Worker.Turns.{IsTurn, worker_round-IsTurn}

-- Whole numbers in place of floating ones.
abbrev whole_numbers : Floats
whole_numbers = record {
  Float = ℕ;
  parse = digits;
  is_percentage = λ n. ltb 0 n && leb n 100;
  is_positive = λ n. ltb 0 n;
  share = λ count percent. decimal (count * percent / 100);
}

abbrev unset : Text → Text
unset key = []

abbrev pub cfg : Config
cfg = config_of unset (λ text. none) (minutes 30) (minutes 60) (minutes 30)

abbrev pub reliable : Env
reliable = record { fails = λ n. false; absent = λ n. false; clock = λ n. n + 100 }

-- The container of the build ends with an error.
abbrev broken_build : Env
broken_build = record { fails = λ n. n == 17; absent = λ n. false; clock = λ n. n + 100 }

abbrev pub one_due : Tables
one_due = record {
  packages =
      record {
        id = 1;
        name = codes "demo";
        source_kind = local;
        source_ref = codes "/imports/demo";
        source_path = codes "/var/lib/aurforge/sources/local/demo/00";
        enabled = true;
        created_at = 1;
        updated_at = 1;
      }
      ∷ [];
  versions =
      record {
        id = 1;
        package_id = 1;
        revision = codes "00";
        source_digest = codes "00";
        pkgver = codes "1";
        pkgrel = codes "1";
        metadata = [];
        first_seen_at = 1;
      }
      ∷ [];
  dependencies = [];
  jobs =
      record {
        id = 7;
        package_version_id = 1;
        kind = codes "build";
        status = pending;
        eligible_at = 5;
        claimed_at = none;
        finished_at = none;
        attempts = 0;
        log_path = [];
        error = [];
        created_at = 1;
      }
      ∷ [];
  artifacts = [];
}

abbrev pub starting : Session
starting = record {
  committed = one_due;
  working = one_due;
  identities = record {
    next_package = 2;
    next_version = 2;
    next_dependency = 1;
    next_job = 8;
    next_artifact = 1;
  };
  effects = [];
  calls = 0;
}

abbrev error_of : Error → Text
error_of e = codes "error"

abbrev statuses_after : Option (Result WorkerStep × Session) → List Status
statuses_after none = []
statuses_after (some (r, s)) = map (λ (j : Job). j.status) s.committed.jobs

abbrev demo_job : ClaimedJob
demo_job = record {
  id = 7;
  package_name = codes "demo";
  source_path = codes "/var/lib/aurforge/sources/local/demo/00";
  package_version = 1;
}

built_run :
    statuses_after (worker_round reliable cfg whole_numbers (some (codes "8")) error_of 2 starting)
    ≡ built ∷ []
unfolding worker_round work_on build_job claim_job claim_round now begin commit query execute
    next_due due_before is_due newer latest_version version_by_id package_by_id update_job mark_row
    mark_job perform client_execute notify_failure config_of env_or trim_right_of trim_left_of clean
    clean_parts push_parts push_part is_abs join_path relative_path differ has_prefix has_suffix
    trim_suffix trim_space split join text_eq digits digits_onto decimal decimal_onto
    resolve_cpu_cap resolve_percentage
built_run = refl

failed_build_run :
    statuses_after
      (worker_round broken_build cfg whole_numbers (some (codes "8")) error_of 2 starting)
    ≡ failed ∷ []
unfolding worker_round work_on build_job claim_job claim_round now begin commit query execute
    next_due due_before is_due newer latest_version version_by_id package_by_id update_job mark_row
    mark_job perform client_execute notify_failure config_of env_or trim_right_of trim_left_of clean
    clean_parts push_parts push_part is_abs join_path relative_path differ has_prefix has_suffix
    trim_suffix trim_space split join text_eq digits digits_onto decimal decimal_onto
    resolve_cpu_cap resolve_percentage
failed_build_run = refl

worker_round-IsTurn_example :
    (r : Result WorkerStep) × (t : Session) × (worker_round broken_build cfg whole_numbers
        (some (codes "8"))
        error_of
        2
        starting
      ≡ some (r, t))
    × IsTurn broken_build cfg whole_numbers (some (codes "8")) error_of starting t r
worker_round-IsTurn_example =
    worker_round-IsTurn broken_build cfg whole_numbers (some (codes "8")) error_of 2 starting
      (omega arith)

build_job-IsConfined_example :
    Ensures
      (build_job reliable cfg whole_numbers (some (codes "8")) error_of demo_job)
      starting
      (λ _ t.
        Does (IsConfined cfg whole_numbers (some (codes "8")) demo_job) starting t
        × ((command : List Text) × IsBuild cfg whole_numbers (some (codes "8")) demo_job command
            × Memᴰ (docker_run command) t.effects))
      (Does (IsConfined cfg whole_numbers (some (codes "8")) demo_job) starting)
build_job-IsConfined_example =
    build_job-IsConfined reliable cfg whole_numbers (some (codes "8")) error_of demo_job starting
