-- ===== src/Worker.antt =====
-- RunWorker, buildJob and resolveCPUCap of internal/roles.go.
pub mod Container
pub mod Confined
pub mod Turns
use aurforge.Common.{
  ℕ, Text, codes, Bool, true, false, List, [], ◌∷◌, ◌++◌, Option, none, some, if◌then◌else◌,
  has_prefix, has_suffix, trim_suffix, trim_space, and_then, decimal,
}
use aurforge.Store.{built, failed}
use aurforge.Session.{
  Error, operation_failed, invalid_cpu_cap, invalid_source_path, Result, ok, err, Env, Session, M,
  Effect, ◌>>=◌, ◌>>◌, pure, raise, attempt, perform, make_directory, check_present,
  give_to_builder, create_log, make_readable, docker_run,
}
use aurforge.Config.{Config, staging_root, cache_root}
use aurforge.Queue.{ClaimedJob, claim_job, mark_job}
use aurforge.Notify.{notify_failure}
use aurforge.Host.{resolve_host_data_root}
use aurforge.Host.Paths.{join_path, relative_path}

-- What resolveCPUCap uses of float64: strconv.ParseFloat, the negations of the tests
-- `percent <= 0 || percent > 100` and `count <= 0`, and FormatFloat(count*percent/100, 'f', 2, 64).
pub record Floats : Type 1 where
  pub Float : Type 0
  pub parse : Text → Option Float
  pub is_percentage : Float → Bool
  pub is_positive : Float → Bool
  pub share : Float → Float → Text

-- `cpu_count` is what docker info prints; `none` is an error.
module _ (floats : Floats) (cpu_count : Option Text) where
  abbrev pub checked_float : (floats.Float → Bool) → floats.Float → Option floats.Float
  checked_float p x = if p x then some x else none

  unfoldable pub resolve_percentage : Text → Option Text
  unfolding trim_space
  resolve_percentage text = and_then (floats.parse text) (λ parsed.
      and_then (checked_float floats.is_percentage parsed) (λ percent.
        and_then cpu_count (λ printed. and_then (floats.parse (trim_space printed)) (λ counted.
          and_then (checked_float floats.is_positive counted)
            (λ count. some (floats.share count percent))))))

  unfoldable pub resolve_cpu_cap : Text → Option Text
  unfolding resolve_percentage has_suffix trim_suffix
  resolve_cpu_cap value =
      let resolved = resolve_percentage (trim_suffix (codes "%") value) in
      if has_suffix (codes "%") value then resolved else some value

-- The start of RunWorker: `found` is what the mounts of the container give for the data root.
unfoldable pub worker_config : Option Text → Config → Option Config
unfolding resolve_host_data_root
worker_config found cfg =
    and_then (resolve_host_data_root found cfg.host_data_root)
      (λ root. some (record cfg { host_data_root = root }))

unfoldable pub job_directory : ℕ → Text
unfolding decimal
job_directory id = codes "job-" ++ decimal id

unfoldable pub log_file : Config → ℕ → Text
unfolding decimal
log_file cfg id =
    join_path (join_path cfg.data_root (codes "logs")) (codes "job-" ++ decimal id ++ codes ".log")

-- The arguments of the container that builds, with the source under the host's data root.
unfoldable pub build_command : Config → ℕ → Text → Text → List Text
unfolding job_directory
build_command cfg id relative_source cpus =
    codes "docker"
    ∷ codes "run"
    ∷ codes "--rm"
    ∷ codes "--network"
    ∷ codes "bridge"
    ∷ codes "--pids-limit"
    ∷ cfg.build_pids
    ∷ codes "--cpus"
    ∷ cpus
    ∷ codes "--cpu-shares"
    ∷ cfg.build_cpu_shares
    ∷ codes "--memory"
    ∷ cfg.build_memory
    ∷ codes "--mount"
    ∷ (codes "type=bind,src="
        ++ join_path cfg.host_data_root relative_source
        ++ codes ",dst=/input,readonly")
    ∷ codes "--mount"
    ∷ (codes "type=bind,src="
        ++ join_path (join_path cfg.host_data_root (codes "staging")) (job_directory id)
        ++ codes ",dst=/output")
    ∷ codes "--mount"
    ∷ (codes "type=bind,src="
        ++ join_path (join_path cfg.host_data_root (codes "cache")) (codes "pacman")
        ++ codes ",dst=/var/cache/pacman/pkg")
    ∷ cfg.builder_image
    ∷ []

pub data WorkerStep : Type 0 where
  waiting worked : WorkerStep

module _ (env : Env) (cfg : Config) (floats : Floats) (cpu_count : Option Text)
    (error_text : Error → Text) where
  -- `if err := ...; err != nil { return err }`
  abbrev pub or_error : Bool → M (Unit {0})
  or_error true = pure tt
  or_error false = raise operation_failed

  abbrev pub checked : Effect → M (Unit {0})
  checked x = perform env x >>= or_error

  -- What follows the checks of buildJob on the path and on the share of the processors.
  pub build_in : ClaimedJob → Text → Text → M (Unit {0})
  build_in job relative_source cpus = do
    checked (make_directory (join_path (staging_root cfg) (job_directory job.id)))
    checked (make_directory (join_path (cache_root cfg) (codes "pacman")))
    checked (check_present (join_path job.source_path (codes "PKGBUILD")))
    checked (make_readable job.source_path)
    checked (give_to_builder (join_path (staging_root cfg) (job_directory job.id)))
    checked (give_to_builder (join_path (cache_root cfg) (codes "pacman")))
    checked (make_directory (join_path cfg.data_root (codes "logs")))
    checked (create_log (log_file cfg job.id))
    checked (docker_run (build_command cfg job.id relative_source cpus))

  pub build_capped : ClaimedJob → Text → Option Text → M (Unit {0})
  unfolding build_in
  build_capped job relative_source none = raise invalid_cpu_cap
  build_capped job relative_source (some cpus) = build_in job relative_source cpus

  -- What becomes of a source path that is `above` the data root, or not.
  pub build_below : ClaimedJob → Text → Bool → M (Unit {0})
  unfolding build_capped
  build_below job relative_source true = raise (invalid_source_path job.source_path)
  build_below job relative_source false =
      build_capped job relative_source (resolve_cpu_cap floats cpu_count cfg.build_cpus)

  pub build_from : ClaimedJob → Option Text → M (Unit {0})
  unfolding build_below
  build_from job none = raise (invalid_source_path job.source_path)
  build_from job (some relative_source) =
      build_below job relative_source (has_prefix (codes "..") relative_source)

  unfoldable pub build_job : ClaimedJob → M (Unit {0})
  unfolding build_from
  build_job job = build_from job (relative_path cfg.data_root job.source_path)

  -- The rest of a turn of the worker's loop, once the build has ended.
  pub after_build : ClaimedJob → Result (Unit {0}) → M WorkerStep
  after_build job (err e) = do
    attempt (mark_job env job.id failed (log_file cfg job.id) (error_text e))
    notify_failure env cfg job.package_name (error_text e)
    pure worked
  after_build job (ok _) = do mark_job env job.id built (log_file cfg job.id) []; pure worked

  unfoldable pub work_on : ClaimedJob → M WorkerStep
  unfolding build_job after_build
  work_on job = do outcome ← attempt (build_job job); after_build job outcome

  pub after_claim :
      Option (Result (Option ClaimedJob) × Session) → Option (Result WorkerStep × Session)
  unfolding work_on
  after_claim none = none
  after_claim (some (err e, s)) = some (err e, s)
  after_claim (some (ok none, s)) = some (ok waiting, s)
  after_claim (some (ok (some job), s)) = some (work_on job s)

  -- One turn of the loop of RunWorker on the fuel of ClaimJob, up to the wait.
  unfoldable pub worker_round : ℕ → Session → Option (Result WorkerStep × Session)
  unfolding after_claim
  worker_round fuel s = after_claim (claim_job env fuel s)
