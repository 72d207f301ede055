-- ===== src/Worker/Confined.antt =====
-- buildJob of internal/roles.go: which container it runs, and that a build changes no table.
use aurforge.Common.{
  Text, codes, Bool, true, false, List, Option, none, some, ◌≡◌, refl, Memᴰ, has_prefix,
}
use aurforge.Session.{
  Error, operation_failed, invalid_cpu_cap, invalid_source_path, Env, Session, Effect,
  make_directory, check_present, give_to_builder, create_log, make_readable, docker_run, perform,
}
use aurforge.Session.Ensures.{Ensures, Ensures-bind, Ensures-pure, Ensures-raise, Ensures-weaken}
use aurforge.Session.Effects.{Does, Does-none, Does-perform}
use aurforge.Config.{Config, staging_root, cache_root}
use aurforge.Queue.{ClaimedJob}
use aurforge.Host.Paths.{join_path, relative_path}
use aurforge.Host.Paths.Below.{IsBelow, relative_path-IsBelow}
use aurforge.Worker.{
  Floats, resolve_cpu_cap, job_directory, log_file, build_command, or_error, checked, build_in,
  build_capped, build_below, build_from, build_job,
}
use aurforge.Worker.Container.{Runs, build_command-Runs}

module _ (cfg : Config) (floats : Floats) (cpu_count : Option Text) (job : ClaimedJob) where
  -- The container of the job: it sees the source of the job, read-only, only if that lies below
  -- the data root, and its share of the processors is the one that was resolved.
  abbrev pub IsBuild : List Text → Type 0
  IsBuild command =
      (relative cpus : Text) × IsBelow cfg.data_root job.source_path relative
      × (resolve_cpu_cap floats cpu_count cfg.build_cpus ≡ some cpus)
      × Runs cfg job.id relative cpus command

  abbrev pub IsConfined : Effect → Type 0
  IsConfined (docker_run command) = IsBuild command
  IsConfined _ = Unit

module _ (env : Env) (cfg : Config) (floats : Floats) (cpu_count : Option Text)
    (error_text : Error → Text) (job : ClaimedJob) where
  module _ (base : Session) where
    abbrev SoFar : Session → Type 0
    SoFar = Does (IsConfined cfg floats cpu_count job) base

    or_error_lem :
        (x : Effect) (done : Bool) (s : Session)
        → SoFar s
        → Memᴰ x s.effects
        → Ensures
            (or_error env cfg floats cpu_count error_text done)
            s
            (λ _ t. SoFar t × Memᴰ x t.effects)
            SoFar
    or_error_lem x true s d m = Ensures-pure tt s (d, m)
    or_error_lem x false s d m = Ensures-raise operation_failed s d

    checked_lem :
        (x : Effect) (s : Session)
        → IsConfined cfg floats cpu_count job x
        → SoFar s
        → Ensures
            (checked env cfg floats cpu_count error_text x)
            s
            (λ _ t. SoFar t × Memᴰ x t.effects)
            SoFar
    checked_lem x s p d =
        Ensures-bind (perform env x) (or_error env cfg floats cpu_count error_text) s _ _
          (Does-perform env x s p d) λ done s₁ (d₁, m). or_error_lem x done s₁ d₁ m

    HasBuilt : Unit {0} → Session → Type 0
    HasBuilt _ t =
        SoFar t
        × ((command : List Text) × IsBuild cfg floats cpu_count job command
            × Memᴰ (docker_run command) t.effects)

    build_in_lem :
        (relative cpus : Text) (s : Session)
        → IsBelow cfg.data_root job.source_path relative
        → resolve_cpu_cap floats cpu_count cfg.build_cpus ≡ some cpus
        → SoFar s
        → Ensures (build_in env cfg floats cpu_count error_text job relative cpus) s HasBuilt SoFar
    unfolding build_in HasBuilt
    build_in_lem relative cpus s b r d =
        let output = join_path (staging_root cfg) (job_directory job.id) in
        let cache = join_path (cache_root cfg) (codes "pacman") in
        let present = join_path job.source_path (codes "PKGBUILD") in
        let logs = join_path cfg.data_root (codes "logs") in
        let command = build_command cfg job.id relative cpus in
        let runs = build_command-Runs cfg job.id relative cpus in
        Ensures-bind _ _ s _ HasBuilt (checked_lem (make_directory output) s tt d) λ _ s₁ (d₁, _).
          Ensures-bind _ _ s₁ _ HasBuilt (checked_lem (make_directory cache) s₁ tt d₁)
            λ _ s₂ (d₂, _).
              Ensures-bind _ _ s₂ _ HasBuilt (checked_lem (check_present present) s₂ tt d₂)
                λ _ s₃ (d₃, _).
                  Ensures-bind _ _ s₃ _ HasBuilt
                    (checked_lem (make_readable job.source_path) s₃ tt d₃)
                    λ _ s₄ (d₄, _).
                      Ensures-bind _ _ s₄ _ HasBuilt (checked_lem (give_to_builder output) s₄ tt d₄)
                        λ _ s₅ (d₅, _).
                          Ensures-bind _ _ s₅ _ HasBuilt
                            (checked_lem (give_to_builder cache) s₅ tt d₅)
                            λ _ s₆ (d₆, _).
                              Ensures-bind _ _ s₆ _ HasBuilt
                                (checked_lem (make_directory logs) s₆ tt d₆)
                                λ _ s₇ (d₇, _).
                                  Ensures-bind _ _ s₇ _ HasBuilt
                                    (checked_lem (create_log (log_file cfg job.id)) s₇ tt d₇)
                                    λ _ s₈ (d₈, _).
                                      Ensures-weaken _ s₈ _ HasBuilt
                                        (checked_lem (docker_run command) s₈
                                          (relative, cpus, b, r, runs) d₈)
                                        λ _ t (d₉, m).
                                          (d₉, (command, (relative, cpus, b, r, runs), m))

    build_capped_lem :
        (relative : Text) (capped : Option Text) (s : Session)
        → IsBelow cfg.data_root job.source_path relative
        → resolve_cpu_cap floats cpu_count cfg.build_cpus ≡ capped
        → SoFar s
        → Ensures
            (build_capped env cfg floats cpu_count error_text job relative capped)
            s
            HasBuilt
            SoFar
    unfolding build_capped
    build_capped_lem relative none s b r d = Ensures-raise invalid_cpu_cap s d
    build_capped_lem relative (some cpus) s b r d = build_in_lem relative cpus s b r d

    build_below_lem :
        (relative : Text) (above : Bool) (s : Session)
        → relative_path cfg.data_root job.source_path ≡ some relative
        → has_prefix (codes "..") relative ≡ above
        → SoFar s
        → Ensures
            (build_below env cfg floats cpu_count error_text job relative above)
            s
            HasBuilt
            SoFar
    unfolding build_below
    build_below_lem relative true s p a d = Ensures-raise (invalid_source_path job.source_path) s d
    build_below_lem relative false s p a d =
        build_capped_lem relative (resolve_cpu_cap floats cpu_count cfg.build_cpus) s
          (relative_path-IsBelow cfg.data_root job.source_path relative p a) refl d

    build_from_lem :
        (found : Option Text) (s : Session)
        → relative_path cfg.data_root job.source_path ≡ found
        → SoFar s
        → Ensures (build_from env cfg floats cpu_count error_text job found) s HasBuilt SoFar
    unfolding build_from
    build_from_lem none s p d = Ensures-raise (invalid_source_path job.source_path) s d
    build_from_lem (some relative) s p d =
        build_below_lem relative (has_prefix (codes "..") relative) s p refl d

-- Whether buildJob succeeds or not, it changes no table, and each container that it runs is one of
-- the builder's image with three mounts, of a source that lies below the data root, read-only, of
-- the staging directory of the job and of the cache for pacman, with the resolved share of the
-- processors, the limits on shares, memory and processes that are configured and the bridge network,
-- and without any other option; where it succeeds it has run one.
pub build_job-IsConfined :
    (env : Env) (cfg : Config) (floats : Floats) (cpu_count : Option Text)
    (error_text : Error → Text) (job : ClaimedJob) (s : Session)
    → Ensures
        (build_job env cfg floats cpu_count error_text job)
        s
        (λ _ t.
          Does (IsConfined cfg floats cpu_count job) s t
          × ((command : List Text) × IsBuild cfg floats cpu_count job command
              × Memᴰ (docker_run command) t.effects))
        (Does (IsConfined cfg floats cpu_count job) s)
unfolding build_job HasBuilt
build_job-IsConfined env cfg floats cpu_count error_text job s =
    build_from_lem env cfg floats cpu_count error_text job s
      (relative_path cfg.data_root job.source_path) s refl (Does-none s)
