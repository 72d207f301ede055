-- ===== src/Worker/Container.antt =====
-- The arguments that buildJob of internal/roles.go runs docker with, read as docker reads them.
use aurforge.Common.{
  ℕ, Text, codes, text_eq, List, [], ◌∷◌, ◌++◌, Option, none, some, ◌≡◌, refl, length, select, map,
}
use aurforge.Config.{Config}
use aurforge.Host.Paths.{join_path}
use aurforge.Worker.{job_directory, build_command}

-- What follows `docker run --rm`: names with their values, up to the image.
pub options : List Text → List (Text × Text)
options [] = []
options (image ∷ []) = []
options (name ∷ value ∷ rest) = (name, value) ∷ options rest

pub image_of : List Text → Option Text
image_of [] = none
image_of (image ∷ []) = some image
image_of (name ∷ value ∷ rest) = image_of rest

pub values : Text → List (Text × Text) → List Text
values name given = map (λ o. o.1) (select (λ o. text_eq o.0 name) given)

-- The container that a command runs: of the builder's image, with one source, which it cannot
-- write, the staging directory of the job and the cache for pacman, the share of the processors,
-- the limits that are configured and the network of docker, and without any other option.
pub record Runs (cfg : Config) (id : ℕ) (relative cpus : Text) (command : List Text) : Type 0 where
  pub arguments : List Text
  pub is_run : command ≡ codes "docker" ∷ codes "run" ∷ codes "--rm" ∷ arguments
  pub of_image : image_of arguments ≡ some cfg.builder_image
  pub mounts :
      values (codes "--mount") (options arguments)
      ≡ (codes "type=bind,src="
          ++ join_path cfg.host_data_root relative
          ++ codes ",dst=/input,readonly")
        ∷ (codes "type=bind,src="
            ++ join_path (join_path cfg.host_data_root (codes "staging")) (job_directory id)
            ++ codes ",dst=/output")
        ∷ (codes "type=bind,src="
            ++ join_path (join_path cfg.host_data_root (codes "cache")) (codes "pacman")
            ++ codes ",dst=/var/cache/pacman/pkg")
        ∷ []
  pub processors : values (codes "--cpus") (options arguments) ≡ cpus ∷ []
  pub processor_shares :
      values (codes "--cpu-shares") (options arguments) ≡ cfg.build_cpu_shares ∷ []
  pub memory : values (codes "--memory") (options arguments) ≡ cfg.build_memory ∷ []
  pub processes : values (codes "--pids-limit") (options arguments) ≡ cfg.build_pids ∷ []
  pub network : values (codes "--network") (options arguments) ≡ codes "bridge" ∷ []
  pub no_other : length (options arguments) ≡ 8

pub build_command-Runs :
    (cfg : Config) (id : ℕ) (relative cpus : Text)
    → Runs cfg id relative cpus (build_command cfg id relative cpus)
unfolding build_command options image_of values text_eq job_directory
build_command-Runs cfg id relative cpus = record {
  arguments = _;
  is_run = refl;
  of_image = refl;
  mounts = refl;
  processors = refl;
  processor_shares = refl;
  memory = refl;
  processes = refl;
  network = refl;
  no_other = refl;
}
