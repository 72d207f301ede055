-- ===== src/Config.antt =====
-- internal/config.go: what the program takes from its environment variables.
pub mod Loaded
use aurforge.Common.{
  ℕ, ◌*◌, Text, codes, Bool, List, [], ◌∷◌, ◌++◌, Option, none, some, ◌==◌, if◌then◌else◌, ℤ, pos,
  negsuc, atoi, ltb,
}
use mathlib.Core.List.{reverse}
use aurforge.Queue.{Duration, ahead}
use aurforge.Host.Paths.{join_path}

pub record Config : Type 0 where
  pub database_url : Text
  pub data_root : Text
  pub host_data_root : Text
  pub local_import_root : Text
  pub builder_image : Text
  pub build_cpus : Text
  pub build_cpu_shares : Text
  pub build_memory : Text
  pub build_pids : Text
  pub build_timeout : Duration
  pub update_delay : Duration
  pub poll_interval : Duration
  pub ntfy_url : Text
  pub ntfy_topic : Text
  pub ntfy_token : Text
  pub repository_name : Text

abbrev pub minutes : ℕ → Duration
minutes n = ahead (n * 60000000000)

-- How LoadConfig ends.
pub data Loading : Type 0 where
  no_database_url : Loading
  bad_duration : Text → Loading
  loaded : Config → Loading

abbrev pub or_fallback : Text → Text → Text
or_fallback [] fallback = fallback
or_fallback (c ∷ value) fallback = c ∷ value

-- strings.TrimRight at one byte.
unfoldable pub trim_left_of : ℕ → Text → Text
trim_left_of b [] = []
trim_left_of b (c ∷ s) = let rest = trim_left_of b s in if c == b then rest else c ∷ s

unfoldable pub trim_right_of : ℕ → Text → Text
unfolding trim_left_of
trim_right_of b s = reverse (trim_left_of b (reverse s))

abbrev pub parsed_or : Duration → (Text → Option Duration) → Text → Option Duration
parsed_or fallback parse [] = some fallback
parsed_or fallback parse (c ∷ value) = parse (c ∷ value)

-- What follows a duration that was read, or the error for its key.
abbrev pub with_duration : Text → Option Duration → (Duration → Loading) → Loading
with_duration key none f = bad_duration key
with_duration key (some d) f = f d

abbrev pub int_or : ℕ → Option ℤ → ℕ
int_or fallback none = fallback
int_or fallback (some (negsuc n)) = fallback
int_or fallback (some (pos n)) = if ltb n 1 then fallback else n

-- `variables` is os.Getenv, and `parse_duration` is time.ParseDuration.
module _ (variables : Text → Text) (parse_duration : Text → Option Duration) where
  unfoldable pub env_or : Text → Text → Text
  env_or key fallback = or_fallback (variables key) fallback

  unfoldable pub duration_env : Text → Duration → Option Duration
  duration_env key fallback = parsed_or fallback parse_duration (variables key)

  abbrev pub unless_empty : Text → Loading → Loading
  unless_empty [] l = no_database_url
  unless_empty (_ ∷ _) l = l

  unfoldable pub config_of : Duration → Duration → Duration → Config
  unfolding env_or trim_right_of
  config_of build_timeout update_delay poll_interval = record {
    database_url = variables (codes "DATABASE_URL");
    data_root = env_or (codes "AURFORGE_DATA_ROOT") (codes "/var/lib/aurforge");
    host_data_root = env_or (codes "AURFORGE_HOST_DATA_ROOT") (codes "/srv/aurforge");
    local_import_root = env_or (codes "AURFORGE_LOCAL_IMPORT_ROOT") (codes "/imports");
    builder_image = env_or (codes "AURFORGE_BUILDER_IMAGE") (codes "aurforge-builder:latest");
    build_cpus = env_or (codes "AURFORGE_BUILD_CPU_LIMIT") (codes "80%");
    build_cpu_shares = env_or (codes "AURFORGE_BUILD_CPU_SHARES") (codes "256");
    build_memory = env_or (codes "AURFORGE_BUILD_MEMORY_LIMIT") (codes "2g");
    build_pids = env_or (codes "AURFORGE_BUILD_PIDS_LIMIT") (codes "512");
    build_timeout = build_timeout;
    update_delay = update_delay;
    poll_interval = poll_interval;
    ntfy_url = trim_right_of b'/' (variables (codes "AURFORGE_NTFY_URL"));
    ntfy_topic = variables (codes "AURFORGE_NTFY_TOPIC");
    ntfy_token = variables (codes "AURFORGE_NTFY_TOKEN");
    repository_name = env_or (codes "AURFORGE_REPOSITORY_NAME") (codes "aurforge");
  }

  unfoldable pub load_config : Loading
  unfolding config_of duration_env
  load_config = unless_empty (variables (codes "DATABASE_URL")) (
      with_duration (codes "AURFORGE_BUILD_TIMEOUT")
        (duration_env (codes "AURFORGE_BUILD_TIMEOUT") (minutes 30))
        (λ build_timeout.
          with_duration (codes "AURFORGE_UPDATE_DELAY")
            (duration_env (codes "AURFORGE_UPDATE_DELAY") (minutes 720))
            (λ update_delay.
              with_duration (codes "AURFORGE_POLL_INTERVAL")
                (duration_env (codes "AURFORGE_POLL_INTERVAL") (minutes 30))
                (λ poll_interval. loaded (config_of build_timeout update_delay poll_interval)))))

  unfoldable pub parse_int_env : Text → ℕ → ℕ
  unfolding atoi
  parse_int_env key fallback = int_or fallback (atoi (variables key))

module _ (cfg : Config) where
  abbrev pub source_root : Text
  source_root = join_path cfg.data_root (codes "sources")

  abbrev pub staging_root : Text
  staging_root = join_path cfg.data_root (codes "staging")

  abbrev pub repo_root : Text
  repo_root = join_path cfg.data_root (codes "repo")

  abbrev pub cache_root : Text
  cache_root = join_path cfg.data_root (codes "cache")
