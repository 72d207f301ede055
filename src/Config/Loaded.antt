-- ===== src/Config/Loaded.antt =====
-- internal/config.go: what a configuration that was read is good for.
use aurforge.Common.{
  ℕ, ◌≤◌, ◌<◌, Text, codes, [], ◌∷◌, Option, none, some, ◌≡◌, ◌≢◌, refl, subst, arith, Bool-cases,
  inl, inr, ◌==◌, ℤ, pos, negsuc, atoi, digits, in_range_pos, in_range_neg, int_limit, zero, suc,
}
use aurforge.Queue.{Duration}
use aurforge.Config.{
  Config, Loading, loaded, or_fallback, parsed_or, with_duration, env_or, duration_env, config_of,
  load_config, parse_int_env, int_or, minutes, unless_empty,
}

-- The value of a duration variable: its default where it is empty, else what it is parsed as.
abbrev pub IsDuration : (Text → Option Duration) → Text → Duration → Duration → Type 0
IsDuration parse [] fallback d = d ≡ fallback
IsDuration parse (c ∷ value) fallback d = parse (c ∷ value) ≡ some d

-- A configuration that the program starts with: the database is named, no path, limit or name
-- that has a default is empty, and the durations are those given or their defaults.
pub record IsUsable (variables : Text → Text) (parse : Text → Option Duration) (cfg : Config)
    : Type 0 where
  pub database_url : cfg.database_url ≢ []
  pub data_root : cfg.data_root ≢ []
  pub host_data_root : cfg.host_data_root ≢ []
  pub local_import_root : cfg.local_import_root ≢ []
  pub builder_image : cfg.builder_image ≢ []
  pub build_cpus : cfg.build_cpus ≢ []
  pub build_cpu_shares : cfg.build_cpu_shares ≢ []
  pub build_memory : cfg.build_memory ≢ []
  pub build_pids : cfg.build_pids ≢ []
  pub repository_name : cfg.repository_name ≢ []
  pub build_timeout :
      IsDuration parse (variables (codes "AURFORGE_BUILD_TIMEOUT")) (minutes 30) cfg.build_timeout
  pub update_delay :
      IsDuration parse (variables (codes "AURFORGE_UPDATE_DELAY")) (minutes 720) cfg.update_delay
  pub poll_interval :
      IsDuration parse (variables (codes "AURFORGE_POLL_INTERVAL")) (minutes 30) cfg.poll_interval

or_fallback-ne : (value : Text) (c : ℕ) (rest : Text) → or_fallback value (c ∷ rest) ≢ []
or_fallback-ne [] c rest e = cc
or_fallback-ne (d ∷ value) c rest e = cc

parsed_or-IsDuration :
    (fallback : Duration) (parse : Text → Option Duration) (value : Text) (d : Duration)
    → parsed_or fallback parse value ≡ some d
    → IsDuration parse value fallback d
parsed_or-IsDuration fallback parse [] d h = cc
parsed_or-IsDuration fallback parse (c ∷ value) d h = h

with_duration-loaded :
    (key : Text) (o : Option Duration) (f : Duration → Loading) (cfg : Config)
    → with_duration key o f ≡ loaded cfg
    → (d : Duration) × (o ≡ some d) × (f d ≡ loaded cfg)
with_duration-loaded key none f cfg h = cc
with_duration-loaded key (some d) f cfg h = (d, refl, h)

-- A configuration is read only where the database is named and each duration is parsed or absent,
-- and then no setting with a default is empty.
pub load_config-IsUsable :
    (variables : Text → Text) (parse : Text → Option Duration) (cfg : Config)
    → load_config variables parse ≡ loaded cfg
    → IsUsable variables parse cfg
unfolding load_config duration_env config_of env_or
load_config-IsUsable variables parse cfg h =
    let (named, h₀) = unless_empty-loaded (variables (codes "DATABASE_URL")) _ h in
    let (timeout, t, h₁) = with_duration-loaded _ _ _ cfg h₀ in
    let (delay, d, h₂) = with_duration-loaded _ _ _ cfg h₁ in
    let (poll, p, h₃) = with_duration-loaded _ _ _ cfg h₂ in
    subst (IsUsable variables parse) (loaded_inj h₃) (record {
      database_url = named;
      data_root = or_fallback-ne _ _ _;
      host_data_root = or_fallback-ne _ _ _;
      local_import_root = or_fallback-ne _ _ _;
      builder_image = or_fallback-ne _ _ _;
      build_cpus = or_fallback-ne _ _ _;
      build_cpu_shares = or_fallback-ne _ _ _;
      build_memory = or_fallback-ne _ _ _;
      build_pids = or_fallback-ne _ _ _;
      repository_name = or_fallback-ne _ _ _;
      build_timeout = parsed_or-IsDuration _ parse _ timeout t;
      update_delay = parsed_or-IsDuration _ parse _ delay d;
      poll_interval = parsed_or-IsDuration _ parse _ poll p;
    })
  where
    loaded_inj : {a b : Config} → loaded a ≡ loaded b → a ≡ b
    loaded_inj e = cc

    unless_empty-loaded :
        (url : Text) (l : Loading)
        → unless_empty variables parse url l ≡ loaded cfg
        → (url ≢ []) × (l ≡ loaded cfg)
    unless_empty-loaded [] l e = cc
    unless_empty-loaded (c ∷ url) l e = ((λ q. cc), e)

int_or-bounds :
    (fallback : ℕ) (o : Option ℤ)
    → 1 ≤ fallback
    → fallback < int_limit
    → ((n : ℕ) → o ≡ some (pos n) → n < int_limit)
    → (1 ≤ int_or fallback o) × (int_or fallback o < int_limit)
int_or-bounds fallback none h k r = (h, k)
int_or-bounds fallback (some (negsuc n)) h k r = (h, k)
int_or-bounds fallback (some (pos n)) h k r = let b = r n refl in ground arith

in_range_pos-lt : (o : Option ℕ) (n : ℕ) → in_range_pos o ≡ some (pos n) → n < int_limit
in_range_pos-lt none n h = cc
in_range_pos-lt (some m) n h = ground arith

in_range_neg-lt : (o : Option ℕ) (n : ℕ) → in_range_neg o ≡ some (pos n) → n < int_limit
in_range_neg-lt none n h = cc
in_range_neg-lt (some zero) n h = ground arith
in_range_neg-lt (some (suc m)) n h = ground arith

atoi-lt : (s : Text) (n : ℕ) → atoi s ≡ some (pos n) → n < int_limit
unfolding atoi
atoi-lt [] n h = cc
atoi-lt (c ∷ s) n h = elim (Bool-cases (c == b'-')) [
  | inl e ↦ in_range_neg-lt (digits s) n (ground arith)
  | inr e ↦ elim (Bool-cases (c == b'+')) [
    | inl f ↦ in_range_pos-lt (digits s) n (ground arith)
    | inr f ↦ in_range_pos-lt (digits (c ∷ s)) n (ground arith)
  ]
]

-- A number from the environment is at least one and fits an integer of 64 bits, whatever the
-- variable holds, if its default does.
pub parse_int_env-bounds :
    (variables : Text → Text) (parse : Text → Option Duration) (key : Text) (fallback : ℕ)
    → 1 ≤ fallback
    → fallback < int_limit
    → (1 ≤ parse_int_env variables parse key fallback)
      × (parse_int_env variables parse key fallback < int_limit)
unfolding parse_int_env
parse_int_env-bounds variables parse key fallback h k =
    int_or-bounds fallback (atoi (variables key)) h k (λ n e. atoi-lt (variables key) n e)
