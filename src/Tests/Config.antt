-- ===== src/Tests/Config.antt =====
-- An environment that sets the database, the delay and two numbers.
use aurforge.Common.{
  ◌≤◌, ◌<◌, Text, codes, text_eq, [], Option, none, some, ◌≡◌, refl, arith, if◌then◌else◌,
  int_limit, atoi, digits, digits_onto,
}
use aurforge.Queue.{Duration}
use aurforge.Config.{
  Config, loaded, load_config, config_of, minutes, parse_int_env, env_or, duration_env,
  trim_right_of, trim_left_of,
}
use aurforge.Config.Loaded.{IsUsable, load_config-IsUsable, parse_int_env-bounds}

abbrev variables : Text → Text
variables key =
    if text_eq key (codes "DATABASE_URL")
    then codes "postgres://db"
    else if text_eq key (codes "AURFORGE_UPDATE_DELAY")
    then codes "1h"
    else if text_eq key (codes "AURFORGE_NTFY_URL")
    then codes "https://ntfy.sh//"
    else if text_eq key (codes "N")
    then codes "17"
    else if text_eq key (codes "M")
    then codes "-3"
    else []

abbrev one_hour : Text → Option Duration
one_hour text = if text_eq text (codes "1h") then some (minutes 60) else none

abbrev configured : Config
configured = config_of variables one_hour (minutes 30) (minutes 60) (minutes 30)

configured_run : load_config variables one_hour ≡ loaded configured
unfolding load_config config_of env_or duration_env text_eq trim_right_of trim_left_of
configured_run = refl

ntfy_url_run : configured.ntfy_url ≡ codes "https://ntfy.sh"
unfolding load_config config_of env_or duration_env text_eq trim_right_of trim_left_of
ntfy_url_run = refl

load_config-IsUsable_example : IsUsable variables one_hour configured
load_config-IsUsable_example = load_config-IsUsable variables one_hour configured configured_run

given_run : parse_int_env variables one_hour (codes "N") 4 ≡ 17
unfolding parse_int_env atoi digits digits_onto text_eq
given_run = refl

below_one_run : parse_int_env variables one_hour (codes "M") 4 ≡ 4
unfolding parse_int_env atoi digits digits_onto text_eq
below_one_run = refl

parse_int_env-bounds_example :
    (1 ≤ parse_int_env variables one_hour (codes "N") 4)
    × (parse_int_env variables one_hour (codes "N") 4 < int_limit)
parse_int_env-bounds_example =
    parse_int_env-bounds variables one_hour (codes "N") 4 (omega arith) (omega arith)
