-- ===== src/Scenarios/Daily.antt =====
-- The start of the program: a configuration and a daily schedule.
use apekeeper.Common.{
  ℕ, ◌+◌, ◌%◌, ◌<◌, ◌≤◌, ◌≡◌, refl, String, if◌then◌else◌, str_eq, none, some, List, [], ◌∷◌, pos,
  ok, arith,
}
use apekeeper.Config.{
  Library, load, read_config, env, env_parsed, parse_battle_tags, parse_retention, missing_names,
  check_values, check_limits, is_postgres_url, is_oauth_redirect_url,
}
use apekeeper.Config.Laws.{IsValid, load-IsValid}
use apekeeper.Scheduler.{
  Clock, day, since_midnight, next, LoopEvent, triggers, takes, fires, cancels, start_loop,
  loop_run,
}
use apekeeper.Scheduler.Daily.{IsTimeOfDay, next-IsNext}
use apekeeper.Scheduler.Served.{IsServed, loop_run-IsServed}

abbrev secret : String
secret = "0123456789abcdef0123456789abcdef"

abbrev environment : String → String
environment k =
    if str_eq k "DATABASE_URL"
    then "postgres://db/apekeeper"
    else if str_eq k "OAUTH_REDIRECT_URL"
    then "https://apes.example/callback"
    else if str_eq k "SESSION_SECRET"
    then secret
    else if str_eq k "BLIZZARD_CLIENT_ID"
    then "id"
    else if str_eq k "BLIZZARD_CLIENT_SECRET"
    then "hush"
    else if str_eq k "GUILD_REALM"
    then "area-52"
    else ""

abbrev library : Library
library = record {
  getenv = environment;
  atoi = λ s. if str_eq s "8080" then some (pos 8080) else none;
  parse_int = λ s. none;
  parse_bool = λ s. none;
  parse_url = λ s.
      if str_eq s "postgres://db/apekeeper"
      then some (record { scheme = "postgres"; hostname = "db" })
      else some (record { scheme = "https"; hostname = "apes.example" });
  is_time_of_day = λ s. str_eq s "03:00";
  is_level = λ s. str_eq s "info";
  split_comma = λ s. s ∷ [];
  trim_space = λ s. s;
}

loaded : load library ≡ ok (read_config library (pos 90))
unfolding load parse_retention read_config missing_names check_values check_limits env env_parsed
    parse_battle_tags is_postgres_url is_oauth_redirect_url
loaded = refl

load-IsValid_example : IsValid library (read_config library (pos 90))
load-IsValid_example = load-IsValid library (read_config library (pos 90)) loaded

abbrev three : Clock
three = record { hour = 3; minutes = 0 }

three-IsTimeOfDay : IsTimeOfDay three
three-IsTimeOfDay = record { hours = omega arith; minutes = omega arith }

abbrev noon : ℕ
noon = 43200000000000

next-IsNext_example :
    (noon < next three noon)
    × (next three noon ≤ noon + day)
    × (next three noon % day ≡ since_midnight three)
    × ((t : ℕ) → noon < t → t % day ≡ since_midnight three → next three noon ≤ t)
next-IsNext_example = next-IsNext three noon three-IsTimeOfDay

-- a manual call, two nights, and the end
abbrev nights : List LoopEvent
nights =
    triggers
    ∷ triggers
    ∷ takes 43200000000001 43200000000009
    ∷ fires 97200000000005 97200000000100
    ∷ fires 97200000000105 97200000000200
    ∷ fires 183600000000000 183600000000900
    ∷ cancels
    ∷ []

nights_test :
    (loop_run three (start_loop (some three) noon) nights).served
    ≡ 183600000000000 ∷ 97200000000000 ∷ []
unfolding loop_run start_loop next
nights_test = refl

loop_run-IsServed_example : IsServed three (loop_run three (start_loop (some three) noon) nights)
loop_run-IsServed_example = loop_run-IsServed three three-IsTimeOfDay noon nights
