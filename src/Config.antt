-- ===== src/Config.antt =====
-- backend/internal/config/config.go: the configuration from the environment and its checks.
-- An unset variable reads as "". The parsers of Go's library are parameters; the text of an error is
-- its name, and of the errors of two maps, whose order Go leaves open, the first in the text stands.
pub mod Laws
use apekeeper.Common.{
  ℕ, String, Bool, true, false, not, ◌&&◌, ◌||◌, ltb, str_eq, if◌then◌else◌, Option, none, some,
  List, [], ◌∷◌, keep, map, ℤ, pos, ltz, is_pos, Result, ok, err, ◌>>=◌, ◌>>◌, byte_length,
}

pub record Config : Type 0 where
  pub database_url : String
  pub server_port : String
  pub log_level : String
  pub blizzard_client_id : String
  pub blizzard_client_secret : String
  pub blizzard_region : String
  pub blizzard_locale : String
  pub guild_name : String
  pub guild_realm : String
  pub guild_region : String
  pub sync_schedule : String
  pub snapshot_retention_days : ℤ
  pub oauth_redirect_url : String
  pub session_secret : String
  pub super_admin_battle_tags : List String
  pub discord_webhook_url : String
  pub static_dir : String
  pub csrf_enabled : Bool
  pub max_request_body : ℤ
  pub rate_limit : ℤ
  pub rate_limit_window : ℕ
  pub auth_rate_limit : ℤ
  pub sync_rate_limit : ℤ
  pub export_rate_limit : ℤ
  pub mutation_rate_limit : ℤ
  pub auth_body_limit : ℤ
  pub sync_body_limit : ℤ
  pub export_body_limit : ℤ
  pub mutation_body_limit : ℤ

pub data ConfigError : Type 0 where
  invalid : String → ConfigError
  missing : List String → ConfigError

-- the parts of a URL that the checks read; the scheme is folded to lower case
pub record Url : Type 0 where
  pub scheme : String
  pub hostname : String

-- os.Getenv, strconv.Atoi, ParseInt and ParseBool, url.Parse, time.Parse("15:04"),
-- slog.Level.UnmarshalText, strings.Split by "," and TrimSpace
pub record Library : Type 0 where
  pub getenv : String → String
  pub atoi : String → Option ℤ
  pub parse_int : String → Option ℤ
  pub parse_bool : String → Option Bool
  pub parse_url : String → Option Url
  pub is_time_of_day : String → Bool
  pub is_level : String → Bool
  pub split_comma : String → List String
  pub trim_space : String → String

abbrev pub is_between : ℕ → ℤ → Bool
is_between most v = is_pos v && not (ltz (pos most) v)

abbrev pub max_body : ℕ
max_body = 16777216

abbrev pub max_rate : ℕ
max_rate = 10000

module _ (lib : Library) where
  -- env
  unfoldable pub env : String → String → String
  env k d = if str_eq (lib.getenv k) "" then d else lib.getenv k

  abbrev or_fallback {ℓ} : {A : Type ℓ} → A → Option A → A
  or_fallback fallback none = fallback
  or_fallback fallback (some v) = v

  -- envInt, envInt64 and envBool, by their parser: a text that it does not read is the fallback
  unfoldable pub env_parsed {ℓ} : {A : Type ℓ} → (String → Option A) → String → A → A
  env_parsed parse k fallback =
      if str_eq (lib.getenv k) "" then fallback else or_fallback fallback (parse (lib.getenv k))

  -- isPostgresURL
  unfoldable pub is_postgres_url : String → Bool
  is_postgres_url value = elim (lib.parse_url value) [
    | none ↦ false
    | some u ↦
        (str_eq u.scheme "postgres" || str_eq u.scheme "postgresql") && not (str_eq u.hostname "")
  ]

  -- isOAuthRedirectURL
  unfoldable pub is_oauth_redirect_url : String → Bool
  is_oauth_redirect_url value = elim (lib.parse_url value) [
    | none ↦ false
    | some u ↦ (str_eq u.scheme "http" || str_eq u.scheme "https") && not (str_eq u.hostname "")
  ]

  -- parseBattleTags
  unfoldable pub parse_battle_tags : String → List String
  parse_battle_tags value =
      keep (λ tag. not (str_eq tag "")) (map lib.trim_space (lib.split_comma value))

  -- SNAPSHOT_RETENTION_DAYS, the one number that is refused if it can not be read
  unfoldable pub parse_retention : Result ConfigError ℤ
  parse_retention =
      if str_eq (lib.getenv "SNAPSHOT_RETENTION_DAYS") ""
      then ok (pos 90)
      else elim (lib.atoi (lib.getenv "SNAPSHOT_RETENTION_DAYS")) [
        | none ↦ err (invalid "SNAPSHOT_RETENTION_DAYS")
        | some n ↦ if is_pos n then ok n else err (invalid "SNAPSHOT_RETENTION_DAYS")
      ]

  -- the values of the environment and their defaults
  unfoldable pub read_config : ℤ → Config
  unfolding env env_parsed parse_battle_tags
  read_config retention = record {
    database_url = lib.getenv "DATABASE_URL";
    server_port = env "SERVER_PORT" "8080";
    log_level = env "LOG_LEVEL" "info";
    blizzard_client_id = lib.getenv "BLIZZARD_CLIENT_ID";
    blizzard_client_secret = lib.getenv "BLIZZARD_CLIENT_SECRET";
    blizzard_region = env "BLIZZARD_REGION" "us";
    blizzard_locale = env "BLIZZARD_LOCALE" "en_US";
    guild_name = env "GUILD_NAME" "Ape Enclosure";
    guild_realm = lib.getenv "GUILD_REALM";
    guild_region = env "GUILD_REGION" "us";
    sync_schedule = env "SYNC_SCHEDULE" "03:00";
    snapshot_retention_days = retention;
    oauth_redirect_url = lib.getenv "OAUTH_REDIRECT_URL";
    session_secret = lib.getenv "SESSION_SECRET";
    super_admin_battle_tags = parse_battle_tags (lib.getenv "SUPER_ADMIN_BATTLETAGS");
    discord_webhook_url = lib.getenv "DISCORD_WEBHOOK_URL";
    static_dir = lib.getenv "STATIC_DIR";
    csrf_enabled = env_parsed lib.parse_bool "CSRF_ENABLED" true;
    max_request_body = env_parsed lib.parse_int "MAX_REQUEST_BODY_BYTES" (pos 1048576);
    rate_limit = env_parsed lib.atoi "RATE_LIMIT_PER_MINUTE" (pos 120);
    rate_limit_window = 60;
    auth_rate_limit = env_parsed lib.atoi "AUTH_RATE_LIMIT_PER_MINUTE" (pos 20);
    sync_rate_limit = env_parsed lib.atoi "SYNC_RATE_LIMIT_PER_MINUTE" (pos 30);
    export_rate_limit = env_parsed lib.atoi "EXPORT_RATE_LIMIT_PER_MINUTE" (pos 30);
    mutation_rate_limit = env_parsed lib.atoi "MUTATION_RATE_LIMIT_PER_MINUTE" (pos 60);
    auth_body_limit = env_parsed lib.parse_int "AUTH_MAX_BODY_BYTES" (pos 262144);
    sync_body_limit = env_parsed lib.parse_int "SYNC_MAX_BODY_BYTES" (pos 262144);
    export_body_limit = env_parsed lib.parse_int "EXPORT_MAX_BODY_BYTES" (pos 4194304);
    mutation_body_limit = env_parsed lib.parse_int "MUTATION_MAX_BODY_BYTES" (pos 262144);
  }

  -- the names of the required values that are empty, in the order of the text
  unfoldable pub missing_names : Config → List String
  missing_names c = empty_of "DATABASE_URL" c.database_url (
      empty_of "BLIZZARD_CLIENT_ID" c.blizzard_client_id (
        empty_of "BLIZZARD_CLIENT_SECRET" c.blizzard_client_secret (
          empty_of "GUILD_REALM" c.guild_realm (
            empty_of "OAUTH_REDIRECT_URL" c.oauth_redirect_url
              (empty_of "SESSION_SECRET" c.session_secret [])))))
    where
      empty_of : String → String → List String → List String
      empty_of name value rest = if str_eq value "" then name ∷ rest else rest

  abbrev pub none_missing : List String → Result ConfigError (Unit {0})
  none_missing [] = ok tt
  none_missing (n ∷ ns) = err (missing (n ∷ ns))

  abbrev pub check : Bool → String → Result ConfigError (Unit {0})
  check true name = ok tt
  check false name = err (invalid name)

  -- the checks on single values
  unfoldable pub check_values : Config → Result ConfigError (Unit {0})
  unfolding is_postgres_url is_oauth_redirect_url
  check_values c =
      check (is_postgres_url c.database_url) "DATABASE_URL"
      >> check (is_oauth_redirect_url c.oauth_redirect_url) "OAUTH_REDIRECT_URL"
      >> check (not (ltb (byte_length c.session_secret) 32)) "SESSION_SECRET"
      >> check (lib.is_time_of_day c.sync_schedule) "SYNC_SCHEDULE"
      >> elim (lib.atoi c.server_port) [
        | none ↦ err (invalid "SERVER_PORT")
        | some port ↦ check (is_between max_body c.max_request_body) "MAX_REQUEST_BODY_BYTES"
      ]

  -- the ranges of the limits and the level of the log
  unfoldable pub check_limits : Config → Result ConfigError (Unit {0})
  check_limits c =
      check (is_between max_rate c.rate_limit) "RATE_LIMIT_PER_MINUTE"
      >> check (is_between max_rate c.auth_rate_limit) "AUTH_RATE_LIMIT_PER_MINUTE"
      >> check (is_between max_rate c.sync_rate_limit) "SYNC_RATE_LIMIT_PER_MINUTE"
      >> check (is_between max_rate c.export_rate_limit) "EXPORT_RATE_LIMIT_PER_MINUTE"
      >> check (is_between max_rate c.mutation_rate_limit) "MUTATION_RATE_LIMIT_PER_MINUTE"
      >> check (is_between max_body c.auth_body_limit) "AUTH_MAX_BODY_BYTES"
      >> check (is_between max_body c.sync_body_limit) "SYNC_MAX_BODY_BYTES"
      >> check (is_between max_body c.export_body_limit) "EXPORT_MAX_BODY_BYTES"
      >> check (is_between max_body c.mutation_body_limit) "MUTATION_MAX_BODY_BYTES"
      >> check (lib.is_level c.log_level) "LOG_LEVEL"

  -- Load; the configuration beside an error is left out
  unfoldable pub load : Result ConfigError Config
  unfolding parse_retention read_config missing_names check_values check_limits
  load = parse_retention >>= λ retention.
      let c = read_config retention in
      none_missing (missing_names c) >> check_values c >> check_limits c >> ok c
