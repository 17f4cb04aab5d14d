-- ===== src/Config.antt =====
-- internal/config/config.go. `get` is `os.Getenv`, empty where a variable is not set, and `duration`
-- is `time.ParseDuration`, in nanoseconds.
pub mod Bounds
use Prim.Native.Nat.{◌^◌}
use opentrusty.Prelude.{
  Bool, Option, String, false, if◌then◌else◌, leb, ltb, negate, negsuc, none, not, pos, some, true,
  ℕ, ℤ, ◌%◌, ◌-◌, ◌==◌, ◌||◌,
}
use opentrusty.Domain.Errors.{Error, message, wrapped}
use opentrusty.Identity.Password.{drop_sign, scan_digits}
use opentrusty.World.{Result, err, ok}

pub record ServerConfig : Type 0 where
  pub host : String
  pub port : String
  pub read_timeout : ℤ
  pub write_timeout : ℤ
  pub idle_timeout : ℤ

pub record DatabaseConfig : Type 0 where
  pub host : String
  pub port : String
  pub user : String
  pub password : String
  pub database : String
  pub ssl_mode : String
  pub max_open_conns : ℤ
  pub max_idle_conns : ℤ
  pub conn_max_lifetime : ℤ

pub record SessionConfig : Type 0 where
  pub cookie_name : String
  pub cookie_domain : String
  pub cookie_path : String
  pub cookie_secure : Bool
  pub cookie_http_only : Bool
  pub cookie_same_site : String
  pub lifetime : ℤ
  pub idle_timeout : ℤ

pub record ObservabilityConfig : Type 0 where
  pub log_level : String
  pub log_format : String
  pub otel_enabled : Bool
  pub service_name : String
  pub service_version : String

-- The numbers of the hasher are of 32 and of 8 bits.
pub record SecurityConfig : Type 0 where
  pub argon2_memory : ℕ
  pub argon2_iterations : ℕ
  pub argon2_parallelism : ℕ
  pub argon2_salt_length : ℕ
  pub argon2_key_length : ℕ
  pub lockout_max_attempts : ℤ
  pub lockout_duration : ℤ

-- The rate is the number before it is made a float.
pub record RateLimitConfig : Type 0 where
  pub requests_per_second : ℤ
  pub burst : ℤ

pub record Oauth2Config : Type 0 where
  pub auth_code_lifetime : ℤ
  pub access_token_lifetime : ℤ
  pub refresh_token_lifetime : ℤ
  pub id_token_lifetime : ℤ

pub record Config : Type 0 where
  pub server : ServerConfig
  pub database : DatabaseConfig
  pub session : SessionConfig
  pub observability : ObservabilityConfig
  pub security : SecurityConfig
  pub rate_limit : RateLimitConfig
  pub oauth2 : Oauth2Config

-- The conversion of an int to an unsigned number of so many bits.
unfoldable pub to_uint : ℕ → ℤ → ℕ
to_uint bits (pos n) = n % 2 ^ bits
to_uint bits (negsuc n) = 2 ^ bits - 1 - n % 2 ^ bits

-- `strconv.Atoi`
unfoldable pub atoi : String → Option ℤ
unfolding drop_sign scan_digits
atoi s =
    let (negative, t) = drop_sign s in
    elim (scan_digits false 0 t) [
      | none ↦ none
      | some (n, rest) ↦
          if not (rest == "")
          then none
          else if negative
          then (if leb n (2 ^ 63) then some (negate n) else none)
          else if ltb n (2 ^ 63)
          then some (pos n)
          else none
    ]

-- `strconv.ParseBool`
unfoldable pub to_bool : String → Option Bool
to_bool s =
    if s == "1" || s == "t" || s == "T" || s == "true" || s == "TRUE" || s == "True"
    then some true
    else if s == "0" || s == "f" || s == "F" || s == "false" || s == "FALSE" || s == "False"
    then some false
    else none

abbrev or_default : {A : Type 0} → Option A → A → A
or_default none d = d
or_default (some a) d = a

module _ (get : String → String) (duration : String → Option ℤ) where
  unfoldable pub get_env : String → String → String
  get_env key default_value = if not (get key == "") then get key else default_value

  unfoldable pub parse_int : String → ℤ → ℤ
  unfolding atoi
  parse_int key default_value =
      if not (get key == "") then or_default (atoi (get key)) default_value else default_value

  unfoldable pub parse_bool : String → Bool → Bool
  unfolding to_bool
  parse_bool key default_value =
      if not (get key == "") then or_default (to_bool (get key)) default_value else default_value

  -- A default that is no duration is 0.
  unfoldable pub parse_duration : String → String → ℤ
  unfolding get_env
  parse_duration key default_value =
      or_default (duration (get_env key default_value))
        (or_default (duration default_value) (pos 0))

  -- The error is empty if the configuration is valid.
  unfoldable pub validate : Config → Option Error
  validate c =
      if c.database.password == ""
      then some (message "DB_PASSWORD is required")
      else if get "OPENID_KEY_ENCRYPTION_KEY" == ""
      then some (message "OPENID_KEY_ENCRYPTION_KEY is required for OIDC support")
      else none

  unfoldable pub read_security : SecurityConfig
  unfolding parse_int to_uint parse_duration
  read_security = record {
    argon2_memory = to_uint 32 (parse_int "ARGON2_MEMORY" (pos 65_536));
    argon2_iterations = to_uint 32 (parse_int "ARGON2_ITERATIONS" (pos 3));
    argon2_parallelism = to_uint 8 (parse_int "ARGON2_PARALLELISM" (pos 4));
    argon2_salt_length = to_uint 32 (parse_int "ARGON2_SALT_LENGTH" (pos 16));
    argon2_key_length = to_uint 32 (parse_int "ARGON2_KEY_LENGTH" (pos 32));
    lockout_max_attempts = parse_int "SECURITY_LOCKOUT_MAX_ATTEMPTS" (pos 5);
    lockout_duration = parse_duration "SECURITY_LOCKOUT_DURATION" "15m";
  }

  unfoldable pub read_config : Config
  unfolding read_security parse_bool
  read_config = record {
    server = record {
      host = get_env "SERVER_HOST" "0.0.0.0";
      port = get_env "SERVER_PORT" "8080";
      read_timeout = parse_duration "SERVER_READ_TIMEOUT" "15s";
      write_timeout = parse_duration "SERVER_WRITE_TIMEOUT" "15s";
      idle_timeout = parse_duration "SERVER_IDLE_TIMEOUT" "60s";
    };
    database = record {
      host = get_env "DB_HOST" "localhost";
      port = get_env "DB_PORT" "5432";
      user = get_env "DB_USER" "opentrusty";
      password = get_env "DB_PASSWORD" "";
      database = get_env "DB_NAME" "opentrusty";
      ssl_mode = get_env "DB_SSLMODE" "disable";
      max_open_conns = parse_int "DB_MAX_OPEN_CONNS" (pos 25);
      max_idle_conns = parse_int "DB_MAX_IDLE_CONNS" (pos 5);
      conn_max_lifetime = parse_duration "DB_CONN_MAX_LIFETIME" "5m";
    };
    session = record {
      cookie_name = get_env "SESSION_COOKIE_NAME" "opentrusty_session";
      cookie_domain = get_env "SESSION_COOKIE_DOMAIN" "";
      cookie_path = get_env "SESSION_COOKIE_PATH" "/";
      cookie_secure = parse_bool "SESSION_COOKIE_SECURE" true;
      cookie_http_only = parse_bool "SESSION_COOKIE_HTTP_ONLY" true;
      cookie_same_site = get_env "SESSION_COOKIE_SAME_SITE" "Lax";
      lifetime = parse_duration "SESSION_LIFETIME" "24h";
      idle_timeout = parse_duration "SESSION_IDLE_TIMEOUT" "30m";
    };
    observability = record {
      log_level = get_env "LOG_LEVEL" "info";
      log_format = get_env "LOG_FORMAT" "json";
      otel_enabled = parse_bool "OTEL_ENABLED" false;
      service_name = get_env "OTEL_SERVICE_NAME" "opentrusty";
      service_version = get_env "OTEL_SERVICE_VERSION" "0.1.0";
    };
    security = read_security;
    rate_limit = record {
      requests_per_second = parse_int "RATELIMIT_RPS" (pos 10);
      burst = parse_int "RATELIMIT_BURST" (pos 20);
    };
    oauth2 = record {
      auth_code_lifetime = parse_duration "OAUTH2_AUTH_CODE_LIFETIME" "10m";
      access_token_lifetime = parse_duration "OAUTH2_ACCESS_TOKEN_LIFETIME" "1h";
      refresh_token_lifetime = parse_duration "OAUTH2_REFRESH_TOKEN_LIFETIME" "720h";
      id_token_lifetime = parse_duration "OAUTH2_ID_TOKEN_LIFETIME" "1h";
    };
  }

  unfoldable pub load : Result Config
  unfolding read_config validate
  load = elim (validate read_config) [
    | some e ↦ err (wrapped "invalid configuration" e)
    | none ↦ ok read_config
  ]
