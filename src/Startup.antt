-- ===== src/Startup.antt =====
-- internal/config/config.go: the settings, their defaults and their checks. The reading of the
-- environment and the parsing of a URL are parameters; the sampling ratio of traces, a
-- floating-point number, is left out.
pub mod Wiring
pub mod Ranges
use Prim.Native.Char.{code}
use go_rest_boilerplate.Base.{
  ℕ, ℤ, pos, String, ◌<>◌, Bool, ◌||◌, List, [], ◌∷◌, ◌==◌, str_eq, ltb, if◌then◌else◌,
}
use go_rest_boilerplate.Base.Int.{lt_ℤ, eq_ℤ}
use go_rest_boilerplate.Apperror.{Error, external, errorf}
use go_rest_boilerplate.Exec.{Result, ok, err}

pub record Config : Type 0 where
  pub port : ℤ
  pub environment : String
  pub debug : Bool
  pub db_postgre_driver : String
  pub db_postgre_dsn : String
  pub db_postgre_url : String
  pub db_max_open_conns : ℤ
  pub db_max_idle_conns : ℤ
  pub db_conn_max_life_mins : ℤ
  pub jwt_secret : String
  pub jwt_expired : ℤ
  pub jwt_issuer : String
  pub jwt_refresh_expired : ℤ
  pub otp_email : String
  pub otp_password : String
  pub otp_max_attempts : ℤ
  pub mailer_workers : ℤ
  pub mailer_queue_size : ℤ
  pub mailer_retries : ℤ
  pub bcrypt_cost : ℤ
  pub otel_exporter : String
  pub redis_host : String
  pub redis_password : String
  pub redis_expired : ℤ
  pub allowed_origins : String

-- viper, net/url, strings.TrimSpace, the bytes of a text and its decimals.
pub record Library : Type 0 where
  pub read_in_config : Result (Unit {0})
  pub unmarshal : Result Config
  pub parse_url : String → Result (Unit {0})
  pub trim_space : String → String
  pub len : String → ℕ
  pub format_int : ℤ → String

abbrev default_to : ℤ → ℤ → ℤ
default_to n value = if eq_ℤ value (pos 0) then n else value

unfoldable pub apply_defaults : Config → Config
apply_defaults c = record c {
  db_max_open_conns = default_to (pos 25) c.db_max_open_conns;
  db_max_idle_conns = default_to (pos 5) c.db_max_idle_conns;
  db_conn_max_life_mins = default_to (pos 15) c.db_conn_max_life_mins;
  otp_max_attempts = default_to (pos 5) c.otp_max_attempts;
  mailer_workers = default_to (pos 2) c.mailer_workers;
  mailer_queue_size = default_to (pos 64) c.mailer_queue_size;
  mailer_retries = default_to (pos 3) c.mailer_retries;
  bcrypt_cost = default_to (pos 12) c.bcrypt_cost;
  jwt_refresh_expired = default_to (pos 7) c.jwt_refresh_expired;
}

abbrev pub err_empty_var : Error
err_empty_var = external "required variable environment is empty"

abbrev pub outside : ℤ → ℤ → ℤ → Bool
outside low high n = lt_ℤ n low || lt_ℤ high n

-- `if b { return e }`, one after another, then the rest.
unfoldable pub first_bad : List (Bool × String) → Result (Unit {0}) → Result (Unit {0})
first_bad [] rest = rest
first_bad ((b, message) ∷ cs) rest =
    let later = first_bad cs rest in if b then err (external message) else later

abbrev pub lacks_required : Config → Bool
lacks_required c =
    eq_ℤ c.port (pos 0)
    || str_eq c.environment ""
    || str_eq c.jwt_secret ""
    || eq_ℤ c.jwt_expired (pos 0)
    || str_eq c.jwt_issuer ""
    || str_eq c.otp_email ""
    || str_eq c.otp_password ""
    || str_eq c.redis_host ""
    || str_eq c.redis_password ""
    || eq_ℤ c.redis_expired (pos 0)
    || str_eq c.db_postgre_driver ""

module _ (lib : Library) where
  abbrev valid_url : Result (Unit {0}) → Result (Unit {0}) → Result (Unit {0})
  valid_url (err e) rest = err (errorf "DB_POSTGRE_URL is not a valid URL" e)
  valid_url (ok u) rest = rest

  -- The switch on the environment.
  unfoldable pub check_environment : Config → Result (Unit {0})
  check_environment c =
      if str_eq c.environment "development"
      then (if str_eq c.db_postgre_dsn "" then err err_empty_var else ok tt)
      else if str_eq c.environment "production"
      then (if str_eq c.db_postgre_url ""
          then err err_empty_var
          else valid_url (lib.parse_url c.db_postgre_url) (
              first_bad
                ((
                  str_eq c.allowed_origins "",
                  "ALLOWED_ORIGINS must be set in production (comma-separated origins)",
                )
                  ∷ [])
                (ok tt)))
      else err (
          external (
            "ENVIRONMENT must be 'development' or 'production', got \"" <> (c.environment <> "\"")))

  -- The ranges, in the order in which they are checked.
  unfoldable pub range_checks : Config → List (Bool × String)
  range_checks c =
      (
        outside (pos 1) (pos 65535) c.port,
        "PORT must be between 1 and 65535, got " <> lib.format_int c.port,
      )
      ∷ (
        outside (pos 1) (pos 720) c.jwt_expired,
        "JWT_EXPIRED must be between 1 and 720 hours, got " <> lib.format_int c.jwt_expired,
      )
      ∷ (
        outside (pos 1) (pos 365) c.jwt_refresh_expired,
        "JWT_REFRESH_EXPIRED must be between 1 and 365 days, got "
            <> lib.format_int c.jwt_refresh_expired,
      )
      ∷ (
        ltb (lib.len c.jwt_secret) 32,
        "JWT_SECRET must be at least 32 characters (got "
            <> (lib.format_int (pos (lib.len c.jwt_secret))
                <> ") — HS256 requires 256-bit entropy"),
      )
      ∷ (
        lt_ℤ c.redis_expired (pos 1),
        "REDIS_EXPIRED must be at least 1 minute, got " <> lib.format_int c.redis_expired,
      )
      ∷ (
        lt_ℤ c.db_max_open_conns (pos 1)
            || lt_ℤ c.db_max_idle_conns (pos 0)
            || lt_ℤ c.db_max_open_conns c.db_max_idle_conns,
        "invalid DB pool config: open="
            <> (lib.format_int c.db_max_open_conns
                <> (" idle=" <> lib.format_int c.db_max_idle_conns)),
      )
      ∷ (
        lt_ℤ c.otp_max_attempts (pos 1),
        "OTP_MAX_ATTEMPTS must be >= 1, got " <> lib.format_int c.otp_max_attempts,
      )
      ∷ (
        outside (pos 10) (pos 31) c.bcrypt_cost,
        "BCRYPT_COST must be between 10 and 31, got " <> lib.format_int c.bcrypt_cost,
      )
      ∷ []

  unfoldable pub check : Config → Result (Unit {0})
  check c =
      if lacks_required c
      then err err_empty_var
      else first_bad (range_checks c) (check_environment c)

  abbrev pub checked : Config → Result (Unit {0}) → Result Config
  checked c (ok u) = ok c
  checked c (err e) = err e

  abbrev pub loaded : Result (Unit {0}) → Result Config → Result Config
  loaded (err e) r = err (external "failed to load config file")
  loaded (ok u) (err e) = err (external "failed to parse env to config struct")
  loaded (ok u) (ok c) = let d = apply_defaults c in checked d (check d)

  -- `InitializeAppConfig`, with the settings it leaves in `AppConfig` when it succeeds.
  unfoldable pub initialize_app_config : Result Config
  initialize_app_config = loaded lib.read_in_config lib.unmarshal

  -- `strings.Split(s, ",")`, with the text since the last comma.
  unfoldable pub split_comma : String → String → List String
  split_comma cur String.[] = cur ∷ []
  split_comma cur (String.◌∷◌ c s) =
      let closed = cur ∷ split_comma "" s in
      let longer = split_comma (cur <> String.◌∷◌ c String.[]) s in
      if code c == b',' then closed else longer

  unfoldable pub trimmed : List String → List String
  trimmed [] = []
  trimmed (p ∷ ps) =
      let rest = trimmed ps in
      if str_eq (lib.trim_space p) "" then rest else lib.trim_space p ∷ rest

  unfoldable pub allowed_origins_list : Config → List String
  allowed_origins_list c =
      if str_eq c.allowed_origins ""
      then (if str_eq c.environment "production" then [] else "*" ∷ [])
      else trimmed (split_comma "" c.allowed_origins)
