-- ===== src/Tests/Settings.antt =====
-- The settings: the example.
use go_rest_boilerplate.Base.{◌*◌, ◌^◌, ◌<◌, pos, false, ◌≡◌, refl, str_eq}
use go_rest_boilerplate.Base.Codes.{codes}
use go_rest_boilerplate.Base.{length}
use go_rest_boilerplate.Exec.{ok}
use go_rest_boilerplate.Time.{hour}
use go_rest_boilerplate.Startup.{
  Config, Library, apply_defaults, range_checks, first_bad, check, check_environment,
  initialize_app_config,
}
use go_rest_boilerplate.Startup.Wiring.{jwt_service}
use go_rest_boilerplate.Startup.Ranges.{InRange, initialize_app_config-InRange}

-- As the environment gives them: what is left out is zero.
abbrev given : Config
given = record {
  port = pos 8080;
  environment = "development";
  debug = false;
  db_postgre_driver = "postgres";
  db_postgre_dsn = "host=localhost";
  db_postgre_url = "";
  db_max_open_conns = pos 0;
  db_max_idle_conns = pos 0;
  db_conn_max_life_mins = pos 0;
  jwt_secret = "0123456789abcdef0123456789abcdef";
  jwt_expired = pos 720;
  jwt_issuer = "app";
  jwt_refresh_expired = pos 0;
  otp_email = "no-reply@x.io";
  otp_password = "pw";
  otp_max_attempts = pos 0;
  mailer_workers = pos 0;
  mailer_queue_size = pos 0;
  mailer_retries = pos 0;
  bcrypt_cost = pos 0;
  otel_exporter = "";
  redis_host = "localhost:6379";
  redis_password = "pw";
  redis_expired = pos 5;
  allowed_origins = "";
}

abbrev lib : Library
lib = record {
  read_in_config = ok tt;
  unmarshal = ok given;
  parse_url = λ s. ok tt;
  trim_space = λ s. s;
  len = λ s. length (codes s);
  format_int = λ n. "";
}

abbrev settled : Config
settled = record given {
  db_max_open_conns = pos 25;
  db_max_idle_conns = pos 5;
  db_conn_max_life_mins = pos 15;
  otp_max_attempts = pos 5;
  mailer_workers = pos 2;
  mailer_queue_size = pos 64;
  mailer_retries = pos 3;
  bcrypt_cost = pos 12;
  jwt_refresh_expired = pos 7;
}

starts : initialize_app_config lib ≡ ok settled
unfolding initialize_app_config apply_defaults check range_checks first_bad check_environment str_eq
starts = refl

initialize_app_config-InRange_example :
    InRange lib settled
    × (hour * (jwt_service settled).expired < 2 ^ 63)
    × (24 * hour * (jwt_service settled).refresh_expired < 2 ^ 63)
initialize_app_config-InRange_example = initialize_app_config-InRange lib starts
