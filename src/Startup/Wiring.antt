-- ===== src/Startup/Wiring.antt =====
-- What `NewApp` of cmd/api/server/server.go makes of the settings.
use go_rest_boilerplate.Base.{ℕ, ◌*◌, ℤ, pos, negsuc, String}
use go_rest_boilerplate.Time.{minute}
use go_rest_boilerplate.Config.{AuthConfig, JwtService}
use go_rest_boilerplate.Mailer.Backoff.{Settings, new_settings}
use go_rest_boilerplate.Startup.{Config}

-- A setting that the checks hold positive, as a number.
abbrev pub natural : ℤ → ℕ
natural (pos n) = n
natural (negsuc n) = 0

-- What `NewApp` passes to the use case, the token service and the mailer.
abbrev pub auth_config : Config → AuthConfig
auth_config c = record {
  otp_max_attempts = c.otp_max_attempts;
  otp_ttl = natural c.redis_expired * minute;
  password_reset_ttl = 30 * minute;
  bcrypt_cost = c.bcrypt_cost;
  login_max_attempts = pos 10;
  login_lockout_ttl = 15 * minute;
  forgot_max_attempts = pos 3;
  forgot_lockout_ttl = 15 * minute;
}

-- The constructors of pkg/jwt; the clock is the runtime's.
abbrev pub new_jwt_service_with_refresh : String → String → ℕ → ℕ → JwtService
new_jwt_service_with_refresh secret_key issuer expired_hours refresh_expired_days = record {
  secret_key = secret_key;
  issuer = issuer;
  expired = expired_hours;
  refresh_expired = refresh_expired_days;
}

abbrev pub new_jwt_service : String → String → ℕ → JwtService
new_jwt_service secret_key issuer expired = new_jwt_service_with_refresh secret_key issuer expired 7

abbrev pub jwt_service : Config → JwtService
jwt_service c =
    new_jwt_service_with_refresh c.jwt_secret c.jwt_issuer (natural c.jwt_expired)
      (natural c.jwt_refresh_expired)

abbrev pub mailer_settings : Config → Settings
mailer_settings c =
    new_settings c.mailer_workers c.mailer_queue_size c.mailer_retries (pos 1_000_000_000)
