-- ===== src/Auth/Otp.antt =====
-- internal/business/usecases/auth: activation by a code (auth.send_otp.go, auth.verify_otp.go). Log
-- lines and metrics are left out.
use go_rest_boilerplate.Base.{String, not, str_eq}
use go_rest_boilerplate.Apperror.{not_found_error, bad_request_error, internal_cause, errorf}
use go_rest_boilerplate.Exec.{Exec, ignore, map_err, guard, ◌>>=◌, ◌>>◌}
use go_rest_boilerplate.Config.{App}
use go_rest_boilerplate.State.{State, on_mailer}
use go_rest_boilerplate.Domain.Account.{normalize_email}
use go_rest_boilerplate.Redis
use go_rest_boilerplate.Users
use go_rest_boilerplate.Mailer
use go_rest_boilerplate.OtpCode.{generate_otp_code}
use go_rest_boilerplate.Auth.Keys.{user_otp_key, otp_attempts_key}
use go_rest_boilerplate.Auth.Attempts.{limit_attempts}

module _ (app : App) where
  unfoldable pub send_otp : String → Exec (State app) (Unit {0})
  send_otp request_email = do
    let email = normalize_email app request_email
    u ← map_err (λ _. not_found_error "email not found") (Users.get_by_email app email)
    guard (not u.active) (bad_request_error "account already activated")
    code ← map_err (λ e. internal_cause (errorf "generate otp" e)) (generate_otp_code app 6)
    map_err (λ e. internal_cause (errorf "send otp" e)) (on_mailer (Mailer.send_otp code email))
    ignore (Redis.set app (user_otp_key email) code)
    ignore (Redis.del app (otp_attempts_key email))

  -- VerifyOTP up to the activation: the lockout, then the code.
  unfoldable pub check_code : String → String → Exec (State app) (Unit {0})
  check_code email otp_code = do
    limit_attempts app (otp_attempts_key email) app.auth.otp_ttl app.auth.otp_max_attempts
        "too many invalid otp attempts, please request a new code"
    otp_redis ←
        map_err (λ _. bad_request_error "otp code expired or not found")
          (Redis.get app (user_otp_key email))
    guard (str_eq otp_redis otp_code) (bad_request_error "invalid otp code")

  unfoldable pub verify_otp : String → String → Exec (State app) (Unit {0})
  verify_otp request_email otp_code = do
    let email = normalize_email app request_email
    u ← map_err (λ _. not_found_error "email not found") (Users.get_by_email app email)
    guard (not u.active) (bad_request_error "account already activated")
    check_code email otp_code
    Users.activate app u.id
    ignore (Redis.del app (user_otp_key email))
    ignore (Redis.del app (otp_attempts_key email))
