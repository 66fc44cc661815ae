-- ===== src/Auth/Attempts.antt =====
-- The attempt counter that VerifyOTP, Login and ForgotPassword share in shape
-- (internal/business/usecases/auth/auth.verify_otp.go, auth.login.go, auth.forgot_password.go).
use go_rest_boilerplate.Base.{ℕ, ℤ, pos, String, if◌then◌else◌, not}
use go_rest_boilerplate.Base.Int.{lt_ℤ, eq_ℤ}
use go_rest_boilerplate.Apperror.{forbidden_error}
use go_rest_boilerplate.Exec.{Exec, Result, ok, err, pure, attempt, ignore, guard, ◌>>=◌, ◌>>◌}
use go_rest_boilerplate.Config.{App}
use go_rest_boilerplate.State.{State}
use go_rest_boilerplate.Redis

module _ (app : App) where
  -- The first attempt of a window starts its lifetime. A failed increment counts as 0.
  abbrev pub started : String → ℕ → Result ℤ → Exec (State app) ℤ
  started key ttl (err e) = pure (pos 0)
  started key ttl (ok attempts) =
      if eq_ℤ attempts (pos 1)
      then (do ignore (Redis.expire app key ttl); pure attempts)
      else pure attempts

  unfoldable pub track_attempt : String → ℕ → Exec (State app) ℤ
  track_attempt key ttl = do counted ← attempt (Redis.incr app key); started key ttl counted

  -- The lockout: more attempts than `max` are refused.
  unfoldable pub limit_attempts : String → ℕ → ℤ → String → Exec (State app) (Unit {0})
  limit_attempts key ttl max message = do
    attempts ← track_attempt key ttl
    guard (not (lt_ℤ max attempts)) (forbidden_error message)

  -- The same, switched off where `max` is not positive.
  unfoldable pub limit_attempts_if_positive : String → ℕ → ℤ → String → Exec (State app) (Unit {0})
  limit_attempts_if_positive key ttl max message =
      if lt_ℤ (pos 0) max then limit_attempts key ttl max message else pure tt
