-- ===== src/Config.antt =====
-- The settings that the composition root passes to the components: internal/business/usecases/auth
-- (auth.config.go), internal/business/usecases/users (`Config`), pkg/jwt (`jwtService`), the
-- default lifetime of internal/datasources/caches, and the external code of `Env`.
use go_rest_boilerplate.Base.{ℕ, ℤ, String}
use go_rest_boilerplate.Env.{Env}

-- `Config` of the auth use case; durations in nanoseconds.
pub record AuthConfig : Type 0 where
  pub otp_max_attempts : ℤ
  pub otp_ttl : ℕ
  pub password_reset_ttl : ℕ
  pub bcrypt_cost : ℤ
  pub login_max_attempts : ℤ
  pub login_lockout_ttl : ℕ
  pub forgot_max_attempts : ℤ
  pub forgot_lockout_ttl : ℕ

-- `jwtService`: the lifetimes are in hours and in days.
pub record JwtService : Type 0 where
  pub secret_key : String
  pub issuer : String
  pub expired : ℕ
  pub refresh_expired : ℕ

pub record App : Type 1 where
  pub env : Env
  pub open env use *
  pub auth : AuthConfig
  pub jwt : JwtService
  -- `redisCache.expires`, in minutes
  pub redis_expires : ℕ
  -- `Config.BcryptCost` of the users use case
  pub users_bcrypt_cost : ℤ
  -- How many rounds of `helpers.GenerateOTPCode` are followed.
  pub otp_rounds : ℕ
