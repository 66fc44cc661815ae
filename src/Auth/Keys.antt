-- ===== src/Auth/Keys.antt =====
-- internal/business/usecases/auth/auth.redis_keys.go: the names under which the auth flows, and the
-- auth middleware, find one another's entries.
pub mod Kinds
use go_rest_boilerplate.Base.{String, ◌<>◌}

unfoldable pub refresh_key : String → String
refresh_key jti = "refresh:" <> jti

unfoldable pub user_otp_key : String → String
user_otp_key email = "user_otp:" <> email

unfoldable pub otp_attempts_key : String → String
otp_attempts_key email = "otp_attempts:" <> email

unfoldable pub login_attempts_key : String → String
login_attempts_key email = "login_attempts:" <> email

unfoldable pub forgot_attempts_key : String → String
forgot_attempts_key email = "forgot_attempts:" <> email

unfoldable pub password_reset_key : String → String
password_reset_key token = "pwd_reset:" <> token

unfoldable pub user_reset_index_key : String → String
user_reset_index_key user_id = "pwd_reset_user:" <> user_id

unfoldable pub token_cutoff_key : String → String
token_cutoff_key user_id = "pwd_cutoff:" <> user_id
