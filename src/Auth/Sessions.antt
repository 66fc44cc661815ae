-- ===== src/Auth/Sessions.antt =====
-- internal/business/usecases/auth: sessions (auth.impl.go, auth.register.go, auth.login.go,
-- auth.refresh.go, auth.logout.go). Log lines are left out, and so is the comparison with a dummy
-- hash, which has no effect but time.
use go_rest_boilerplate.Base.{ℕ, ◌-◌, String, Bool, true, false, ◌&&◌, not, Option, none, some, leb}
use go_rest_boilerplate.Apperror.{
  external, unauthorized_error, forbidden_error, internal_cause, errorf,
}
use go_rest_boilerplate.Exec.{Exec, pure, ignore, map_err, guard, ◌>>=◌, ◌>>◌}
use go_rest_boilerplate.Config.{App}
use go_rest_boilerplate.State.{State, time_now}
use go_rest_boilerplate.Domain.User.{User, is_admin, tokens_revoked_before}
use go_rest_boilerplate.Domain.Account.{normalize_email, verify_password}
use go_rest_boilerplate.Time.{Time, zero_time, at, is_zero, before}
use go_rest_boilerplate.Redis
use go_rest_boilerplate.Users
use go_rest_boilerplate.Jwt
use go_rest_boilerplate.Jwt.Claims.{JwtCustomClaim, TokenPair}
use go_rest_boilerplate.Auth.Keys.{refresh_key, login_attempts_key}
use go_rest_boilerplate.Auth.Attempts.{limit_attempts_if_positive}

-- `LoginResponse`
pub record LoginResponse : Type 0 where
  pub user : User
  pub access_token : String
  pub refresh_token : String

-- `t.Sub(u) <= 0`
abbrev not_after : Time → Time → Bool
not_after zero_time u = true
not_after (at n) zero_time = false
not_after (at n) (at m) = leb n m

-- `claims.IssuedAt != nil && claims.IssuedAt.Before(cutoff)`
abbrev issued_before : Option Time → Time → Bool
issued_before none cutoff = false
issued_before (some t) cutoff = before t cutoff

-- Tokens issued before the latest change of the password.
unfoldable pub is_rotated_away : User → JwtCustomClaim → Bool
is_rotated_away u claims =
    let cutoff = tokens_revoked_before u in
    not (is_zero cutoff) && issued_before claims.issued_at cutoff

-- `time.Until(t)` at the instant `u`, where it is positive.
abbrev until : Time → Time → ℕ
until (at n) (at m) = n - m
until _ _ = 0

module _ (app : App) where
  unfoldable pub register : User → Exec (State app) User
  register in_user = Users.store app in_user

  unfoldable pub remember_refresh : TokenPair → Exec (State app) (Unit {0})
  remember_refresh pair = do
    now ← time_now app
    guard (not (not_after pair.refresh_expires_at now)) (external "refresh token already expired")
    Redis.set app (refresh_key pair.refresh_jti) pair.refresh_jti
    Redis.expire app (refresh_key pair.refresh_jti) (until pair.refresh_expires_at now)

  -- The end that Login and Refresh share: mint a pair for the user, and record it.
  unfoldable pub issue_pair : User → Exec (State app) TokenPair
  issue_pair u = do
    pair ←
        map_err (λ e. internal_cause (errorf "generate token" e))
          (Jwt.generate_token_pair app u.id (is_admin u) u.email)
    map_err (λ e. internal_cause (errorf "persist refresh" e)) (remember_refresh pair)
    pure pair

  -- The checks of Login behind the lockout.
  unfoldable pub authenticate : String → String → Exec (State app) User
  authenticate email password = do
    u ← map_err (λ _. unauthorized_error "invalid email or password") (Users.get_by_email app email)
    guard u.active (forbidden_error "account is not activated")
    guard (verify_password app u password) (unauthorized_error "invalid email or password")
    pure u

  -- Login behind the lockout, up to the response.
  unfoldable pub open_session : String → String → Exec (State app) LoginResponse
  open_session email password = do
    u ← authenticate email password
    pair ← issue_pair u
    pure (record { user = u; access_token = pair.access_token; refresh_token = pair.refresh_token })

  -- The brute-force guard of Login.
  unfoldable pub limit_logins : String → Exec (State app) (Unit {0})
  limit_logins email =
      limit_attempts_if_positive app (login_attempts_key email) app.auth.login_lockout_ttl
        app.auth.login_max_attempts "too many failed login attempts, please try again later"

  unfoldable pub login : String → String → Exec (State app) LoginResponse
  login request_email password = do
    let email = normalize_email app request_email
    limit_logins email
    resp ← open_session email password
    ignore (Redis.del app (login_attempts_key email))
    pure resp

  -- The part of Refresh between the parsing of the token and the deletion of its jti.
  unfoldable pub renew : JwtCustomClaim → Exec (State app) LoginResponse
  renew claims = do
    map_err (λ _. unauthorized_error "refresh token has been revoked")
        (Redis.get app (refresh_key claims.id))
    u ←
        map_err (λ _. unauthorized_error "user no longer exists")
          (Users.get_by_email app claims.email)
    guard u.active (forbidden_error "account is not activated")
    guard (not (is_rotated_away u claims)) (unauthorized_error "refresh token has been revoked")
    pair ← issue_pair u
    pure (record { user = u; access_token = pair.access_token; refresh_token = pair.refresh_token })

  unfoldable pub refresh : String → Exec (State app) LoginResponse
  refresh refresh_token = do
    claims ←
        map_err (λ _. unauthorized_error "invalid refresh token")
          (Jwt.parse_refresh_token app refresh_token)
    resp ← renew claims
    ignore (Redis.del app (refresh_key claims.id))
    pure resp

  unfoldable pub logout : String → Exec (State app) (Unit {0})
  logout refresh_token = do
    claims ←
        map_err (λ _. unauthorized_error "invalid refresh token")
          (Jwt.parse_refresh_token app refresh_token)
    map_err (λ e. internal_cause (errorf "revoke refresh" e))
        (Redis.del app (refresh_key claims.id))
