-- ===== src/Auth/Absence/Tokens.antt =====
-- Login, Refresh, Logout, SendOTP and VerifyOTP leave an absent key absent.
use go_rest_boilerplate.Base.{String, Bool, ◌≡◌, ◌≢◌, arith}
use go_rest_boilerplate.Exec.{ok}
use go_rest_boilerplate.Exec.Rules.{
  Keeps, Keeps-bind_mapped, Keeps-map_err, Keeps-pure, Keeps-then, continue_ok,
}
use go_rest_boilerplate.Env.Laws.{RedisLaws}
use go_rest_boilerplate.Config.{App}
use go_rest_boilerplate.State.{State}
use go_rest_boilerplate.Domain.User.{User, is_admin}
use go_rest_boilerplate.Redis.Absent.{Absent}
use go_rest_boilerplate.Jwt
use go_rest_boilerplate.Jwt.Claims.{JwtCustomClaim, TokenPair}
use go_rest_boilerplate.Auth.Keys.{refresh_key}
use go_rest_boilerplate.Auth.Sessions
use go_rest_boilerplate.Auth.Otp
use go_rest_boilerplate.Auth.Absence.Parts.{
  NotCreated, steps, token_pair-Gone, limit_attempts-Gone, limit_if_positive-Gone,
}

module _ (app : App) (L : RedisLaws app.env) (q : String) (C : NotCreated app q) where
  abbrev Gone : State app → Type 0
  Gone = Absent app L q

  -- The minted jti is drawn, and is not the one that is gone.
  sign_refresh_jti :
      (i e : String) (s : State app) {x : Jwt.Signed} {t : State app}
      → Jwt.sign_refresh app i e s ≡ (ok x, t)
      → refresh_key x.jti ≢ q
  unfolding Jwt.sign_refresh Jwt.sign
  sign_refresh_jti i e s h eq = ground (arith, C.not_session (app.now s.world).1)

  pair_jti :
      (i : String) (b : Bool) (e : String) (s : State app) {x : TokenPair} {t : State app}
      → Jwt.generate_token_pair app i b e s ≡ (ok x, t)
      → refresh_key x.refresh_jti ≢ q
  unfolding Jwt.generate_token_pair
  pair_jti i b e s {x} h =
      let (a, s', _, rest) = continue_ok (Jwt.sign_access app i b e s) _ h in
      let (r, s'', second, last) = continue_ok (Jwt.sign_refresh app i e s') _ rest in
      let same : r.jti ≡ x.refresh_jti = ground arith in rw same at (sign_refresh_jti i e s' second)

  remember-Gone :
      (x : TokenPair) → refresh_key x.refresh_jti ≢ q → Keeps Gone (Sessions.remember_refresh app x)
  unfolding Sessions.remember_refresh
  remember-Gone x n = search steps depth 9

  issue_pair-Gone : (u : User) → Keeps Gone (Sessions.issue_pair app u)
  unfolding Sessions.issue_pair
  issue_pair-Gone u =
      Keeps-bind_mapped (Jwt.generate_token_pair app u.id (is_admin u) u.email) _ _
        (token_pair-Gone app L q u.id (is_admin u) u.email)
        λ s x t h.
          let n = pair_jti u.id (is_admin u) u.email s h in
          Keeps-then _ _ (Keeps-map_err _ _ (remember-Gone x n)) (Keeps-pure x)

  authenticate-Gone : (e p : String) → Keeps Gone (Sessions.authenticate app e p)
  unfolding Sessions.authenticate
  authenticate-Gone e p = search steps depth 9

  open_session-Gone : (e p : String) → Keeps Gone (Sessions.open_session app e p)
  unfolding Sessions.open_session
  open_session-Gone e p = search (steps, authenticate-Gone, issue_pair-Gone)

  limit_logins-Gone : (e : String) → Keeps Gone (Sessions.limit_logins app e)
  unfolding Sessions.limit_logins
  limit_logins-Gone e = limit_if_positive-Gone app L q _ _ _ _ (C.not_login_count e)

  pub login-Gone : (e p : String) → Keeps Gone (Sessions.login app e p)
  unfolding Sessions.login
  login-Gone e p = search (steps, limit_logins-Gone, open_session-Gone)

  renew-Gone : (c : JwtCustomClaim) → Keeps Gone (Sessions.renew app c)
  unfolding Sessions.renew
  renew-Gone c = search (steps, issue_pair-Gone) depth 12

  pub refresh-Gone : (t : String) → Keeps Gone (Sessions.refresh app t)
  unfolding Sessions.refresh
  refresh-Gone t = search (steps, renew-Gone)

  pub logout-Gone : (t : String) → Keeps Gone (Sessions.logout app t)
  unfolding Sessions.logout
  logout-Gone t = search steps depth 9

  pub send_otp-Gone : (e : String) → Keeps Gone (Otp.send_otp app e)
  unfolding Otp.send_otp
  send_otp-Gone e = search (steps, C.not_otp) depth 12

  check_code-Gone : (e c : String) → Keeps Gone (Otp.check_code app e c)
  unfolding Otp.check_code
  check_code-Gone e c =
      search (steps, limit_attempts-Gone app L q _ _ _ _ (C.not_otp_count _)) depth 9

  pub verify_otp-Gone : (e c : String) → Keeps Gone (Otp.verify_otp app e c)
  unfolding Otp.verify_otp
  verify_otp-Gone e c = search (steps, check_code-Gone) depth 12
