-- ===== src/Auth/Absence.antt =====
-- Each operation of the auth use case keeps an absent Redis key absent, if the key is of a family
-- that the operations do not create, or names a jti or a token that is not drawn again.
pub mod Parts
pub mod Tokens
pub mod Resets
use go_rest_boilerplate.Base.{String, List, [], ◌∷◌}
use go_rest_boilerplate.Exec.Rules.{Keeps}
use go_rest_boilerplate.Env.Laws.{RedisLaws}
use go_rest_boilerplate.Config.{App}
use go_rest_boilerplate.State.{State}
use go_rest_boilerplate.Domain.User.{User}
use go_rest_boilerplate.Redis.Absent.{Absent}
use go_rest_boilerplate.Frames.Redis as Frame
use go_rest_boilerplate.Auth.Sessions
use go_rest_boilerplate.Auth.Requests.{Request, serve, serve_all}
use go_rest_boilerplate.Auth.Requests
use go_rest_boilerplate.Auth.Absence.Parts.{NotCreated, framed}
use go_rest_boilerplate.Auth.Absence.Tokens.{
  login-Gone, refresh-Gone, logout-Gone, send_otp-Gone, verify_otp-Gone,
}
use go_rest_boilerplate.Auth.Absence.Resets.{
  change_password-Gone, reset_password-Gone, forgot_password-Gone,
}

module _ (app : App) (L : RedisLaws app.env) (q : String) (C : NotCreated app q) where
  abbrev Gone : State app → Type 0
  Gone = Absent app L q

  register-Gone : (u : User) → Keeps Gone (Sessions.register app u)
  unfolding Sessions.register
  register-Gone u = framed app L q _ (λ d. Frame.store-RedisIs u)

  -- Every request keeps the key absent.
  serve-Absent : (r : Request) (s : State app) → Gone s → Gone (serve app r s)
  unfolding serve
  serve-Absent (Requests.register u) s h = (register-Gone u).at s h
  serve-Absent (Requests.login e p) s h = (login-Gone app L q C e p).at s h
  serve-Absent (Requests.send_otp e) s h = (send_otp-Gone app L q C e).at s h
  serve-Absent (Requests.verify_otp e c) s h = (verify_otp-Gone app L q C e c).at s h
  serve-Absent (Requests.refresh t) s h = (refresh-Gone app L q C t).at s h
  serve-Absent (Requests.logout t) s h = (logout-Gone app L q C t).at s h
  serve-Absent (Requests.change_password i c p) s h = (change_password-Gone app L q C i c p).at s h
  serve-Absent (Requests.forgot_password e) s h = (forgot_password-Gone app L q C e).at s h
  serve-Absent (Requests.reset_password t p) s h = (reset_password-Gone app L q C t p).at s h

  pub serve_all-Absent : (rs : List Request) (s : State app) → Gone s → Gone (serve_all app rs s)
  unfolding serve_all
  serve_all-Absent [] s h = h
  serve_all-Absent (r ∷ rs) s h = serve_all-Absent rs (serve app r s) (serve-Absent r s h)
