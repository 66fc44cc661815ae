-- ===== src/Http/Handlers/Serving/Asked.antt =====
-- What the handlers of internal/http hand on to the use case.
use go_rest_boilerplate.Base.{
  String, Option, none, some, List, ◌≡◌, ◌⊎◌, inl, inr, refl, ap, sym, ◌∙◌,
}
use go_rest_boilerplate.Apperror.{Error}
use go_rest_boilerplate.Exec.{Exec, Result, ok, err}
use go_rest_boilerplate.Config.{App}
use go_rest_boilerplate.State.{State}
use go_rest_boilerplate.Jwt.Claims.{JwtCustomClaim}
use go_rest_boilerplate.Auth.Sessions
use go_rest_boilerplate.Auth.Otp
use go_rest_boilerplate.Auth.Passwords
use go_rest_boilerplate.Auth.Requests
use go_rest_boilerplate.Auth.Requests.{Request, serve}
use go_rest_boilerplate.Validators.{Library, Field, validate_payloads}
use go_rest_boilerplate.Http.Response.{ErrorResponse}
use go_rest_boilerplate.Http.AuthMiddleware.{AuthMiddleware, Verdict, abort, next, handle}
use go_rest_boilerplate.Http.DataTransfers.{
  RegisterRequest, register_fields, to_v1_domain, SendOtpRequest, send_otp_fields, VerifyOtpRequest,
  verify_otp_fields, LoginRequest, login_fields, RefreshRequest, refresh_fields,
  ChangePasswordRequest, change_password_fields, ForgotPasswordRequest, forgot_password_fields,
  ResetPasswordRequest, reset_password_fields,
}
use go_rest_boilerplate.Http.Handlers
use go_rest_boilerplate.Http.Handlers.{
  Answer, fails, succeeds, Reply, rejects, unless_invalid, with_body, replied, new_error_response,
}
use go_rest_boilerplate.Http.Handlers.Serving.{
  Incoming, register, login, send_otp, verify_otp, refresh, logout, change_password,
  forgot_password, reset_password, route, behind,
}

module _ (app : App) (lib : Library) (m : AuthMiddleware) where
  -- The state at which a request's handler starts.
  abbrev pub entered : Incoming → State app → State app
  entered (change_password header body) s = (handle app m header s).1
  entered _ s = s

  -- The incoming request passes every check, and asks this of the use case.
  pub data AsksFor (s : State app) : Incoming → Request → Type 0 where
    asks_register :
        (b : RegisterRequest)
        → validate_payloads lib (register_fields b) ≡ none
        → AsksFor s (register (some b)) (Requests.register (to_v1_domain b))
    asks_login :
        (b : LoginRequest)
        → validate_payloads lib (login_fields b) ≡ none
        → AsksFor s (login (some b)) (Requests.login b.email b.password)
    asks_send_otp :
        (b : SendOtpRequest)
        → validate_payloads lib (send_otp_fields b) ≡ none
        → AsksFor s (send_otp (some b)) (Requests.send_otp b.email)
    asks_verify_otp :
        (b : VerifyOtpRequest)
        → validate_payloads lib (verify_otp_fields b) ≡ none
        → AsksFor s (verify_otp (some b)) (Requests.verify_otp b.email b.code)
    asks_refresh :
        (b : RefreshRequest)
        → validate_payloads lib (refresh_fields b) ≡ none
        → AsksFor s (refresh (some b)) (Requests.refresh b.refresh_token)
    asks_logout :
        (b : RefreshRequest)
        → validate_payloads lib (refresh_fields b) ≡ none
        → AsksFor s (logout (some b)) (Requests.logout b.refresh_token)
    asks_change_password :
        (header : String) (b : ChangePasswordRequest) (c : JwtCustomClaim)
        → (handle app m header s).0 ≡ ok (next c)
        → validate_payloads lib (change_password_fields b) ≡ none
        → AsksFor s
            (change_password header (some b))
            (Requests.change_password c.user_id b.current_password b.new_password)
    asks_forgot_password :
        (b : ForgotPasswordRequest)
        → validate_payloads lib (forgot_password_fields b) ≡ none
        → AsksFor s (forgot_password (some b)) (Requests.forgot_password b.email)
    asks_reset_password :
        (b : ResetPasswordRequest)
        → validate_payloads lib (reset_password_fields b) ≡ none
        → AsksFor s (reset_password (some b)) (Requests.reset_password b.token b.new_password)

  -- An answer that failed, and no event.
  abbrev pub Refused : Reply → Type 0
  Refused r = ((e : ErrorResponse) × (r.answer ≡ fails e)) × (r.recorded ≡ none)

  -- Either the request is refused with nothing done, or its state is that of the use case.
  abbrev pub Served : Incoming → State app → Reply × State app → Type 0
  Served q s (r, t) =
      (Refused r × (t ≡ entered q s))
      ⊎ ((a : Request) × AsksFor s q a × (t ≡ serve app a (entered q s)))

  replied_state :
      {A : Type 0} (on_err : Error → Option Handlers.Event) (on_ok : A → Handlers.Event)
      (answer : A → Answer) (p : Result A × State app)
      → (replied on_err on_ok answer p).1 ≡ p.1
  replied_state on_err on_ok answer (ok a, t) = refl
  replied_state on_err on_ok answer (err e, t) = refl

  -- The common shape of the handlers.
  module _ {R A : Type 0} (q : Incoming) (s u : State app) (entry : u ≡ entered q s)
      (fields : R → List Field) (on_err : R → Error → Option Handlers.Event)
      (on_ok : R → A → Handlers.Event) (answer : R → A → Answer) (call : R → Exec (State app) A)
      (asked : R → Request) where
    unless_invalid-Served :
        (r : R) (v : Option Error)
        → (v ≡ none → AsksFor s q (asked r))
        → ((call r u).1 ≡ serve app (asked r) u)
        → Served q s (unless_invalid v (λ u. replied (on_err r) (on_ok r) (answer r) (call r u)) u)
    unless_invalid-Served r none f g = inr (
      asked r,
      f refl,
      replied_state (on_err r) (on_ok r) (answer r) (call r u) ∙ g ∙ ap (serve app (asked r)) entry,
    )
    unless_invalid-Served r (some x) f g = inl (((_, refl), refl), entry)

    with_body-Served :
        (body : Option R)
        → ((r : R)
            → body ≡ some r
            → validate_payloads lib (fields r) ≡ none
            → AsksFor s q (asked r))
        → ((r : R) → (call r u).1 ≡ serve app (asked r) u)
        → Served q s (
            with_body lib body fields (λ r u. replied (on_err r) (on_ok r) (answer r) (call r u)) u)
    with_body-Served none f g = inl (((_, refl), refl), entry)
    with_body-Served (some r) f g =
        unless_invalid-Served r (validate_payloads lib (fields r)) (f r refl) (g r)

  behind-Served :
      (header : String) (body : Option ChangePasswordRequest) (s : State app)
      (p : Result Verdict × State app)
      → handle app m header s ≡ p
      → Served (change_password header body) s (behind app lib m body p)
  unfolding Handlers.change_password serve
  behind-Served header body s (err e, t) h = inl (((_, refl), refl), ap (λ x. x.1) (sym h))
  behind-Served header body s (ok (abort message), t) h =
      inl (((_, refl), refl), ap (λ x. x.1) (sym h))
  behind-Served header body s (ok (next c), t) h =
      with_body-Served (change_password header body) s t (ap (λ x. x.1) (sym h))
        change_password_fields _ _ _
        (λ r. Passwords.change_password app c.user_id r.current_password r.new_password)
        (λ r. Requests.change_password c.user_id r.current_password r.new_password) body
        (λ r e v. rw e (asks_change_password header r c (ap (λ x. x.0) h) v)) λ r. refl

  -- A request is either refused, with an error and without any event or effect but that of the auth
  -- middleware, or passes its checks, and then the state is that of the one call of the use case
  -- that it asks for.
  pub route-Served : (q : Incoming) (s : State app) → Served q s (route app lib m q s)
  unfolding route serve Handlers.register Handlers.login Handlers.send_otp Handlers.verify_otp
      Handlers.refresh Handlers.logout Handlers.forgot_password Handlers.reset_password
  route-Served (register body) s =
      with_body-Served (register body) s s refl register_fields _ _ _
        (λ r. Sessions.register app (to_v1_domain r)) (λ r. Requests.register (to_v1_domain r)) body
        (λ r e v. rw e (asks_register r v)) λ r. refl
  route-Served (login body) s =
      with_body-Served (login body) s s refl login_fields _ _ _
        (λ r. Sessions.login app r.email r.password) (λ r. Requests.login r.email r.password) body
        (λ r e v. rw e (asks_login r v)) λ r. refl
  route-Served (send_otp body) s =
      with_body-Served (send_otp body) s s refl send_otp_fields _ _ _
        (λ r. Otp.send_otp app r.email) (λ r. Requests.send_otp r.email) body
        (λ r e v. rw e (asks_send_otp r v)) λ r. refl
  route-Served (verify_otp body) s =
      with_body-Served (verify_otp body) s s refl verify_otp_fields _ _ _
        (λ r. Otp.verify_otp app r.email r.code) (λ r. Requests.verify_otp r.email r.code) body
        (λ r e v. rw e (asks_verify_otp r v)) λ r. refl
  route-Served (refresh body) s =
      with_body-Served (refresh body) s s refl refresh_fields _ _ _
        (λ r. Sessions.refresh app r.refresh_token) (λ r. Requests.refresh r.refresh_token) body
        (λ r e v. rw e (asks_refresh r v)) λ r. refl
  route-Served (logout body) s =
      with_body-Served (logout body) s s refl refresh_fields _ _ _
        (λ r. Sessions.logout app r.refresh_token) (λ r. Requests.logout r.refresh_token) body
        (λ r e v. rw e (asks_logout r v)) λ r. refl
  route-Served (change_password header body) s =
      behind-Served header body s (handle app m header s) refl
  route-Served (forgot_password body) s =
      with_body-Served (forgot_password body) s s refl forgot_password_fields _ _ _
        (λ r. Passwords.forgot_password app r.email) (λ r. Requests.forgot_password r.email) body
        (λ r e v. rw e (asks_forgot_password r v)) λ r. refl
  route-Served (reset_password body) s =
      with_body-Served (reset_password body) s s refl reset_password_fields _ _ _
        (λ r. Passwords.reset_password app r.token r.new_password)
        (λ r. Requests.reset_password r.token r.new_password) body
        (λ r e v. rw e (asks_reset_password r v)) λ r. refl
