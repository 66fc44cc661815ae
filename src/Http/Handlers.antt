-- ===== src/Http/Handlers.antt =====
-- internal/http/handlers/v1/auth and users: what each endpoint answers and what it audits. A body
-- arrives as what gin's binding makes of it, or not at all; of an audit event, what the endpoint
-- itself fills in. Log lines are left out.
pub mod Serving
use go_rest_boilerplate.Base.{
  ℕ, String, ◌<>◌, Bool, true, false, Option, none, some, List, if◌then◌else◌,
}
use go_rest_boilerplate.Apperror.{Error, forbidden, DomainError, as_domain_error, error_text}
use go_rest_boilerplate.Exec.{Result, ok, err}
use go_rest_boilerplate.Config.{App}
use go_rest_boilerplate.State.{State}
use go_rest_boilerplate.Domain.User.{User}
use go_rest_boilerplate.Users
use go_rest_boilerplate.Jwt.Claims.{JwtCustomClaim}
use go_rest_boilerplate.Auth.Sessions
use go_rest_boilerplate.Auth.Otp
use go_rest_boilerplate.Auth.Passwords
use go_rest_boilerplate.Validators.{Library, Field, validate_payloads}
use go_rest_boilerplate.Http.Response.{ErrorResponse, respond_with_error}
use go_rest_boilerplate.Http.DataTransfers.{
  RegisterRequest, register_fields, to_v1_domain, SendOtpRequest, send_otp_fields, VerifyOtpRequest,
  verify_otp_fields, LoginRequest, login_fields, RefreshRequest, refresh_fields,
  ChangePasswordRequest, change_password_fields, ForgotPasswordRequest, forgot_password_fields,
  ResetPasswordRequest, reset_password_fields, UserResponse, from_v1_domain, from_login_response,
  CurrentUser, current_user_from_context,
}

-- The `data` of a successful answer: none, a user under the key `user`, or a user with the tokens.
pub data Payload : Type 0 where
  nothing : Payload
  profile tokens : UserResponse → Payload

pub data Answer : Type 0 where
  fails : ErrorResponse → Answer
  succeeds : ℕ → String → Payload → Answer

-- `audit.Event`, as a handler fills it in.
pub record Event : Type 0 where
  pub type : String
  pub success : Bool
  pub user_id : String
  pub email : String
  pub reason : String

-- What a handler does besides its call of the use case: the answer, and the event if it records one.
pub record Reply : Type 0 where
  pub answer : Answer
  pub recorded : Option Event

abbrev failure : String → String → String → Error → Event
failure type user_id email e = record {
  type = type;
  success = false;
  user_id = user_id;
  email = email;
  reason = error_text e;
}

abbrev success : String → String → String → Event
success type user_id email = record {
  type = type;
  success = true;
  user_id = user_id;
  email = email;
  reason = "";
}

-- `NewErrorResponse`
abbrev new_error_response : ℕ → String → Answer
new_error_response status message =
    fails (record { status = status; message = message; details = none })

abbrev pub rejects : Answer → Reply
rejects a = record { answer = a; recorded = none }

module _ {A S : Type 0} where
  -- The use case's result, in an answer and an event.
  abbrev pub replied :
      (Error → Option Event) → (A → Event) → (A → Answer) → Result A × S → Reply × S
  replied on_err on_ok answer (ok a, s) =
      (record { answer = answer a; recorded = some (on_ok a) }, s)
  replied on_err on_ok answer (err e, s) =
      (record { answer = fails (respond_with_error e); recorded = on_err e }, s)

module _ {S : Type 0} where
  abbrev pub unless_invalid : Option Error → (S → Reply × S) → S → Reply × S
  unless_invalid none f s = f s
  unless_invalid (some e) f s = (rejects (fails (respond_with_error e)), s)

module _ {R S : Type 0} (lib : Library) where
  -- `ShouldBindJSON`, then `ValidatePayloads`.
  abbrev pub with_body : Option R → (R → List Field) → (R → S → Reply × S) → S → Reply × S
  with_body none fields f s = (rejects (new_error_response 400 "invalid request body"), s)
  with_body (some r) fields f s = unless_invalid (validate_payloads lib (fields r)) (f r) s

-- A failed VerifyOTP: a lockout, or a wrong code.
abbrev is_lockout : Option DomainError → Bool
is_lockout none = false
is_lockout (some d) = elim d.kind [ forbidden ↦ true | _ ↦ false ]

abbrev otp_failure : String → Error → Event
otp_failure email e =
    failure (if is_lockout (as_domain_error e) then "otp_lockout" else "otp_verify_failure") ""
      email e

module _ (app : App) (lib : Library) where
  unfoldable pub register : Option RegisterRequest → State app → Reply × State app
  register body = with_body lib body register_fields λ req s.
      replied (λ e. some (failure "register" "" req.email e)) (λ u. success "register" u.id u.email)
        (λ u. succeeds 201 "registration user success" (profile (from_v1_domain u)))
        (Sessions.register app (to_v1_domain req) s)

  unfoldable pub login : Option LoginRequest → State app → Reply × State app
  login body = with_body lib body login_fields λ req s.
      replied (λ e. some (failure "login_failure" "" req.email e))
        (λ r. success "login_success" r.user.id r.user.email)
        (λ r. succeeds 200 "login success" (tokens (from_login_response r)))
        (Sessions.login app req.email req.password s)

  unfoldable pub send_otp : Option SendOtpRequest → State app → Reply × State app
  send_otp body = with_body lib body send_otp_fields λ req s.
      replied (λ e. none) (λ _. success "otp_sent" "" req.email)
        (λ _. succeeds 200 ("otp code has been send to " <> req.email) nothing)
        (Otp.send_otp app req.email s)

  unfoldable pub verify_otp : Option VerifyOtpRequest → State app → Reply × State app
  verify_otp body = with_body lib body verify_otp_fields λ req s.
      replied (λ e. some (otp_failure req.email e)) (λ _. success "otp_verify_success" "" req.email)
        (λ _. succeeds 200 "otp verification success" nothing)
        (Otp.verify_otp app req.email req.code s)

  unfoldable pub refresh : Option RefreshRequest → State app → Reply × State app
  refresh body = with_body lib body refresh_fields λ req s.
      replied (λ e. some (failure "refresh_failure" "" "" e))
        (λ r. success "refresh_success" r.user.id r.user.email)
        (λ r. succeeds 200 "token refreshed" (tokens (from_login_response r)))
        (Sessions.refresh app req.refresh_token s)

  unfoldable pub logout : Option RefreshRequest → State app → Reply × State app
  logout body = with_body lib body refresh_fields λ req s.
      replied (λ e. none) (λ _. success "logout" "" "") (λ _. succeeds 200 "logout success" nothing)
        (Sessions.logout app req.refresh_token s)

  abbrev change_password_as :
      Result CurrentUser → Option ChangePasswordRequest → State app → Reply × State app
  change_password_as (err e) body s = (rejects (new_error_response 401 (error_text e)), s)
  change_password_as (ok current) body s =
      with_body lib body change_password_fields
        (λ req s.
          replied (λ e. some (failure "password_change_failure" current.id current.email e))
            (λ _. success "password_change_success" current.id current.email)
            (λ _. succeeds 200 "password changed" nothing)
            (Passwords.change_password app current.id req.current_password req.new_password s))
        s

  unfoldable pub change_password :
      Option JwtCustomClaim → Option ChangePasswordRequest → State app → Reply × State app
  change_password claims body = change_password_as (current_user_from_context claims) body

  unfoldable pub forgot_password : Option ForgotPasswordRequest → State app → Reply × State app
  forgot_password body = with_body lib body forgot_password_fields λ req s.
      replied (λ e. some (failure "password_forgot_failure" "" req.email e))
        (λ _. success "password_forgot_success" "" req.email)
        (λ _. succeeds 200 "if the email is registered, a reset link has been sent" nothing)
        (Passwords.forgot_password app req.email s)

  unfoldable pub reset_password : Option ResetPasswordRequest → State app → Reply × State app
  reset_password body = with_body lib body reset_password_fields λ req s.
      replied (λ e. some (failure "password_reset_failure" "" "" e))
        (λ _. success "password_reset_success" "" "") (λ _. succeeds 200 "password reset" nothing)
        (Passwords.reset_password app req.token req.new_password s)

  abbrev fetched : Result User × State app → Reply × State app
  fetched (ok u, s) =
      (rejects (succeeds 200 "user data fetched successfully" (profile (from_v1_domain u))), s)
  fetched (err e, s) = (rejects (fails (respond_with_error e)), s)

  abbrev get_user_data_as : Result CurrentUser → State app → Reply × State app
  get_user_data_as (err e) s = (rejects (new_error_response 401 (error_text e)), s)
  get_user_data_as (ok user) s = fetched (Users.get_by_email app user.email s)

  -- `GetUserData`, which records no event.
  unfoldable pub get_user_data : Option JwtCustomClaim → State app → Reply × State app
  get_user_data claims = get_user_data_as (current_user_from_context claims)
