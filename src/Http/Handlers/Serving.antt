-- ===== src/Http/Handlers/Serving.antt =====
-- internal/http/routes: the endpoints behind their middleware, and what of a request gets to the
-- use case.
pub mod Asked
pub mod Strong
use go_rest_boilerplate.Base.{String, Option, some}
use go_rest_boilerplate.Exec.{Result, ok, err}
use go_rest_boilerplate.Config.{App}
use go_rest_boilerplate.State.{State}
use go_rest_boilerplate.Validators.{Library}
use go_rest_boilerplate.Http.Response.{respond_with_error}
use go_rest_boilerplate.Http.AuthMiddleware.{AuthMiddleware, Verdict, abort, next, handle}
use go_rest_boilerplate.Http.DataTransfers.{
  RegisterRequest, SendOtpRequest, VerifyOtpRequest, LoginRequest, RefreshRequest,
  ChangePasswordRequest, ForgotPasswordRequest, ResetPasswordRequest,
}
use go_rest_boilerplate.Http.Handlers
use go_rest_boilerplate.Http.Handlers.{fails, Reply, rejects, new_error_response}

-- A request as it comes in: its body, and for the change of a password its Authorization header.
pub data Incoming : Type 0 where
  register : Option RegisterRequest → Incoming
  login : Option LoginRequest → Incoming
  send_otp : Option SendOtpRequest → Incoming
  verify_otp : Option VerifyOtpRequest → Incoming
  refresh logout : Option RefreshRequest → Incoming
  change_password : String → Option ChangePasswordRequest → Incoming
  forgot_password : Option ForgotPasswordRequest → Incoming
  reset_password : Option ResetPasswordRequest → Incoming

module _ (app : App) (lib : Library) (m : AuthMiddleware) where
  -- The middleware's verdict, then the handler.
  abbrev pub behind : Option ChangePasswordRequest → Result Verdict × State app → Reply × State app
  behind body (ok (next c), s) = Handlers.change_password app lib (some c) body s
  behind body (ok (abort message), s) = (rejects (new_error_response 401 message), s)
  behind body (err e, s) = (rejects (fails (respond_with_error e)), s)

  unfoldable pub route : Incoming → State app → Reply × State app
  route (register body) = Handlers.register app lib body
  route (login body) = Handlers.login app lib body
  route (send_otp body) = Handlers.send_otp app lib body
  route (verify_otp body) = Handlers.verify_otp app lib body
  route (refresh body) = Handlers.refresh app lib body
  route (logout body) = Handlers.logout app lib body
  route (change_password header body) = λ s. behind body (handle app m header s)
  route (forgot_password body) = Handlers.forgot_password app lib body
  route (reset_password body) = Handlers.reset_password app lib body
