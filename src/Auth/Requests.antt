-- ===== src/Auth/Requests.antt =====
-- internal/business/usecases/auth/auth.usecase.go: the operations of the use case as the requests
-- that the HTTP handlers make of it, one after another. A request that fails leaves behind what it
-- had written.
use go_rest_boilerplate.Base.{String, List, [], ◌∷◌}
use go_rest_boilerplate.Config.{App}
use go_rest_boilerplate.State.{State}
use go_rest_boilerplate.Domain.User.{User}
use go_rest_boilerplate.Auth.Sessions
use go_rest_boilerplate.Auth.Otp
use go_rest_boilerplate.Auth.Passwords

pub data Request : Type 0 where
  register : User → Request
  login : String → String → Request
  send_otp : String → Request
  verify_otp : String → String → Request
  refresh : String → Request
  logout : String → Request
  change_password : String → String → String → Request
  forgot_password : String → Request
  reset_password : String → String → Request

module _ (app : App) where
  unfoldable pub serve : Request → State app → State app
  serve (register u) s = (Sessions.register app u s).1
  serve (login e p) s = (Sessions.login app e p s).1
  serve (send_otp e) s = (Otp.send_otp app e s).1
  serve (verify_otp e c) s = (Otp.verify_otp app e c s).1
  serve (refresh t) s = (Sessions.refresh app t s).1
  serve (logout t) s = (Sessions.logout app t s).1
  serve (change_password i c p) s = (Passwords.change_password app i c p s).1
  serve (forgot_password e) s = (Passwords.forgot_password app e s).1
  serve (reset_password t p) s = (Passwords.reset_password app t p s).1

  unfoldable pub serve_all : List Request → State app → State app
  serve_all [] s = s
  serve_all (r ∷ rs) s = serve_all rs (serve r s)
