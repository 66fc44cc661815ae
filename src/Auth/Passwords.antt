-- ===== src/Auth/Passwords.antt =====
-- internal/business/usecases/auth: the password's lifecycle (auth.forgot_password.go,
-- auth.reset_password.go, auth.change_password.go, and `recordTokenCutoff` of auth.impl.go). Log
-- lines are left out.
use go_rest_boilerplate.Base.{
  ℕ, ◌*◌, String, Bool, true, false, not, Option, none, some, str_eq, if◌then◌else◌,
}
use go_rest_boilerplate.Apperror.{
  Error, DomainError, ErrorType, not_found, as_domain_error, is_error, err_empty_password,
  error_text, bad_request_error, unauthorized_error, internal_cause, errorf,
}
use go_rest_boilerplate.Exec.{
  Exec, Result, ok, err, pure, throw, attempt, ignore, map_err, guard, when, ◌>>=◌, ◌>>◌,
}
use go_rest_boilerplate.Config.{App}
use go_rest_boilerplate.State.{State, on_mailer, on_world}
use go_rest_boilerplate.Domain.User.{User}
use go_rest_boilerplate.Domain.Account
use go_rest_boilerplate.Domain.Account.{normalize_email, verify_password}
use go_rest_boilerplate.Time.{Time, hour, unix}
use go_rest_boilerplate.Redis
use go_rest_boilerplate.Users
use go_rest_boilerplate.Mailer
use go_rest_boilerplate.Auth.Keys.{
  forgot_attempts_key, password_reset_key, user_reset_index_key, token_cutoff_key,
}
use go_rest_boilerplate.Auth.Attempts.{limit_attempts_if_positive}

abbrev pub token_cutoff_ttl : ℕ
token_cutoff_ttl = 24 * hour

abbrev pub reset_token_bytes : ℕ
reset_token_bytes = 32

abbrev kind_not_found : ErrorType → Bool
kind_not_found not_found = true
kind_not_found _ = false

-- `errors.As(lookupErr, &domErr) && domErr.Type == apperror.ErrTypeNotFound`
abbrev found_not_found : Option DomainError → Bool
found_not_found none = false
found_not_found (some d) = kind_not_found d.kind

unfoldable pub is_not_found : Error → Bool
is_not_found e = found_not_found (as_domain_error e)

-- What ResetPassword and ChangePassword make of an error of `User.ChangePassword`.
unfoldable pub hash_error : String → Error → Error
hash_error op e =
    if is_error err_empty_password e
    then bad_request_error (error_text e)
    else internal_cause (errorf op e)

pub record Redeemed : Type 0 where
  pub user_id : String
  pub user : User

module _ (app : App) where
  -- Nothing comes of an error: a cutoff that is not written is only logged.
  unfoldable pub record_token_cutoff : String → Time → Exec (State app) (Unit {0})
  record_token_cutoff user_id cutoff = ignore (do
    Redis.set app (token_cutoff_key user_id) (app.format_int (unix cutoff))
    Redis.expire app (token_cutoff_key user_id) token_cutoff_ttl)

  abbrev pub record_cutoff_of : String → Option Time → Exec (State app) (Unit {0})
  record_cutoff_of user_id none = pure tt
  record_cutoff_of user_id (some t) = record_token_cutoff user_id t

  unfoldable pub generate_reset_token : Exec (State app) String
  generate_reset_token = do
    buf ← on_world (app.read_random reset_token_bytes)
    pure (app.base64_url buf)

  -- An unknown email leads to writes of the same shape.
  unfoldable pub write_decoy : String → Exec (State app) (Unit {0})
  write_decoy token = do
    ignore (Redis.set app (password_reset_key token) "decoy")
    ignore (Redis.expire app (password_reset_key token) app.auth.password_reset_ttl)
    ignore (Redis.del app (password_reset_key token))

  abbrev pub drop_token : Result String → Exec (State app) (Unit {0})
  drop_token (err e) = pure tt
  drop_token (ok prior) =
      when (not (str_eq prior "")) (ignore (Redis.del app (password_reset_key prior)))

  -- The token that is still live for the user stops working.
  unfoldable pub invalidate_prior : String → Exec (State app) (Unit {0})
  invalidate_prior user_id = do
    prior ← attempt (Redis.get app (user_reset_index_key user_id))
    drop_token prior

  unfoldable pub publish_token : String → String → Exec (State app) (Unit {0})
  publish_token token user_id = do
    map_err (λ e. internal_cause (errorf "persist reset token" e))
        (Redis.set app (password_reset_key token) user_id)
    ignore (Redis.expire app (password_reset_key token) app.auth.password_reset_ttl)
    ignore (do
      Redis.set app (user_reset_index_key user_id) token
      ignore (Redis.expire app (user_reset_index_key user_id) app.auth.password_reset_ttl))

  abbrev pub answer_forgotten : String → String → Result User → Exec (State app) (Unit {0})
  answer_forgotten token email (err e) = if is_not_found e then write_decoy token else throw e
  answer_forgotten token email (ok u) = do
    invalidate_prior u.id
    publish_token token u.id
    map_err (λ e. internal_cause (errorf "send reset email" e))
        (on_mailer (Mailer.send_password_reset token email))

  unfoldable pub forgot_password : String → Exec (State app) (Unit {0})
  forgot_password request_email = do
    let email = normalize_email app request_email
    limit_attempts_if_positive app (forgot_attempts_key email) app.auth.forgot_lockout_ttl
        app.auth.forgot_max_attempts "too many password reset requests, please try again later"
    token ← map_err (λ e. internal_cause (errorf "generate reset token" e)) generate_reset_token
    looked_up ← attempt (Users.get_by_email app email)
    answer_forgotten token email looked_up

  -- The end that ResetPassword and ChangePassword share: hash, store.
  unfoldable pub replace_password : String → User → String → Exec (State app) User
  replace_password op u new_password = do
    changed ←
        map_err (hash_error op) (Account.change_password app u new_password app.auth.bcrypt_cost)
    Users.update_password app (some changed)
    pure changed

  -- ResetPassword up to the stored password: the holder of the token, as changed.
  unfoldable pub redeem : String → String → Exec (State app) Redeemed
  redeem token new_password = do
    guard (not (str_eq new_password "")) (bad_request_error "new password is required")
    guard (not (str_eq token "")) (bad_request_error "reset token is required")
    user_id ←
        map_err (λ _. unauthorized_error "reset token is invalid or expired")
          (Redis.get app (password_reset_key token))
    guard (not (str_eq user_id "")) (unauthorized_error "reset token is invalid or expired")
    u ← Users.get_by_id app user_id
    changed ← replace_password "hash reset password" u new_password
    pure (record { user_id = user_id; user = changed })

  -- The rest of ResetPassword: the token is used up, and older access tokens are cut off.
  unfoldable pub use_up : String → Redeemed → Exec (State app) (Unit {0})
  use_up token r = do
    ignore (Redis.del app (password_reset_key token))
    ignore (Redis.del app (user_reset_index_key r.user_id))
    record_cutoff_of r.user_id r.user.password_changed_at

  unfoldable pub reset_password : String → String → Exec (State app) (Unit {0})
  reset_password token new_password = do redeemed ← redeem token new_password; use_up token redeemed

  unfoldable pub change_password : String → String → String → Exec (State app) (Unit {0})
  change_password user_id current_password new_password = do
    guard (not (str_eq new_password "")) (bad_request_error "new password is required")
    u ← Users.get_by_id app user_id
    guard (verify_password app u current_password)
        (unauthorized_error "current password is incorrect")
    changed ← replace_password "hash new password" u new_password
    record_cutoff_of user_id changed.password_changed_at
