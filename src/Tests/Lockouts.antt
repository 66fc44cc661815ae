-- ===== src/Tests/Lockouts.antt =====
-- Reset tokens, lockouts and logins: the examples.
use go_rest_boilerplate.Base.{String, true, false, List, [], ◌∷◌, ◌≡◌, ◌≢◌, refl, ap, arith, str_eq}
use go_rest_boilerplate.Apperror.{Error, forbidden_error, unauthorized_error}
use go_rest_boilerplate.Exec.{ok, err}
use go_rest_boilerplate.State.{State}
use go_rest_boilerplate.Records.{to_domain}
use go_rest_boilerplate.Domain.Account.{normalize_email, verify_password}
use go_rest_boilerplate.Domain.Account
use go_rest_boilerplate.Redis
use go_rest_boilerplate.Ristretto
use go_rest_boilerplate.Users
use go_rest_boilerplate.Repository
use go_rest_boilerplate.Repository.Table.{is_live}
use go_rest_boilerplate.Jwt
use go_rest_boilerplate.Auth.Keys.{password_reset_key, login_attempts_key}
use go_rest_boilerplate.Auth.Attempts.{limit_attempts, limit_attempts_if_positive, track_attempt}
use go_rest_boilerplate.Auth.Sessions
use go_rest_boilerplate.Auth.Sessions.{is_rotated_away}
use go_rest_boilerplate.Auth.Passwords
use go_rest_boilerplate.Auth.Requests.{serve_all}
use go_rest_boilerplate.Auth.Revocation.{NeverDraws}
use go_rest_boilerplate.Auth.OneShot.{reset_password-reset_password}
use go_rest_boilerplate.Auth.Lockout.Login.{lockout_message, after_logins, login-after_logins}
use go_rest_boilerplate.Auth.Soundness.{login_sound}
use go_rest_boilerplate.Tests.Environment.{redis_laws, confirms_del, steady_redis}
use go_rest_boilerplate.Tests.Fixture.{app, row, start, later, differ}

drawn_differs : str_eq "drawn" "token" ≡ false
unfolding str_eq
drawn_differs = refl

never_drawn : NeverDraws app "token"
never_drawn w buf e = differ "drawn" "token" drawn_differs

abbrev after_reset : State app
after_reset = (Passwords.reset_password app "token" "new" (start true 0)).1

reset_done : (Passwords.reset_password app "token" "new" (start true 0)).0 ≡ ok tt
unfolding Passwords.reset_password Passwords.redeem Passwords.use_up Passwords.replace_password
    Passwords.record_token_cutoff Account.change_password Account.effective_cost Users.get_by_id
    Users.update_password Repository.get_by_id Repository.update_password Repository.update_rows
    Repository.run_statement Repository.Table.find_live Repository.Table.update_live Ristretto.del
    Redis.get Redis.set Redis.del Redis.expire password_reset_key str_eq
reset_done = refl

not_empty : (s : String) → str_eq s "" ≡ false → s ≢ ""
not_empty s = differ s ""

newer_not_empty : str_eq "newer" "" ≡ false
unfolding str_eq
newer_not_empty = refl

reset_password-reset_password_example :
    (Passwords.reset_password app "token" "newer" (serve_all app later after_reset)).0
    ≡ err (unauthorized_error "reset token is invalid or expired")
reset_password-reset_password_example =
    reset_password-reset_password app redis_laws "token" "new" "newer" (start true 0) after_reset
      confirms_del never_drawn (ap (λ x. (x, after_reset)) reset_done) newer_not_empty later

abbrev guesses : List String
guesses = "guess" ∷ "another" ∷ []

abbrev wrong : Error
wrong = unauthorized_error "invalid email or password"

abbrev once : State app
once = (Sessions.login app "ada@x.io" "guess" (start true 0)).1

guess_fails : (Sessions.login app "ada@x.io" "guess" (start true 0)).0 ≡ err wrong
unfolding Sessions.login Sessions.limit_logins Sessions.open_session Sessions.authenticate
    limit_attempts_if_positive limit_attempts track_attempt Users.get_by_email Users.load_by_email
    Repository.get_by_email Repository.run_statement Repository.Table.find_live Ristretto.get
    Ristretto.set Redis.incr Redis.expire str_eq
guess_fails = refl

another_fails : (Sessions.login app "ada@x.io" "another" once).0 ≡ err wrong
unfolding Sessions.login Sessions.limit_logins Sessions.open_session Sessions.authenticate
    limit_attempts_if_positive limit_attempts track_attempt Users.get_by_email Users.load_by_email
    Repository.get_by_email Repository.run_statement Repository.Table.find_live Ristretto.get
    Ristretto.set Redis.incr Redis.expire login_attempts_key str_eq
another_fails = refl

login-after_logins_example :
    (Sessions.login app "ada@x.io" "secret"
      (after_logins app steady_redis 1 refl "ada@x.io" guesses (start true 0))).0
    ≡ err (forbidden_error lockout_message)
login-after_logins_example =
    login-after_logins app steady_redis 1 refl "ada@x.io" "secret" guesses (start true 0)
      ((wrong, guess_fails), ((wrong, another_fails), tt)) (omega arith)

abbrev response : Sessions.LoginResponse
response = record { user = to_domain (row true); access_token = "minted"; refresh_token = "minted" }

login_done : (Sessions.login app "ADA@X.IO" "secret" (start true 0)).0 ≡ ok response
unfolding Sessions.login Sessions.limit_logins Sessions.open_session Sessions.authenticate
    limit_attempts_if_positive limit_attempts track_attempt Users.get_by_email Users.load_by_email
    Repository.get_by_email Repository.run_statement Repository.Table.find_live Ristretto.get
    Ristretto.set Redis.incr Redis.expire Redis.del Redis.set Sessions.issue_pair
    Sessions.remember_refresh Jwt.generate_token_pair Jwt.sign_access Jwt.sign_refresh Jwt.sign
    login_attempts_key str_eq
login_done = refl

login_sound_example :
    (t : State app) × (Sessions.limit_logins app (normalize_email app "ADA@X.IO") (start true 0)
      ≡ (ok tt, t))
    × ((Users.get_by_email app (normalize_email app "ADA@X.IO") t).0 ≡ ok response.user)
    × (response.user.active ≡ true)
    × (verify_password app response.user "secret" ≡ true)
login_sound_example = login_sound app "ADA@X.IO" "secret" (start true 0) login_done
