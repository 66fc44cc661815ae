-- ===== src/Tests/Accounts.antt =====
-- Activation, passwords and the middleware: the examples.
use go_rest_boilerplate.Base.{
  ℕ, map, ◌≤◌, String, true, false, [], ◌∷◌, ◌≡◌, ◌≢◌, ◌⊎◌, refl, arith, str_eq,
}
use go_rest_boilerplate.Exec.{ok}
use go_rest_boilerplate.State.{State}
use go_rest_boilerplate.Domain.User.{User}
use go_rest_boilerplate.Domain.Account.{normalize_email, verify_password}
use go_rest_boilerplate.Domain.Account
use go_rest_boilerplate.Redis
use go_rest_boilerplate.Ristretto
use go_rest_boilerplate.Users
use go_rest_boilerplate.Repository
use go_rest_boilerplate.Repository.{stored_time}
use go_rest_boilerplate.Repository.Table.{is_live, has_id, update_live, set_active}
use go_rest_boilerplate.Auth.Activated.{activated, verify_otp-users}
use go_rest_boilerplate.Jwt
use go_rest_boilerplate.Auth.Keys.{otp_attempts_key, user_otp_key, token_cutoff_key}
use go_rest_boilerplate.Auth.Attempts.{limit_attempts, track_attempt}
use go_rest_boilerplate.Auth.Otp
use go_rest_boilerplate.Auth.Passwords
use go_rest_boilerplate.Auth.Soundness.Codes.{
  verify_otp_sound, verify_otp-locked, change_password_sound,
}
use go_rest_boilerplate.Http.AuthMiddleware.{
  AuthMiddleware, next, split_from, split_space, handle_bearer, check_privilege, is_revoked, handle,
}
use go_rest_boilerplate.Http.AuthMiddleware.Gate.{Outlives, handle-next}
use go_rest_boilerplate.Jwt.Accepted.{IsSigned}
use go_rest_boilerplate.Tests.Environment.{steady_redis, access_claims}
use go_rest_boilerplate.Tests.Fixture.{app, start}

verified : (Otp.verify_otp app "ada@x.io" "123456" (start false 0)).0 ≡ ok tt
unfolding Otp.verify_otp Otp.check_code limit_attempts track_attempt Users.get_by_email
    Users.load_by_email Users.activate Account.activate Repository.get_by_id
    Repository.change_active_user Repository.update_rows Repository.Table.update_live
    Repository.get_by_email Repository.run_statement Repository.Table.find_live Ristretto.get
    Ristretto.set Ristretto.del Redis.get Redis.incr Redis.expire Redis.del user_otp_key str_eq
verified = refl

verify_otp_sound_example :
    let limit =
      limit_attempts app
        (otp_attempts_key (normalize_email app "ada@x.io"))
        app.auth.otp_ttl
        app.auth.otp_max_attempts
        "too many invalid otp attempts, please request a new code" in
    (u : User) × (t : State app) × (Users.get_by_email app
        (normalize_email app "ada@x.io")
        (start false 0)
      ≡ (ok u, t))
    × (u.active ≡ false)
    × ((limit t).0 ≡ ok tt)
    × ((Redis.get app (user_otp_key (normalize_email app "ada@x.io")) (limit t).1).0 ≡ ok "123456")
verify_otp_sound_example = verify_otp_sound app "ada@x.io" "123456" (start false 0) verified

verify_otp-locked_example : (Otp.verify_otp app "ada@x.io" "123456" (start false 2)).0 ≢ ok tt
verify_otp-locked_example =
    verify_otp-locked app steady_redis "ada@x.io" "123456" 2 (start false 2) refl
      (two_at_most (otp_attempts_key (normalize_email app "ada@x.io")))
  where
    two_at_most : (k : String) → 2 ≤ (start false 2).redis.counts k
    two_at_most k = omega arith

changed : (Passwords.change_password app "1" "secret" "new" (start true 0)).0 ≡ ok tt
unfolding Passwords.change_password Passwords.replace_password Passwords.record_token_cutoff
    Account.change_password Account.effective_cost Users.get_by_id Users.update_password
    Repository.get_by_id Repository.update_password Repository.update_rows Repository.run_statement
    Repository.Table.find_live Repository.Table.update_live Ristretto.del Redis.set Redis.expire
    str_eq
changed = refl

abbrev new_password : String
new_password = "new"

change_password_sound_example :
    (new_password ≢ "")
    × ((u : User) × ((Users.get_by_id app "1" (start true 0)).0 ≡ ok u)
        × (verify_password app u "secret" ≡ true))
change_password_sound_example =
    change_password_sound app "1" "secret" new_password (start true 0) changed

abbrev admins : AuthMiddleware
admins = record { has_redis = true; is_admin = true }

admitted : (handle app admins "Bearer access" (start true 0)).0 ≡ ok (next access_claims)
unfolding handle handle_bearer split_from Jwt.parse_token Jwt.parse is_revoked check_privilege
    Redis.get token_cutoff_key str_eq
admitted = refl

handle-next_example :
    (token : String) × (split_space "Bearer access" ≡ "Bearer" ∷ token ∷ [])
    × IsSigned app token (start true 0) access_claims
    × ((access_claims.kind ≡ "access") ⊎ (access_claims.kind ≡ ""))
    × ((admins.has_redis ≡ false)
        ⊎ Outlives app access_claims.issued_at
            (Redis.get app (token_cutoff_key access_claims.user_id) (start true 0)).0)
    × (true ≡ true → access_claims.is_admin ≡ true)
handle-next_example = handle-next app admins "Bearer access" (start true 0) admitted

abbrev activated_state : State app
activated_state = (Otp.verify_otp app "ada@x.io" "123456" (start false 0)).1

verify_done : Otp.verify_otp app "ada@x.io" "123456" (start false 0) ≡ (ok tt, activated_state)
unfolding Otp.verify_otp Otp.check_code limit_attempts track_attempt Users.get_by_email
    Users.load_by_email Users.activate Account.activate Repository.get_by_id
    Repository.change_active_user Repository.update_rows Repository.Table.update_live
    Repository.get_by_email Repository.run_statement Repository.Table.find_live Ristretto.get
    Ristretto.set Ristretto.del Redis.get Redis.incr Redis.expire Redis.del user_otp_key str_eq
verify_done = refl

verify_otp-users_example :
    (u : User) × (now : ℕ) × ((Users.get_by_email app
        (normalize_email app "ada@x.io")
        (start false 0)).0
      ≡ ok u)
    × (u.active ≡ false)
    × (activated_state.users ≡ map (activated u.id now) (start false 0).users)
verify_otp-users_example =
    verify_otp-users app "ada@x.io" "123456" (start false 0) activated_state verify_done
