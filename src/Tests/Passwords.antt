-- ===== src/Tests/Passwords.antt =====
-- The hash behind a changed password: the examples.
use go_rest_boilerplate.Base.{
  String, ◌<>◌, true, some, ◌≡◌, refl, sym, ap, ◌∙◌, str_eq, str_eq_refl,
}
use go_rest_boilerplate.Exec.{Result, ok, err}
use go_rest_boilerplate.Env.Laws.{VerifiesHashes}
use go_rest_boilerplate.State.{State}
use go_rest_boilerplate.Domain.User.{User}
use go_rest_boilerplate.Domain.Account
use go_rest_boilerplate.Domain.Account.{verify_password}
use go_rest_boilerplate.Records.{to_domain}
use go_rest_boilerplate.Time.{at}
use go_rest_boilerplate.Repository
use go_rest_boilerplate.Redis
use go_rest_boilerplate.Ristretto
use go_rest_boilerplate.Users
use go_rest_boilerplate.Auth.Keys.{password_reset_key}
use go_rest_boilerplate.Auth.Passwords
use go_rest_boilerplate.Auth.Replaced.{
  reset_password-verify_password, change_password-verify_password,
}
use go_rest_boilerplate.Tests.Environment.{env}
use go_rest_boilerplate.Tests.Fixture.{app, row, start}

abbrev text : Result String → String
text (ok s) = s
text (err e) = ""

verifies : VerifiesHashes env
verifies p h cost w v e =
    let hash : ("hash:" <> p) ≡ h = ap (λ r. text r.0) e in
    ap (λ x. str_eq x ("hash:" <> p)) (sym hash) ∙ str_eq_refl ("hash:" <> p)

abbrev after_reset : State app
after_reset = (Passwords.reset_password app "token" "new" (start true 0)).1

abbrev after_change : State app
after_change = (Passwords.change_password app "1" "secret" "new" (start true 0)).1

token_held : (Redis.get app (password_reset_key "token") (start true 0)).0 ≡ ok "1"
unfolding Redis.get password_reset_key str_eq
token_held = refl

reset_done : Passwords.reset_password app "token" "new" (start true 0) ≡ (ok tt, after_reset)
unfolding Passwords.reset_password Passwords.redeem Passwords.use_up Passwords.replace_password
    Passwords.record_token_cutoff Account.change_password Account.effective_cost Users.get_by_id
    Users.update_password Repository.get_by_id Repository.update_password Repository.update_rows
    Repository.run_statement Repository.Table.find_live Repository.Table.update_live Ristretto.del
    Redis.get Redis.set Redis.del Redis.expire password_reset_key str_eq
reset_done = refl

abbrev with_new : User
with_new = record (to_domain (row true)) {
  password = "hash:new";
  password_changed_at = some (at 5);
  updated_at = some (at 5);
}

reset_found : Users.get_by_id app "1" after_reset ≡ (ok with_new, after_reset)
unfolding Passwords.reset_password Passwords.redeem Passwords.use_up Passwords.replace_password
    Passwords.record_token_cutoff Account.change_password Account.effective_cost Users.get_by_id
    Users.update_password Repository.get_by_id Repository.update_password Repository.update_rows
    Repository.run_statement Repository.Table.find_live Repository.Table.update_live Ristretto.del
    Redis.get Redis.set Redis.del Redis.expire password_reset_key str_eq
reset_found = refl

reset_password-verify_password_example : verify_password app with_new "new" ≡ true
reset_password-verify_password_example =
    reset_password-verify_password app verifies "token" "1" "new" with_new (start true 0)
      after_reset after_reset token_held reset_done reset_found

change_done :
    Passwords.change_password app "1" "secret" "new" (start true 0) ≡ (ok tt, after_change)
unfolding Passwords.change_password Passwords.replace_password Passwords.record_token_cutoff
    Account.change_password Account.effective_cost Users.get_by_id Users.update_password
    Repository.get_by_id Repository.update_password Repository.update_rows Repository.run_statement
    Repository.Table.find_live Repository.Table.update_live Ristretto.del Redis.set Redis.expire
    str_eq
change_done = refl

change_found : Users.get_by_id app "1" after_change ≡ (ok with_new, after_change)
unfolding Passwords.change_password Passwords.replace_password Passwords.record_token_cutoff
    Account.change_password Account.effective_cost Users.get_by_id Users.update_password
    Repository.get_by_id Repository.update_password Repository.update_rows Repository.run_statement
    Repository.Table.find_live Repository.Table.update_live Ristretto.del Redis.set Redis.expire
    str_eq
change_found = refl

change_password-verify_password_example : verify_password app with_new "new" ≡ true
change_password-verify_password_example =
    change_password-verify_password app verifies "1" "secret" "new" with_new (start true 0)
      after_change after_change change_done change_found
