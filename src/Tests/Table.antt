-- ===== src/Tests/Table.antt =====
-- The table and the lookup by email: the examples.
use go_rest_boilerplate.Base.{pos, true, false, none, some, ◌≡◌, refl, str_eq}
use go_rest_boilerplate.Exec.{ok}
use go_rest_boilerplate.Env.{user}
use go_rest_boilerplate.State.{State}
use go_rest_boilerplate.Records
use go_rest_boilerplate.Records.{to_domain}
use go_rest_boilerplate.Domain.User.{User}
use go_rest_boilerplate.Domain.Account.{normalize_email}
use go_rest_boilerplate.Time.{at}
use go_rest_boilerplate.Ristretto
use go_rest_boilerplate.Users
use go_rest_boilerplate.Users.Lookup.{get_by_email-update_password}
use go_rest_boilerplate.Repository
use go_rest_boilerplate.Repository.{stored_time}
use go_rest_boilerplate.Repository.Table.{is_live}
use go_rest_boilerplate.Repository.Table.Reads.{Among}
use go_rest_boilerplate.Repository.Uniqueness.Writes.{HasDistinctUsers, writes-HasDistinctUsers}
use go_rest_boilerplate.Tests.Environment.{forgets_deleted}
use go_rest_boilerplate.Tests.Fixture.{app, row, start}

abbrev ben : User
ben = record {
  id = "";
  username = "ben";
  email = "ben@x.io";
  password = "hash:b";
  active = false;
  role_id = pos 2;
  created_at = at 1;
  updated_at = none;
  deleted_at = none;
  password_changed_at = none;
}

writes-HasDistinctUsers_example :
    HasDistinctUsers app (Repository.store app ben (start true 0)).1
    × HasDistinctUsers app (Repository.change_active_user app ben (start true 0)).1
    × HasDistinctUsers app (Repository.update_password app ben (start true 0)).1
    × HasDistinctUsers app (Repository.soft_delete app "1" (start true 0)).1
writes-HasDistinctUsers_example = writes-HasDistinctUsers app (start true 0) ben "1" (tt, tt)

abbrev rehashed : User
rehashed = record (to_domain (row true)) {
  password = "hash:new";
  password_changed_at = some (at 9);
}

-- The cache holds what the account was before.
abbrev stale : State app
stale = record (start true 0) { ristretto = λ k. some (user (to_domain (row true))) }

abbrev refilled : State app
refilled = (Users.update_password app (some rehashed) stale).1

refilled_done : Users.update_password app (some rehashed) stale ≡ (ok tt, refilled)
unfolding Users.update_password Repository.update_password Repository.update_rows
    Repository.run_statement Repository.Table.update_live Ristretto.del str_eq
refilled_done = refl

has_email : str_eq "ada@x.io" "" ≡ false
unfolding str_eq
has_email = refl

normal_email : normalize_email app "ada@x.io" ≡ "ada@x.io"
unfolding str_eq
normal_email = refl

looked_up :
    Users.get_by_email app "ada@x.io" refilled
    ≡ (ok rehashed, (Users.get_by_email app "ada@x.io" refilled).1)
unfolding Users.get_by_email Users.load_by_email Users.update_password Ristretto.get Ristretto.set
    Repository.get_by_email Repository.Table.find_live Repository.update_password
    Repository.update_rows Repository.run_statement Repository.Table.update_live Ristretto.del
    str_eq
looked_up = refl

get_by_email-update_password_example :
    (r : Records.Users) × Among r refilled.users
    × (r.email ≡ "ada@x.io")
    × (is_live r ≡ true)
    × (rehashed ≡ to_domain r)
get_by_email-update_password_example =
    get_by_email-update_password app rehashed rehashed stale refilled
      (Users.get_by_email app "ada@x.io" refilled).1 forgets_deleted has_email normal_email
      refilled_done looked_up
