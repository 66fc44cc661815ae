-- ===== src/Seed.antt =====
-- cmd/seed/seeders and the password helpers of pkg/helpers: the accounts that a new database starts
-- with, inserted in one transaction. The rows that NamedQuery returns are not read; what the driver
-- makes of the next statement is that statement's fate. No other transaction writes meanwhile.
pub mod Whole
use go_rest_boilerplate.Base.{
  ℤ, pos, String, Bool, true, false, ◌||◌, none, List, [], ◌∷◌, str_eq, if◌then◌else◌,
}
use go_rest_boilerplate.Base.Int.{lt_ℤ}
use go_rest_boilerplate.Apperror.{external}
use go_rest_boilerplate.Exec.{Exec, Result, ok, err, pure, throw, ◌>>=◌, ◌>>◌}
use go_rest_boilerplate.Config.{App}
use go_rest_boilerplate.State.{State, draw, on_world, time_now}
use go_rest_boilerplate.Records.{Users}
use go_rest_boilerplate.Time.{Time, zero_time}
use go_rest_boilerplate.Repository.{run_statement}
use go_rest_boilerplate.Repository.Table.{insert}

-- `UserData`, with the one hash; Go leaves the other fields zero.
abbrev account : String → String → String → Bool → ℤ → Users
account username email pass active role_id = record {
  id = "";
  username = username;
  email = email;
  password = pass;
  active = active;
  role_id = role_id;
  created_at = zero_time;
  updated_at = none;
  deleted_at = none;
  password_changed_at = none;
}

abbrev pub user_data : String → List Users
user_data pass =
    account "patrick star 7" "patrick@gmail.com" pass true (pos 1)
    ∷ account "john doe" "johndoe@gmail.com" pass false (pos 2)
    ∷ []

module _ (app : App) where
  -- The cost of the settings, or bcrypt's default.
  unfoldable pub bcrypt_cost : ℤ → ℤ
  bcrypt_cost c = if lt_ℤ c app.min_cost || lt_ℤ app.max_cost c then app.default_cost else c

  unfoldable pub generate_hash : ℤ → String → Exec (State app) String
  generate_hash configured passwd =
      if str_eq passwd ""
      then throw (external "password cannot empty")
      else on_world (app.generate_from_password passwd (bcrypt_cost configured))

  abbrev pub validate_hash : String → String → Bool
  validate_hash secret hash = app.compare_hash_and_password hash secret

  -- The package's `init`, which runs before the settings are loaded: the cost is zero here.
  unfoldable pub load_user_data : Exec (State app) (List Users)
  load_user_data = do pass ← generate_hash (pos 0) "12345"; pure (user_data pass)

  -- The row of the `INSERT`; the columns that it does not name are null.
  abbrev pub seeded_row : String → Time → Users → Users
  seeded_row id now user = record {
    id = id;
    username = user.username;
    email = user.email;
    password = user.password;
    active = user.active;
    role_id = user.role_id;
    created_at = app.timestamptz now;
    updated_at = none;
    deleted_at = none;
    password_changed_at = none;
  }

  unfoldable pub insert_user : Users → Exec (State app) Users
  insert_user user = do
    now ← time_now app
    id ← draw app.sql_uuid
    run_statement app (insert app.sql_lower (seeded_row id now user))

  -- The loop over the accounts; the first error ends it.
  unfoldable pub insert_all : List Users → Exec (State app) (Unit {0})
  insert_all [] = pure tt
  insert_all (user ∷ users) = do insert_user user; insert_all users

  -- Commit makes the draft the table; an error on the way rolls back to the table that Begin found.
  abbrev pub settle : State app → Result (Unit {0}) × State app → Result (Unit {0}) × State app
  settle s (err e, t) = (err e, record t { users = s.users })
  settle s (ok u, t) = run_statement app (λ _. (ok tt, t.users)) (record t { users = s.users })

  abbrev pub transaction : List Users → Exec (State app) (Unit {0})
  transaction users s = settle s (insert_all users s)

  unfoldable pub user_seeder : List Users → Exec (State app) (Unit {0})
  user_seeder [] = throw (external "users data is empty")
  user_seeder (user ∷ users) = do run_statement app (λ t. (ok tt, t)); transaction (user ∷ users)
