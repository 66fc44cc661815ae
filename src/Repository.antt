-- ===== src/Repository.antt =====
-- internal/datasources/repositories/postgres/users: each statement as a function on the table, run
-- with the fate that the server gives it.
pub mod Table
pub mod Uniqueness
pub mod Effects
pub mod Listing
use go_rest_boilerplate.Base.{
  ℕ, String, Bool, true, false, Option, none, some, List, ◌==◌, if◌then◌else◌,
}
use go_rest_boilerplate.Apperror.{
  Error, sentinel, sql_no_rows, not_found_error, conflict_error, errorf, is_error,
  is_unique_violation, unique_violation,
}
use go_rest_boilerplate.Exec.{Exec, Result, ok, err, pure, throw, map_err, ◌>>=◌, ◌>>◌}
use go_rest_boilerplate.Env.{Fate, runs, refuses, loses}
use go_rest_boilerplate.Config.{App}
use go_rest_boilerplate.State.{State, draw, on_world}
use go_rest_boilerplate.Records.{Users, to_domain, from_domain}
use go_rest_boilerplate.Domain.User.{User}
use go_rest_boilerplate.Time.{Time, at}
use go_rest_boilerplate.Repository.Table.{
  has_email, has_id, find_live, update_live, insert, set_active, set_password, set_deleted,
}

module _ (app : App) where
  module _ {A : Type 0} where
    abbrev pub fated : Fate → State app → Result A × List Users → Result A × State app
    fated runs s (r, t) = (r, record s { users = t })
    fated (refuses e) s (r, t) = (err e, s)
    fated (loses e) s (r, t) = (err e, record s { users = t })

    -- One statement; its effect is on the table as the statement finds it.
    unfoldable pub run_statement : Exec (List Users) A → Exec (State app) A
    run_statement f = do fate ← draw app.statement_fate; λ s. fated fate s (f s.users)

  -- The row that `INSERT … RETURNING` stores.
  abbrev pub inserted_row : String → Users → Users
  inserted_row id r = record {
    id = id;
    username = r.username;
    email = r.email;
    password = r.password;
    active = false;
    role_id = r.role_id;
    created_at = app.timestamptz r.created_at;
    updated_at = none;
    deleted_at = none;
    password_changed_at = none;
  }

  abbrev conflict_or_same : Error → Error
  conflict_or_same e =
      if is_unique_violation e then conflict_error "username or email already exists" else e

  unfoldable pub store : User → Exec (State app) User
  store u = do
    id ← draw app.sql_uuid
    stored ←
        map_err conflict_or_same
          (run_statement (insert app.sql_lower (inserted_row id (from_domain u))))
    pure (to_domain stored)

  abbrev pub not_found_or_same : Error → Error
  not_found_or_same e = if is_error sql_no_rows e then not_found_error "user not found" else e

  abbrev pub found : Option Users → List Users → Result Users × List Users
  found none t = (err (sentinel sql_no_rows), t)
  found (some r) t = (ok r, t)

  unfoldable pub get_by_email : String → Exec (State app) User
  get_by_email email = do
    r ← map_err not_found_or_same (run_statement (λ t. found (find_live (has_email email) t) t))
    pure (to_domain r)

  unfoldable pub get_by_id : String → Exec (State app) User
  get_by_id id = do
    r ← map_err not_found_or_same (run_statement (λ t. found (find_live (has_id id) t) t))
    pure (to_domain r)

  abbrev pub counted : ℕ × List Users → Result ℕ × List Users
  counted (n, t) = (ok n, t)

  -- An `UPDATE` of the live rows that pass a test.
  unfoldable pub update_rows : (Users → Bool) → (Users → Users) → Exec (State app) ℕ
  update_rows p f = run_statement (λ t. counted (update_live p f t))

  unfoldable pub change_active_user : User → Exec (State app) (Unit {0})
  change_active_user u = do
    now ← draw app.sql_now
    update_rows (has_id u.id) (set_active u.active (at now))
    pure tt

  -- No row changed means that there is no such user.
  abbrev pub check_affected : ℕ → Exec (State app) (Unit {0})
  check_affected n = if n == 0 then throw (not_found_error "user not found") else pure tt

  abbrev pub stored_time : Option Time → Option Time
  stored_time none = none
  stored_time (some t) = some (app.timestamptz t)

  unfoldable pub update_password : User → Exec (State app) (Unit {0})
  update_password u = do
    n ←
        update_rows (has_id u.id)
          (set_password u.password (stored_time u.password_changed_at) (stored_time u.updated_at))
    affected ← on_world (app.rows_affected n)
    check_affected affected

  unfoldable pub soft_delete : String → Exec (State app) (Unit {0})
  soft_delete id = do
    now ← draw app.sql_now
    n ← update_rows (has_id id) (set_deleted (at now))
    affected ← on_world (app.rows_affected n)
    check_affected affected
