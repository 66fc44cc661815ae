-- ===== src/Domain/Account.antt =====
-- internal/business/domain/domain.users.go: the operations that hash, stamp or normalise.
use go_rest_boilerplate.Base.{ℤ, String, Bool, true, false, some, none, not, ◌||◌, str_eq}
use go_rest_boilerplate.Base.{if◌then◌else◌}
use go_rest_boilerplate.Base.Int.{lt_ℤ}
use go_rest_boilerplate.Apperror.{
  sentinel, err_empty_username, err_empty_email, err_invalid_email, err_empty_password,
}
use go_rest_boilerplate.Exec.{Exec, pure, guard, ◌>>=◌, ◌>>◌}
use go_rest_boilerplate.Config.{App}
use go_rest_boilerplate.State.{State, on_world, time_now}
use go_rest_boilerplate.Domain.User.{User}

module _ (app : App) where
  abbrev pub normalize_email : String → String
  normalize_email s = app.to_lower (app.trim_space s)

  -- A cost that bcrypt does not accept falls back to its default.
  unfoldable pub effective_cost : ℤ → ℤ
  effective_cost cost =
      if lt_ℤ cost app.min_cost || lt_ℤ app.max_cost cost then app.default_cost else cost

  abbrev pub generate_hash : String → ℤ → Exec (State app) String
  generate_hash plain cost = on_world (app.generate_from_password plain (effective_cost cost))

  unfoldable pub new_user : String → String → String → ℤ → ℤ → Exec (State app) User
  new_user username email plain_password role_id bcrypt_cost = do
    let name = app.trim_space username
    guard (not (str_eq name "")) (sentinel err_empty_username)
    guard (not (str_eq plain_password "")) (sentinel err_empty_password)
    let address = normalize_email email
    guard (not (str_eq address "")) (sentinel err_empty_email)
    guard (app.parse_address address) (sentinel err_invalid_email)
    hash ← generate_hash plain_password bcrypt_cost
    now ← time_now app
    pure (record {
      id = "";
      username = name;
      email = address;
      password = hash;
      active = false;
      role_id = role_id;
      created_at = now;
      updated_at = none;
      deleted_at = none;
      password_changed_at = none;
    })

  unfoldable pub activate : User → Exec (State app) User
  activate u = do now ← time_now app; pure (record u { active = true; updated_at = some now })

  abbrev pub verify_password : User → String → Bool
  verify_password u plain = app.compare_hash_and_password u.password plain

  unfoldable pub change_password : User → String → ℤ → Exec (State app) User
  change_password u plain bcrypt_cost = do
    guard (not (str_eq plain "")) (sentinel err_empty_password)
    hash ← generate_hash plain bcrypt_cost
    now ← time_now app
    pure (record u { password = hash; password_changed_at = some now; updated_at = some now })
