-- ===== src/Users.antt =====
-- internal/business/usecases/users: identity reads and writes over the repository and the
-- in-process cache. Log lines are left out.
pub mod Lookup
use go_rest_boilerplate.Base.{
  String, ◌<>◌, false, ◌||◌, not, Option, none, some, str_eq, if◌then◌else◌,
}
use go_rest_boilerplate.Apperror.{
  Error, domain_error, err_empty_username, err_empty_email, err_invalid_email, err_empty_password,
  is_error, bad_request_error, internal_cause, error_text, errorf,
}
use go_rest_boilerplate.Exec.{
  Exec, Result, ok, err, pure, throw, attempt, map_err, guard, when, ◌>>=◌, ◌>>◌,
}
use go_rest_boilerplate.Env.{CacheValue, user, other}
use go_rest_boilerplate.Config.{App}
use go_rest_boilerplate.State.{State}
use go_rest_boilerplate.Domain.User.{User}
use go_rest_boilerplate.Domain.Account.{normalize_email, new_user}
use go_rest_boilerplate.Domain.Account
use go_rest_boilerplate.Repository
use go_rest_boilerplate.Ristretto
use go_rest_boilerplate.Time.{zero_time}
use go_rest_boilerplate.Base.{pos}

-- A `*DomainError` passes through; anything else is wrapped.
unfoldable pub map_repo_error : String → Error → Error
map_repo_error op (domain_error t m c) = domain_error t m c
map_repo_error op e = internal_cause (errorf op e)

-- Domain validation errors are for the client, all else is an internal fault.
unfoldable pub build_error : Error → Error
build_error e =
    if is_error err_empty_username e
      || (is_error err_empty_email e
          || (is_error err_invalid_email e || is_error err_empty_password e))
    then bad_request_error (error_text e)
    else internal_cause (errorf "build user" e)

abbrev pub cache_key : String → String
cache_key email = "user/" <> email

-- `&domain.User{ID: id}`
abbrev pub blank_user : String → User
blank_user id = record {
  id = id;
  username = "";
  email = "";
  password = "";
  active = false;
  role_id = pos 0;
  created_at = zero_time;
  updated_at = none;
  deleted_at = none;
  password_changed_at = none;
}

module _ (app : App) where
  unfoldable pub store : User → Exec (State app) User
  store in_user = do
    u ← map_err build_error (
        new_user app in_user.username in_user.email in_user.password in_user.role_id
          app.users_bcrypt_cost)
    map_err (map_repo_error "store user") (Repository.store app u)

  unfoldable pub get_by_id : String → Exec (State app) User
  get_by_id id = map_err (map_repo_error "get user by id") (Repository.get_by_id app id)

  -- The function that `singleflight` runs on a miss.
  unfoldable pub load_by_email : String → Exec (State app) User
  load_by_email email = do
    u ← Repository.get_by_email app email
    Ristretto.set app (cache_key email) (user u)
    pure u

  abbrev pub cached_or_load : String → Option CacheValue → Exec (State app) User
  cached_or_load email (some (user u)) = pure u
  cached_or_load email (some other) =
      map_err (map_repo_error "get user by email") (load_by_email email)
  cached_or_load email none = map_err (map_repo_error "get user by email") (load_by_email email)

  unfoldable pub get_by_email : String → Exec (State app) User
  get_by_email request_email = do
    let email = normalize_email app request_email
    val ← Ristretto.get app (cache_key email)
    cached_or_load email val

  -- `if existing, getErr := …; getErr == nil && existing.Email != ""`
  abbrev pub invalidate : Result User → Exec (State app) (Unit {0})
  invalidate (err e) = pure tt
  invalidate (ok existing) =
      when (not (str_eq existing.email "")) (Ristretto.del app (cache_key existing.email))

  unfoldable pub activate : String → Exec (State app) (Unit {0})
  activate user_id = do
    u ← Account.activate app (blank_user user_id)
    map_err (λ e. internal_cause (errorf "activate user" e)) (Repository.change_active_user app u)
    existing ← attempt (Repository.get_by_id app user_id)
    invalidate existing

  abbrev email_or_empty : Result User → String
  email_or_empty (ok u) = u.email
  email_or_empty (err e) = ""

  -- The email of the given user, or of its row if that is empty.
  abbrev pub known_email : User → Exec (State app) String
  known_email u =
      if str_eq u.email ""
      then (do existing ← attempt (Repository.get_by_id app u.id); pure (email_or_empty existing))
      else pure u.email

  -- `none` is a nil `*domain.User`.
  unfoldable pub update_password : Option User → Exec (State app) (Unit {0})
  update_password none = throw (bad_request_error "user id required")
  update_password (some u) = do
    guard (not (str_eq u.id "")) (bad_request_error "user id required")
    map_err (map_repo_error ("update password for " <> u.id)) (Repository.update_password app u)
    email ← known_email u
    when (not (str_eq email "")) (Ristretto.del app (cache_key email))
