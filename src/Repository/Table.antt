-- ===== src/Repository/Table.antt =====
-- The SQL statements of internal/datasources/repositories/postgres/users on the table's rows, with
-- the unique indexes of cmd/migration/migrations.
pub mod Reads
use go_rest_boilerplate.Base.{
  ℕ, suc, String, Bool, true, false, ◌&&◌, ◌||◌, Option, none, some, List, [], ◌∷◌, str_eq,
  if◌then◌else◌,
}
use go_rest_boilerplate.Apperror.{unique_violation}
use go_rest_boilerplate.Exec.{Result, ok, err}
use go_rest_boilerplate.Records.{Users}
use go_rest_boilerplate.Time.{Time}

abbrev absent : Option Time → Bool
absent none = true
absent (some t) = false

-- `deleted_at IS NULL`
abbrev pub is_live : Users → Bool
is_live r = absent r.deleted_at

abbrev pub has_email : String → Users → Bool
has_email email r = str_eq r.email email

-- Ids are compared as texts: every id that the program passes on is one that the server wrote.
abbrev pub has_id : String → Users → Bool
has_id id r = str_eq r.id id

-- The first row of `SELECT * FROM users WHERE p AND deleted_at IS NULL`.
unfoldable pub find_live : (Users → Bool) → List Users → Option Users
find_live p [] = none
find_live p (r ∷ t) = if p r && is_live r then some r else find_live p t

-- `UPDATE users SET f WHERE p AND deleted_at IS NULL`, with the number of rows that it changed.
abbrev updated : Bool → Users → Users → ℕ × List Users → ℕ × List Users
updated true old new (n, t) = (suc n, new ∷ t)
updated false old new (n, t) = (n, old ∷ t)

unfoldable pub update_live : (Users → Bool) → (Users → Users) → List Users → ℕ × List Users
update_live p f [] = (0, [])
update_live p f (r ∷ t) = updated (p r && is_live r) r (f r) (update_live p f t)

-- Rows that a unique index keeps apart: the primary key, and among live rows the email and the
-- username in lower case.
abbrev pub clashes : (String → String) → Users → Users → Bool
clashes lower r q =
    str_eq r.id q.id
    || (is_live r
        && is_live q
        && (str_eq r.email q.email || str_eq (lower r.username) (lower q.username)))

unfoldable pub clashes_any : (String → String) → Users → List Users → Bool
clashes_any lower r [] = false
clashes_any lower r (q ∷ t) = clashes lower r q || clashes_any lower r t

unfoldable pub insert : (String → String) → Users → List Users → Result Users × List Users
insert lower r t =
    if clashes_any lower r t
    then (err (unique_violation "pq: duplicate key value violates unique constraint"), t)
    else (ok r, r ∷ t)

abbrev pub set_active : Bool → Time → Users → Users
set_active active now r = record r { active = active; updated_at = some now }

abbrev pub set_password : String → Option Time → Option Time → Users → Users
set_password password changed_at updated_at r = record r {
  password = password;
  password_changed_at = changed_at;
  updated_at = updated_at;
}

abbrev pub set_deleted : Time → Users → Users
set_deleted now r = record r { deleted_at = some now; updated_at = some now }
