-- ===== src/Domain/User.antt =====
-- internal/business/domain/domain.users.go: the entity and its pure methods.
use go_rest_boilerplate.Base.{ℤ, pos, String, Bool, Option, none, some}
use go_rest_boilerplate.Base.Int.{eq_ℤ}
use go_rest_boilerplate.Time.{Time, zero_time}

abbrev pub role_admin : ℤ
role_admin = pos 1

abbrev pub role_user : ℤ
role_user = pos 2

pub record User : Type 0 where
  pub id : String
  pub username : String
  pub email : String
  pub password : String
  pub active : Bool
  pub role_id : ℤ
  pub created_at : Time
  pub updated_at : Option Time
  pub deleted_at : Option Time
  pub password_changed_at : Option Time

abbrev pub is_admin : User → Bool
is_admin u = eq_ℤ u.role_id role_admin

abbrev changed_or_zero : Option Time → Time
changed_or_zero none = zero_time
changed_or_zero (some t) = t

-- The zero time where the password was never changed.
abbrev pub tokens_revoked_before : User → Time
tokens_revoked_before u = changed_or_zero u.password_changed_at
