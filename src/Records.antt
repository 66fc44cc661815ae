-- ===== src/Records.antt =====
-- internal/datasources/records: a row of the table `users`, and the mapping to the domain.
use go_rest_boilerplate.Base.{ℤ, String, Bool, Option, List, map}
use go_rest_boilerplate.Time.{Time}
use go_rest_boilerplate.Domain.User.{User}

pub record Users : Type 0 where
  pub id : String
  pub username : String
  pub email : String
  pub password : String
  pub active : Bool
  pub role_id : ℤ
  pub created_at : Time
  pub updated_at : Option Time
  pub deleted_at : Option Time
  pub password_changed_at : Option Time

abbrev pub to_domain : Users → User
to_domain u = record {
  id = u.id;
  username = u.username;
  email = u.email;
  password = u.password;
  active = u.active;
  role_id = u.role_id;
  created_at = u.created_at;
  updated_at = u.updated_at;
  deleted_at = u.deleted_at;
  password_changed_at = u.password_changed_at;
}

abbrev pub from_domain : User → Users
from_domain u = record {
  id = u.id;
  username = u.username;
  email = u.email;
  password = u.password;
  active = u.active;
  role_id = u.role_id;
  created_at = u.created_at;
  updated_at = u.updated_at;
  deleted_at = u.deleted_at;
  password_changed_at = u.password_changed_at;
}

abbrev pub to_array_of_domain : List Users → List User
to_array_of_domain = map to_domain
