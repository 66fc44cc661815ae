-- ===== src/Http/DataTransfers.antt =====
-- internal/http/datatransfers: the bodies that the handlers take, with their rules, and the users
-- that they answer with; and the user of a request, of internal/http/auth/context.go.
use go_rest_boilerplate.Base.{ℤ, String, Bool, false, Option, none, some, List, [], ◌∷◌}
use go_rest_boilerplate.Apperror.{external}
use go_rest_boilerplate.Exec.{Result, ok, err}
use go_rest_boilerplate.Time.{Time, zero_time}
use go_rest_boilerplate.Domain.User.{User, role_user}
use go_rest_boilerplate.Jwt.Claims.{JwtCustomClaim}
use go_rest_boilerplate.Auth.Sessions.{LoginResponse}
use go_rest_boilerplate.Validators.{Field}

pub record RegisterRequest : Type 0 where
  pub username : String
  pub email : String
  pub password : String

pub record SendOtpRequest : Type 0 where
  pub email : String

pub record VerifyOtpRequest : Type 0 where
  pub email : String
  pub code : String

pub record LoginRequest : Type 0 where
  pub email : String
  pub password : String

-- The body of refresh and of logout.
pub record RefreshRequest : Type 0 where
  pub refresh_token : String

pub record ChangePasswordRequest : Type 0 where
  pub current_password : String
  pub new_password : String

pub record ForgotPasswordRequest : Type 0 where
  pub email : String

pub record ResetPasswordRequest : Type 0 where
  pub token : String
  pub new_password : String

-- The `validate` tags.
abbrev email_tags : List (String × String)
email_tags = ("required", "") ∷ ("email", "") ∷ ("max", "50") ∷ []

abbrev password_tags : List (String × String)
password_tags = ("required", "") ∷ ("min", "1") ∷ ("max", "72") ∷ []

abbrev new_password_tags : List (String × String)
new_password_tags = ("required", "") ∷ ("min", "12") ∷ ("max", "72") ∷ ("strongpassword", "") ∷ []

abbrev field : String → String → List (String × String) → Field
field name value tags = record { name = name; value = value; tags = tags }

unfoldable pub register_fields : RegisterRequest → List Field
register_fields r =
    field "Username" r.username (("required", "") ∷ ("min", "3") ∷ ("max", "25") ∷ [])
    ∷ field "Email" r.email email_tags
    ∷ field "Password" r.password new_password_tags
    ∷ []

unfoldable pub send_otp_fields : SendOtpRequest → List Field
send_otp_fields r = field "Email" r.email email_tags ∷ []

unfoldable pub verify_otp_fields : VerifyOtpRequest → List Field
verify_otp_fields r =
    field "Email" r.email email_tags
    ∷ field "Code" r.code (("required", "") ∷ ("numeric", "") ∷ [])
    ∷ []

unfoldable pub login_fields : LoginRequest → List Field
login_fields r = field "Email" r.email email_tags ∷ field "Password" r.password password_tags ∷ []

unfoldable pub refresh_fields : RefreshRequest → List Field
refresh_fields r = field "RefreshToken" r.refresh_token (("required", "") ∷ []) ∷ []

unfoldable pub change_password_fields : ChangePasswordRequest → List Field
change_password_fields r =
    field "CurrentPassword" r.current_password password_tags
    ∷ field "NewPassword" r.new_password new_password_tags
    ∷ []

unfoldable pub forgot_password_fields : ForgotPasswordRequest → List Field
forgot_password_fields r = field "Email" r.email email_tags ∷ []

unfoldable pub reset_password_fields : ResetPasswordRequest → List Field
reset_password_fields r =
    field "Token" r.token (("required", "") ∷ [])
    ∷ field "NewPassword" r.new_password new_password_tags
    ∷ []

-- `RegisterRequest.ToV1Domain`; the other fields are Go's zero values.
abbrev pub to_v1_domain : RegisterRequest → User
to_v1_domain r = record {
  id = "";
  username = r.username;
  email = r.email;
  password = r.password;
  active = false;
  role_id = role_user;
  created_at = zero_time;
  updated_at = none;
  deleted_at = none;
  password_changed_at = none;
}

pub record UserResponse : Type 0 where
  pub id : String
  pub username : String
  pub email : String
  pub role_id : ℤ
  pub token : String
  pub refresh_token : String
  pub created_at : Time
  pub updated_at : Option Time

abbrev pub from_v1_domain : User → UserResponse
from_v1_domain u = record {
  id = u.id;
  username = u.username;
  email = u.email;
  role_id = u.role_id;
  token = "";
  refresh_token = "";
  created_at = u.created_at;
  updated_at = u.updated_at;
}

abbrev pub from_login_response : LoginResponse → UserResponse
from_login_response r = record (from_v1_domain r.user) {
  token = r.access_token;
  refresh_token = r.refresh_token;
}

pub record CurrentUser : Type 0 where
  pub id : String
  pub email : String
  pub is_admin : Bool
  pub jti : String

-- The claims that the middleware put into the request's context, if any.
abbrev pub current_user_from_context : Option JwtCustomClaim → Result CurrentUser
current_user_from_context none = err (external "request is not authenticated")
current_user_from_context (some c) =
    ok (record { id = c.user_id; email = c.email; is_admin = c.is_admin; jti = c.id })
