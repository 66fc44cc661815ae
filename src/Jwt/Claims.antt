-- ===== src/Jwt/Claims.antt =====
-- pkg/jwt/jwt.go: the claims that are signed into a token, and its signing method.
use go_rest_boilerplate.Base.{String, Bool, Option}
use go_rest_boilerplate.Time.{Time}

-- `JwtCustomClaim` with the `RegisteredClaims` that the program sets.
pub record JwtCustomClaim : Type 0 where
  pub user_id : String
  pub is_admin : Bool
  pub email : String
  pub kind : String
  pub id : String
  pub expires_at : Option Time
  pub issuer : String
  pub issued_at : Option Time

abbrev pub kind_access : String
kind_access = "access"

abbrev pub kind_refresh : String
kind_refresh = "refresh"

-- A token's method, as its header names it: an HMAC or any other.
pub data SigningMethod : Type 0 where
  hmac : SigningMethod
  other : String → SigningMethod

-- What the library parses a token to: `*Token`, and the claims that it fills in.
pub record Parsed : Type 0 where
  pub claims : JwtCustomClaim
  pub valid : Bool

pub record TokenPair : Type 0 where
  pub access_token : String
  pub refresh_token : String
  pub access_expires_at : Time
  pub refresh_expires_at : Time
  pub access_jti : String
  pub refresh_jti : String
