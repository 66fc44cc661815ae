-- ===== src/Jwt.antt =====
-- pkg/jwt/jwt.go: signing and parsing of access and refresh tokens.
pub mod Accepted
pub mod Claims
use go_rest_boilerplate.Base.{
  ℕ, ◌+◌, ◌*◌, String, ◌<>◌, Bool, true, false, ◌&&◌, not, some, str_eq, if◌then◌else◌,
}
use go_rest_boilerplate.Apperror.{
  Error, external, sentinel, wrapped, err_invalid_token, err_wrong_token_kind, error_text, errorf,
}
use go_rest_boilerplate.Exec.{Exec, Result, ok, err, pure, throw, guard, ◌>>=◌, ◌>>◌}
use go_rest_boilerplate.Config.{App}
use go_rest_boilerplate.State.{State, draw, time_now}
use go_rest_boilerplate.Time.{Time, zero_time, at, hour}
use go_rest_boilerplate.Jwt.Claims.{
  JwtCustomClaim, TokenPair, SigningMethod, hmac, other, Parsed, kind_access, kind_refresh,
}

-- `t.Add(d)`; the clock gives no zero time.
abbrev pub add_duration : Time → ℕ → Time
add_duration zero_time d = zero_time
add_duration (at n) d = at (n + d)

pub record Signed : Type 0 where
  pub token : String
  pub expires_at : Time
  pub jti : String

module _ (app : App) where
  abbrev signed_or : Result String → Exec (State app) String
  signed_or (ok t) = pure t
  signed_or (err e) = throw (errorf "sign jwt" e)

  unfoldable pub sign : JwtCustomClaim → Exec (State app) String
  sign claims = signed_or (app.signed_string app.jwt.secret_key claims)

  abbrev pub refresh_claims : String → String → String → Time → Time → JwtCustomClaim
  refresh_claims user_id email jti now expires_at = record {
    user_id = user_id;
    is_admin = false;
    email = email;
    kind = kind_refresh;
    id = jti;
    expires_at = some (app.new_numeric_date expires_at);
    issuer = app.jwt.issuer;
    issued_at = some (app.new_numeric_date now);
  }

  abbrev pub access_claims : String → Bool → String → String → Time → Time → JwtCustomClaim
  access_claims user_id is_admin email jti now expires_at = record {
    user_id = user_id;
    is_admin = is_admin;
    email = email;
    kind = kind_access;
    id = jti;
    expires_at = some (app.new_numeric_date expires_at);
    issuer = app.jwt.issuer;
    issued_at = some (app.new_numeric_date now);
  }

  unfoldable pub sign_access : String → Bool → String → Exec (State app) Signed
  sign_access user_id is_admin email = do
    now ← time_now app
    let expires_at = add_duration now (hour * app.jwt.expired)
    jti ← draw app.new_uuid
    token ← sign (access_claims user_id is_admin email jti now expires_at)
    pure (record { token = token; expires_at = expires_at; jti = jti })

  unfoldable pub sign_refresh : String → String → Exec (State app) Signed
  sign_refresh user_id email = do
    now ← time_now app
    let expires_at = add_duration now (24 * hour * app.jwt.refresh_expired)
    jti ← draw app.new_uuid
    token ← sign (refresh_claims user_id email jti now expires_at)
    pure (record { token = token; expires_at = expires_at; jti = jti })

  unfoldable pub generate_token : String → Bool → String → Exec (State app) String
  generate_token user_id is_admin email = do
    signed ← sign_access user_id is_admin email
    pure signed.token

  unfoldable pub generate_token_pair : String → Bool → String → Exec (State app) TokenPair
  generate_token_pair user_id is_admin email = do
    access ← sign_access user_id is_admin email
    refresh ← sign_refresh user_id email
    pure (record {
      access_token = access.token;
      refresh_token = refresh.token;
      access_expires_at = access.expires_at;
      refresh_expires_at = refresh.expires_at;
      access_jti = access.jti;
      refresh_jti = refresh.jti;
    })

  -- The key function: only an HMAC gets the key.
  abbrev pub key_func : SigningMethod → Result String
  key_func hmac = ok app.jwt.secret_key
  key_func (other alg) = err (external ("unexpected signing method: " <> alg))

  -- `fmt.Errorf("%w: %v", ErrInvalidToken, err)`
  abbrev invalid_token : Error → Error
  invalid_token e = wrapped ("token is not valid: " <> error_text e) (sentinel err_invalid_token)

  abbrev checked : Result Parsed → Exec (State app) JwtCustomClaim
  checked (err e) = throw (invalid_token e)
  checked (ok token) = if token.valid then pure token.claims else throw (sentinel err_invalid_token)

  unfoldable pub parse : String → Exec (State app) JwtCustomClaim
  parse token_string = do
    now ← time_now app
    checked (app.parse_with_claims key_func now token_string)

  -- An empty kind passes for an access token.
  unfoldable pub parse_token : String → Exec (State app) JwtCustomClaim
  parse_token token_string = do
    claims ← parse token_string
    guard (not (not (str_eq claims.kind "") && not (str_eq claims.kind kind_access)))
        (sentinel err_wrong_token_kind)
    pure claims

  unfoldable pub parse_refresh_token : String → Exec (State app) JwtCustomClaim
  parse_refresh_token token_string = do
    claims ← parse token_string
    guard (str_eq claims.kind kind_refresh) (sentinel err_wrong_token_kind)
    pure claims
