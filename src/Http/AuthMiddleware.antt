-- ===== src/Http/AuthMiddleware.antt =====
-- internal/http/middlewares/middleware.auth.go.
pub mod Gate
pub mod Admission
use Prim.Native.Char.{Char, code}
use go_rest_boilerplate.Base.{
  ℤ, String, ◌<>◌, Bool, true, false, not, ◌&&◌, Option, none, some, List, [], ◌∷◌, ◌==◌, str_eq,
  if◌then◌else◌,
}
use go_rest_boilerplate.Base.Int.{lt_ℤ}
use go_rest_boilerplate.Exec.{Exec, Result, ok, err, pure, attempt, ◌>>=◌}
use go_rest_boilerplate.Config.{App}
use go_rest_boilerplate.State.{State}
use go_rest_boilerplate.Time.{Time, unix}
use go_rest_boilerplate.Jwt
use go_rest_boilerplate.Jwt.Claims.{JwtCustomClaim}
use go_rest_boilerplate.Redis
use go_rest_boilerplate.Auth.Keys.{token_cutoff_key}

-- The chain is aborted with a 401 and a message, or goes on for the holder of the claims.
pub data Verdict : Type 0 where
  abort : String → Verdict
  next : JwtCustomClaim → Verdict

-- `AuthMiddleware`: whether there is a Redis cache, and whether the routes are for admins.
pub record AuthMiddleware : Type 0 where
  pub has_redis : Bool
  pub is_admin : Bool

abbrev single : Char → String
single c = String.◌∷◌ c String.[]

-- `strings.Split(s, " ")`, with the text since the last space.
unfoldable pub split_from : String → String → List String
split_from cur String.[] = cur ∷ []
split_from cur (String.◌∷◌ c s) =
    let closed = cur ∷ split_from "" s in
    let longer = split_from (cur <> single c) s in if code c == b' ' then closed else longer

abbrev pub split_space : String → List String
split_space = split_from ""

module _ (app : App) where
  abbrev pub is_before : ℤ → Option ℤ → Bool
  is_before issued_at none = false
  is_before issued_at (some cutoff) = lt_ℤ issued_at cutoff

  -- An error, an empty value and a value that is no number let the token pass.
  abbrev revokes : ℤ → Result String → Bool
  revokes issued_at (err e) = false
  revokes issued_at (ok cutoff) =
      not (str_eq cutoff "") && is_before issued_at (app.parse_int cutoff)

  abbrev pub is_revoked_since : JwtCustomClaim → Option Time → Exec (State app) Bool
  is_revoked_since user none = pure false
  is_revoked_since user (some issued_at) = do
    cutoff ← attempt (Redis.get app (token_cutoff_key user.user_id))
    pure (revokes (unix issued_at) cutoff)

  unfoldable pub is_revoked : AuthMiddleware → JwtCustomClaim → Exec (State app) Bool
  is_revoked m user = if m.has_redis then is_revoked_since user user.issued_at else pure false

  abbrev differs : Bool → Bool → Bool
  differs true b = not b
  differs false b = b

  unfoldable pub check_privilege : AuthMiddleware → JwtCustomClaim → Verdict
  check_privilege m user =
      if differs user.is_admin m.is_admin && not user.is_admin
      then abort "you don't have access for this action"
      else next user

  abbrev admit : AuthMiddleware → Result JwtCustomClaim → Exec (State app) Verdict
  admit m (err e) = pure (abort "invalid token")
  admit m (ok user) = do
    revoked ← is_revoked m user
    pure (if revoked then abort "token has been revoked" else check_privilege m user)

  -- Behind the check of the header's form.
  unfoldable pub handle_bearer : AuthMiddleware → String → Exec (State app) Verdict
  handle_bearer m token = do parsed ← attempt (Jwt.parse_token app token); admit m parsed

  abbrev pub handle_parts : AuthMiddleware → List String → Exec (State app) Verdict
  handle_parts m (scheme ∷ token ∷ []) =
      if str_eq scheme "Bearer"
      then handle_bearer m token
      else pure (abort "token must content bearer")
  handle_parts m _ = pure (abort "invalid header format")

  unfoldable pub handle : AuthMiddleware → String → Exec (State app) Verdict
  handle m auth_header =
      if str_eq auth_header ""
      then pure (abort "missing authorization header")
      else handle_parts m (split_space auth_header)
