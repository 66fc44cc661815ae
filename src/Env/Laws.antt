-- ===== src/Env/Laws.antt =====
-- What the program relies on in the code that it calls, each as documented: the Redis commands, as
-- long as no other client writes to the same keys, ristretto, golang-jwt, encoding/json, strconv and
-- the Unicode tables.
use Prim.Native.Char.{code}
use go_rest_boilerplate.Base.{
  ℕ, ◌*◌, ◌/◌, ◌+◌, ◌==◌, ℤ, pos, String, true, false, Option, none, some, ◌≡◌, ◌≢◌, str_eq,
  if◌then◌else◌,
}
use go_rest_boilerplate.Exec.{Result, ok}
use go_rest_boilerplate.Env.{Env}
use go_rest_boilerplate.Jwt.Claims.{JwtCustomClaim, SigningMethod, hmac, Parsed}
use go_rest_boilerplate.Time.{Time, at, second, before}

-- What holds of Redis at all times, also where commands fail and keys expire. `live d k` is the
-- value under `k`, if there is one.
pub record RedisLaws (env : Env) : Type 0 where
  pub live : env.Redis → String → Option String
  -- A key that is not there is not found.
  pub get_absent :
      (k : String) (d : env.Redis) (v : String) → live d k ≡ none → (env.redis_get k d).0 ≢ ok v
  -- A deletion that is confirmed leaves nothing under the key.
  pub del_self :
      (k : String) (d : env.Redis)
      → (env.redis_del k d).0 ≡ ok tt
      → live (env.redis_del k d).1 k ≡ none
  -- Only SET and INCR create a key, and only their own.
  pub set_absent :
      (k j v : String) (ttl : ℕ) (d : env.Redis)
      → k ≢ j
      → live d j ≡ none
      → live (env.redis_set k v ttl d).1 j ≡ none
  pub incr_absent :
      (k j : String) (d : env.Redis)
      → k ≢ j
      → live d j ≡ none
      → live (env.redis_incr k d).1 j ≡ none
  pub get_keeps_absent :
      (k j : String) (d : env.Redis) → live d j ≡ none → live (env.redis_get k d).1 j ≡ none
  pub del_keeps_absent :
      (k j : String) (d : env.Redis) → live d j ≡ none → live (env.redis_del k d).1 j ≡ none
  pub expire_keeps_absent :
      (k j : String) (ttl : ℕ) (d : env.Redis)
      → live d j ≡ none
      → live (env.redis_expire k ttl d).1 j ≡ none

-- DEL always gets its confirmation.
abbrev pub ConfirmsDel : Env → Type 0
ConfirmsDel env = (k : String) (d : env.Redis) → (env.redis_del k d).0 ≡ ok tt

-- Redis while it answers every command and no key expires: a map of values and of counters.
pub record SteadyRedis (env : Env) : Type 0 where
  pub live : env.Redis → String → Option String
  pub count : env.Redis → String → ℕ
  pub get_some : (k v : String) (d : env.Redis) → live d k ≡ some v → (env.redis_get k d).0 ≡ ok v
  pub get_none : (k v : String) (d : env.Redis) → live d k ≡ none → (env.redis_get k d).0 ≢ ok v
  pub set_ok : (k v : String) (ttl : ℕ) (d : env.Redis) → (env.redis_set k v ttl d).0 ≡ ok tt
  pub live-set :
      (k j v : String) (ttl : ℕ) (d : env.Redis)
      → live (env.redis_set k v ttl d).1 j ≡ (if str_eq k j then some v else live d j)
  pub live-get : (k j : String) (d : env.Redis) → live (env.redis_get k d).1 j ≡ live d j
  pub live-expire :
      (k j : String) (ttl : ℕ) (d : env.Redis) → live (env.redis_expire k ttl d).1 j ≡ live d j
  pub live-del :
      (k j : String) (d : env.Redis)
      → live (env.redis_del k d).1 j ≡ (if str_eq k j then none else live d j)
  pub live-incr : (k j : String) (d : env.Redis) → live (env.redis_incr k d).1 j ≡ live d j
  pub incr_ok : (k : String) (d : env.Redis) → (env.redis_incr k d).0 ≡ ok (pos (count d k + 1))
  pub count-incr :
      (k j : String) (d : env.Redis)
      → count (env.redis_incr k d).1 j ≡ (if str_eq k j then count d j + 1 else count d j)
  pub count-get : (k j : String) (d : env.Redis) → count (env.redis_get k d).1 j ≡ count d j
  pub count-set :
      (k j v : String) (ttl : ℕ) (d : env.Redis)
      → str_eq k j ≡ false
      → count (env.redis_set k v ttl d).1 j ≡ count d j
  pub count-expire :
      (k j : String) (ttl : ℕ) (d : env.Redis) → count (env.redis_expire k ttl d).1 j ≡ count d j
  pub count-del :
      (k j : String) (d : env.Redis)
      → count (env.redis_del k d).1 j ≡ (if str_eq k j then 0 else count d j)

-- A JSON text of a string is decoded to that string, and a decimal to its number.
pub record TextLaws (env : Env) : Type 0 where
  pub unmarshal-marshal : (v : String) → env.json_unmarshal (env.json_marshal v) ≡ some v
  pub parse-format : (n : ℤ) → env.parse_int (env.format_int n) ≡ some n
  pub format-nonempty : (n : ℤ) → str_eq (env.format_int n) "" ≡ false

-- A text without a space.
abbrev pub Spaceless : String → Type 0
Spaceless String.[] = Unit
Spaceless (String.◌∷◌ c s) = (code c == b' ' ≡ false) × Spaceless s

-- golang-jwt: a token that was signed with a key is three texts in base64 with dots in between, and
-- until it expires it parses, with that key, to the claims that were signed. Their dates are such as
-- the library makes.
pub record SignsTokens (env : Env) : Type 0 where
  pub spaceless :
      (key t : String) (c : JwtCustomClaim) → env.signed_string key c ≡ ok t → Spaceless t
  pub parse-signed :
      (f : SigningMethod → Result String) (key t : String) (c : JwtCustomClaim)
      (now issued expires : Time)
      → f hmac ≡ ok key
      → env.signed_string key c ≡ ok t
      → c.issued_at ≡ some (env.new_numeric_date issued)
      → c.expires_at ≡ some (env.new_numeric_date expires)
      → before now (env.new_numeric_date expires) ≡ true
      → env.parse_with_claims f now t ≡ ok (record { claims = c; valid = true })

-- Normalised text is left alone by another normalisation.
pub record UnicodeLaws (env : Env) : Type 0 where
  pub lower-lower : (s : String) → env.to_lower (env.to_lower s) ≡ env.to_lower s
  pub trim-lower : (s : String) → env.trim_space (env.to_lower s) ≡ env.to_lower (env.trim_space s)
  pub trim-trim : (s : String) → env.trim_space (env.trim_space s) ≡ env.trim_space s

-- golang-jwt keeps whole seconds.
abbrev pub TruncatesToSeconds : Env → Type 0
TruncatesToSeconds env = (n : ℕ) → env.new_numeric_date (at n) ≡ at (second * (n / second))

-- The claims stand in the token: they do not hang on the time at which it is parsed.
abbrev pub ClaimsAreFixed : Env → Type 0
ClaimsAreFixed env =
    (f : SigningMethod → Result String) (n m : Time) (t : String) (x y : Parsed)
    → env.parse_with_claims f n t ≡ ok x
    → env.parse_with_claims f m t ≡ ok y
    → x.claims ≡ y.claims

-- A deleted entry of ristretto is not found.
abbrev pub ForgetsDeleted : Env → Type 0
ForgetsDeleted env =
    (k : String) (c : env.Ristretto) → (env.ristretto_get k (env.ristretto_del k c)).0 ≡ none

-- bcrypt accepts a password with the hash that it made of it.
abbrev pub VerifiesHashes : Env → Type 0
VerifiesHashes env =
    (p h : String) (cost : ℤ) (w v : env.World)
    → env.generate_from_password p cost w ≡ (ok h, v)
    → env.compare_hash_and_password h p ≡ true
