-- ===== src/Env.antt =====
-- What the program calls and does not implement: the runtime, golang.org/x/crypto/bcrypt, the
-- Unicode tables and the mail-address parser of the standard library, encoding/json and strconv,
-- the Redis client and server, ristretto, golang-jwt, and the Postgres server's fate of a
-- statement. Each is a field; what the code relies on is in `Env/Laws.antt`.
pub mod Laws
use go_rest_boilerplate.Base.{ℕ, ℤ, String, Bool, Option, List}
use go_rest_boilerplate.Apperror.{Error}
use go_rest_boilerplate.Exec.{Result}
use go_rest_boilerplate.Domain.User.{User}
use go_rest_boilerplate.Time.{Time}
use go_rest_boilerplate.Jwt.Claims.{JwtCustomClaim, SigningMethod, Parsed}

-- What the Postgres server does with a statement: it runs it, it refuses it without any effect, or
-- it runs it and the reply is lost.
pub data Fate : Type 0 where
  runs : Fate
  refuses loses : Error → Fate

-- A value of the in-process cache; `other` is one whose dynamic type is not `domain.User`.
pub data CacheValue : Type 0 where
  user : User → CacheValue
  other : CacheValue

pub record Env : Type 1 where
  -- The states that the runtime may come to be in, from the moment at which it is looked at on:
  -- time.Now, uuid.NewString, crypto/rand.Read, and the server's NOW() and uuid_generate_v4().
  pub World : Type 0
  pub now : World → ℕ × World
  pub new_uuid : World → String × World
  pub read_random : ℕ → World → Result (List ℕ) × World
  pub sql_now : World → ℕ × World
  pub sql_uuid : World → String × World
  pub statement_fate : World → Fate × World
  -- The driver's `RowsAffected` of a statement that changed so many rows.
  pub rows_affected : ℕ → World → Result ℕ × World
  -- A timestamp as a `timestamptz` column keeps it.
  pub timestamptz : Time → Time
  -- bcrypt: hashing draws a salt.
  pub min_cost : ℤ
  pub max_cost : ℤ
  pub default_cost : ℤ
  pub generate_from_password : String → ℤ → World → Result String × World
  pub compare_hash_and_password : String → String → Bool
  -- unicode.IsSpace and unicode.ToLower on texts, mail.ParseAddress, SQL LOWER.
  pub trim_space : String → String
  pub to_lower : String → String
  pub parse_address : String → Bool
  pub sql_lower : String → String
  -- encoding/json on strings, strconv, and base64.RawURLEncoding.
  pub json_marshal : String → String
  pub json_unmarshal : String → Option String
  pub format_int : ℤ → String
  pub parse_int : String → Option ℤ
  pub base64_url : List ℕ → String
  -- The commands of the Redis client. Durations in nanoseconds.
  pub Redis : Type 0
  pub redis_set : String → String → ℕ → Redis → Result (Unit {0}) × Redis
  pub redis_get : String → Redis → Result String × Redis
  pub redis_del : String → Redis → Result (Unit {0}) × Redis
  pub redis_incr : String → Redis → Result ℤ × Redis
  pub redis_expire : String → ℕ → Redis → Result (Unit {0}) × Redis
  -- ristretto.
  pub Ristretto : Type 0
  pub ristretto_get : String → Ristretto → Option CacheValue × Ristretto
  pub ristretto_set : String → CacheValue → ℕ → Ristretto → Ristretto
  pub ristretto_del : String → Ristretto → Ristretto
  -- golang-jwt: HS256 signing with a key, parsing with a key function at an instant.
  pub new_numeric_date : Time → Time
  pub signed_string : String → JwtCustomClaim → Result String
  pub parse_with_claims : (SigningMethod → Result String) → Time → String → Result Parsed
