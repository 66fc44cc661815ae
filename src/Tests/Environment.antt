-- ===== src/Tests/Environment.antt =====
-- External code for the examples: a clock that ticks once a reading, two maps for Redis, a map for
-- ristretto, two known tokens, and a Postgres that runs every statement.
use Prim.Native.Char.{code}
use go_rest_boilerplate.Base.{
  ℕ, zero, suc, ◌+◌, ◌*◌, ◌/◌, ℤ, pos, negsuc, String, ◌<>◌, true, false, Option, none, some, List,
  [], ◌∷◌, ◌==◌, ◌≡◌, refl, sym, ◌∙◌, ap, arith, str_eq, str_eq_refl, str_eq_of_ne, str_eq→eq, ◌≢◌,
  if◌then◌else◌, Bool-cases, inl, inr,
}
use go_rest_boilerplate.Apperror.{external}
use go_rest_boilerplate.Exec.{Result, ok, err}
use go_rest_boilerplate.Env.{Env, runs, CacheValue}
use go_rest_boilerplate.Env.Laws.{
  RedisLaws, SteadyRedis, TextLaws, UnicodeLaws, ConfirmsDel, TruncatesToSeconds, ClaimsAreFixed,
  ForgetsDeleted,
}
use go_rest_boilerplate.Time.{Time, zero_time, at, second}
use go_rest_boilerplate.Jwt.Claims.{JwtCustomClaim, hmac, Parsed, kind_access, kind_refresh}

pub record Dict : Type 0 where
  pub values : String → Option String
  pub counts : String → ℕ

abbrev pub sevens : ℕ → List ℕ
sevens zero = []
sevens (suc n) = 7 ∷ sevens n

abbrev lower : String → String
lower s = if str_eq s "ADA@X.IO" then "ada@x.io" else s

abbrev found : Option String → Result String
found none = err (external "redis: nil")
found (some v) = ok v

abbrev put {ℓ} : {A : Type ℓ} → String → A → (String → A) → String → A
put k a f j = if str_eq k j then a else f j

abbrev ones : ℕ → String
ones zero = String.[]
ones (suc n) = String.◌∷◌ "1" (ones n)

abbrev format : ℤ → String
format (pos n) = String.◌∷◌ "+" (ones n)
format (negsuc n) = String.◌∷◌ "-" (ones n)

abbrev size : String → ℕ
size String.[] = 0
size (String.◌∷◌ c s) = suc (size s)

abbrev read : String → Option ℤ
read String.[] = none
read (String.◌∷◌ c s) = if code c == b'+' then some (pos (size s)) else some (negsuc (size s))

abbrev truncated : Time → Time
truncated zero_time = zero_time
truncated (at n) = at (second * (n / second))

abbrev pub refresh_claims : JwtCustomClaim
refresh_claims = record {
  user_id = "1";
  is_admin = false;
  email = "ada@x.io";
  kind = kind_refresh;
  id = "jti";
  expires_at = none;
  issuer = "app";
  issued_at = some (at (5 * second));
}

abbrev pub access_claims : JwtCustomClaim
access_claims = record {
  user_id = "1";
  is_admin = true;
  email = "ada@x.io";
  kind = kind_access;
  id = "jti2";
  expires_at = none;
  issuer = "app";
  issued_at = some (at (5 * second));
}

abbrev decoded : Result String → String → Result Parsed
decoded (err e) t = err e
decoded (ok key) t =
    if str_eq t "refresh"
    then ok (record { claims = refresh_claims; valid = true })
    else if str_eq t "access"
    then ok (record { claims = access_claims; valid = true })
    else err (external "token is malformed")

abbrev pub env : Env
env = record {
  World = ℕ;
  now = λ w. (w, suc w);
  new_uuid = λ w. ("uuid", suc w);
  read_random = λ n w. (ok (sevens n), suc w);
  sql_now = λ w. (w, suc w);
  sql_uuid = λ w. ("row", suc w);
  statement_fate = λ w. (runs, w);
  rows_affected = λ n w. (ok n, w);
  timestamptz = λ t. t;
  min_cost = pos 4;
  max_cost = pos 31;
  default_cost = pos 10;
  generate_from_password = λ p c w. (ok ("hash:" <> p), w);
  compare_hash_and_password = λ h p. str_eq h ("hash:" <> p);
  trim_space = λ s. s;
  to_lower = lower;
  parse_address = λ s. true;
  sql_lower = lower;
  json_marshal = λ v. v;
  json_unmarshal = λ v. some v;
  format_int = format;
  parse_int = read;
  base64_url = λ bs. "drawn";
  Redis = Dict;
  redis_set = λ k v ttl d. (ok tt, record d { values = put k (some v) d.values });
  redis_get = λ k d. (found (d.values k), d);
  redis_del = λ k d. (ok tt, record { values = put k none d.values; counts = put k 0 d.counts });
  redis_incr =
      λ k d. (ok (pos (d.counts k + 1)), record d { counts = put k (d.counts k + 1) d.counts });
  redis_expire = λ k ttl d. (ok tt, d);
  Ristretto = String → Option CacheValue;
  ristretto_get = λ k c. (c k, c);
  ristretto_set = λ k v ttl c. put k (some v) c;
  ristretto_del = λ k c. put k none c;
  new_numeric_date = truncated;
  signed_string = λ key c. ok "minted";
  parse_with_claims = λ f now t. decoded (f hmac) t;
}

pub found-none : {o : Option String} (v : String) → o ≡ none → found o ≢ ok v
found-none v h k = ground (arith, h, k)

pub put-none : (k j : String) (f : String → Option String) → f j ≡ none → put k none f j ≡ none
put-none k j f h = elim (Bool-cases (str_eq k j)) [ inl e ↦ rw e refl | inr e ↦ rw e h ]

abbrev pub redis_laws : RedisLaws env
redis_laws = record {
  live = λ d k. d.values k;
  get_absent = λ k d v h e. found-none v h e;
  del_self = λ k d h. rw (str_eq_refl k) refl;
  set_absent = λ k j v ttl d n h. rw (str_eq_of_ne k j n) h;
  incr_absent = λ k j d n h. h;
  get_keeps_absent = λ k j d h. h;
  del_keeps_absent = λ k j d h. put-none k j d.values h;
  expire_keeps_absent = λ k j ttl d h. h;
}

pub confirms_del : ConfirmsDel env
confirms_del k d = refl

pub put-incr :
    (k j : String) (f : String → ℕ) → put k (f k + 1) f j ≡ (if str_eq k j then f j + 1 else f j)
put-incr k j f = elim (Bool-cases (str_eq k j)) [
  | inl e ↦ rw e (ap (λ x. f x + 1) (str_eq→eq k j e))
  | inr e ↦ rw e refl
]

abbrev pub steady_redis : SteadyRedis env
steady_redis = record {
  live = λ d k. d.values k;
  count = λ d k. d.counts k;
  get_some = λ k v d h. rw h refl;
  get_none = λ k v d h e. found-none v h e;
  set_ok = λ k v ttl d. refl;
  live-set = λ k j v ttl d. refl;
  live-get = λ k j d. refl;
  live-expire = λ k j ttl d. refl;
  live-del = λ k j d. refl;
  live-incr = λ k j d. refl;
  incr_ok = λ k d. refl;
  count-incr = λ k j d. put-incr k j d.counts;
  count-get = λ k j d. refl;
  count-set = λ k j v ttl d h. refl;
  count-expire = λ k j ttl d. refl;
  count-del = λ k j d. refl;
}

size-ones : (n : ℕ) → size (ones n) ≡ n
size-ones zero = refl
size-ones (suc n) = ap suc (size-ones n)

read-format : (n : ℤ) → read (format n) ≡ some n
read-format (pos n) = ap (λ m. some (pos m)) (size-ones n)
read-format (negsuc n) = ap (λ m. some (negsuc m)) (size-ones n)

format_nonempty : (n : ℤ) → format n ≢ ""
format_nonempty (pos n) h = absurd (omega (arith, ap size h))
format_nonempty (negsuc n) h = absurd (omega (arith, ap size h))

lower-lower : (s : String) → lower (lower s) ≡ lower s
unfolding str_eq
lower-lower s = elim (Bool-cases (str_eq s "ADA@X.IO")) [
  | inl e ↦ rw e refl
  | inr e ↦ rw (e, e) refl
]

abbrev claims_of : Result Parsed → JwtCustomClaim
claims_of (ok x) = x.claims
claims_of (err e) = refresh_claims

pub text_laws : TextLaws env
text_laws = record {
  unmarshal-marshal = λ v. refl;
  parse-format = read-format;
  format-nonempty = λ n. str_eq_of_ne (format n) "" (format_nonempty n);
}

pub unicode_laws : UnicodeLaws env
unicode_laws = record { lower-lower = lower-lower; trim-lower = λ s. refl; trim-trim = λ s. refl }

pub truncates : TruncatesToSeconds env
truncates n = refl

pub claims_are_fixed : ClaimsAreFixed env
claims_are_fixed f n m t x y h k = ap claims_of (sym h ∙ k)

pub forgets_deleted : ForgetsDeleted env
forgets_deleted k c = rw (str_eq_refl k) refl
