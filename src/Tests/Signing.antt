-- ===== src/Tests/Signing.antt =====
-- A login, and the token that it returns: the example, with tokens that carry their claims.
use go_rest_boilerplate.Base.{
  ◌*◌, String, ◌<>◌, Bool, true, false, not, ◌&&◌, Option, none, some, ◌==◌, ◌≡◌, refl, arith,
  str_eq, str_eq→eq, Bool-cases, ◌⊎◌, inl, inr, if◌then◌else◌,
}
use go_rest_boilerplate.Apperror.{Error, external}
use go_rest_boilerplate.Exec.{Result, ok, err}
use go_rest_boilerplate.Env.{Env}
use go_rest_boilerplate.Env.Laws.{RedisLaws, SignsTokens, Spaceless}
use go_rest_boilerplate.Config.{App}
use go_rest_boilerplate.State.{State}
use go_rest_boilerplate.Time.{Time, zero_time, at, second, hour, before}
use go_rest_boilerplate.Jwt.Claims.{JwtCustomClaim, Parsed}
use go_rest_boilerplate.Records.{to_domain}
use go_rest_boilerplate.Jwt
use go_rest_boilerplate.Jwt.{add_duration}
use go_rest_boilerplate.Jwt.{access_claims as access_claims_of}
use go_rest_boilerplate.Redis
use go_rest_boilerplate.Ristretto
use go_rest_boilerplate.Users
use go_rest_boilerplate.Repository
use go_rest_boilerplate.Repository.Table
use go_rest_boilerplate.Auth.Keys.{login_attempts_key, refresh_key, token_cutoff_key}
use go_rest_boilerplate.Auth.Attempts.{limit_attempts, limit_attempts_if_positive, track_attempt}
use go_rest_boilerplate.Auth.Sessions
use go_rest_boilerplate.Auth.Sessions.{LoginResponse}
use go_rest_boilerplate.Http.AuthMiddleware.{next, handle}
use go_rest_boilerplate.Http.AuthMiddleware.Admission.{issued_at, login-handle}
use go_rest_boilerplate.Tests.Environment.{env, redis_laws, access_claims, refresh_claims}
use go_rest_boilerplate.Tests.Fixture
use go_rest_boilerplate.Tests.Fixture.{row}

abbrev same_time : Option Time → Option Time → Bool
same_time (some (at n)) (some (at m)) = n == m
same_time _ _ = false

abbrev same_bool : Bool → Bool → Bool
same_bool true b = b
same_bool false b = not b

abbrev same : JwtCustomClaim → JwtCustomClaim → Bool
same c d =
    str_eq c.user_id d.user_id
    && (same_bool c.is_admin d.is_admin
        && (str_eq c.email d.email
            && (str_eq c.kind d.kind
                && (str_eq c.id d.id
                    && (same_time c.expires_at d.expires_at
                        && (str_eq c.issuer d.issuer && same_time c.issued_at d.issued_at))))))

same_time_eq : (s t : Option Time) → same_time s t ≡ true → s ≡ t
same_time_eq (some (at n)) (some (at m)) h = ground (arith, h)
same_time_eq (some (at n)) (some zero_time) h = absurd (ground (arith, h))
same_time_eq (some (at n)) none h = absurd (ground (arith, h))
same_time_eq (some zero_time) (some _) h = absurd (ground (arith, h))
same_time_eq (some zero_time) none h = absurd (ground (arith, h))
same_time_eq none (some _) h = absurd (ground (arith, h))
same_time_eq none none h = absurd (ground (arith, h))

same_bool_eq : (a b : Bool) → same_bool a b ≡ true → a ≡ b
same_bool_eq true b h = ground (arith, h)
same_bool_eq false b h = ground (arith, h)

same_eq : (c d : JwtCustomClaim) → same c d ≡ true → c ≡ d
same_eq c d h = ground (
  arith,
  h,
  str_eq→eq c.user_id d.user_id,
  same_bool_eq c.is_admin d.is_admin,
  str_eq→eq c.email d.email,
  str_eq→eq c.kind d.kind,
  str_eq→eq c.id d.id,
  same_time_eq c.expires_at d.expires_at,
  str_eq→eq c.issuer d.issuer,
  same_time_eq c.issued_at d.issued_at,
)

abbrev access : JwtCustomClaim
access = record access_claims {
  is_admin = false;
  id = "uuid";
  expires_at = some (at hour);
  issued_at = some (at 0);
}

abbrev refresh : JwtCustomClaim
refresh = record refresh_claims {
  id = "uuid";
  expires_at = some (at (168 * hour));
  issued_at = some (at 0);
}

abbrev signed : JwtCustomClaim → Result String
signed c =
    if same c access
    then ok "aa.bb.cc"
    else if same c refresh
    then ok "dd.ee.ff"
    else err (external "unknown claims")

abbrev unsigned : String → Result Parsed
unsigned t =
    if str_eq t "aa.bb.cc"
    then ok (record { claims = access; valid = true })
    else if str_eq t "dd.ee.ff"
    then ok (record { claims = refresh; valid = true })
    else err (external "token is malformed")

abbrev signing : Env
signing = record env {
  signed_string = λ key c. signed c;
  parse_with_claims = λ f now t. unsigned t;
}

un : {s t : String} → ok s ≡ ok t → t ≡ s
un h = ground (arith, h)

failed : {t : String} {x : Error} → ◌≡◌ {A = Result String} (err x) (ok t) → ⊥
failed h = absurd (ground (arith, h))

signed_cases :
    (c : JwtCustomClaim) (t : String)
    → signed c ≡ ok t
    → ((c ≡ access) × (t ≡ "aa.bb.cc")) ⊎ ((c ≡ refresh) × (t ≡ "dd.ee.ff"))
signed_cases c t h = elim (Bool-cases (same c access)) [
  | inl e ↦ inl (same_eq c access e, un (rw e at h))
  | inr e ↦ elim (Bool-cases (same c refresh)) [
    | inl k ↦ inr (same_eq c refresh k, un (rw (e, k) at h))
    | inr k ↦ absurd (failed (rw (e, k) at h))
  ]
]

signed-Spaceless : (c : JwtCustomClaim) (t : String) → signed c ≡ ok t → Spaceless t
signed-Spaceless c t h = elim (signed_cases c t h) [
  | inl (_, e) ↦ rw e (refl, (refl, (refl, (refl, (refl, (refl, (refl, (refl, tt))))))))
  | inr (_, e) ↦ rw e (refl, (refl, (refl, (refl, (refl, (refl, (refl, (refl, tt))))))))
]

unsigned-signed :
    (c : JwtCustomClaim) (t : String)
    → signed c ≡ ok t
    → unsigned t ≡ ok (record { claims = c; valid = true })
unfolding str_eq
unsigned-signed c t h = elim (signed_cases c t h) [
  | inl (k, e) ↦ rw (e, k) refl
  | inr (k, e) ↦ rw (e, k) refl
]

signs_tokens : SignsTokens signing
signs_tokens = record {
  spaceless = λ key t c h. signed-Spaceless c t h;
  parse-signed = λ f key t c now issued expires k h i x l. unsigned-signed c t h;
}

abbrev laws : RedisLaws signing
laws = record {
  live = redis_laws.live;
  get_absent = redis_laws.get_absent;
  del_self = redis_laws.del_self;
  set_absent = redis_laws.set_absent;
  incr_absent = redis_laws.incr_absent;
  get_keeps_absent = redis_laws.get_keeps_absent;
  del_keeps_absent = redis_laws.del_keeps_absent;
  expire_keeps_absent = redis_laws.expire_keeps_absent;
}

abbrev app : App
app = record Fixture.app { env = signing }

abbrev start : State app
start = record {
  world = 5;
  redis = (Fixture.start true 0).redis;
  ristretto = (Fixture.start true 0).ristretto;
  users = (Fixture.start true 0).users;
  mailer = (Fixture.start true 0).mailer;
}

abbrev response : LoginResponse
response = record {
  user = to_domain (row true);
  access_token = "aa.bb.cc";
  refresh_token = "dd.ee.ff";
}

logged_in : (Sessions.login app "ada@x.io" "secret" start).0 ≡ ok response
unfolding Sessions.login Sessions.limit_logins limit_attempts_if_positive limit_attempts
    track_attempt Sessions.open_session Sessions.authenticate Sessions.issue_pair
    Sessions.remember_refresh Jwt.generate_token_pair Jwt.sign_access Jwt.sign_refresh Jwt.sign
    Users.get_by_email Users.load_by_email Repository.get_by_email Repository.run_statement
    Repository.Table.find_live Ristretto.get Ristretto.set Redis.get Redis.set Redis.del
    Redis.expire Redis.incr login_attempts_key refresh_key str_eq
logged_in = refl

logged_in_at : issued_at app "ada@x.io" "secret" start ≡ 5
unfolding Sessions.limit_logins limit_attempts_if_positive limit_attempts track_attempt
    Sessions.authenticate Users.get_by_email Users.load_by_email Repository.get_by_email
    Repository.run_statement Repository.Table.find_live Ristretto.get Ristretto.set Redis.expire
    Redis.incr login_attempts_key str_eq
logged_in_at = refl

abbrev later : State app
later = record start { world = 1000 * second }

unexpired :
    before (at (app.now later.world).0) (
      app.new_numeric_date
        (add_duration (at (issued_at app "ada@x.io" "secret" start)) (hour * app.jwt.expired)))
    ≡ true
unexpired = rw logged_in_at refl

no_cutoff : later.redis.values (token_cutoff_key "1") ≡ none
unfolding token_cutoff_key str_eq
no_cutoff = refl

login-handle_example :
    (jti : String) × ((handle app
        (record { has_redis = true; is_admin = false })
        ("Bearer " <> "aa.bb.cc")
        later).0
      ≡ ok (
          next (
            access_claims_of app "1" false "ada@x.io" jti
              (at (issued_at app "ada@x.io" "secret" start))
              (add_duration
                (at (issued_at app "ada@x.io" "secret" start))
                (hour * app.jwt.expired)))))
login-handle_example =
    login-handle app laws signs_tokens (record { has_redis = true; is_admin = false }) "ada@x.io"
      "secret" start later logged_in unexpired no_cutoff (λ h. absurd (ground (arith, h)))
