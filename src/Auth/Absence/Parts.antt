-- ===== src/Auth/Absence/Parts.antt =====
-- What leaves an absent key of Redis absent: the reads, the deletions, and the shared counter.
use go_rest_boilerplate.Base.{ℕ, ℤ, pos, String, Bool, Option, List, ◌≡◌, ◌≢◌, Bool-cases, inl, inr}
use go_rest_boilerplate.Base.Int.{lt_ℤ, eq_ℤ}
use go_rest_boilerplate.Exec.{Exec, Result, ok, err}
use go_rest_boilerplate.Exec.Rules.{
  Keeps, Keeps-bind, Keeps-attempt, Keeps-bind_mapped, Keeps-map_err, Keeps-pure, Keeps-then,
  keeps_rules, continue_ok,
}
use go_rest_boilerplate.Env.Laws.{RedisLaws}
use go_rest_boilerplate.Config.{App}
use go_rest_boilerplate.State.{State, on_mailer, time_now}
use go_rest_boilerplate.Mailer
use go_rest_boilerplate.Domain.User.{User}
use go_rest_boilerplate.Domain.Account
use go_rest_boilerplate.Redis
use go_rest_boilerplate.Redis.Absent.{
  Absent, set-Absent, get-Absent, del-Absent, incr-Absent, expire-Absent, Absent-of_frame,
}
use go_rest_boilerplate.Frames.Redis as Frame
use go_rest_boilerplate.Users
use go_rest_boilerplate.Jwt
use go_rest_boilerplate.OtpCode
use go_rest_boilerplate.Auth.Keys.{refresh_key, password_reset_key}
use go_rest_boilerplate.Auth.Keys.Kinds.{
  otp, otp_count, login_count, forgot_count, reset_index, cutoff, key,
}
use go_rest_boilerplate.Auth.Attempts
use go_rest_boilerplate.Auth.Passwords

-- No operation writes under the key `q`.
pub record NotCreated (app : App) (q : String) : Type 0 where
  pub not_session : (w : app.World) → refresh_key (app.new_uuid w).0 ≢ q
  pub not_reset :
      (w : app.World) (buf : List ℕ)
      → (app.read_random Passwords.reset_token_bytes w).0 ≡ ok buf
      → password_reset_key (app.base64_url buf) ≢ q
  pub not_otp : (x : String) → key otp x ≢ q
  pub not_otp_count : (x : String) → key otp_count x ≢ q
  pub not_login_count : (x : String) → key login_count x ≢ q
  pub not_forgot_count : (x : String) → key forgot_count x ≢ q
  pub not_reset_index : (x : String) → key reset_index x ≢ q
  pub not_cutoff : (x : String) → key cutoff x ≢ q

module _ (app : App) (L : RedisLaws app.env) (q : String) where
  abbrev pub Gone : State app → Type 0
  Gone = Absent app L q

  pub framed :
      {A : Type 0} (m : Exec (State app) A)
      → ((d : app.Redis) → Keeps (Frame.RedisIs app d) m)
      → Keeps Gone m
  framed m k = Absent-of_frame app L q m k

  pub get_by_email-Gone : (e : String) → Keeps Gone (Users.get_by_email app e)
  get_by_email-Gone e = framed _ (λ d. Frame.get_by_email-RedisIs e)

  pub get_by_id-Gone : (i : String) → Keeps Gone (Users.get_by_id app i)
  get_by_id-Gone i = framed _ (λ d. Frame.get_by_id-RedisIs i)

  pub activate-Gone : (i : String) → Keeps Gone (Users.activate app i)
  activate-Gone i = framed _ (λ d. Frame.activate-RedisIs i)

  pub update_password-Gone : (u : Option User) → Keeps Gone (Users.update_password app u)
  update_password-Gone u = framed _ (λ d. Frame.update_password-RedisIs u)

  pub account_change-Gone :
      (u : User) (p : String) (c : ℤ) → Keeps Gone (Account.change_password app u p c)
  account_change-Gone u p c = framed _ (λ d. Frame.change_password-RedisIs u p c)

  pub token_pair-Gone :
      (i : String) (b : Bool) (e : String) → Keeps Gone (Jwt.generate_token_pair app i b e)
  token_pair-Gone i b e = framed _ (λ d. Frame.generate_token_pair-RedisIs i b e)

  pub parse_refresh-Gone : (t : String) → Keeps Gone (Jwt.parse_refresh_token app t)
  parse_refresh-Gone t = framed _ (λ d. Frame.parse_refresh_token-RedisIs t)

  pub otp_code-Gone : (n : ℕ) → Keeps Gone (OtpCode.generate_otp_code app n)
  otp_code-Gone n = framed _ (λ d. Frame.generate_otp_code-RedisIs n)

  pub mailer-Gone : (f : Exec Mailer.AsyncOtpMailer (Unit {0})) → Keeps Gone (on_mailer f)
  mailer-Gone f = framed _ (λ d. Frame.on_mailer-RedisIs f)

  pub now-Gone : Keeps Gone (time_now app)
  now-Gone = framed _ (λ d. Frame.time_now-RedisIs)

  pub get-Gone : (k : String) → Keeps Gone (Redis.get app k)
  get-Gone k = get-Absent app L q k

  pub del-Gone : (k : String) → Keeps Gone (Redis.del app k)
  del-Gone k = del-Absent app L q k

  pub expire-Gone : (k : String) (ttl : ℕ) → Keeps Gone (Redis.expire app k ttl)
  expire-Gone k ttl = expire-Absent app L q k ttl

  pub set-Gone : (k v : String) → k ≢ q → Keeps Gone (Redis.set app k v)
  set-Gone k v n = set-Absent app L q k v n

  pub ruleset steps = (
    keeps_rules, get_by_email-Gone, get_by_id-Gone, activate-Gone, update_password-Gone,
    account_change-Gone, token_pair-Gone, parse_refresh-Gone, otp_code-Gone, mailer-Gone, now-Gone,
    get-Gone, del-Gone, expire-Gone, set-Gone,
  )

  pub started-Gone :
      (k : String) (ttl : ℕ) (r : Result ℤ) → Keeps Gone (Attempts.started app k ttl r)
  started-Gone k ttl (err e) = search steps
  started-Gone k ttl (ok n) = elim (Bool-cases (eq_ℤ n (pos 1))) [
    | inl e ↦ rw e (search steps)
    | inr e ↦ rw e (search steps)
  ]

  pub track-Gone : (k : String) (ttl : ℕ) → k ≢ q → Keeps Gone (Attempts.track_attempt app k ttl)
  unfolding Attempts.track_attempt
  track-Gone k ttl n =
      Keeps-bind _ _ (Keeps-attempt _ (incr-Absent app L q k n)) (λ r. started-Gone k ttl r)

  pub limit_attempts-Gone :
      (k : String) (ttl : ℕ) (max : ℤ) (m : String)
      → k ≢ q
      → Keeps Gone (Attempts.limit_attempts app k ttl max m)
  unfolding Attempts.limit_attempts
  limit_attempts-Gone k ttl max m n = search (steps, track-Gone k ttl n)

  pub limit_if_positive-Gone :
      (k : String) (ttl : ℕ) (max : ℤ) (m : String)
      → k ≢ q
      → Keeps Gone (Attempts.limit_attempts_if_positive app k ttl max m)
  unfolding Attempts.limit_attempts_if_positive
  limit_if_positive-Gone k ttl max m n = elim (Bool-cases (lt_ℤ (pos 0) max)) [
    | inl e ↦ rw e (limit_attempts-Gone k ttl max m n)
    | inr e ↦ rw e (search steps)
  ]
