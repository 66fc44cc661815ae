-- ===== src/Frames/Redis.antt =====
-- The runtime, the repository, the in-process cache, the mail queue and the users use case do not
-- touch Redis.
use go_rest_boilerplate.Base.{
  ℕ, zero, suc, ◌-◌, ℤ, String, Bool, Option, none, some, List, ◌++◌, leb, length, str_eq, ◌≡◌,
  refl, arith, Bool-cases, inl, inr,
}
use go_rest_boilerplate.Env.{CacheValue}
use go_rest_boilerplate.Exec.{Exec, Result, ok, err}
use go_rest_boilerplate.Exec.Rules.{Keeps, Keeps-bind, keeps_rules}
use go_rest_boilerplate.Config.{App}
use go_rest_boilerplate.State.{State, on_world, on_mailer, draw, time_now}
use go_rest_boilerplate.Mailer.{AsyncOtpMailer}
use go_rest_boilerplate.Records
use go_rest_boilerplate.Domain.User.{User}
use go_rest_boilerplate.Domain.Account
use go_rest_boilerplate.Repository
use go_rest_boilerplate.Users
use go_rest_boilerplate.Ristretto
use go_rest_boilerplate.Jwt
use go_rest_boilerplate.Jwt.Claims.{JwtCustomClaim}
use go_rest_boilerplate.OtpCode
use go_rest_boilerplate.Auth.Passwords

-- Redis holds `d`.
abbrev pub RedisIs : (app : App) → app.Redis → State app → Type 0
RedisIs app d s = s.redis ≡ d

module _ {app : App} where
  -- What leaves Redis alone keeps all that is said of Redis alone.
  pub Keeps-of_RedisIs :
      {A : Type 0} (Q : app.Redis → Type 0) (m : Exec (State app) A)
      → ((d : app.Redis) → Keeps (RedisIs app d) m)
      → Keeps (λ s. Q s.redis) m
  Keeps-of_RedisIs Q m k = record { at = λ s h. rw ((k s.redis).at s refl) h }

module _ {app : App} {d : app.Redis} where
  module _ {A : Type 0} where
    on_world-RedisIs : (f : Exec app.World A) → Keeps (RedisIs app d) (on_world f)
    on_world-RedisIs f = record { at = λ s h. h }

    pub on_mailer-RedisIs : (f : Exec AsyncOtpMailer A) → Keeps (RedisIs app d) (on_mailer f)
    on_mailer-RedisIs f = record { at = λ s h. h }

    draw-RedisIs : (f : app.World → A × app.World) → Keeps (RedisIs app d) (draw f)
    draw-RedisIs f = record { at = λ s h. h }

    run_statement-RedisIs :
        (f : Exec (List Records.Users) A) → Keeps (RedisIs app d) (Repository.run_statement app f)
    unfolding Repository.run_statement
    run_statement-RedisIs f = record { at = λ s h. ground arith }

  pub time_now-RedisIs : Keeps (RedisIs app d) (time_now app)
  time_now-RedisIs = record { at = λ s h. h }

  ruleset steps =
      (keeps_rules, on_world-RedisIs, draw-RedisIs, time_now-RedisIs, run_statement-RedisIs)

  pub change_password-RedisIs :
      (u : User) (p : String) (c : ℤ) → Keeps (RedisIs app d) (Account.change_password app u p c)
  unfolding Account.change_password
  change_password-RedisIs u p c = search steps

  new_user-RedisIs :
      (u e p : String) (r c : ℤ) → Keeps (RedisIs app d) (Account.new_user app u e p r c)
  unfolding Account.new_user
  new_user-RedisIs u e p r c = search steps depth 9

  account_activate-RedisIs : (u : User) → Keeps (RedisIs app d) (Account.activate app u)
  unfolding Account.activate
  account_activate-RedisIs u = search steps

  repository_get_by_email-RedisIs :
      (e : String) → Keeps (RedisIs app d) (Repository.get_by_email app e)
  unfolding Repository.get_by_email
  repository_get_by_email-RedisIs e = search steps

  repository_get_by_id-RedisIs : (e : String) → Keeps (RedisIs app d) (Repository.get_by_id app e)
  unfolding Repository.get_by_id
  repository_get_by_id-RedisIs e = search steps

  repository_store-RedisIs : (u : User) → Keeps (RedisIs app d) (Repository.store app u)
  unfolding Repository.store
  repository_store-RedisIs u = search steps

  change_active_user-RedisIs :
      (u : User) → Keeps (RedisIs app d) (Repository.change_active_user app u)
  unfolding Repository.change_active_user Repository.update_rows
  change_active_user-RedisIs u = search steps

  check_affected-RedisIs : (n : ℕ) → Keeps (RedisIs app d) (Repository.check_affected app n)
  check_affected-RedisIs n = record { at = λ s h. ground arith }

  repository_update_password-RedisIs :
      (u : User) → Keeps (RedisIs app d) (Repository.update_password app u)
  unfolding Repository.update_password Repository.update_rows
  repository_update_password-RedisIs u = search (steps, check_affected-RedisIs)

  set-RedisIs : (k : String) (v : CacheValue) → Keeps (RedisIs app d) (Ristretto.set app k v)
  unfolding Ristretto.set
  set-RedisIs k v = record { at = λ s h. h }

  get-RedisIs : (k : String) → Keeps (RedisIs app d) (Ristretto.get app k)
  unfolding Ristretto.get
  get-RedisIs k = record { at = λ s h. h }

  del-RedisIs : (k : String) → Keeps (RedisIs app d) (Ristretto.del app k)
  unfolding Ristretto.del
  del-RedisIs k = record { at = λ s h. h }

  load_by_email-RedisIs : (e : String) → Keeps (RedisIs app d) (Users.load_by_email app e)
  unfolding Users.load_by_email
  load_by_email-RedisIs e = search (steps, repository_get_by_email-RedisIs, set-RedisIs)

  cached_or_load-RedisIs :
      (e : String) (v : Option CacheValue) → Keeps (RedisIs app d) (Users.cached_or_load app e v)
  cached_or_load-RedisIs e (some (CacheValue.user u)) = search steps
  cached_or_load-RedisIs e (some CacheValue.other) = search (steps, load_by_email-RedisIs)
  cached_or_load-RedisIs e none = search (steps, load_by_email-RedisIs)

  pub get_by_email-RedisIs : (e : String) → Keeps (RedisIs app d) (Users.get_by_email app e)
  unfolding Users.get_by_email
  get_by_email-RedisIs e = search (steps, get-RedisIs, cached_or_load-RedisIs)

  pub get_by_id-RedisIs : (id : String) → Keeps (RedisIs app d) (Users.get_by_id app id)
  unfolding Users.get_by_id
  get_by_id-RedisIs id = search (steps, repository_get_by_id-RedisIs)

  pub store-RedisIs : (u : User) → Keeps (RedisIs app d) (Users.store app u)
  unfolding Users.store
  store-RedisIs u = search (steps, new_user-RedisIs, repository_store-RedisIs)

  invalidate-RedisIs : (r : Result User) → Keeps (RedisIs app d) (Users.invalidate app r)
  invalidate-RedisIs (ok u) = search (steps, del-RedisIs)
  invalidate-RedisIs (err e) = search steps

  pub activate-RedisIs : (id : String) → Keeps (RedisIs app d) (Users.activate app id)
  unfolding Users.activate
  activate-RedisIs id = search (
    steps, account_activate-RedisIs, change_active_user-RedisIs, repository_get_by_id-RedisIs,
    invalidate-RedisIs,
  )

  known_email-RedisIs : (u : User) → Keeps (RedisIs app d) (Users.known_email app u)
  known_email-RedisIs u = elim (Bool-cases (str_eq u.email "")) [
    | inl e ↦ rw e (search (steps, repository_get_by_id-RedisIs))
    | inr e ↦ rw e (search steps)
  ]

  pub update_password-RedisIs :
      (u : Option User) → Keeps (RedisIs app d) (Users.update_password app u)
  unfolding Users.update_password
  update_password-RedisIs none = search steps
  update_password-RedisIs (some u) =
      search (steps, repository_update_password-RedisIs, known_email-RedisIs, del-RedisIs)

  sign-RedisIs : (c : JwtCustomClaim) → Keeps (RedisIs app d) (Jwt.sign app c)
  unfolding Jwt.sign
  sign-RedisIs c = record { at = λ s h. ground arith }

  sign_access-RedisIs :
      (i : String) (b : Bool) (e : String) → Keeps (RedisIs app d) (Jwt.sign_access app i b e)
  unfolding Jwt.sign_access
  sign_access-RedisIs i b e = search (steps, sign-RedisIs)

  sign_refresh-RedisIs : (i e : String) → Keeps (RedisIs app d) (Jwt.sign_refresh app i e)
  unfolding Jwt.sign_refresh
  sign_refresh-RedisIs i e = search (steps, sign-RedisIs)

  pub generate_token_pair-RedisIs :
      (i : String) (b : Bool) (e : String)
      → Keeps (RedisIs app d) (Jwt.generate_token_pair app i b e)
  unfolding Jwt.generate_token_pair
  generate_token_pair-RedisIs i b e = search (steps, sign_access-RedisIs, sign_refresh-RedisIs)

  parse-RedisIs : (t : String) → Keeps (RedisIs app d) (Jwt.parse app t)
  unfolding Jwt.parse
  parse-RedisIs t = record { at = λ s h. ground arith }

  pub parse_refresh_token-RedisIs :
      (t : String) → Keeps (RedisIs app d) (Jwt.parse_refresh_token app t)
  unfolding Jwt.parse_refresh_token
  parse_refresh_token-RedisIs t = search (steps, parse-RedisIs)

  pub parse_token-RedisIs : (t : String) → Keeps (RedisIs app d) (Jwt.parse_token app t)
  unfolding Jwt.parse_token
  parse_token-RedisIs t = search (steps, parse-RedisIs)

  fill-RedisIs : (n len : ℕ) (ds : List ℕ) → Keeps (RedisIs app d) (OtpCode.fill app n len ds)
  unfolding OtpCode.fill
  fill-RedisIs zero len ds = elim (Bool-cases (leb len (length ds))) [
    | inl e ↦ rw e (search steps)
    | inr e ↦ rw e (search steps)
  ]
  fill-RedisIs (suc n) len ds = elim (Bool-cases (leb len (length ds))) [
    | inl e ↦ rw e (search steps)
    | inr e ↦ rw e (
        Keeps-bind _ _ (on_world-RedisIs _)
          (λ buf. fill-RedisIs n len (ds ++ OtpCode.accept_bytes (len - length ds) buf)))
  ]

  pub generate_otp_code-RedisIs : (n : ℕ) → Keeps (RedisIs app d) (OtpCode.generate_otp_code app n)
  unfolding OtpCode.generate_otp_code
  generate_otp_code-RedisIs n = search (steps, fill-RedisIs)

  pub generate_reset_token-RedisIs : Keeps (RedisIs app d) (Passwords.generate_reset_token app)
  unfolding Passwords.generate_reset_token
  generate_reset_token-RedisIs = search steps
