-- ===== src/Frames/Users.antt =====
-- Redis, the in-process cache and the reads of the repository do not touch the table.
use go_rest_boilerplate.Base.{
  ℕ, ℤ, pos, String, not, str_eq, Bool, Option, none, some, List, ◌≡◌, refl, sym, ap, ◌∙◌, arith,
  Bool-cases, inl, inr,
}
use go_rest_boilerplate.Base.Int.{eq_ℤ}
use go_rest_boilerplate.Env.{CacheValue, Fate, runs, refuses, loses}
use go_rest_boilerplate.Exec.{Exec, Result, ok, err, attempt, ignore, when, ◌>>=◌, ◌>>◌}
use go_rest_boilerplate.Exec.Rules.{Keeps, keeps_rules}
use go_rest_boilerplate.Config.{App}
use go_rest_boilerplate.State.{State, on_redis}
use go_rest_boilerplate.Records
use go_rest_boilerplate.Domain.User.{User}
use go_rest_boilerplate.Redis
use go_rest_boilerplate.Repository
use go_rest_boilerplate.Repository.Table.{find_live}
use go_rest_boilerplate.Users
use go_rest_boilerplate.Ristretto
use go_rest_boilerplate.Auth.Attempts
use go_rest_boilerplate.Auth.Otp
use go_rest_boilerplate.Auth.Passwords
use go_rest_boilerplate.Time.{Time}

-- The table is `l`.
abbrev pub UsersAre : (app : App) → List Records.Users → State app → Type 0
UsersAre app l s = s.users ≡ l

module _ (app : App) {l : List Records.Users} where
  found-users :
      (o : Option Records.Users) (t : List Records.Users) → t ≡ l → (Repository.found app o t).1 ≡ l
  found-users none t h = h
  found-users (some r) t h = h

module _ {app : App} {l : List Records.Users} where
  fated-users :
      {A : Type 0} (fate : Fate) (s : State app) (p : Result A × List Records.Users)
      → s.users ≡ l
      → p.1 ≡ l
      → (Repository.fated app fate s p).1.users ≡ l
  fated-users runs s (r, t) h k = k
  fated-users (refuses e) s (r, t) h k = h
  fated-users (loses e) s (r, t) h k = k

  read-UsersAre :
      (p : Records.Users → Bool)
      → Keeps
          (UsersAre app l)
          (Repository.run_statement app (λ t. Repository.found app (find_live p t) t))
  unfolding Repository.run_statement
  read-UsersAre p = record {
    at = λ s h.
        fated-users (app.statement_fate s.world).0 _ _ h
          (found-users app (find_live p s.users) s.users h);
  }

  on_redis-UsersAre : {A : Type 0} (f : Exec app.Redis A) → Keeps (UsersAre app l) (on_redis f)
  on_redis-UsersAre f = record { at = λ s h. h }

  ruleset steps = (keeps_rules, on_redis-UsersAre, read-UsersAre)

  repository_get_by_email-UsersAre :
      (e : String) → Keeps (UsersAre app l) (Repository.get_by_email app e)
  unfolding Repository.get_by_email
  repository_get_by_email-UsersAre e = search steps

  repository_get_by_id-UsersAre :
      (id : String) → Keeps (UsersAre app l) (Repository.get_by_id app id)
  unfolding Repository.get_by_id
  repository_get_by_id-UsersAre id = search steps

  set-UsersAre : (k : String) (v : CacheValue) → Keeps (UsersAre app l) (Ristretto.set app k v)
  unfolding Ristretto.set
  set-UsersAre k v = record { at = λ s h. h }

  get-UsersAre : (k : String) → Keeps (UsersAre app l) (Ristretto.get app k)
  unfolding Ristretto.get
  get-UsersAre k = record { at = λ s h. h }

  del-UsersAre : (k : String) → Keeps (UsersAre app l) (Ristretto.del app k)
  unfolding Ristretto.del
  del-UsersAre k = record { at = λ s h. h }

  load_by_email-UsersAre : (e : String) → Keeps (UsersAre app l) (Users.load_by_email app e)
  unfolding Users.load_by_email
  load_by_email-UsersAre e = search (steps, repository_get_by_email-UsersAre, set-UsersAre)

  cached_or_load-UsersAre :
      (e : String) (v : Option CacheValue) → Keeps (UsersAre app l) (Users.cached_or_load app e v)
  cached_or_load-UsersAre e (some (CacheValue.user u)) = search steps
  cached_or_load-UsersAre e (some CacheValue.other) = search (steps, load_by_email-UsersAre)
  cached_or_load-UsersAre e none = search (steps, load_by_email-UsersAre)

  pub get_by_email-UsersAre : (e : String) → Keeps (UsersAre app l) (Users.get_by_email app e)
  unfolding Users.get_by_email
  get_by_email-UsersAre e = search (steps, get-UsersAre, cached_or_load-UsersAre)

  known_email-UsersAre : (u : User) → Keeps (UsersAre app l) (Users.known_email app u)
  known_email-UsersAre u = elim (Bool-cases (str_eq u.email "")) [
    | inl e ↦ rw e (search (steps, repository_get_by_id-UsersAre))
    | inr e ↦ rw e (search steps)
  ]

  -- What UpdatePassword does behind the write.
  pub evict-UsersAre :
      (u : User)
      → Keeps (UsersAre app l) (
          Users.known_email app u >>= λ email.
          when (not (str_eq email "")) (Ristretto.del app (Users.cache_key email)))
  evict-UsersAre u = search (steps, known_email-UsersAre, del-UsersAre)

  invalidate-UsersAre : (r : Result User) → Keeps (UsersAre app l) (Users.invalidate app r)
  invalidate-UsersAre (ok u) = search (steps, del-UsersAre)
  invalidate-UsersAre (err e) = search steps

  -- What Activate does behind the write.
  pub refresh-UsersAre :
      (id : String)
      → Keeps (UsersAre app l) (attempt (Repository.get_by_id app id) >>= Users.invalidate app)
  refresh-UsersAre id = search (steps, repository_get_by_id-UsersAre, invalidate-UsersAre)

  redis_set-UsersAre : (k v : String) → Keeps (UsersAre app l) (Redis.set app k v)
  unfolding Redis.set
  redis_set-UsersAre k v = search steps

  redis_del-UsersAre : (k : String) → Keeps (UsersAre app l) (Redis.del app k)
  unfolding Redis.del
  redis_del-UsersAre k = search steps

  -- The end of VerifyOTP.
  pub forget-UsersAre :
      (j k : String) → Keeps (UsersAre app l) (ignore (Redis.del app j) >> ignore (Redis.del app k))
  forget-UsersAre j k = search (steps, redis_del-UsersAre)

  pub redis_get-UsersAre : (k : String) → Keeps (UsersAre app l) (Redis.get app k)
  unfolding Redis.get
  redis_get-UsersAre k = record { at = λ s h. ground (arith, h) }

  incr-UsersAre : (k : String) → Keeps (UsersAre app l) (Redis.incr app k)
  unfolding Redis.incr
  incr-UsersAre k = search steps

  expire-UsersAre : (k : String) (ttl : ℕ) → Keeps (UsersAre app l) (Redis.expire app k ttl)
  unfolding Redis.expire
  expire-UsersAre k ttl = search steps

  started-UsersAre :
      (k : String) (ttl : ℕ) (r : Result ℤ) → Keeps (UsersAre app l) (Attempts.started app k ttl r)
  started-UsersAre k ttl (ok n) = elim (Bool-cases (eq_ℤ n (pos 1))) [
    | inl e ↦ rw e (search (steps, expire-UsersAre))
    | inr e ↦ rw e (search steps)
  ]
  started-UsersAre k ttl (err e) = search steps

  track_attempt-UsersAre :
      (k : String) (ttl : ℕ) → Keeps (UsersAre app l) (Attempts.track_attempt app k ttl)
  unfolding Attempts.track_attempt
  track_attempt-UsersAre k ttl = search (steps, incr-UsersAre, started-UsersAre)

  limit_attempts-UsersAre :
      (k : String) (ttl : ℕ) (max : ℤ) (m : String)
      → Keeps (UsersAre app l) (Attempts.limit_attempts app k ttl max m)
  unfolding Attempts.limit_attempts
  limit_attempts-UsersAre k ttl max m = search (steps, track_attempt-UsersAre)

  pub check_code-UsersAre : (e c : String) → Keeps (UsersAre app l) (Otp.check_code app e c)
  unfolding Otp.check_code
  check_code-UsersAre e c = search (steps, limit_attempts-UsersAre, redis_get-UsersAre) depth 9

  pub record_cutoff_of-UsersAre :
      (id : String) (t : Option Time) → Keeps (UsersAre app l) (Passwords.record_cutoff_of app id t)
  unfolding Passwords.record_token_cutoff
  record_cutoff_of-UsersAre id none = search steps
  record_cutoff_of-UsersAre id (some t) = search (steps, redis_set-UsersAre, expire-UsersAre)

  pub use_up-UsersAre :
      (token : String) (r : Passwords.Redeemed)
      → Keeps (UsersAre app l) (Passwords.use_up app token r)
  unfolding Passwords.use_up
  use_up-UsersAre token r = search (steps, redis_del-UsersAre, record_cutoff_of-UsersAre)

  pub get_by_id-UsersAre : (id : String) → Keeps (UsersAre app l) (Users.get_by_id app id)
  unfolding Users.get_by_id
  get_by_id-UsersAre id = search (steps, repository_get_by_id-UsersAre)

module _ {app : App} {A : Type 0} where
  -- The table behind an action that leaves it alone.
  pub users_after :
      (m : Exec (State app) A) (s : State app) {r : Result A} {t : State app}
      → ((l : List Records.Users) → Keeps (UsersAre app l) m)
      → m s ≡ (r, t)
      → t.users ≡ s.users
  users_after m s k h = ap (λ x. x.1.users) (sym h) ∙ (k s.users).at s refl
