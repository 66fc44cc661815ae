-- ===== src/Auth/Lockout.antt =====
-- The lockouts of Login and VerifyOTP, over a Redis that answers and whose keys do not expire.
pub mod Login
use go_rest_boilerplate.Base.{ℕ, ◌+◌, ◌≤◌, ◌<◌, ℤ, pos, String, ◌≡◌, arith, str_eq_refl}
use go_rest_boilerplate.Apperror.{forbidden_error}
use go_rest_boilerplate.Exec.{ok, err}
use go_rest_boilerplate.Env.Laws.{SteadyRedis}
use go_rest_boilerplate.Config.{App}
use go_rest_boilerplate.State.{State}
use go_rest_boilerplate.Redis
use go_rest_boilerplate.Auth.Attempts.{track_attempt, limit_attempts}

module _ (app : App) (R : SteadyRedis app.env) where
  -- The counter under a key.
  abbrev pub count : State app → String → ℕ
  count s k = R.count s.redis k

  pub track_count :
      (k : String) (ttl : ℕ) (s : State app)
      → ((track_attempt app k ttl s).0 ≡ ok (pos (count s k + 1)))
        × (count (track_attempt app k ttl s).1 k ≡ count s k + 1)
  unfolding track_attempt Redis.incr Redis.expire
  track_count k ttl s = ground (
    arith,
    R.incr_ok k s.redis,
    R.count-incr k k s.redis,
    str_eq_refl k,
    R.count-expire k k ttl (app.redis_incr k s.redis).1,
  )

  -- Every attempt counts, whether it is let through or not.
  pub limit_count :
      (k : String) (ttl : ℕ) (max : ℤ) (m : String) (s : State app)
      → count (limit_attempts app k ttl max m s).1 k ≡ count s k + 1
  unfolding limit_attempts
  limit_count k ttl max m s = ground (arith, track_count k ttl s)

  -- The attempt after `max` attempts is refused.
  pub limit_full :
      (k : String) (ttl max : ℕ) (m : String) (s : State app)
      → max ≤ count s k
      → (limit_attempts app k ttl (pos max) m s).0 ≡ err (forbidden_error m)
  unfolding limit_attempts
  limit_full k ttl max m s h = ground (arith, track_count k ttl s)

  pub limit_open :
      (k : String) (ttl max : ℕ) (m : String) (s : State app)
      → count s k < max
      → (limit_attempts app k ttl (pos max) m s).0 ≡ ok tt
  unfolding limit_attempts
  limit_open k ttl max m s h = ground (arith, track_count k ttl s)

  -- Nothing but Redis is touched.
  pub limit_frame :
      (k : String) (ttl : ℕ) (max : ℤ) (m : String) (s : State app)
      → (limit_attempts app k ttl max m s).1
        ≡ record s { redis = (limit_attempts app k ttl max m s).1.redis }
  unfolding limit_attempts track_attempt Redis.incr Redis.expire
  limit_frame k ttl max m s = ground arith
