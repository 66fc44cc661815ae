-- ===== src/Redis/Absent.antt =====
-- A key that is not in Redis stays out of it, but for the commands that create that very key.
use go_rest_boilerplate.Base.{ℕ, String, none, ◌≡◌, ◌≢◌, refl, arith}
use go_rest_boilerplate.Apperror.{Error}
use go_rest_boilerplate.Exec.{Exec, Result, ok, err}
use go_rest_boilerplate.Exec.Rules.{Keeps}
use go_rest_boilerplate.Env.Laws.{RedisLaws}
use go_rest_boilerplate.Config.{App}
use go_rest_boilerplate.State.{State}
use go_rest_boilerplate.Redis
use go_rest_boilerplate.Frames.Redis.{RedisIs, Keeps-of_RedisIs}

-- There is nothing under the key.
abbrev pub Absent : (app : App) → RedisLaws app.env → String → State app → Type 0
Absent app L j s = L.live s.redis j ≡ none

module _ (app : App) (L : RedisLaws app.env) (j : String) where
  pub set-Absent : (k v : String) → k ≢ j → Keeps (Absent app L j) (Redis.set app k v)
  unfolding Redis.set
  set-Absent k v n = record { at = λ s h. L.set_absent k j _ _ s.redis n h }

  pub get-Absent : (k : String) → Keeps (Absent app L j) (Redis.get app k)
  unfolding Redis.get
  get-Absent k = record { at = λ s h. ground (arith, L.get_keeps_absent k j s.redis h) }

  pub del-Absent : (k : String) → Keeps (Absent app L j) (Redis.del app k)
  unfolding Redis.del
  del-Absent k = record { at = λ s h. L.del_keeps_absent k j s.redis h }

  pub incr-Absent : (k : String) → k ≢ j → Keeps (Absent app L j) (Redis.incr app k)
  unfolding Redis.incr
  incr-Absent k n = record { at = λ s h. L.incr_absent k j s.redis n h }

  pub expire-Absent : (k : String) (ttl : ℕ) → Keeps (Absent app L j) (Redis.expire app k ttl)
  unfolding Redis.expire
  expire-Absent k ttl = record { at = λ s h. L.expire_keeps_absent k j ttl s.redis h }

  -- What leaves Redis alone keeps the key absent.
  pub Absent-of_frame :
      {A : Type 0} (m : Exec (State app) A)
      → ((d : app.Redis) → Keeps (RedisIs app d) m)
      → Keeps (Absent app L j) m
  Absent-of_frame m k = Keeps-of_RedisIs (λ d. L.live d j ≡ none) m k

  -- A key that is absent is not read.
  pub get_of_Absent :
      (s : State app) → Absent app L j s → (e : Error) × ((Redis.get app j s).0 ≡ err e)
  unfolding Redis.get
  get_of_Absent s h = go (app.redis_get j s.redis).0 refl
    where
      go :
          (r : Result String)
          → (app.redis_get j s.redis).0 ≡ r
          → (e : Error) × ((Redis.get app j s).0 ≡ err e)
      go (ok v) e = absurd (L.get_absent j s.redis v h e)
      go (err x) e = (x, ground arith)

  -- A deletion that succeeds leaves the key absent.
  pub del-Absent_self :
      (s : State app) → (Redis.del app j s).0 ≡ ok tt → Absent app L j (Redis.del app j s).1
  unfolding Redis.del
  del-Absent_self s h = L.del_self j s.redis h
