-- ===== src/Redis.antt =====
-- internal/datasources/caches/cache.redis.go: values are JSON texts, with one default lifetime.
pub mod Absent
use go_rest_boilerplate.Base.{ℕ, ℤ, String, Option, none, some, ◌*◌}
use go_rest_boilerplate.Apperror.{external}
use go_rest_boilerplate.Exec.{Exec, pure, throw, ◌>>=◌}
use go_rest_boilerplate.Config.{App}
use go_rest_boilerplate.State.{State, on_redis}
use go_rest_boilerplate.Time.{minute}

module _ (app : App) where
  -- Marshalling a string does not fail.
  unfoldable pub set : String → String → Exec (State app) (Unit {0})
  set key value = on_redis (app.redis_set key (app.json_marshal value) (app.redis_expires * minute))

  abbrev decode : Option String → Exec (State app) String
  decode none = throw (external "json: cannot unmarshal into string")
  decode (some v) = pure v

  -- An absent key is the error `redis.Nil`.
  unfoldable pub get : String → Exec (State app) String
  get key = do val ← on_redis (app.redis_get key); decode (app.json_unmarshal val)

  unfoldable pub del : String → Exec (State app) (Unit {0})
  del key = on_redis (app.redis_del key)

  unfoldable pub incr : String → Exec (State app) ℤ
  incr key = on_redis (app.redis_incr key)

  unfoldable pub expire : String → ℕ → Exec (State app) (Unit {0})
  expire key ttl = on_redis (app.redis_expire key ttl)
