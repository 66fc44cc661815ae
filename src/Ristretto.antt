-- ===== src/Ristretto.antt =====
-- internal/datasources/caches/cache.ristretto.go.
use go_rest_boilerplate.Base.{ℕ, String, Option, ◌*◌}
use go_rest_boilerplate.Env.{CacheValue}
use go_rest_boilerplate.Exec.{Exec, Result, ok}
use go_rest_boilerplate.Config.{App}
use go_rest_boilerplate.State.{State}
use go_rest_boilerplate.Time.{minute}

abbrev pub default_ristretto_ttl : ℕ
default_ristretto_ttl = 5 * minute

module _ (app : App) where
  abbrev got :
      State app → Option CacheValue × app.Ristretto → Result (Option CacheValue) × State app
  got s (v, c) = (ok v, record s { ristretto = c })

  unfoldable pub get : String → Exec (State app) (Option CacheValue)
  get key s = got s (app.ristretto_get key s.ristretto)

  unfoldable pub set : String → CacheValue → Exec (State app) (Unit {0})
  set key value s = (
    ok tt,
    record s { ristretto = app.ristretto_set key value default_ristretto_ttl s.ristretto },
  )

  unfoldable pub del : String → Exec (State app) (Unit {0})
  del key s = (ok tt, record s { ristretto = app.ristretto_del key s.ristretto })
