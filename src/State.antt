-- ===== src/State.antt =====
-- What the server's operations read and write: the runtime's world, Redis, the in-process cache,
-- the table `users` and the mail queue. Requests run one after another.
use go_rest_boilerplate.Base.{ℕ, List}
use go_rest_boilerplate.Exec.{Result, ok, Exec}
use go_rest_boilerplate.Config.{App}
use go_rest_boilerplate.Mailer.{AsyncOtpMailer}
use go_rest_boilerplate.Records.{Users}
use go_rest_boilerplate.Time.{Time, at}

pub record State (app : App) : Type 0 where
  pub world : app.World
  pub redis : app.Redis
  pub ristretto : app.Ristretto
  pub users : List Users
  pub mailer : AsyncOtpMailer

module _ {app : App} {A : Type 0} where
  abbrev put_redis : State app → Result A × app.Redis → Result A × State app
  put_redis s (r, d) = (r, record s { redis = d })

  -- A call of the Redis client.
  abbrev pub on_redis : Exec app.Redis A → Exec (State app) A
  on_redis f s = put_redis s (f s.redis)

  abbrev put_mailer : State app → Result A × AsyncOtpMailer → Result A × State app
  put_mailer s (r, a) = (r, record s { mailer = a })

  abbrev pub on_mailer : Exec AsyncOtpMailer A → Exec (State app) A
  on_mailer f s = put_mailer s (f s.mailer)

  abbrev put_world : State app → Result A × app.World → Result A × State app
  put_world s (r, w) = (r, record s { world = w })

  -- A call of the runtime that may fail.
  abbrev pub on_world : Exec app.World A → Exec (State app) A
  on_world f s = put_world s (f s.world)

  abbrev drawn : State app → A × app.World → Result A × State app
  drawn s (a, w) = (ok a, record s { world = w })

  -- A call of the runtime that cannot fail.
  abbrev pub draw : (app.World → A × app.World) → Exec (State app) A
  draw f s = drawn s (f s.world)

module _ (app : App) where
  abbrev stamped : State app → ℕ × app.World → Result Time × State app
  stamped s (n, w) = (ok (at n), record s { world = w })

  -- `time.Now()`
  abbrev pub time_now : Exec (State app) Time
  time_now s = stamped s (app.now s.world)
