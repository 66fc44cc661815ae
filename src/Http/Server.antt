-- ===== src/Http/Server.antt =====
-- The group /auth of internal/http/routes/route.auth.go behind the rate limiter of
-- internal/http/middlewares/middleware.ratelimit.go. Requests run one after another; the cap on the
-- body's size is left out, since it depends on how far gin reads.
pub mod Admitted
use go_rest_boilerplate.Base.{ℕ, ◌*◌, String, Bool, true, false, Option, none, some, List, [], ◌∷◌}
use go_rest_boilerplate.Config.{App}
use go_rest_boilerplate.State.{State}
use go_rest_boilerplate.Time.{second}
use go_rest_boilerplate.Validators.{Library}
use go_rest_boilerplate.Http.AuthMiddleware.{AuthMiddleware}
use go_rest_boilerplate.Http.Handlers.{fails, Reply, rejects}
use go_rest_boilerplate.Http.Handlers.Serving.{Incoming, route}
use go_rest_boilerplate.Http.RateLimiter.{Buckets, Visitors, handle, cleanup}

-- A request from an address at an instant, or a tick of the limiter's cleanup.
pub data Arrival : Type 0 where
  arrives : String → ℕ → Incoming → Arrival
  ticks : ℕ → Arrival

-- `NewRateLimiter(rate.Limit(5.0/60.0), 5)`: the burst, and the time between two tokens.
abbrev pub auth_burst : ℕ
auth_burst = 5

abbrev pub auth_interval : ℕ
auth_interval = 12 * second

pub record Server (app : App) (buckets : Buckets) : Type 0 where
  pub state : State app
  pub visitors : Visitors buckets

-- `rateLimitedResponse`
abbrev rate_limited_response : Reply
rate_limited_response = rejects (
    fails (record {
      status = 429;
      message = "too many requests, please try again later";
      details = none;
    }))

module _ (app : App) (lib : Library) (m : AuthMiddleware) (buckets : Buckets) where
  abbrev pub answered : Visitors buckets → Reply × State app → Reply × Server app buckets
  answered visitors (reply, s) = (reply, record { state = s; visitors = visitors })

  -- The limiter's verdict, then the rest of the chain.
  abbrev pub limited : Incoming → State app → Bool × Visitors buckets → Reply × Server app buckets
  limited incoming s (true, visitors) = answered visitors (route app lib m incoming s)
  limited incoming s (false, visitors) = answered visitors (rate_limited_response, s)

  unfoldable pub serve : String → ℕ → Incoming → Server app buckets → Reply × Server app buckets
  serve ip now incoming server =
      limited incoming server.state (handle buckets ip now server.visitors)

  -- The server after a sequence of arrivals.
  unfoldable pub serve_all : List Arrival → Server app buckets → Server app buckets
  serve_all [] server = server
  serve_all (arrives ip now incoming ∷ arrivals) server =
      serve_all arrivals (serve ip now incoming server).1
  serve_all (ticks now ∷ arrivals) server =
      serve_all arrivals (record server { visitors = cleanup buckets now server.visitors })
