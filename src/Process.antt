-- ===== src/Process.antt =====
-- cmd/api/server/server.go: the process around the requests, from `Run` to the exit, with the mail
-- pool. A step is one of the listener, of a request, of a worker or of `Run`; they interleave in any
-- order. A request counts as in flight until its handler has returned.
pub mod Orderly
use go_rest_boilerplate.Base.{ℕ, zero, suc, Bool, true, false, Option, none, some, ◌≡◌}
use go_rest_boilerplate.Mailer.{OtpJob}
use go_rest_boilerplate.Mailer.Backoff.{Settings}
use go_rest_boilerplate.Mailer.Pool.{Pool, Turn, request, shutdown, new_async_otp_mailer}
use go_rest_boilerplate.Mailer.Pool.Drain.{AllExited}

-- How far `Run` is: it serves, was told to quit and waits for `HttpServer.Shutdown`, and then stops
-- the limiter, the mailer, the database and Redis, in this order, and returns. It fails where the
-- requests do not end in time. A send on the closed mail channel is a panic.
pub data Phase : Type 0 where
  serving shutting_down http_stopped limiter_stopped mailer_closed mailer_stopped : Phase
  db_closed redis_closed exited failed panicked : Phase

pub record Process : Type 0 where
  pub phase : Phase
  pub in_flight : ℕ
  pub pool : Pool
  -- Whether the mailer's `Shutdown` saw every worker return, in time.
  pub waited : Bool

unfoldable pub started : Settings → Process
started a = record { phase = serving; in_flight = 0; pool = new_async_otp_mailer a; waited = false }

-- The calls of `Run` that go on whatever they return.
unfoldable pub closes : Phase → Option Phase
closes http_stopped = some limiter_stopped
closes mailer_stopped = some db_closed
closes db_closed = some redis_closed
closes redis_closed = some exited
closes _ = none

-- A request may start.
unfoldable pub takes_requests : Phase → Bool
takes_requests serving = true
takes_requests shutting_down = true
takes_requests _ = false

-- The process is there.
unfoldable pub runs : Phase → Bool
runs exited = false
runs failed = false
runs panicked = false
runs _ = true

-- The database and Redis are open.
unfoldable pub is_open : Phase → Bool
is_open db_closed = false
is_open redis_closed = false
is_open exited = false
is_open _ = true

abbrev pub enqueue_on : Pool → OtpJob → Pool
enqueue_on p j = record p { shared = request j p.shared }

pub data Step (a : Settings) : Process → Process → Type 0 where
  -- Also while `HttpServer.Shutdown` waits, on a connection that was accepted before.
  accepts :
      (p : Process)
      → takes_requests p.phase ≡ true
      → Step a p (record p { in_flight = suc p.in_flight })
  mails :
      (p : Process) (j : OtpJob) (n : ℕ)
      → runs p.phase ≡ true
      → p.in_flight ≡ suc n
      → p.pool.shared.closed ≡ false
      → Step a p (record p { pool = enqueue_on p.pool j })
  panics :
      (p : Process) (n : ℕ)
      → runs p.phase ≡ true
      → p.in_flight ≡ suc n
      → p.pool.shared.closed ≡ true
      → Step a p (record p { phase = panicked })
  finishes :
      (p : Process) (n : ℕ)
      → runs p.phase ≡ true
      → p.in_flight ≡ suc n
      → Step a p (record p { in_flight = n })
  works :
      (p : Process) (q : Pool)
      → runs p.phase ≡ true
      → Turn a p.pool q
      → Step a p (record p { pool = q })
  quits : (p : Process) → p.phase ≡ serving → Step a p (record p { phase = shutting_down })
  -- `HttpServer.Shutdown` closes the listener and waits for the requests.
  stops_http :
      (p : Process)
      → p.phase ≡ shutting_down
      → p.in_flight ≡ 0
      → Step a p (record p { phase = http_stopped })
  times_out : (p : Process) → p.phase ≡ shutting_down → Step a p (record p { phase = failed })
  shuts_mailer :
      (p : Process)
      → p.phase ≡ limiter_stopped
      → Step a p (record p {
        phase = mailer_closed;
        pool = record p.pool { shared = shutdown p.pool.shared };
      })
  waits :
      (p : Process)
      → p.phase ≡ mailer_closed
      → AllExited p.pool.workers
      → Step a p (record p { phase = mailer_stopped; waited = true })
  leaves : (p : Process) → p.phase ≡ mailer_closed → Step a p (record p { phase = mailer_stopped })
  goes_on : (p : Process) (f : Phase) → closes p.phase ≡ some f → Step a p (record p { phase = f })

-- The processes that a start may lead to.
pub data Reached (a : Settings) : Process → Type 0 where
  starts : Reached a (started a)
  steps : (p q : Process) → Reached a p → Step a p q → Reached a q
