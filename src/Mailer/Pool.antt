-- ===== src/Mailer/Pool.antt =====
-- pkg/mailer/mailer.async.go: the workers, their attempts at a job, and Shutdown, as the steps of a
-- pool. A step is one receive from the channel, one reply of the SMTP sender, the end of one pause,
-- one request or the shutdown; steps of the workers interleave in any order.
pub mod Moves
pub mod Accounts
pub mod TurnsLeft
pub mod Drain
use go_rest_boilerplate.Base.{
  ℕ, zero, suc, ℤ, Bool, true, false, Option, none, some, List, [], ◌∷◌, ◌++◌, ◌≡◌, ◌==◌,
  if◌then◌else◌,
}
use go_rest_boilerplate.Exec.{Result, ok, err}
use go_rest_boilerplate.Mailer.{OtpJob, AsyncOtpMailer, enqueue}
use go_rest_boilerplate.Mailer.Backoff.{Settings, wait_after}

-- A goroutine of `worker`: at the channel, in the sender, in the `select` after a failed attempt, or
-- returned.
pub data Worker : Type 0 where
  idle exited : Worker
  sending : OtpJob → ℕ → Worker
  waiting : OtpJob → ℕ → ℤ → Worker

-- The channel, whether Shutdown has closed it, and the jobs taken in so far and what became of
-- them: mailed, given up after the last attempt, or dropped in a pause.
pub record Shared : Type 0 where
  pub channel : AsyncOtpMailer
  pub closed : Bool
  pub accepted : List OtpJob
  pub sent : List OtpJob
  pub failed : List OtpJob
  pub dropped : List OtpJob

pub data Event : Type 0 where
  receives wakes stops : Event
  replies : Result (Unit {0}) → Event

abbrev pub received : List OtpJob → Shared → Option (Worker × Shared)
received [] s = if s.closed then some (exited, s) else none
received (j ∷ q) s = some (sending j 1, record s { channel = record s.channel { queue = q } })

-- `deliver` after the sender's reply
abbrev pub replied : Settings → Result (Unit {0}) → OtpJob → ℕ → Shared → Worker × Shared
replied a (ok u) j attempt s = (idle, record s { sent = j ∷ s.sent })
replied a (err e) j attempt s =
    if attempt == a.retries
    then (idle, record s { failed = j ∷ s.failed })
    else (waiting j attempt (wait_after a attempt), s)

unfoldable pub turn : Settings → Event → Worker → Shared → Option (Worker × Shared)
turn a receives idle s = received s.channel.queue s
turn a (replies r) (sending j attempt) s = some (replied a r j attempt s)
turn a wakes (waiting j attempt d) s = some (sending j (suc attempt), s)
turn a stops (waiting j attempt d) s =
    if s.closed then some (idle, record s { dropped = j ∷ s.dropped }) else none
turn a _ _ s = none

abbrev pub enqueued : OtpJob → Shared → Result (Unit {0}) × AsyncOtpMailer → Shared
enqueued j s (ok u, c) = record s { channel = c; accepted = j ∷ s.accepted }
enqueued j s (err e, c) = record s { channel = c }

-- A request's `enqueue` on the open channel; on a closed one Go panics.
unfoldable pub request : OtpJob → Shared → Shared
request j s = enqueued j s (enqueue j s.channel)

-- `Shutdown`: closing happens once.
unfoldable pub shutdown : Shared → Shared
shutdown s = record s { closed = true }

pub record Pool : Type 0 where
  pub workers : List Worker
  pub shared : Shared

abbrev pub idles : ℕ → List Worker
idles zero = []
idles (suc n) = idle ∷ idles n

unfoldable pub new_async_otp_mailer : Settings → Pool
new_async_otp_mailer a = record {
  workers = idles a.workers;
  shared = record {
    channel = record { queue = []; queue_size = a.queue_size };
    closed = false;
    accepted = [];
    sent = [];
    failed = [];
    dropped = [];
  };
}

-- One worker's turn among the others.
pub data Turn (a : Settings) : Pool → Pool → Type 0 where
  turns :
      (before behind : List Worker) (e : Event) (w v : Worker) (s t : Shared)
      → turn a e w s ≡ some (v, t)
      → Turn a
          (record { workers = before ++ w ∷ behind; shared = s })
          (record { workers = before ++ v ∷ behind; shared = t })

pub data Step (a : Settings) : Pool → Pool → Type 0 where
  works : (p q : Pool) → Turn a p q → Step a p q
  requests :
      (p : Pool) (j : OtpJob)
      → p.shared.closed ≡ false
      → Step a p (record p { shared = request j p.shared })
  shuts : (p : Pool) → Step a p (record p { shared = shutdown p.shared })

-- The pools that a mailer may come to be.
pub data Reached (a : Settings) : Pool → Type 0 where
  starts : Reached a (new_async_otp_mailer a)
  goes_on : (p q : Pool) → Reached a p → Step a p q → Reached a q
