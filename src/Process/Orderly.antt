-- ===== src/Process/Orderly.antt =====
-- The shutdown of cmd/api/server/server.go takes nothing from a request in flight.
use go_rest_boilerplate.Base.{
  ℕ, suc, ◌≤◌, Bool, true, false, some, List, [], ◌∷◌, ◌++◌, ◌≡◌, ◌≢◌, ◌⊎◌, inl, inr, Bool-cases,
  refl, arith, ◌∙◌,
}
use go_rest_boilerplate.Exec.{Result, ok, err}
use go_rest_boilerplate.Mailer.Backoff.{Settings}
use go_rest_boilerplate.Mailer.Pool.{
  Worker, idle, exited, sending, waiting, Shared, Event, receives, wakes, stops, replies, received,
  replied, turn, Pool, Turn, turns, request, shutdown, enqueued,
}
use go_rest_boilerplate.Mailer.{OtpJob, enqueue}
use go_rest_boilerplate.Mailer.Pool
use go_rest_boilerplate.Mailer.Pool.Accounts.{Reached-Accounted}
use go_rest_boilerplate.Mailer.Pool.Drain.{AllExited, Drained, AllExited-Drained, Reached-length}
use go_rest_boilerplate.Process.{
  Phase, serving, shutting_down, http_stopped, limiter_stopped, mailer_closed, mailer_stopped,
  db_closed, redis_closed, panicked, Process, started, closes, takes_requests, runs, is_open,
  enqueue_on, Step, accepts, mails, panics, finishes, works, quits, stops_http, times_out,
  shuts_mailer, waits, leaves, goes_on, Reached, starts, steps,
}

-- No request is in flight any more.
unfoldable quiet : Phase → Bool
quiet serving = false
quiet shutting_down = false
quiet Phase.failed = false
quiet panicked = false
quiet _ = true

-- The mail channel was closed.
unfoldable shut : Phase → Bool
shut mailer_closed = true
shut mailer_stopped = true
shut db_closed = true
shut redis_closed = true
shut Phase.exited = true
shut _ = false

-- The mail channel was not closed yet.
unfoldable unclosed : Phase → Bool
unclosed serving = true
unclosed shutting_down = true
unclosed http_stopped = true
unclosed limiter_stopped = true
unclosed Phase.failed = true
unclosed _ = false

record Orderly (a : Settings) (p : Process) : Type 0 where
  pool : Pool.Reached a p.pool
  alive : p.phase ≢ panicked
  calm : quiet p.phase ≡ true → p.in_flight ≡ 0
  writable : unclosed p.phase ≡ true → p.pool.shared.closed ≡ false
  sealed : shut p.phase ≡ true → p.pool.shared.closed ≡ true
  drained : p.waited ≡ true → AllExited p.pool.workers × (p.pool.shared.closed ≡ true)

received-closed :
    (q : List OtpJob) (s : Shared) (v : Worker) (t : Shared)
    → received q s ≡ some (v, t)
    → t.closed ≡ s.closed
received-closed [] s v t h = ground (arith, h)
received-closed (j ∷ q) s v t h = ground (arith, h)

replied-closed :
    (a : Settings) (r : Result (Unit {0})) (j : OtpJob) (k : ℕ) (s : Shared) (v : Worker)
    (t : Shared)
    → some (replied a r j k s) ≡ some (v, t)
    → t.closed ≡ s.closed
replied-closed a (ok u) j k s v t h = ground (arith, h)
replied-closed a (err e) j k s v t h = ground (arith, h)

turn-closed :
    (a : Settings) (e : Event) (w v : Worker) (s t : Shared)
    → turn a e w s ≡ some (v, t)
    → t.closed ≡ s.closed
unfolding turn
turn-closed a receives idle v s t h = received-closed s.channel.queue s v t h
turn-closed a (replies r) (sending j k) v s t h = replied-closed a r j k s v t h
turn-closed a wakes (waiting j k d) v s t h = ground (arith, h)
turn-closed a stops (waiting j k d) v s t h = ground (arith, h)
turn-closed a receives exited v s t h = absurd (ground (arith, h))
turn-closed a receives (sending j k) v s t h = absurd (ground (arith, h))
turn-closed a receives (waiting j k d) v s t h = absurd (ground (arith, h))
turn-closed a (replies r) idle v s t h = absurd (ground (arith, h))
turn-closed a (replies r) exited v s t h = absurd (ground (arith, h))
turn-closed a (replies r) (waiting j k d) v s t h = absurd (ground (arith, h))
turn-closed a wakes idle v s t h = absurd (ground (arith, h))
turn-closed a wakes exited v s t h = absurd (ground (arith, h))
turn-closed a wakes (sending j k) v s t h = absurd (ground (arith, h))
turn-closed a stops idle v s t h = absurd (ground (arith, h))
turn-closed a stops exited v s t h = absurd (ground (arith, h))
turn-closed a stops (sending j k) v s t h = absurd (ground (arith, h))

Turn-closed : (a : Settings) (p q : Pool) → Turn a p q → q.shared.closed ≡ p.shared.closed
Turn-closed a _ _ (turns before behind e w v s t h) = turn-closed a e w v s t h

-- A worker that has returned does nothing more.
exited_rests :
    (a : Settings) (e : Event) (v : Worker) (s t : Shared) → turn a e exited s ≢ some (v, t)
unfolding turn
exited_rests a receives v s t h = absurd (ground (arith, h))
exited_rests a (replies r) v s t h = absurd (ground (arith, h))
exited_rests a wakes v s t h = absurd (ground (arith, h))
exited_rests a stops v s t h = absurd (ground (arith, h))

AllExited-at :
    (before behind : List Worker) (w : Worker) → AllExited (before ++ w ∷ behind) → w ≡ exited
unfolding AllExited
AllExited-at [] behind w h = h.0
AllExited-at (x ∷ before) behind w h = AllExited-at before behind w h.1

AllExited_rests : (a : Settings) (p q : Pool) → AllExited p.workers → Turn a p q → ⊥
AllExited_rests a _ _ h (turns before behind e w v s t k) =
    exited_rests a e v s t (rw (AllExited-at before behind w h) at k)

request-closed : (p : Pool) (j : OtpJob) → (enqueue_on p j).shared.closed ≡ p.shared.closed
unfolding request enqueue
request-closed p j = ground arith

shutdown-closed : (s : Shared) → (shutdown s).closed ≡ true
unfolding shutdown
shutdown-closed s = refl

started-Orderly : (a : Settings) → Orderly a (started a)
unfolding started quiet shut Pool.new_async_otp_mailer
started-Orderly a = record {
  pool = Pool.starts;
  alive = λ h. absurd (ground (arith, h));
  calm = λ h. refl;
  writable = λ h. refl;
  sealed = λ h. absurd (ground (arith, h));
  drained = λ h. absurd (ground (arith, h));
}

unclosed_of_busy : (x : Phase) → runs x ≡ true → quiet x ≡ false → unclosed x ≡ true
unfolding runs quiet unclosed
unclosed_of_busy serving r q = refl
unclosed_of_busy shutting_down r q = refl
unclosed_of_busy Phase.failed r q = refl
unclosed_of_busy panicked r q = absurd (ground (arith, r))
unclosed_of_busy http_stopped r q = refl
unclosed_of_busy limiter_stopped r q = refl
unclosed_of_busy mailer_closed r q = absurd (ground (arith, q))
unclosed_of_busy mailer_stopped r q = absurd (ground (arith, q))
unclosed_of_busy db_closed r q = absurd (ground (arith, q))
unclosed_of_busy redis_closed r q = absurd (ground (arith, q))
unclosed_of_busy Phase.exited r q = absurd (ground (arith, q))

-- A request in flight finds the channel open.
busy_open :
    (a : Settings) (p : Process) (n : ℕ)
    → Orderly a p
    → runs p.phase ≡ true
    → p.in_flight ≡ suc n
    → (quiet p.phase ≡ false) × (p.pool.shared.closed ≡ false)
busy_open a p n h r f = elim (Bool-cases (quiet p.phase)) [
  | inl q ↦ absurd (omega (arith, h.calm q, f))
  | inr q ↦ (q, h.writable (unclosed_of_busy p.phase r q))
]

noisy : (x : Phase) → takes_requests x ≡ true → quiet x ≡ true → ⊥
unfolding takes_requests quiet
noisy serving t q = ground (arith, q)
noisy shutting_down t q = ground (arith, q)
noisy _ t q = ground (arith, t)

closes_alive : (x f : Phase) → closes x ≡ some f → f ≢ panicked
unfolding closes quiet unclosed shut
closes_alive serving f e k = ground (arith, e, k)
closes_alive http_stopped f e k = ground (arith, e, k)
closes_alive mailer_stopped f e k = ground (arith, e, k)
closes_alive db_closed f e k = ground (arith, e, k)
closes_alive redis_closed f e k = ground (arith, e, k)
closes_alive _ f e k = ground (arith, e, k)

closes-quiet : (x f : Phase) → closes x ≡ some f → quiet x ≡ true
unfolding closes quiet unclosed shut
closes-quiet serving f e = ground (arith, e)
closes-quiet http_stopped f e = ground (arith, e)
closes-quiet mailer_stopped f e = ground (arith, e)
closes-quiet db_closed f e = ground (arith, e)
closes-quiet redis_closed f e = ground (arith, e)
closes-quiet _ f e = ground (arith, e)

closes-unclosed : (x f : Phase) → closes x ≡ some f → unclosed f ≡ true → unclosed x ≡ true
unfolding closes quiet unclosed shut
closes-unclosed serving f e k = ground (arith, e, k)
closes-unclosed http_stopped f e k = ground (arith, e, k)
closes-unclosed mailer_stopped f e k = ground (arith, e, k)
closes-unclosed db_closed f e k = ground (arith, e, k)
closes-unclosed redis_closed f e k = ground (arith, e, k)
closes-unclosed _ f e k = ground (arith, e, k)

closes-shut : (x f : Phase) → closes x ≡ some f → shut f ≡ true → shut x ≡ true
unfolding closes quiet unclosed shut
closes-shut serving f e k = ground (arith, e, k)
closes-shut http_stopped f e k = ground (arith, e, k)
closes-shut mailer_stopped f e k = ground (arith, e, k)
closes-shut db_closed f e k = ground (arith, e, k)
closes-shut redis_closed f e k = ground (arith, e, k)
closes-shut _ f e k = ground (arith, e, k)

Step-Orderly : (a : Settings) (p q : Process) → Orderly a p → Step a p q → Orderly a q
unfolding quiet unclosed shut closes shutdown
Step-Orderly a p _ h (accepts _ e) = record {
  pool = h.pool;
  alive = h.alive;
  calm = λ k. absurd (noisy p.phase e k);
  writable = h.writable;
  sealed = h.sealed;
  drained = h.drained;
}
Step-Orderly a p _ h (mails _ j n r f c) = record {
  pool = Pool.goes_on _ _ h.pool (Pool.requests p.pool j c);
  alive = h.alive;
  calm = h.calm;
  writable = λ k. request-closed p.pool j ∙ h.writable k;
  sealed = λ k. request-closed p.pool j ∙ h.sealed k;
  drained = λ k. absurd (ground (arith, c, (h.drained k).1));
}
Step-Orderly a p _ h (panics _ n r f c) = absurd (ground (arith, c, (busy_open a p n h r f).1))
Step-Orderly a p _ h (finishes _ n r f) = record {
  pool = h.pool;
  alive = h.alive;
  calm = λ k. absurd (ground (arith, k, (busy_open a p n h r f).0));
  writable = h.writable;
  sealed = h.sealed;
  drained = h.drained;
}
Step-Orderly a p _ h (works _ q r t) = record {
  pool = Pool.goes_on _ _ h.pool (Pool.works _ _ t);
  alive = h.alive;
  calm = h.calm;
  writable = λ k. Turn-closed a p.pool q t ∙ h.writable k;
  sealed = λ k. Turn-closed a p.pool q t ∙ h.sealed k;
  drained = λ k. absurd (AllExited_rests a p.pool q (h.drained k).0 t);
}
Step-Orderly a p _ h (quits _ e) = record {
  pool = h.pool;
  alive = λ k. absurd (ground (arith, k));
  calm = λ k. absurd (ground (arith, k));
  writable = λ k. h.writable (ground (arith, e));
  sealed = λ k. absurd (ground (arith, k));
  drained = h.drained;
}
Step-Orderly a p _ h (stops_http _ e z) = record {
  pool = h.pool;
  alive = λ k. absurd (ground (arith, k));
  calm = λ k. z;
  writable = λ k. h.writable (ground (arith, e));
  sealed = λ k. absurd (ground (arith, k));
  drained = h.drained;
}
Step-Orderly a p _ h (times_out _ e) = record {
  pool = h.pool;
  alive = λ k. absurd (ground (arith, k));
  calm = λ k. absurd (ground (arith, k));
  writable = λ k. h.writable (ground (arith, e));
  sealed = λ k. absurd (ground (arith, k));
  drained = h.drained;
}
Step-Orderly a p _ h (shuts_mailer _ e) = record {
  pool = Pool.goes_on _ _ h.pool (Pool.shuts p.pool);
  alive = λ k. absurd (ground (arith, k));
  calm = λ k. h.calm (ground (arith, e));
  writable = λ k. absurd (ground (arith, k));
  sealed = λ k. refl;
  drained = λ k. absurd (ground (arith, (h.drained k).1, h.writable (ground (arith, e))));
}
Step-Orderly a p _ h (waits _ e x) = record {
  pool = h.pool;
  alive = λ k. absurd (ground (arith, k));
  calm = λ k. h.calm (ground (arith, e));
  writable = λ k. absurd (ground (arith, k));
  sealed = λ k. h.sealed (ground (arith, e));
  drained = λ k. (x, h.sealed (ground (arith, e)));
}
Step-Orderly a p _ h (leaves _ e) = record {
  pool = h.pool;
  alive = λ k. absurd (ground (arith, k));
  calm = λ k. h.calm (ground (arith, e));
  writable = λ k. absurd (ground (arith, k));
  sealed = λ k. h.sealed (ground (arith, e));
  drained = h.drained;
}
Step-Orderly a p _ h (goes_on _ f e) = record {
  pool = h.pool;
  alive = λ k. closes_alive p.phase f e k;
  calm = λ k. h.calm (closes-quiet p.phase f e);
  writable = λ k. h.writable (closes-unclosed p.phase f e k);
  sealed = λ k. h.sealed (closes-shut p.phase f e k);
  drained = h.drained;
}

Reached-Orderly : (a : Settings) (p : Process) → Reached a p → Orderly a p
Reached-Orderly a _ starts = started-Orderly a
Reached-Orderly a _ (steps p q r t) = Step-Orderly a p q (Reached-Orderly a p r) t

open_of_busy :
    (x : Phase) → x ≢ panicked → quiet x ≡ false → (is_open x ≡ true) × (unclosed x ≡ true)
unfolding quiet unclosed is_open
open_of_busy serving n q = (refl, refl)
open_of_busy shutting_down n q = (refl, refl)
open_of_busy Phase.failed n q = (refl, refl)
open_of_busy panicked n q = absurd (n refl)
open_of_busy http_stopped n q = absurd (ground (arith, q))
open_of_busy limiter_stopped n q = absurd (ground (arith, q))
open_of_busy mailer_closed n q = absurd (ground (arith, q))
open_of_busy mailer_stopped n q = absurd (ground (arith, q))
open_of_busy db_closed n q = absurd (ground (arith, q))
open_of_busy redis_closed n q = absurd (ground (arith, q))
open_of_busy Phase.exited n q = absurd (ground (arith, q))

-- In every process that a start leads to, in any order of its requests, its workers and its
-- shutdown, no request ever sent on a closed mail channel, and as long as a request is in flight the
-- database, Redis and the mail channel are open.
pub Reached_safe :
    (a : Settings) (p : Process)
    → Reached a p
    → (p.phase ≢ panicked)
      × ((p.in_flight ≡ 0) ⊎ ((is_open p.phase ≡ true) × (p.pool.shared.closed ≡ false)))
Reached_safe a p r =
    let h = Reached-Orderly a p r in
    (
      h.alive,
      elim (Bool-cases (quiet p.phase)) [
        | inl q ↦ inl (h.calm q)
        | inr q ↦ let (o, u) = open_of_busy p.phase h.alive q in inr (o, h.writable u)
      ],
    )

-- When the mailer's shutdown saw all workers return in time, then from there on, up to the exit and
-- in any order of steps, no mail that a request has handed over is left: the channel is empty, and
-- each job was mailed, given up after its last attempt or dropped in a pause. The mailer has at least
-- one worker and one attempt.
pub waited-Drained :
    (a : Settings) (p : Process)
    → 1 ≤ a.retries
    → 1 ≤ a.workers
    → Reached a p
    → p.waited ≡ true
    → Drained p.pool
waited-Drained a p r w s d =
    let h = Reached-Orderly a p s in
    AllExited-Drained a p.pool (omega (arith, w, Reached-length a p.pool h.pool))
      (Reached-Accounted a p.pool r h.pool) (h.drained d).0
