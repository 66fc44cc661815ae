-- ===== src/Mailer/Pool/Drain.antt =====
-- Shutdown of pkg/mailer/mailer.async.go: the workers drain the channel and return.
use go_rest_boilerplate.Base.{
  ℕ, zero, suc, ◌+◌, ◌≤◌, Bool, true, some, List, [], ◌∷◌, ◌++◌, ◌≡◌, ◌⊎◌, inl, inr, refl, ap, ◌∙◌,
  arith, length,
}
use go_rest_boilerplate.Exec.{ok}
use go_rest_boilerplate.Mailer.{OtpJob}
use go_rest_boilerplate.Mailer.Backoff.{Settings}
use go_rest_boilerplate.Mailer.Pool.{
  Worker, idle, exited, sending, waiting, Shared, Event, receives, wakes, replies, received, turn,
  Pool, Turn, turns, works, requests, shuts, idles, new_async_otp_mailer, Reached, starts, goes_on,
}
use go_rest_boilerplate.Mailer.Pool.Moves.{tally, WithinAttempts, in_flight}
use go_rest_boilerplate.Mailer.Pool.Accounts.{Accounted, Reached-Accounted, AllWithin}
use go_rest_boilerplate.Mailer.Pool.TurnsLeft.{turns_left, Turn_lighter}

-- So many turns in a row, without a request.
pub data Turns (a : Settings) : ℕ → Pool → Pool → Type 0 where
  rests : (p : Pool) → Turns a 0 p p
  turns_on : (n : ℕ) (p q u : Pool) → Turn a p q → Turns a n q u → Turns a (suc n) p u

-- Every worker has returned.
unfoldable pub AllExited : List Worker → Type 0
AllExited [] = Unit
AllExited (w ∷ ws) = (w ≡ exited) × AllExited ws

-- Every worker has returned, the channel is empty, and each job taken in was mailed, given up or
-- dropped, as often as it was taken in.
pub record Drained (p : Pool) : Type 0 where
  pub returned : AllExited p.workers
  pub empty : p.shared.channel.queue ≡ []
  pub settled :
      (t : OtpJob → Bool)
      → tally t p.shared.accepted
        ≡ tally t p.shared.sent + (tally t p.shared.failed + tally t p.shared.dropped)

append_one :
    (before : List Worker) (w : Worker) (ws : List Worker)
    → (before ++ w ∷ []) ++ ws ≡ before ++ w ∷ ws
append_one [] w ws = refl
append_one (x ∷ before) w ws = ap (λ l. x ∷ l) (append_one before w ws)

receives_some :
    (q : List OtpJob) (s : Shared)
    → s.closed ≡ true
    → (v : Worker) × (u : Shared) × (received q s ≡ some (v, u))
receives_some [] s c = (exited, s, rw c refl)
receives_some (j ∷ q) s c = (_, _, refl)

-- A worker of a closed pool has returned or has a turn.
worker_goes_on :
    (a : Settings) (w : Worker) (s : Shared)
    → s.closed ≡ true
    → (w ≡ exited) ⊎ ((e : Event) × (v : Worker) × (u : Shared) × (turn a e w s ≡ some (v, u)))
unfolding turn
worker_goes_on a idle s c =
    let (v, u, h) = receives_some s.channel.queue s c in inr (receives, v, u, h)
worker_goes_on a exited s c = inl refl
worker_goes_on a (sending j k) s c = inr (replies (ok tt), _, _, refl)
worker_goes_on a (waiting j k d) s c = inr (wakes, _, _, refl)

all_go_on :
    (a : Settings) (before ws : List Worker) (s : Shared)
    → s.closed ≡ true
    → AllExited ws ⊎ ((q : Pool) × Turn a (record { workers = before ++ ws; shared = s }) q)
unfolding AllExited
all_go_on a before [] s c = inl tt
all_go_on a before (w ∷ ws) s c = elim (worker_goes_on a w s c) [
  | inr (e, v, u, h) ↦ inr (_, turns before ws e w v s u h)
  | inl x ↦ elim (all_go_on a (before ++ w ∷ []) ws s c) [
    | inl all ↦ inl (x, all)
    | inr (q, t) ↦ inr (q, rw (append_one before w ws) at t)
  ]
]

AllExited-in_flight : (ws : List Worker) → AllExited ws → in_flight ws ≡ []
unfolding AllExited in_flight
AllExited-in_flight [] h = refl
AllExited-in_flight (w ∷ ws) h = rw h.0 (AllExited-in_flight ws h.1)

AllExited-empty :
    (a : Settings) (s : Shared) (ws : List Worker)
    → 1 ≤ length ws
    → AllExited ws
    → AllWithin a s ws
    → s.channel.queue ≡ []
unfolding AllExited AllWithin
AllExited-empty a s [] n x h = absurd (omega (arith, n))
AllExited-empty a s (w ∷ ws) n x h = let g : WithinAttempts a s exited = rw x.0 at h.0 in g.1

pub AllExited-Drained :
    (a : Settings) (p : Pool)
    → 1 ≤ length p.workers
    → Accounted a p
    → AllExited p.workers
    → Drained p
unfolding tally
AllExited-Drained a p n h x =
    let e = AllExited-empty a p.shared p.workers n x h.within in
    record {
      returned = x;
      empty = e;
      settled = λ t.
          ground
            (arith, h.balanced t, ap (tally t) e, ap (tally t) (AllExited-in_flight p.workers x));
    }

-- The mailer keeps its workers.
length_put :
    (before behind : List Worker) (w v : Worker)
    → length (before ++ v ∷ behind) ≡ length (before ++ w ∷ behind)
length_put [] behind w v = refl
length_put (x ∷ before) behind w v = ap suc (length_put before behind w v)

length-idles : (n : ℕ) → length (idles n) ≡ n
length-idles zero = refl
length-idles (suc n) = ap suc (length-idles n)

Turn-length : (a : Settings) (p q : Pool) → Turn a p q → length q.workers ≡ length p.workers
Turn-length a _ _ (turns before behind e w v s u eq) = length_put before behind w v

pub Reached-length : (a : Settings) (p : Pool) → Reached a p → length p.workers ≡ a.workers
unfolding new_async_otp_mailer
Reached-length a _ starts = length-idles a.workers
Reached-length a _ (goes_on p q h (works _ _ t)) = Turn-length a p q t ∙ Reached-length a p h
Reached-length a _ (goes_on p q h (requests _ j c)) = Reached-length a p h
Reached-length a _ (goes_on p q h (shuts _)) = Reached-length a p h

-- After the shutdown of a mailer with at least one worker and one attempt, however the turns of the
-- workers follow each other, there are at most `turns_left` of them; and after any of them either
-- some worker has another turn, or every worker has returned, the channel is empty and each job
-- taken in was mailed, given up or dropped.
pub shutdown-Drained :
    (a : Settings) (p : Pool) {n : ℕ} {q : Pool}
    → 1 ≤ a.retries
    → 1 ≤ a.workers
    → Reached a p
    → p.shared.closed ≡ true
    → Turns a n p q
    → (n + turns_left a q ≤ turns_left a p) × (Drained q ⊎ ((u : Pool) × Turn a q u))
shutdown-Drained a _ r m h c (rests p) = (
  omega arith,
  elim (all_go_on a [] p.workers p.shared c) [
    | inl x ↦ inl (
        AllExited-Drained a p (omega (arith, m, Reached-length a p h)) (Reached-Accounted a p r h)
          x)
    | inr t ↦ inr t
  ],
)
shutdown-Drained a _ r m h c (turns_on n p q u t ts) =
    let l = Turn_lighter a p q r (Reached-Accounted a p r h) t in
    let rest = shutdown-Drained a q r m (goes_on p q h (works p q t)) (l.1 ∙ c) ts in
    (omega (arith, l.0, rest.0), rest.1)
