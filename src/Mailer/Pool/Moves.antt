-- ===== src/Mailer/Pool/Moves.antt =====
-- What one turn of a worker of pkg/mailer/mailer.async.go moves from where to where.
use go_rest_boilerplate.Base.{
  ℕ, ◌+◌, ◌≤◌, ◌<◌, Bool, true, false, Option, none, some, List, [], ◌∷◌, ◌++◌, ◌≡◌, refl, ap,
  arith, length, ◌==◌, if_ind,
}
use go_rest_boilerplate.Exec.{ok, err}
use go_rest_boilerplate.Mailer.{OtpJob}
use go_rest_boilerplate.Mailer.Backoff.{Settings}
use go_rest_boilerplate.Mailer.Pool.{
  Worker, idle, exited, sending, waiting, Shared, Event, receives, wakes, stops, replies, received,
  turn,
}

-- The job that a worker holds, if any.
abbrev pub held : Worker → List OtpJob
held idle = []
held exited = []
held (sending j k) = j ∷ []
held (waiting j k d) = j ∷ []

-- The jobs in the workers' hands.
unfoldable pub in_flight : List Worker → List OtpJob
in_flight [] = []
in_flight (w ∷ ws) = held w ++ in_flight ws

abbrev bit : Bool → ℕ
bit true = 1
bit false = 0

-- How many jobs of a list pass a test.
unfoldable pub tally : (OtpJob → Bool) → List OtpJob → ℕ
tally p [] = 0
tally p (j ∷ l) = bit (p j) + tally p l

-- The worker is within its attempts, and it left only from a closed, empty channel.
abbrev pub WithinAttempts : Settings → Shared → Worker → Type 0
WithinAttempts a s idle = Unit
WithinAttempts a s exited = (s.closed ≡ true) × (s.channel.queue ≡ [])
WithinAttempts a s (sending j k) = (1 ≤ k) × (k ≤ a.retries)
WithinAttempts a s (waiting j k d) = (1 ≤ k) × (k < a.retries)

-- What one worker's turn does to it and to what the workers share.
pub record Moved (a : Settings) (w : Worker) (s : Shared) (v : Worker) (u : Shared) : Type 0 where
  pub accepted_same : u.accepted ≡ s.accepted
  pub closed_same : u.closed ≡ s.closed
  pub size_same : u.channel.queue_size ≡ s.channel.queue_size
  pub shorter : length u.channel.queue ≤ length s.channel.queue
  pub not_dropped : s.closed ≡ false → u.dropped ≡ s.dropped
  pub v_within : WithinAttempts a u v
  pub conserved :
      (t : OtpJob → Bool)
      → tally t u.channel.queue
          + (tally t (held v) + (tally t u.sent + (tally t u.failed + tally t u.dropped)))
        ≡ tally t s.channel.queue
          + (tally t (held w) + (tally t s.sent + (tally t s.failed + tally t s.dropped)))

abbrev MovedTo : Settings → Worker → Shared → Option (Worker × Shared) → Type 0
MovedTo a w s none = Unit
MovedTo a w s (some (v, u)) = Moved a w s v u

received-MovedTo :
    (a : Settings) (q : List OtpJob) (s : Shared)
    → 1 ≤ a.retries
    → s.channel.queue ≡ q
    → MovedTo a idle s (received q s)
unfolding tally
received-MovedTo a [] s r e =
    if_ind (MovedTo a idle s) s.closed (some (exited, s)) none
      (λ c. record {
        accepted_same = refl;
        closed_same = refl;
        size_same = refl;
        shorter = omega arith;
        not_dropped = λ _. refl;
        v_within = (c, e);
        conserved = λ t. refl;
      })
      λ _. tt
received-MovedTo a (j ∷ q) s r e = record {
  accepted_same = refl;
  closed_same = refl;
  size_same = refl;
  shorter = ground (arith, ap length e);
  not_dropped = λ _. refl;
  v_within = (omega arith, r);
  conserved = λ t. ground (arith, ap (tally t) e);
}

pub turn-MovedTo :
    (a : Settings) (e : Event) (w : Worker) (s : Shared)
    → 1 ≤ a.retries
    → WithinAttempts a s w
    → MovedTo a w s (turn a e w s)
unfolding turn tally
turn-MovedTo a receives idle s r h = received-MovedTo a s.channel.queue s r refl
turn-MovedTo a (replies (ok x)) (sending j k) s r h = record {
  accepted_same = refl;
  closed_same = refl;
  size_same = refl;
  shorter = omega arith;
  not_dropped = λ _. refl;
  v_within = tt;
  conserved = λ t. omega arith;
}
turn-MovedTo a (replies (err x)) (sending j k) s r h =
    if_ind (λ x. MovedTo a (sending j k) s (some x)) (k == a.retries) _ _
      (λ _. record {
        accepted_same = refl;
        closed_same = refl;
        size_same = refl;
        shorter = omega arith;
        not_dropped = λ _. refl;
        v_within = tt;
        conserved = λ t. omega arith;
      })
      λ c. record {
        accepted_same = refl;
        closed_same = refl;
        size_same = refl;
        shorter = omega arith;
        not_dropped = λ _. refl;
        v_within = (h.0, ground (arith, h.1, c));
        conserved = λ t. refl;
      }
turn-MovedTo a wakes (waiting j k d) s r h = record {
  accepted_same = refl;
  closed_same = refl;
  size_same = refl;
  shorter = omega arith;
  not_dropped = λ _. refl;
  v_within = (omega arith, omega (arith, h));
  conserved = λ t. refl;
}
turn-MovedTo a stops (waiting j k d) s r h =
    if_ind (MovedTo a (waiting j k d) s) s.closed _ none
      (λ c. record {
        accepted_same = refl;
        closed_same = refl;
        size_same = refl;
        shorter = omega arith;
        not_dropped = λ o. ground (arith, c, o);
        v_within = tt;
        conserved = λ t. omega arith;
      })
      λ _. tt
turn-MovedTo a _ _ s r h = tt
