-- ===== src/Mailer/Pool/TurnsLeft.antt =====
-- Each turn of a worker of pkg/mailer/mailer.async.go uses up one of the turns left.
use go_rest_boilerplate.Base.{
  ℕ, ◌+◌, ◌-◌, ◌*◌, ◌≤◌, ◌<◌, Option, none, some, List, [], ◌∷◌, ◌++◌, ◌≡◌, refl, ap, arith, ◌==◌,
  if_ind,
}
use go_rest_boilerplate.Exec.{ok, err}
use go_rest_boilerplate.Mailer.{OtpJob}
use go_rest_boilerplate.Mailer.Backoff.{Settings}
use go_rest_boilerplate.Mailer.Pool.{
  Worker, idle, exited, sending, waiting, Shared, Event, receives, wakes, stops, replies, received,
  turn, Pool, Turn, turns,
}
use go_rest_boilerplate.Mailer.Pool.Moves.{WithinAttempts}
use go_rest_boilerplate.Mailer.Pool.Accounts.{Accounted, AllWithin-at}

-- The turns that a worker has before it at most.
abbrev pub turns_of : ℕ → Worker → ℕ
turns_of r idle = 1
turns_of r exited = 0
turns_of r (sending j k) = 2 * (r - k) + 3
turns_of r (waiting j k d) = 2 * (r - k) + 2

unfoldable pub turns_of_all : ℕ → List Worker → ℕ
turns_of_all r [] = 0
turns_of_all r (w ∷ ws) = turns_of r w + turns_of_all r ws

unfoldable pub turns_of_queue : ℕ → List OtpJob → ℕ
turns_of_queue r [] = 0
turns_of_queue r (j ∷ q) = 2 * r + 2 + turns_of_queue r q

-- A bound on the turns until every worker has returned.
abbrev pub turns_left : Settings → Pool → ℕ
turns_left a p = turns_of_queue a.retries p.shared.channel.queue + turns_of_all a.retries p.workers

abbrev Lighter : Settings → Worker → Shared → Option (Worker × Shared) → Type 0
Lighter a w s none = Unit
Lighter a w s (some (v, u)) =
    (turns_of_queue a.retries u.channel.queue + turns_of a.retries v
      < turns_of_queue a.retries s.channel.queue + turns_of a.retries w)
    × (u.closed ≡ s.closed)

received-Lighter :
    (a : Settings) (q : List OtpJob) (s : Shared)
    → 1 ≤ a.retries
    → s.channel.queue ≡ q
    → Lighter a idle s (received q s)
unfolding turns_of_queue
received-Lighter a [] s r e =
    if_ind (Lighter a idle s) s.closed (some (exited, s)) none (λ _. (omega arith, refl)) λ _. tt
received-Lighter a (j ∷ q) s r e = (omega (arith, r, ap (turns_of_queue a.retries) e), refl)

turn-Lighter :
    (a : Settings) (e : Event) (w : Worker) (s : Shared)
    → 1 ≤ a.retries
    → WithinAttempts a s w
    → Lighter a w s (turn a e w s)
unfolding turn
turn-Lighter a receives idle s r h = received-Lighter a s.channel.queue s r refl
turn-Lighter a (replies (ok x)) (sending j k) s r h = (omega arith, refl)
turn-Lighter a (replies (err x)) (sending j k) s r h =
    if_ind (λ x. Lighter a (sending j k) s (some x)) (k == a.retries) _ _ (λ _. (omega arith, refl))
      λ _. (omega arith, refl)
turn-Lighter a wakes (waiting j k d) s r h = (omega (arith, h), refl)
turn-Lighter a stops (waiting j k d) s r h =
    if_ind (Lighter a (waiting j k d) s) s.closed _ none (λ _. (omega arith, refl)) λ _. tt
turn-Lighter a _ _ s r h = tt

turns_of_all-put :
    (r : ℕ) (before behind : List Worker) (w v : Worker)
    → turns_of_all r (before ++ v ∷ behind) + turns_of r w
      ≡ turns_of_all r (before ++ w ∷ behind) + turns_of r v
unfolding turns_of_all
turns_of_all-put r [] behind w v = omega arith
turns_of_all-put r (x ∷ before) behind w v = omega (arith, turns_of_all-put r before behind w v)

pub Turn_lighter :
    (a : Settings) (p q : Pool)
    → 1 ≤ a.retries
    → Accounted a p
    → Turn a p q
    → (turns_left a q < turns_left a p) × (q.shared.closed ≡ p.shared.closed)
Turn_lighter a _ _ r h (turns before behind e w v s u eq) =
    let m : Lighter a w s (some (v, u)) =
      rw eq at (turn-Lighter a e w s r (AllWithin-at a s before behind w h.within)) in
    (omega (arith, m.0, turns_of_all-put a.retries before behind w v), m.1)
