-- ===== src/Tests/Limits.antt =====
-- The rate limiter: the example.
use go_rest_boilerplate.Base.{
  ℕ, ◌+◌, ◌*◌, ◌≤◌, Bool, true, false, none, List, [], ◌∷◌, ◌≡◌, arith, ltb, if◌then◌else◌,
}
use go_rest_boilerplate.Time.{second, minute}
use go_rest_boilerplate.Http.RateLimiter.{Buckets, Event, request, tick, run}
use go_rest_boilerplate.Http.RateLimiter.Cleanup.{
  Asked, once, again, Refills, requests_only, InOrder, run-requests_only,
}

-- One request a minute: the instant from which on the next one is let through.
abbrev slowly : ℕ → ℕ → Bool × ℕ
slowly now free = if ltb now free then (false, free) else (true, now + minute)

abbrev buckets : Buckets
buckets = record { Limiter = ℕ; new_limiter = 0; allow = slowly }

Asked_free : (t l : ℕ) → Asked buckets t l → l ≤ t + minute
Asked_free t _ (once _) = ground arith
Asked_free t _ (again s _ l h le) = ground (arith, Asked_free s l h, le)

refills : Refills buckets
refills l t now h idle = ground (arith, Asked_free t l h, idle)

abbrev events : List Event
events =
    request "10.0.0.1" (10 * second)
    ∷ request "10.0.0.1" (20 * second)
    ∷ tick (400 * second)
    ∷ request "10.0.0.1" (401 * second)
    ∷ []

in_order : InOrder 0 events
unfolding InOrder
in_order = (omega arith, (omega arith, (omega arith, (omega arith, tt))))

run-requests_only_example :
    run buckets events (λ ip. none) ≡ run buckets (requests_only events) (λ ip. none)
run-requests_only_example = run-requests_only buckets refills 0 events in_order
