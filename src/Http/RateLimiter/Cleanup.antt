-- ===== src/Http/RateLimiter/Cleanup.antt =====
-- The cleanup of internal/http/middlewares/middleware.ratelimit.go does not show.
use go_rest_boilerplate.Base.{
  ℕ, ◌-◌, ◌≤◌, ◌<◌, String, Option, none, some, List, [], ◌∷◌, ◌≡◌, refl, ap, sym, arith, ltb,
  str_eq, Bool-cases, if_ind, inl, inr,
}
use go_rest_boilerplate.Http.RateLimiter.{
  Buckets, IpLimiter, Visitors, limiter_of, put, handle, max_idle, kept, cleanup, Event, request,
  tick, run,
}

-- A bucket that was asked at these instants, one after another, the last time at `t`.
pub data Asked (buckets : Buckets) : ℕ → buckets.Limiter → Type 0 where
  once : (t : ℕ) → Asked buckets t (buckets.allow t buckets.new_limiter).1
  again :
      (s t : ℕ) (l : buckets.Limiter)
      → Asked buckets s l
      → s ≤ t
      → Asked buckets t (buckets.allow t l).1

-- A bucket that was last asked so long ago is full again, as a new one is.
abbrev pub Refills : Buckets → Type 0
Refills buckets =
    (l : buckets.Limiter) (t now : ℕ)
    → Asked buckets t l
    → max_idle buckets < now - t
    → buckets.allow now l ≡ buckets.allow now buckets.new_limiter

-- The requests, without the ticks.
unfoldable pub requests_only : List Event → List Event
requests_only [] = []
requests_only (request ip now ∷ events) = request ip now ∷ requests_only events
requests_only (tick now ∷ events) = requests_only events

abbrev pub time_of : Event → ℕ
time_of (request ip now) = now
time_of (tick now) = now

-- The events come one after another.
unfoldable pub InOrder : ℕ → List Event → Type 0
InOrder t [] = Unit
InOrder t (e ∷ events) = (t ≤ time_of e) × InOrder (time_of e) events

module _ (buckets : Buckets) (refills : Refills buckets) where
  -- An address with the cleanup, and without.
  abbrev Alike : ℕ → Option (IpLimiter buckets) → Option (IpLimiter buckets) → Type 0
  Alike now none none = Unit
  Alike now (some v) none = ⊥
  Alike now none (some u) =
      (max_idle buckets < now - u.last_seen)
      × Asked buckets u.last_seen u.limiter
      × (u.last_seen ≤ now)
  Alike now (some v) (some u) = (v ≡ u) × Asked buckets u.last_seen u.limiter × (u.last_seen ≤ now)

  Alike-later :
      (t now : ℕ) (a b : Option (IpLimiter buckets)) → t ≤ now → Alike t a b → Alike now a b
  Alike-later t now none none le h = tt
  Alike-later t now (some v) none le h = h
  Alike-later t now none (some u) le h = (omega (arith, le, h.0), h.1, omega (arith, le, h.2))
  Alike-later t now (some v) (some u) le h = (h.0, h.1, omega (arith, le, h.2))

  Alike-allow :
      (now : ℕ) (a b : Option (IpLimiter buckets))
      → Alike now a b
      → buckets.allow now (limiter_of buckets a) ≡ buckets.allow now (limiter_of buckets b)
  Alike-allow now none none h = refl
  Alike-allow now (some v) none h = absurd h
  Alike-allow now none (some u) h = sym (refills u.limiter u.last_seen now h.1 h.0)
  Alike-allow now (some v) (some u) h = ap (λ x. buckets.allow now x.limiter) h.0

  Alike-kept :
      (now : ℕ) (a b : Option (IpLimiter buckets))
      → Alike now a b
      → Alike now (kept buckets now a) b
  Alike-kept now none none h = tt
  Alike-kept now (some v) none h = absurd h
  Alike-kept now none (some u) h = h
  Alike-kept now (some v) (some u) h =
      if_ind (λ x. Alike now x (some u)) (ltb (max_idle buckets) (now - v.last_seen)) none (some v)
        (λ e. (ground (arith, e, ap (λ x. x.last_seen) h.0), h.1, h.2)) λ _. h

  abbrev seen : ℕ → buckets.Limiter → IpLimiter buckets
  seen now l = record { limiter = (buckets.allow now l).1; last_seen = now }

  Asked-limiter_of :
      (now : ℕ) (a b : Option (IpLimiter buckets))
      → Alike now a b
      → Asked buckets now (buckets.allow now (limiter_of buckets b)).1
  Asked-limiter_of now none none h = once now
  Asked-limiter_of now (some v) none h = absurd h
  Asked-limiter_of now none (some u) h = again u.last_seen now u.limiter h.1 h.2
  Asked-limiter_of now (some v) (some u) h = again u.last_seen now u.limiter h.1 h.2

  Alike-put :
      (t now : ℕ) (ip : String) (l : buckets.Limiter) (vs us : Visitors buckets)
      → t ≤ now
      → Asked buckets now (buckets.allow now l).1
      → ((other : String) → Alike t (vs other) (us other))
      → (other : String)
      → Alike now (put buckets ip (seen now l) vs other) (put buckets ip (seen now l) us other)
  Alike-put t now ip l vs us le asked h other = elim (Bool-cases (str_eq ip other)) [
    | inl e ↦
        let same : Alike now (some (seen now l)) (some (seen now l)) = (refl, asked, omega arith) in
        rw e same
    | inr e ↦ rw e (Alike-later t now (vs other) (us other) le (h other))
  ]

  run-Alike :
      (t : ℕ) (events : List Event) (vs us : Visitors buckets)
      → InOrder t events
      → ((ip : String) → Alike t (vs ip) (us ip))
      → run buckets events vs ≡ run buckets (requests_only events) us
  unfolding run requests_only InOrder cleanup handle
  run-Alike t [] vs us o h = refl
  run-Alike t (tick now ∷ events) vs us o h =
      run-Alike now events (cleanup buckets now vs) us o.1
        λ ip. Alike-kept now (vs ip) (us ip) (Alike-later t now (vs ip) (us ip) o.0 (h ip))
  run-Alike t (request ip now ∷ events) vs us o h =
      let here = Alike-later t now (vs ip) (us ip) o.0 (h ip) in
      let l = limiter_of buckets (us ip) in
      rw (Alike-allow now (vs ip) (us ip) here) (
        ap (λ verdicts. (buckets.allow now l).0 ∷ verdicts)
          (run-Alike now events (put buckets ip (seen now l) vs) (put buckets ip (seen now l) us)
            o.1 (Alike-put t now ip l vs us o.0 (Asked-limiter_of now (vs ip) (us ip) here) h)))

  -- Where a bucket that was not asked for five minutes is as good as new, the requests of any
  -- sequence of requests and ticks, each no earlier than the one before, get the verdicts that they
  -- get without the cleanup.
  pub run-requests_only :
      (t : ℕ) (events : List Event)
      → InOrder t events
      → run buckets events (λ ip. none) ≡ run buckets (requests_only events) (λ ip. none)
  run-requests_only t events o = run-Alike t events (λ ip. none) (λ ip. none) o λ ip. tt
