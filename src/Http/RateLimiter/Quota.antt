-- ===== src/Http/RateLimiter/Quota.antt =====
-- How many requests of one address internal/http/middlewares/middleware.ratelimit.go lets through.
use native.Mathlib.Nat.{add-mul}
use go_rest_boilerplate.Base.{
  ℕ, ◌+◌, ◌-◌, ◌*◌, ◌≤◌, String, Bool, ◌&&◌, Option, none, some, List, [], ◌∷◌, ◌≡◌, ltb, str_eq,
  refl, arith, if◌then◌else◌, Bool-cases, inl, inr, if_ind, ap, str_eq→eq,
}
use go_rest_boilerplate.Http.RateLimiter.{
  Buckets, IpLimiter, Visitors, limiter_of, handle, max_idle, kept, cleanup, Event, request, tick,
}
use go_rest_boilerplate.Http.RateLimiter.Cleanup.{Asked, once, again, InOrder, time_of}

abbrev pub at_most : ℕ → ℕ → ℕ
at_most cap n = if ltb cap n then cap else n

-- golang.org/x/time/rate: a bucket holds up to `burst` tokens, gets a new one every `interval`, and
-- gives one to each request that it lets through. What it holds is counted in the time that it
-- takes to fill in.
pub record TokenBucket (buckets : Buckets) (burst interval : ℕ) : Type 0 where
  pub credit : buckets.Limiter → ℕ → ℕ
  pub credit-new_limiter : (t : ℕ) → credit buckets.new_limiter t ≡ burst * interval
  pub credit-later :
      (l : buckets.Limiter) (s t : ℕ)
      → Asked buckets s l
      → s ≤ t
      → credit l t ≡ at_most (burst * interval) (credit l s + (t - s))
  pub credit-allow :
      (l : buckets.Limiter) (t : ℕ)
      → credit (buckets.allow t l).1 t + (if (buckets.allow t l).0 then interval else 0)
        ≡ credit l t

-- The time of the last of the events.
abbrev pub last_time : ℕ → List Event → ℕ
last_time t [] = t
last_time t (e ∷ events) = last_time (time_of e) events

last_time_le : (t : ℕ) (events : List Event) → InOrder t events → t ≤ last_time t events
unfolding InOrder
last_time_le t [] o = omega arith
last_time_le t (e ∷ events) o = omega (arith, o.0, last_time_le (time_of e) events o.1)

abbrev pub one_if : Bool → ℕ
one_if b = if b then 1 else 0

module _ (buckets : Buckets) where
  -- How many requests from the address go on.
  unfoldable pub passed : String → List Event → Visitors buckets → ℕ
  passed ip [] visitors = 0
  passed ip (tick now ∷ events) visitors = passed ip events (cleanup buckets now visitors)
  passed ip (request from now ∷ events) visitors =
      one_if (str_eq from ip && (handle buckets from now visitors).0)
      + passed ip events (handle buckets from now visitors).1

  module _ (burst interval : ℕ) (B : TokenBucket buckets burst interval) where
    -- What an address has left.
    abbrev pub left : ℕ → Option (IpLimiter buckets) → ℕ
    left t none = burst * interval
    left t (some v) = B.credit v.limiter t

    -- The bucket was last asked when the address was last seen.
    abbrev pub Seen : ℕ → Option (IpLimiter buckets) → Type 0
    Seen t none = Unit
    Seen t (some v) = Asked buckets v.last_seen v.limiter × (v.last_seen ≤ t)

    left-later :
        (s t : ℕ) (v : Option (IpLimiter buckets))
        → Seen s v
        → s ≤ t
        → left t v ≤ left s v + (t - s)
    left-later s t none h le = omega arith
    left-later s t (some v) (asked, seen) le = ground (
      arith,
      le,
      seen,
      B.credit-later v.limiter v.last_seen s asked seen,
      B.credit-later v.limiter v.last_seen t asked (omega (arith, seen, le)),
    )

    pub Seen-later : (s t : ℕ) (v : Option (IpLimiter buckets)) → Seen s v → s ≤ t → Seen t v
    Seen-later s t none h le = tt
    Seen-later s t (some v) (asked, seen) le = (asked, omega (arith, seen, le))

    module _ (short : burst * interval ≤ max_idle buckets) where
      -- The cleanup drops full buckets only.
      left-kept :
          (t : ℕ) (v : Option (IpLimiter buckets)) → Seen t v → left t (kept buckets t v) ≡ left t v
      left-kept t none h = refl
      left-kept t (some v) (asked, seen) =
          if_ind (λ x. left t x ≡ B.credit v.limiter t) (ltb (max_idle buckets) (t - v.last_seen))
            none (some v)
            (λ e. ground (arith, e, short, B.credit-later v.limiter v.last_seen t asked seen))
            λ _. refl

      pub Seen-kept :
          (t : ℕ) (v : Option (IpLimiter buckets)) → Seen t v → Seen t (kept buckets t v)
      Seen-kept t none h = tt
      Seen-kept t (some v) h =
          if_ind (λ x. Seen t x) (ltb (max_idle buckets) (t - v.last_seen)) none (some v) (λ _. tt)
            λ _. h

      credit-limiter_of :
          (t : ℕ) (v : Option (IpLimiter buckets)) → B.credit (limiter_of buckets v) t ≡ left t v
      credit-limiter_of t none = B.credit-new_limiter t
      credit-limiter_of t (some v) = refl

      Asked-allow :
          (t : ℕ) (v : Option (IpLimiter buckets))
          → Seen t v
          → Asked buckets t (buckets.allow t (limiter_of buckets v)).1
      Asked-allow t none h = once t
      Asked-allow t (some v) h = again v.last_seen t v.limiter h.0 h.1

      pub Seen-handle :
          (t : ℕ) (from ip : String) (vs : Visitors buckets)
          → Seen t (vs from)
          → Seen t (vs ip)
          → Seen t ((handle buckets from t vs).1 ip)
      unfolding handle
      Seen-handle t from ip vs f h =
          if_ind (Seen t) (str_eq from ip)
            (some (record {
              limiter = (buckets.allow t (limiter_of buckets (vs from))).1;
              last_seen = t;
            }))
            (vs ip) (λ _. (Asked-allow t (vs from) f, omega arith)) λ _. h

      -- A request that goes on costs its address one interval, and no other address anything.
      left-handle :
          (t : ℕ) (from ip : String) (vs : Visitors buckets)
          → left t ((handle buckets from t vs).1 ip)
              + one_if (str_eq from ip && (handle buckets from t vs).0) * interval
            ≡ left t (vs ip)
      unfolding handle
      left-handle t from ip vs = elim (Bool-cases (str_eq from ip)) [
        | inl e ↦
            let l = limiter_of buckets (vs from) in
            ground (
              arith,
              e,
              B.credit-allow l t,
              credit-limiter_of t (vs from),
              ap (λ x. left t (vs x)) (str_eq→eq from ip e),
            )
        | inr e ↦ ground (arith, e)
      ]

      pub passed_le :
          (t : ℕ) (ip : String) (events : List Event) (vs : Visitors buckets)
          → InOrder t events
          → ((other : String) → Seen t (vs other))
          → passed ip events vs * interval ≤ left t (vs ip) + (last_time t events - t)
      unfolding passed InOrder cleanup
      passed_le t ip [] vs o seen = omega arith
      passed_le t ip (tick now ∷ events) vs o seen =
          let now_seen : (other : String) → Seen now (vs other) =
            λ other. Seen-later t now (vs other) (seen other) o.0 in
          let rest =
            passed_le now ip events (cleanup buckets now vs) o.1
              λ other. Seen-kept now (vs other) (now_seen other) in
          omega (
            arith,
            rest,
            left-kept now (vs ip) (now_seen ip),
            left-later t now (vs ip) (seen ip) o.0,
            o.0,
            last_time_le now events o.1,
          )
      passed_le t ip (request from now ∷ events) vs o seen =
          let now_seen : (other : String) → Seen now (vs other) =
            λ other. Seen-later t now (vs other) (seen other) o.0 in
          let rest =
            passed_le now ip events (handle buckets from now vs).1 o.1
              λ other. Seen-handle now from other vs (now_seen from) (now_seen other) in
          let n = one_if (str_eq from ip && (handle buckets from now vs).0) in
          let m = passed ip events (handle buckets from now vs).1 in
          omega (
            arith,
            add-mul n m interval,
            rest,
            left-handle now from ip vs,
            left-later t now (vs ip) (seen ip) o.0,
            o.0,
            last_time_le now events o.1,
          )

      -- No bucket holds more than its burst.
      pub left_le :
          (t : ℕ) (v : Option (IpLimiter buckets)) → Seen t v → left t v ≤ burst * interval
      left_le t none h = omega arith
      left_le t (some v) h = ground (arith, B.credit-later v.limiter v.last_seen t h.0 h.1)
