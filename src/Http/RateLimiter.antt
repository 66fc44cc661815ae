-- ===== src/Http/RateLimiter.antt =====
-- internal/http/middlewares/middleware.ratelimit.go: one token bucket for each address, and the
-- cleanup of those not seen for a while. The buckets, of golang.org/x/time/rate, are a parameter.
-- The instants that one request reads are taken as one; the headers, which are computed with
-- floating-point numbers, are left out.
pub mod Cleanup
pub mod Quota
use go_rest_boilerplate.Base.{
  ℕ, ◌-◌, ◌*◌, String, Bool, Option, none, some, List, [], ◌∷◌, ltb, str_eq, if◌then◌else◌,
}
use go_rest_boilerplate.Time.{minute}

-- `rate.Limiter`: a new one with the given rate and burst, and `Allow` at an instant.
pub record Buckets : Type 1 where
  pub Limiter : Type 0
  pub new_limiter : Limiter
  pub allow : ℕ → Limiter → Bool × Limiter

pub record IpLimiter (buckets : Buckets) : Type 0 where
  pub limiter : buckets.Limiter
  pub last_seen : ℕ

-- `visitors`
abbrev pub Visitors : Buckets → Type 0
Visitors buckets = String → Option (IpLimiter buckets)

module _ (buckets : Buckets) where
  -- `getLimiter`, less the note of the time.
  abbrev pub limiter_of : Option (IpLimiter buckets) → buckets.Limiter
  limiter_of none = buckets.new_limiter
  limiter_of (some v) = v.limiter

  abbrev pub put : String → IpLimiter buckets → Visitors buckets → Visitors buckets
  put ip v visitors other = if str_eq ip other then some v else visitors other

  -- The limiter is shared, so that `Allow` shows in the map.
  abbrev pub admitted :
      String → ℕ → Visitors buckets → Bool × buckets.Limiter → Bool × Visitors buckets
  admitted ip now visitors (allowed, l) =
      (allowed, put ip (record { limiter = l; last_seen = now }) visitors)

  -- Whether the request goes on; else it is answered with 429.
  unfoldable pub handle : String → ℕ → Visitors buckets → Bool × Visitors buckets
  handle ip now visitors = admitted ip now visitors (buckets.allow now (limiter_of (visitors ip)))

  abbrev pub max_idle : ℕ
  max_idle = 5 * minute

  abbrev pub kept : ℕ → Option (IpLimiter buckets) → Option (IpLimiter buckets)
  kept now none = none
  kept now (some v) = if ltb max_idle (now - v.last_seen) then none else some v

  -- One tick of the cleanup.
  unfoldable pub cleanup : ℕ → Visitors buckets → Visitors buckets
  cleanup now visitors ip = kept now (visitors ip)

-- A request from an address, or a tick, at an instant.
pub data Event : Type 0 where
  request : String → ℕ → Event
  tick : ℕ → Event

module _ (buckets : Buckets) where
  -- The verdicts on the requests.
  unfoldable pub run : List Event → Visitors buckets → List Bool
  run [] visitors = []
  run (request ip now ∷ events) visitors =
      (handle buckets ip now visitors).0 ∷ run events (handle buckets ip now visitors).1
  run (tick now ∷ events) visitors = run events (cleanup buckets now visitors)
