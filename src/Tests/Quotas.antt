-- ===== src/Tests/Quotas.antt =====
-- The rate limiter in front of the endpoints: the example.
use go_rest_boilerplate.Base.{
  ℕ, ◌+◌, ◌-◌, ◌*◌, ◌≤◌, Bool, true, false, some, none, List, [], ◌∷◌, map, ◌≡◌, arith, ltb,
  if◌then◌else◌,
}
use go_rest_boilerplate.Time.{second}
use go_rest_boilerplate.Http.AuthMiddleware.{AuthMiddleware}
use go_rest_boilerplate.Http.Handlers.Serving.{Incoming, login}
use go_rest_boilerplate.Http.RateLimiter.{Buckets}
use go_rest_boilerplate.Http.RateLimiter.Cleanup.{Asked, once, again, InOrder}
use go_rest_boilerplate.Http.RateLimiter.Quota.{TokenBucket, at_most}
use go_rest_boilerplate.Http.Server.{Arrival, arrives, ticks, auth_burst, auth_interval, serve_all}
use go_rest_boilerplate.Http.Server.Admitted.{
  event_of, from, route_all, admitted, serve_all-admitted,
}
use go_rest_boilerplate.Tests.Fixture.{app, start}
use go_rest_boilerplate.Tests.Handlers.{lib}

abbrev full : ℕ
full = auth_burst * auth_interval

-- What a bucket held at the time at which it was last asked.
record Bucket : Type 0 where
  stock : ℕ
  last : ℕ

abbrev credit : Bucket → ℕ → ℕ
credit l t = at_most full (l.stock + (t - l.last))

abbrev taken : ℕ → ℕ → Bool × Bucket
taken t n =
    if ltb n auth_interval
    then (false, record { stock = n; last = t })
    else (true, record { stock = n - auth_interval; last = t })

abbrev buckets : Buckets
buckets = record {
  Limiter = Bucket;
  new_limiter = record { stock = full; last = 0 };
  allow = λ t l. taken t (credit l t);
}

last-taken : (t n : ℕ) → (taken t n).1.last ≡ t
last-taken t n = ground arith

last-Asked : (t : ℕ) (l : Bucket) → Asked buckets t l → l.last ≡ t
last-Asked t _ (once _) = last-taken t (credit (record { stock = full; last = 0 }) t)
last-Asked t _ (again s _ l h le) = last-taken t (credit l t)

credit-taken :
    (t n : ℕ) → n ≤ full → credit (taken t n).1 t + (if (taken t n).0 then auth_interval else 0) ≡ n
credit-taken t n h = ground (arith, h)

credit_le : (l : Bucket) (t : ℕ) → credit l t ≤ full
credit_le l t = ground arith

token_bucket : TokenBucket buckets auth_burst auth_interval
token_bucket = record {
  credit = credit;
  credit-new_limiter = λ t. ground arith;
  credit-later = λ l s t h le. ground (arith, last-Asked s l h, le);
  credit-allow = λ l t. credit-taken t (credit l t) (credit_le l t);
}

abbrev middleware : AuthMiddleware
middleware = record { has_redis = true; is_admin = false }

abbrev attempt : Incoming
attempt = login (some (record { email = "ada@x.io"; password = "secret" }))

abbrev earlier : List Arrival
earlier = arrives "10.0.0.1" (10 * second) attempt ∷ ticks (180 * second) ∷ []

abbrev later : List Arrival
later = arrives "10.0.0.1" (200 * second) attempt ∷ arrives "10.0.0.2" (201 * second) attempt ∷ []

earlier-InOrder : InOrder 0 (map event_of earlier)
unfolding InOrder
earlier-InOrder = (omega arith, (omega arith, tt))

later-InOrder : InOrder (180 * second) (map event_of later)
unfolding InOrder
later-InOrder = (omega arith, (omega arith, tt))

serve_all-admitted_example :
    let server =
      serve_all app lib middleware buckets earlier
        (record { state = start true 0; visitors = λ other. none }) in
    let requests = admitted app lib middleware buckets later server.visitors in
    ((serve_all app lib middleware buckets later server).state
      ≡ route_all app lib middleware requests server.state)
    × (from "10.0.0.1" requests * auth_interval
        ≤ auth_burst * auth_interval + (201 * second - 180 * second))
serve_all-admitted_example =
    serve_all-admitted app lib middleware buckets auth_burst auth_interval 0 "10.0.0.1" earlier
      later (start true 0) token_bucket (omega arith) earlier-InOrder later-InOrder
