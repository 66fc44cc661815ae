-- ===== src/Http/Server/Admitted.antt =====
-- What gets past the rate limiter to the endpoints of /auth.
use go_rest_boilerplate.Base.{
  ℕ, ◌+◌, ◌-◌, ◌*◌, ◌≤◌, String, none, List, [], ◌∷◌, map, ◌≡◌, str_eq, refl, arith, ap,
  if◌then◌else◌, Bool-cases, inl, inr,
}
use go_rest_boilerplate.Config.{App}
use go_rest_boilerplate.State.{State}
use go_rest_boilerplate.Validators.{Library}
use go_rest_boilerplate.Http.AuthMiddleware.{AuthMiddleware}
use go_rest_boilerplate.Http.Handlers.Serving.{Incoming, route}
use go_rest_boilerplate.Http.RateLimiter.{
  Buckets, Visitors, handle, max_idle, cleanup, Event, request, tick,
}
use go_rest_boilerplate.Http.RateLimiter.Cleanup.{InOrder}
use go_rest_boilerplate.Http.RateLimiter.Quota.{
  TokenBucket, passed, passed_le, one_if, last_time, Seen, Seen-later, Seen-kept, Seen-handle,
  left_le,
}
use go_rest_boilerplate.Http.Server.{Arrival, arrives, ticks, Server, serve, serve_all}

abbrev pub event_of : Arrival → Event
event_of (arrives ip now incoming) = request ip now
event_of (ticks now) = tick now

-- How many of the requests come from the address.
abbrev pub from : String → List (String × Incoming) → ℕ
from ip [] = 0
from ip ((other, incoming) ∷ requests) = one_if (str_eq other ip) + from ip requests

module _ (app : App) (lib : Library) (m : AuthMiddleware) where
  -- The endpoints alone.
  abbrev pub route_all : List (String × Incoming) → State app → State app
  route_all [] s = s
  route_all ((ip, incoming) ∷ requests) s = route_all requests (route app lib m incoming s).1

  module _ (buckets : Buckets) where
    -- The requests that the limiter lets through.
    unfoldable pub admitted : List Arrival → Visitors buckets → List (String × Incoming)
    admitted [] visitors = []
    admitted (arrives ip now incoming ∷ arrivals) visitors =
        let rest = admitted arrivals (handle buckets ip now visitors).1 in
        if (handle buckets ip now visitors).0 then (ip, incoming) ∷ rest else rest
    admitted (ticks now ∷ arrivals) visitors = admitted arrivals (cleanup buckets now visitors)

    serve_all-route_all :
        (arrivals : List Arrival) (server : Server app buckets)
        → (serve_all app lib m buckets arrivals server).state
          ≡ route_all (admitted arrivals server.visitors) server.state
    unfolding serve_all serve admitted
    serve_all-route_all [] server = refl
    serve_all-route_all (ticks now ∷ arrivals) server = serve_all-route_all arrivals _
    serve_all-route_all (arrives ip now incoming ∷ arrivals) server =
        let rest =
          serve_all-route_all arrivals (serve app lib m buckets ip now incoming server).1 in
        elim (Bool-cases (handle buckets ip now server.visitors).0) [
          | inl e ↦ ground (arith, e, rest)
          | inr e ↦ ground (arith, e, rest)
        ]

    from-admitted :
        (ip : String) (arrivals : List Arrival) (vs : Visitors buckets)
        → from ip (admitted arrivals vs) ≡ passed buckets ip (map event_of arrivals) vs
    unfolding admitted passed
    from-admitted ip [] vs = refl
    from-admitted ip (ticks now ∷ arrivals) vs = from-admitted ip arrivals (cleanup buckets now vs)
    from-admitted ip (arrives other now incoming ∷ arrivals) vs =
        ground (arith, from-admitted ip arrivals (handle buckets other now vs).1)

    visitors-serve :
        (ip : String) (now : ℕ) (incoming : Incoming) (server : Server app buckets)
        → (serve app lib m buckets ip now incoming server).1.visitors
          ≡ (handle buckets ip now server.visitors).1
    unfolding serve
    visitors-serve ip now incoming server = ground arith

    module _ (burst interval : ℕ) (B : TokenBucket buckets burst interval) where
      abbrev AllSeen : ℕ → Server app buckets → Type 0
      AllSeen t server = (ip : String) → Seen buckets burst interval B t (server.visitors ip)

      module _ (short : burst * interval ≤ max_idle buckets) where
        AllSeen-serve_all :
            (t : ℕ) (arrivals : List Arrival) (server : Server app buckets)
            → InOrder t (map event_of arrivals)
            → AllSeen t server
            → AllSeen
                (last_time t (map event_of arrivals))
                (serve_all app lib m buckets arrivals server)
        unfolding serve_all InOrder cleanup
        AllSeen-serve_all t [] server o seen = seen
        AllSeen-serve_all t (ticks now ∷ arrivals) server o seen =
            AllSeen-serve_all now arrivals _ o.1 λ ip.
              Seen-kept buckets burst interval B short now (server.visitors ip)
                (Seen-later buckets burst interval B t now (server.visitors ip) (seen ip) o.0)
        AllSeen-serve_all t (arrives from now incoming ∷ arrivals) server o seen =
            let later : AllSeen now server =
              λ ip. Seen-later buckets burst interval B t now (server.visitors ip) (seen ip) o.0 in
            AllSeen-serve_all now arrivals (serve app lib m buckets from now incoming server).1 o.1
              λ ip. rw (visitors-serve from now incoming server) (
                Seen-handle buckets burst interval B short now from ip server.visitors (later from)
                  (later ip))

    -- In any stretch of a run of requests and ticks, each no earlier than the one before, the
    -- endpoints see the requests that the limiter lets through, in their order, and nothing else; and
    -- of one address they see no more requests than the burst and one for every full interval since
    -- the stretch began. The buckets are token buckets, and one that the cleanup drops has had the
    -- time to fill.
    pub serve_all-admitted :
        (burst interval t : ℕ) (ip : String) (earlier later : List Arrival) (s : State app)
        → TokenBucket buckets burst interval
        → burst * interval ≤ max_idle buckets
        → let server =
            serve_all app lib m buckets earlier (record { state = s; visitors = λ other. none }) in
          let start = last_time t (map event_of earlier) in
          let requests = admitted later server.visitors in
          InOrder t (map event_of earlier)
          → InOrder start (map event_of later)
          → ((serve_all app lib m buckets later server).state ≡ route_all requests server.state)
            × (from ip requests * interval
                ≤ burst * interval + (last_time start (map event_of later) - start))
    serve_all-admitted burst interval t ip earlier later s B short o l =
        let fresh : Server app buckets = record { state = s; visitors = λ other. none } in
        let server = serve_all app lib m buckets earlier fresh in
        let start = last_time t (map event_of earlier) in
        let seen = AllSeen-serve_all burst interval B short t earlier fresh o (λ other. tt) in
        (
          serve_all-route_all later server,
          omega (
            arith,
            from-admitted ip later server.visitors,
            ap (λ x. x * interval) (from-admitted ip later server.visitors),
            left_le buckets burst interval B short start (server.visitors ip) (seen ip),
            passed_le buckets burst interval B short start ip (map event_of later) server.visitors l
                seen,
          ),
        )
