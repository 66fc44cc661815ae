-- ===== src/Http/Middlewares.antt =====
-- The middleware that setupRouter of cmd/api/server/server.go puts in front of every route, of
-- internal/http/middlewares: the request id, the security headers and the settings for CORS, the label
-- and the line that metrics and the access log make of a request; and the two answers of
-- handlers/v1/handler.health.go. What gin-contrib/cors and Prometheus do with theirs, and the cap on
-- the body, which depends on how far gin reads, are left out.
pub mod Traced
use go_rest_boilerplate.Base.{
  ℕ, ◌*◌, String, ◌<>◌, Bool, true, false, ◌&&◌, Option, none, some, List, [], ◌∷◌, leb, str_eq,
  if◌then◌else◌,
}
use go_rest_boilerplate.Apperror.{Error, error_text}
use go_rest_boilerplate.Exec.{Exec, Result, ok, err, pure, ◌>>=◌}
use go_rest_boilerplate.Config.{App}
use go_rest_boilerplate.State.{State, draw}
use go_rest_boilerplate.Time.{hour}
use go_rest_boilerplate.Logger.{Context}

-- `http.Header`, with one value for each name.
abbrev pub Header : Type 0
Header = List (String × String)

-- `h.Set(key, value)`
unfoldable pub set : String → String → Header → Header
set key value [] = (key, value) ∷ []
set key value ((k, v) ∷ h) =
    let rest = set key value h in if str_eq k key then (key, value) ∷ h else (k, v) ∷ rest

-- `h.Get(key)`, for a name that is there.
unfoldable pub get : String → Header → Option String
get key [] = none
get key ((k, v) ∷ h) = let rest = get key h in if str_eq k key then some v else rest

-- The security headers, in production one more.
unfoldable pub security_headers : Bool → Header → Header
security_headers is_production h =
    let g =
      set "Permissions-Policy"
        "accelerometer=(), camera=(), geolocation=(), gyroscope=(), magnetometer=(), microphone=(), payment=(), usb=()"
        (set "Content-Security-Policy" "default-src 'none'; frame-ancestors 'none'" (
          set "Referrer-Policy" "strict-origin-when-cross-origin"
            (set "X-Frame-Options" "DENY" (set "X-Content-Type-Options" "nosniff" h)))) in
    if is_production
    then set "Strict-Transport-Security" "max-age=31536000; includeSubDomains" g
    else g

-- `cors.Config`, as far as it depends on the settings.
pub record CorsConfig : Type 0 where
  pub allow_origins : List String
  pub allow_credentials : Bool
  pub max_age : ℕ

abbrev is_wildcard : List String → Bool
is_wildcard (origin ∷ []) = str_eq origin "*"
is_wildcard _ = false

unfoldable pub cors_config : List String → CorsConfig
cors_config origins = record {
  allow_origins = origins;
  allow_credentials = if is_wildcard origins then false else true;
  max_age = 12 * hour;
}

-- The label of a request's path in the metrics.
unfoldable pub metrics_path : String → String
metrics_path full_path = if str_eq full_path "" then "unknown" else full_path

unfoldable pub access_log_color : ℕ → String
access_log_color status = if leb 500 status then "41" else if leb 400 status then "43" else "42"

abbrev dash_or : Option String → String
dash_or none = "-"
dash_or (some id) = if str_eq id "" then "-" else id

-- What gin knows of a request that was answered, the numbers and times as texts.
pub record LogFormatterParams : Type 0 where
  pub time_stamp : String
  pub request_id : Option String
  pub status_code : ℕ
  pub status_text : String
  pub method : String
  pub path : String
  pub latency : String
  pub client_ip : String
  pub error_message : String
  pub user_agent : String

unfoldable pub access_log_formatter : String → String → LogFormatterParams → String
access_log_formatter esc newline p =
    "[LOGGING HTTP] ["
    <> (p.time_stamp
        <> ("] req="
            <> (dash_or p.request_id
                <> (" "
                    <> (esc
                        <> ("["
                            <> (access_log_color p.status_code
                                <> ("m "
                                    <> (p.status_text
                                        <> (" "
                                            <> (esc
                                                <> ("[0m "
                                                    <> (p.method
                                                        <> (" "
                                                            <> (p.path
                                                            <> (" "
                                                            <> (p.latency
                                                            <> (" "
                                                            <> (p.client_ip
                                                            <> (" "
                                                            <> (p.error_message
                                                            <> (" "
                                                            <> (p.user_agent
                                                            <> newline)))))))))))))))))))))))

module _ (app : App) where
  -- What the request id's middleware leaves behind: the answer's headers, and the context in which the
  -- rest of the chain logs.
  pub record Correlated : Type 0 where
    pub headers : Header
    pub context : Context

  abbrev request_id : String → Exec (State app) String
  request_id header = if str_eq header "" then draw app.new_uuid else pure header

  -- `RequestIDMiddleware`, for the id that the request brings and that of its span, if it has one.
  unfoldable pub request_id_middleware :
      String → Option String → Header → Exec (State app) Correlated
  request_id_middleware header trace_id h = do
    id ← request_id header
    pure (record {
      headers = set "X-Request-ID" id h;
      context = record { trace_id = trace_id; request_id = some id };
    })

  -- The part of `setupRouter` that sets headers, in its order.
  unfoldable pub setup_router : Bool → String → Option String → Exec (State app) Correlated
  setup_router is_production header trace_id = do
    r ← request_id_middleware header trace_id []
    pure (record r { headers = security_headers is_production r.headers })

-- `HealthHandler.Ready`: the status and what it says of each part.
pub record Readiness : Type 0 where
  pub status : ℕ
  pub healthy : Bool
  pub checks : List (String × String)

abbrev answers : Result (Unit {0}) → Bool
answers (ok u) = true
answers (err e) = false

abbrev checked : Result (Unit {0}) → String
checked (ok u) = "ok"
checked (err e) = "unreachable: " <> error_text e

abbrev readiness : Bool → List (String × String) → Readiness
readiness healthy checks = record {
  status = if healthy then 200 else 503;
  healthy = healthy;
  checks = checks;
}

-- The ping of the database, and that of Redis where there is a client.
unfoldable pub ready : Result (Unit {0}) → Option (Result (Unit {0})) → Readiness
ready db none = readiness (answers db) (("database", checked db) ∷ [])
ready db (some redis) =
    readiness (answers db && answers redis)
      (("database", checked db) ∷ ("redis", checked redis) ∷ [])
