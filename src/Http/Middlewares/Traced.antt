-- ===== src/Http/Middlewares/Traced.antt =====
-- One id joins the answer, the log and the client's request.
use mathlib.Core.Path.{subst}
use go_rest_boilerplate.Base.{
  String, Bool, false, Option, none, some, List, [], ◌∷◌, ◌≡◌, refl, sym, arith, ap, ◌∙◌, str_eq,
  str_eq_refl, str_eq→eq, Bool-cases, inl, inr, if◌then◌else◌,
}
use go_rest_boilerplate.Exec.{ok}
use go_rest_boilerplate.Config.{App}
use go_rest_boilerplate.State.{State}
use go_rest_boilerplate.Logger.{
  Library, Level, Field, Fields, Logger, Stack, log_with_context, logf_with_context,
}
use go_rest_boilerplate.Logger.Correlation.{Carry, request, log-Carry}
use go_rest_boilerplate.Http.Middlewares.{
  Header, set, get, security_headers, Correlated, request_id_middleware, setup_router,
}

get-set_self : (k v : String) (h : Header) → get k (set k v h) ≡ some v
unfolding get set
get-set_self k v [] = ground (arith, str_eq_refl k)
get-set_self k v ((j, w) ∷ h) = elim (Bool-cases (str_eq j k)) [
  | inl e ↦ rw e (rw (str_eq_refl k) refl)
  | inr e ↦ rw e (rw e (get-set_self k v h))
]

get-set_other : (k j v : String) (h : Header) → str_eq j k ≡ false → get k (set j v h) ≡ get k h
unfolding get set
get-set_other k j v [] n = ground (arith, n)
get-set_other k j v ((i, w) ∷ h) n = elim (Bool-cases (str_eq i j)) [
  | inl e ↦ rw e (rw n (rw (ap (λ x. str_eq x k) (str_eq→eq i j e) ∙ n) refl))
  | inr e ↦ rw e (ap (λ x. if str_eq i k then some w else x) (get-set_other k j v h n))
]

-- No security header is called like the request id's.
others :
    (str_eq "X-Content-Type-Options" "X-Request-ID" ≡ false)
    × (str_eq "X-Frame-Options" "X-Request-ID" ≡ false)
    × (str_eq "Referrer-Policy" "X-Request-ID" ≡ false)
    × (str_eq "Content-Security-Policy" "X-Request-ID" ≡ false)
    × (str_eq "Permissions-Policy" "X-Request-ID" ≡ false)
    × (str_eq "Strict-Transport-Security" "X-Request-ID" ≡ false)
unfolding str_eq
others = (refl, refl, refl, refl, refl, refl)

security_headers-get :
    (is_production : Bool) (h : Header)
    → get "X-Request-ID" (security_headers is_production h) ≡ get "X-Request-ID" h
unfolding security_headers
security_headers-get is_production h =
    let (a, b, c, d, e, f) = others in
    let id : String = "X-Request-ID" in
    let h1 = set "X-Content-Type-Options" "nosniff" h in
    let h2 = set "X-Frame-Options" "DENY" h1 in
    let h3 = set "Referrer-Policy" "strict-origin-when-cross-origin" h2 in
    let h4 = set "Content-Security-Policy" "default-src 'none'; frame-ancestors 'none'" h3 in
    let permissions : String =
      "accelerometer=(), camera=(), geolocation=(), gyroscope=(), magnetometer=(), microphone=(), payment=(), usb=()" in
    let h5 = set "Permissions-Policy" permissions h4 in
    let same : get id h5 ≡ get id h =
      get-set_other id "Permissions-Policy" permissions h4 e
      ∙ get-set_other id "Content-Security-Policy" "default-src 'none'; frame-ancestors 'none'" h3 d
      ∙ get-set_other id "Referrer-Policy" "strict-origin-when-cross-origin" h2 c
      ∙ get-set_other id "X-Frame-Options" "DENY" h1 b
      ∙ get-set_other id "X-Content-Type-Options" "nosniff" h a in
    elim (Bool-cases is_production) [
      | inl p ↦ rw p (
          get-set_other id "Strict-Transport-Security" "max-age=31536000; includeSubDomains" h5 f
          ∙ same)
      | inr p ↦ rw p same
    ]

un : {A : Type 0} {a b : A} → ok a ≡ ok b → a ≡ b
un h = ground (arith, h)

module _ (app : App) where
  -- The id of a request: its own, or a new one.
  abbrev pub id_of : String → State app → String
  id_of header s = if str_eq header "" then (app.new_uuid s.world).0 else header

  setup_router_lem :
      (is_production : Bool) (header : String) (trace_id : Option String) (s : State app)
      → (setup_router app is_production header trace_id s).0
        ≡ ok (record {
          headers = security_headers is_production (set "X-Request-ID" (id_of header s) []);
          context = record { trace_id = trace_id; request_id = some (id_of header s) };
        })
  unfolding setup_router request_id_middleware
  setup_router_lem is_production header trace_id s = elim (Bool-cases (str_eq header "")) [
    | inl e ↦ rw e refl
    | inr e ↦ rw e refl
  ]

  -- A request comes out of the router's first steps with one id, its own or, where it brings none, a
  -- new one: the answer's header X-Request-ID is that id, whatever the security headers add, and so is
  -- the request id in every entry that the rest of the chain logs with the request's context, on any
  -- logger. A new id is not empty.
  pub setup_router-Carry :
      (is_production : Bool) (header : String) (trace_id : Option String) (s : State app)
      → str_eq (id_of header s) "" ≡ false
      → {c : Correlated app} → (setup_router app is_production header trace_id s).0 ≡ ok c
      → (lib : Library) (l : Logger lib) (level : Level) (msg : String) (more : List (Fields lib))
        (args : List lib.Value) (stack : Stack)
      → let x : Field lib = ("request_id", lib.string (id_of header s)) in
        (get "X-Request-ID" c.headers ≡ some (id_of header s))
        × Carry lib x (log_with_context lib l level (some c.context) msg more stack).entries
        × Carry lib x (logf_with_context lib l level (some c.context) msg args stack).entries
  setup_router-Carry is_production header trace_id s filled {c} h lib l level msg more args stack =
      let id = id_of header s in
      let made : Correlated app = record {
        headers = security_headers is_production (set "X-Request-ID" id []);
        context = record { trace_id = trace_id; request_id = some id };
      } in
      let same : made ≡ c = un (sym (setup_router_lem is_production header trace_id s) ∙ h) in
      let carried =
        log-Carry lib l made.context ("request_id", lib.string id) (request trace_id id filled) []
          level none msg more args stack in
      let echoed : get "X-Request-ID" made.headers ≡ some id =
        security_headers-get is_production (set "X-Request-ID" id [])
        ∙ get-set_self "X-Request-ID" id [] in
      (
        ap (λ z. get "X-Request-ID" z.headers) (sym same) ∙ echoed,
        subst
            (λ z.
              Carry lib ("request_id", lib.string id)
                (log_with_context lib l level (some z.context) msg more stack).entries)
            same carried.0,
        subst
            (λ z.
              Carry lib ("request_id", lib.string id)
                (logf_with_context lib l level (some z.context) msg args stack).entries)
            same carried.1,
      )
