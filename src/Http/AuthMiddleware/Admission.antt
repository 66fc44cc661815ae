-- ===== src/Http/AuthMiddleware/Admission.antt =====
-- From auth.login.go of internal/business/usecases/auth to the auth middleware.
use text.Mathlib.TextLemmas.{nil-append, cons-append, append-nil, append_assoc, cons≢nil}
use go_rest_boilerplate.Base.{
  ℕ, ◌*◌, String, ◌<>◌, Bool, true, false, [], ◌∷◌, ◌≡◌, ◌≢◌, refl, sym, ap, ◌∙◌, arith, str_eq,
  str_eq_refl, str_eq_of_ne, Bool-cases, inl, inr,
}
use go_rest_boilerplate.Apperror.{Error, internal_cause, errorf}
use go_rest_boilerplate.Exec.{ok, map_err}
use go_rest_boilerplate.Exec.Rules.{continue_ok, map_err_ok}
use go_rest_boilerplate.Env.Laws.{SignsTokens, Spaceless, RedisLaws}
use go_rest_boilerplate.Config.{App}
use go_rest_boilerplate.State.{State}
use go_rest_boilerplate.Time.{at, hour, before}
use go_rest_boilerplate.Jwt
use go_rest_boilerplate.Jwt.{Signed, access_claims, add_duration, key_func}
use go_rest_boilerplate.Jwt.Claims.{JwtCustomClaim, TokenPair, kind_access}
use go_rest_boilerplate.Domain.User.{User, is_admin}
use go_rest_boilerplate.Domain.Account.{normalize_email}
use go_rest_boilerplate.Auth.Sessions
use go_rest_boilerplate.Auth.Sessions.{LoginResponse}
use go_rest_boilerplate.Http.AuthMiddleware.{
  AuthMiddleware, next, split_from, split_space, is_revoked, check_privilege, handle_bearer, handle,
}
use go_rest_boilerplate.Redis.Absent.{Absent, get_of_Absent}
use go_rest_boilerplate.Auth.Keys.{token_cutoff_key}

-- The text since the last space grows by a text without any.
split_from-Spaceless : (cur t : String) → Spaceless t → split_from cur t ≡ (cur <> t) ∷ []
unfolding split_from
split_from-Spaceless cur String.[] h = rw append-nil refl
split_from-Spaceless cur (String.◌∷◌ c s) h =
    rw (h.0, split_from-Spaceless (cur <> String.◌∷◌ c String.[]) s h.1)
      (ap (λ x. x ∷ []) (rw (append_assoc, cons-append, nil-append) refl))

-- A word, a space and a rest.
split_from-word :
    (cur w t : String)
    → Spaceless w
    → split_from cur (w <> (" " <> t)) ≡ (cur <> w) ∷ split_from "" t
unfolding split_from
split_from-word cur String.[] t h = rw (nil-append, append-nil, cons-append, nil-append) refl
split_from-word cur (String.◌∷◌ c s) t h =
    rw (cons-append c s, h.0, split_from-word (cur <> String.◌∷◌ c String.[]) s t h.1)
      (ap (λ x. x ∷ split_from "" t) (rw (append_assoc, cons-append, nil-append) refl))

bearer_parts : (t : String) → Spaceless t → split_space ("Bearer " <> t) ≡ "Bearer" ∷ t ∷ []
bearer_parts t h =
    let e : ("Bearer " <> t) ≡ ("Bearer" <> (" " <> t)) = append_assoc "Bearer" " " t in
    rw
      (
        e,
        split_from-word "" "Bearer" t (refl, (refl, (refl, (refl, (refl, (refl, tt)))))),
        split_from-Spaceless "" t h,
        nil-append t,
      )
      refl

append-ne-nil : (s t : String) → s ≢ "" → (s <> t) ≢ ""
append-ne-nil String.[] t h k = absurd (h refl)
append-ne-nil (String.◌∷◌ c s) t h k = cons≢nil (sym (cons-append c s t) ∙ k)

module _ (app : App) where
  -- What `signAccess` signs.
  abbrev pub Mints : String → Bool → String → ℕ → String → String → Type 0
  Mints user_id is_admin email now jti token =
      app.signed_string app.jwt.secret_key (
        access_claims app user_id is_admin email jti (at now)
          (add_duration (at now) (hour * app.jwt.expired)))
      ≡ ok token

  sign_access_ok :
      (user_id : String) (is_admin : Bool) (email : String) (s : State app) {g : Signed}
      {t : State app}
      → Jwt.sign_access app user_id is_admin email s ≡ (ok g, t)
      → (jti : String) × Mints user_id is_admin email (app.now s.world).0 jti g.token
  unfolding Jwt.sign_access Jwt.sign
  sign_access_ok user_id is_admin email s h = ((app.new_uuid (app.now s.world).1).0, ground arith)

  pair_ok :
      (user_id : String) (is_admin : Bool) (email : String) (s : State app) {x : TokenPair}
      {t : State app}
      → Jwt.generate_token_pair app user_id is_admin email s ≡ (ok x, t)
      → (jti : String) × Mints user_id is_admin email (app.now s.world).0 jti x.access_token
  unfolding Jwt.generate_token_pair
  pair_ok user_id is_admin email s h =
      let (a, s1, e1, h1) = continue_ok (Jwt.sign_access app user_id is_admin email s) _ h in
      let (b, s2, e2, h2) = continue_ok (Jwt.sign_refresh app user_id email s1) _ h1 in
      let (jti, m) = sign_access_ok user_id is_admin email s e1 in (jti, ground (arith, m, h2))

  issue_pair_ok :
      (u : User) (s : State app) {x : TokenPair} {t : State app}
      → Sessions.issue_pair app u s ≡ (ok x, t)
      → (jti : String) × Mints u.id (is_admin u) u.email (app.now s.world).0 jti x.access_token
  unfolding Sessions.issue_pair
  issue_pair_ok u s h =
      let f : Error → Error = λ e. internal_cause (errorf "generate token" e) in
      let g : Error → Error = λ e. internal_cause (errorf "persist refresh" e) in
      let mint = Jwt.generate_token_pair app u.id (is_admin u) u.email in
      let (x, s1, e1, h1) = continue_ok (map_err f mint s) _ h in
      let (_, s2, e2, h2) = continue_ok (map_err g (Sessions.remember_refresh app x) s1) _ h1 in
      let (jti, m) = pair_ok u.id (is_admin u) u.email s (map_err_ok f mint e1) in
      (jti, ground (arith, m, h2))

  -- The instant at which Login reads the clock for the access token.
  abbrev pub issued_at : String → String → State app → ℕ
  issued_at e p s =
      let email = normalize_email app e in
      let t = (Sessions.limit_logins app email s).1 in
      (app.now (Sessions.authenticate app email p t).1.world).0

  open_session_ok :
      (e p : String) (s : State app) {r : LoginResponse} {t : State app}
      → Sessions.open_session app e p s ≡ (ok r, t)
      → (jti : String) × Mints r.user.id
          (is_admin r.user)
          r.user.email
          (app.now (Sessions.authenticate app e p s).1.world).0
          jti
          r.access_token
  unfolding Sessions.open_session
  open_session_ok e p s h =
      let (u, s1, e1, h1) = continue_ok (Sessions.authenticate app e p s) _ h in
      let (x, s2, e2, h2) = continue_ok (Sessions.issue_pair app u s1) _ h1 in
      let (jti, m) = issue_pair_ok u s1 e2 in (jti, ground (arith, m, h2, e1))

  login_ok :
      (e p : String) (s : State app) {r : LoginResponse}
      → (Sessions.login app e p s).0 ≡ ok r
      → (jti : String) × Mints r.user.id
          (is_admin r.user)
          r.user.email
          (issued_at e p s)
          jti
          r.access_token
  unfolding Sessions.login
  login_ok e p s {r} h =
      let email = normalize_email app e in
      let t = (Sessions.limit_logins app email s).1 in
      let opened : Sessions.open_session app email p t
          ≡ (ok r, (Sessions.open_session app email p t).1) =
        ground arith in
      open_session_ok email p t opened

  module _ (L : RedisLaws app.env) (J : SignsTokens app.env) where
    parse_token_of_minted :
        (user_id : String) (is_admin : Bool) (email : String) (now : ℕ) (jti token : String)
        (u : State app)
        → Mints user_id is_admin email now jti token
        → before
            (at (app.now u.world).0)
            (app.new_numeric_date (add_duration (at now) (hour * app.jwt.expired)))
          ≡ true
        → (Jwt.parse_token app token u).0
          ≡ ok (
              access_claims app user_id is_admin email jti
                (at now)
                (add_duration (at now) (hour * app.jwt.expired)))
    unfolding Jwt.parse_token Jwt.parse
    parse_token_of_minted user_id is_admin email now jti token u m live =
        let expires = add_duration (at now) (hour * app.jwt.expired) in
        let c = access_claims app user_id is_admin email jti (at now) expires in
        ground (
          arith,
          J.parse-signed (key_func app) app.jwt.secret_key token c (at (app.now u.world).0) (at now)
              expires refl m refl refl live,
          str_eq_refl kind_access,
        )

    not_revoked :
        (m : AuthMiddleware) (c : JwtCustomClaim) (u : State app)
        → Absent app L (token_cutoff_key c.user_id) u
        → (is_revoked app m c u).0 ≡ ok false
    unfolding is_revoked
    not_revoked m c u gone =
        let (e, missing) = get_of_Absent app L (token_cutoff_key c.user_id) u gone in
        ground (arith, missing)

    parse_token-redis :
        (token : String) (u : State app) → (Jwt.parse_token app token u).1.redis ≡ u.redis
    unfolding Jwt.parse_token Jwt.parse
    parse_token-redis token u = ground arith

    permitted :
        (m : AuthMiddleware) (c : JwtCustomClaim)
        → (m.is_admin ≡ true → c.is_admin ≡ true)
        → check_privilege app m c ≡ next c
    unfolding check_privilege
    permitted m c admin = elim (Bool-cases m.is_admin) [
      | inl a ↦ ground (arith, a, admin a)
      | inr a ↦ elim (Bool-cases c.is_admin) [
        | inl b ↦ ground (arith, a, b)
        | inr b ↦ ground (arith, a, b)
      ]
    ]

    bearer_admitted :
        (m : AuthMiddleware) (token : String) (c : JwtCustomClaim) (u : State app)
        → (Jwt.parse_token app token u).0 ≡ ok c
        → Absent app L (token_cutoff_key c.user_id) u
        → (m.is_admin ≡ true → c.is_admin ≡ true)
        → (handle_bearer app m token u).0 ≡ ok (next c)
    unfolding handle_bearer
    bearer_admitted m token c u parsed gone admin =
        let v = (Jwt.parse_token app token u).1 in
        let kept : Absent app L (token_cutoff_key c.user_id) v =
          rw (parse_token-redis token u) gone in
        ground (arith, parsed, not_revoked m c v kept, permitted m c admin)

    header_admitted :
        (m : AuthMiddleware) (token : String) (u : State app)
        → Spaceless token
        → handle app m ("Bearer " <> token) u ≡ handle_bearer app m token u
    unfolding handle
    header_admitted m token u h =
        let filled : str_eq ("Bearer " <> token) "" ≡ false =
          str_eq_of_ne _ _ (append-ne-nil "Bearer " token cons≢nil) in
        rw (filled, bearer_parts token h, str_eq_refl "Bearer") refl

    -- The access token that a successful login returns, sent in the header `Bearer <token>`, gets past
    -- the auth middleware, also in any other state of the server whose clock has not reached the
    -- token's expiry and whose Redis holds no cutoff for the user; the chain goes on with the
    -- identity, the email and the admin flag of the user who logged in. The routes are not for
    -- admins, or the user is one.
    pub login-handle :
        (m : AuthMiddleware) (e p : String) (s u : State app) {r : LoginResponse}
        → (Sessions.login app e p s).0 ≡ ok r
        → before
            (at (app.now u.world).0)
            (app.new_numeric_date (add_duration (at (issued_at e p s)) (hour * app.jwt.expired)))
          ≡ true
        → Absent app L (token_cutoff_key r.user.id) u
        → (m.is_admin ≡ true → is_admin r.user ≡ true)
        → (jti : String) × ((handle app m ("Bearer " <> r.access_token) u).0
            ≡ ok (
                next (
                  access_claims app r.user.id
                    (is_admin r.user)
                    r.user.email
                    jti
                    (at (issued_at e p s))
                    (add_duration (at (issued_at e p s)) (hour * app.jwt.expired)))))
    login-handle m e p s u {r} h live gone admin =
        let (jti, minted) = login_ok e p s h in
        let c =
          access_claims app r.user.id (is_admin r.user) r.user.email jti (at (issued_at e p s))
            (add_duration (at (issued_at e p s)) (hour * app.jwt.expired)) in
        let parsed =
          parse_token_of_minted r.user.id (is_admin r.user) r.user.email (issued_at e p s) jti
            r.access_token u minted live in
        (
          jti,
          ap (λ x. x.0)
                (header_admitted m r.access_token u
                  (J.spaceless app.jwt.secret_key r.access_token c minted))
              ∙ bearer_admitted m r.access_token c u parsed gone admin,
        )
