-- ===== src/Auth/Revocation.antt =====
-- Refresh tokens and reset links that are used up or given back stay unusable, whatever requests
-- follow.
use go_rest_boilerplate.Base.{ℕ, String, List, ◌≡◌, ◌≢◌, refl, sym, arith, ◌∙◌}
use go_rest_boilerplate.Apperror.{unauthorized_error}
use go_rest_boilerplate.Exec.{Result, ok, err}
use go_rest_boilerplate.Env.Laws.{RedisLaws, ConfirmsDel, ClaimsAreFixed}
use go_rest_boilerplate.Config.{App}
use go_rest_boilerplate.State.{State}
use go_rest_boilerplate.Time.{Time, at}
use go_rest_boilerplate.Redis
use go_rest_boilerplate.Redis.Absent.{Absent, Absent-of_frame, get_of_Absent, del-Absent_self}
use go_rest_boilerplate.Frames.Redis as Frame
use go_rest_boilerplate.Jwt
use go_rest_boilerplate.Jwt.Claims.{JwtCustomClaim, Parsed}
use go_rest_boilerplate.Auth.Keys.{refresh_key, password_reset_key}
use go_rest_boilerplate.Auth.Keys.Kinds.{
  session, otp, otp_count, login_count, forgot_count, reset, reset_index, cutoff, key-ne,
  key-injective,
}
use go_rest_boilerplate.Auth.Absence.Parts.{NotCreated}
use go_rest_boilerplate.Auth.Absence.{serve_all-Absent}
use go_rest_boilerplate.Auth.Requests.{Request, serve_all}
use go_rest_boilerplate.Auth.Sessions
use go_rest_boilerplate.Auth.Passwords

-- From here on, no UUID that is drawn is this one. `World` holds the states that the runtime may
-- still come to be in, so the jti may well have been drawn before.
abbrev pub NeverMints : App → String → Type 0
NeverMints app j = (w : app.World) → (app.new_uuid w).0 ≢ j

-- From here on, no reset token that is drawn is this one.
abbrev pub NeverDraws : App → String → Type 0
NeverDraws app t =
    (w : app.World) (buf : List ℕ)
    → (app.read_random Passwords.reset_token_bytes w).0 ≡ ok buf
    → app.base64_url buf ≢ t

module _ (app : App) where
  session-NotCreated : (j : String) → NeverMints app j → NotCreated app (refresh_key j)
  session-NotCreated j fresh = record {
    not_session = λ w h. fresh w (key-injective session session _ j h).1;
    not_reset = λ w buf _. key-ne reset session _ j (λ h. ground arith);
    not_otp = λ x. key-ne otp session x j (λ h. ground arith);
    not_otp_count = λ x. key-ne otp_count session x j (λ h. ground arith);
    not_login_count = λ x. key-ne login_count session x j (λ h. ground arith);
    not_forgot_count = λ x. key-ne forgot_count session x j (λ h. ground arith);
    not_reset_index = λ x. key-ne reset_index session x j (λ h. ground arith);
    not_cutoff = λ x. key-ne cutoff session x j (λ h. ground arith);
  }

  pub reset-NotCreated : (t : String) → NeverDraws app t → NotCreated app (password_reset_key t)
  reset-NotCreated t fresh = record {
    not_session = λ w. key-ne session reset _ t (λ h. ground arith);
    not_reset = λ w buf e h. fresh w buf e (key-injective reset reset _ t h).1;
    not_otp = λ x. key-ne otp reset x t (λ h. ground arith);
    not_otp_count = λ x. key-ne otp_count reset x t (λ h. ground arith);
    not_login_count = λ x. key-ne login_count reset x t (λ h. ground arith);
    not_forgot_count = λ x. key-ne forgot_count reset x t (λ h. ground arith);
    not_reset_index = λ x. key-ne reset_index reset x t (λ h. ground arith);
    not_cutoff = λ x. key-ne cutoff reset x t (λ h. ground arith);
  }

  pub confirmed : (j : String) (v : State app) → ConfirmsDel app.env → (Redis.del app j v).0 ≡ ok tt
  unfolding Redis.del
  confirmed j v h = h j v.redis

  -- What a parsed refresh token carries is what the library read from it.
  parse_refresh_read :
      (t : String) (s : State app) {c : JwtCustomClaim} {u : State app}
      → Jwt.parse_refresh_token app t s ≡ (ok c, u)
      → (n : Time) × (x : Parsed) × (app.parse_with_claims (Jwt.key_func app) n t ≡ ok x)
        × (x.claims ≡ c)
  unfolding Jwt.parse_refresh_token Jwt.parse
  parse_refresh_read t s {c} h = go (app.parse_with_claims (Jwt.key_func app) now t) refl
    where
      now : Time
      now = at (app.now s.world).0

      go :
          (r : Result Parsed)
          → app.parse_with_claims (Jwt.key_func app) now t ≡ r
          → (n : Time) × (x : Parsed) × (app.parse_with_claims (Jwt.key_func app) n t ≡ ok x)
            × (x.claims ≡ c)
      go (ok x) e = (now, x, e, ground arith)
      go (err e) f = absurd (ground arith)

  -- Two readings of one token give one jti.
  same_claims :
      (t : String) (s v : State app) {c e : JwtCustomClaim} {u w : State app}
      → ClaimsAreFixed app.env
      → Jwt.parse_refresh_token app t s ≡ (ok c, u)
      → Jwt.parse_refresh_token app t v ≡ (ok e, w)
      → c ≡ e
  same_claims t s v fixed h k =
      let (n, x, p, e) = parse_refresh_read t s h in
      let (m, y, q, f) = parse_refresh_read t v k in sym e ∙ fixed _ n m t x y p q ∙ f

  module _ (L : RedisLaws app.env) where
    -- A refresh token whose jti is not in Redis is refused.
    refresh_of_Absent :
        (t : String) (s : State app)
        → ((c : JwtCustomClaim) (u : State app)
            → Jwt.parse_refresh_token app t s ≡ (ok c, u)
            → Absent app L (refresh_key c.id) u)
        → (m : String) × ((Sessions.refresh app t s).0 ≡ err (unauthorized_error m))
    unfolding Sessions.refresh Sessions.renew
    refresh_of_Absent t s h = go (Jwt.parse_refresh_token app t s) refl
      where
        go :
            (p : Result JwtCustomClaim × State app)
            → Jwt.parse_refresh_token app t s ≡ p
            → (m : String) × ((Sessions.refresh app t s).0 ≡ err (unauthorized_error m))
        go (err e, u) eq = ("invalid refresh token", ground arith)
        go (ok c, u) eq =
            let (e, missing) = get_of_Absent app L (refresh_key c.id) u (h c u eq) in
            ("refresh token has been revoked", ground arith)

    -- The part of Logout and Refresh that a success leaves behind: the jti is gone.
    logout_gone :
        (t : String) (s : State app)
        → (Sessions.logout app t s).0 ≡ ok tt
        → (c : JwtCustomClaim) × (u : State app) × (Jwt.parse_refresh_token app t s ≡ (ok c, u))
          × Absent app L (refresh_key c.id) (Sessions.logout app t s).1
    unfolding Sessions.logout
    logout_gone t s h = go (Jwt.parse_refresh_token app t s) refl
      where
        go :
            (p : Result JwtCustomClaim × State app)
            → Jwt.parse_refresh_token app t s ≡ p
            → (c : JwtCustomClaim) × (u : State app) × (Jwt.parse_refresh_token app t s ≡ (ok c, u))
              × Absent app L (refresh_key c.id) (Sessions.logout app t s).1
        go (err e, u) eq = absurd (ground arith)
        go (ok c, u) eq =
            (c, u, eq, rw eq (del-Absent_self app L (refresh_key c.id) u (ground arith)))

    -- A refresh that succeeds ends with the deletion of the jti that it was called with.
    refresh_ends :
        (t : String) (s : State app) {r : Sessions.LoginResponse} {w : State app}
        → Sessions.refresh app t s ≡ (ok r, w)
        → (c : JwtCustomClaim) × (u v : State app) × (Jwt.parse_refresh_token app t s ≡ (ok c, u))
          × (w ≡ (Redis.del app (refresh_key c.id) v).1)
    unfolding Sessions.refresh
    refresh_ends t s {r} {w} h = parsing (Jwt.parse_refresh_token app t s) refl
      where
        Ends : Type 0
        Ends =
            (c : JwtCustomClaim) × (u v : State app) × (Jwt.parse_refresh_token app t s ≡ (ok c, u))
            × (w ≡ (Redis.del app (refresh_key c.id) v).1)

        renewing :
            (c : JwtCustomClaim) (u : State app)
            → Jwt.parse_refresh_token app t s ≡ (ok c, u)
            → (p : Result Sessions.LoginResponse × State app) → Sessions.renew app c u ≡ p
            → Ends
        renewing c u eq (err e, v) k = absurd (ground arith)
        renewing c u eq (ok x, v) k = (c, u, v, eq, ground arith)

        parsing :
            (p : Result JwtCustomClaim × State app) → Jwt.parse_refresh_token app t s ≡ p → Ends
        parsing (err e, u) eq = absurd (ground arith)
        parsing (ok c, u) eq = renewing c u eq (Sessions.renew app c u) refl

    -- A jti that is gone stays gone, and its token stays refused, whatever requests follow.
    refused_forever :
        (t : String) (s v : State app) (c : JwtCustomClaim) {u : State app}
        → ClaimsAreFixed app.env
        → Jwt.parse_refresh_token app t s ≡ (ok c, u)
        → NeverMints app c.id
        → Absent app L (refresh_key c.id) v
        → (rs : List Request)
        → (m : String) × ((Sessions.refresh app t (serve_all app rs v)).0
            ≡ err (unauthorized_error m))
    refused_forever t s v c fixed parsed fresh gone rs =
        let created = session-NotCreated c.id fresh in
        let end = serve_all app rs v in
        let later = serve_all-Absent app L (refresh_key c.id) created rs v gone in
        refresh_of_Absent t end λ e x again.
          let still =
            (Absent-of_frame app L (refresh_key c.id) (Jwt.parse_refresh_token app t)
                (λ d. Frame.parse_refresh_token-RedisIs t)).at
              end later in
          let same = same_claims t s end fixed parsed again in rw (← same) (rw again at still)

    -- After a logout that succeeds, the refresh token is refused with a 401, whatever requests
    -- follow, as long as no later draw of a UUID gives its jti. Redis obeys its documented laws,
    -- also where commands fail and keys expire, and the claims of a token do not depend on when it
    -- is parsed.
    pub refresh-logout :
        (t : String) (s : State app)
        → ClaimsAreFixed app.env
        → (Sessions.logout app t s).0 ≡ ok tt
        → ((c : JwtCustomClaim) (u : State app)
            → Jwt.parse_refresh_token app t s ≡ (ok c, u)
            → NeverMints app c.id)
        → (rs : List Request)
        → (m : String) × ((Sessions.refresh app t (serve_all app rs (Sessions.logout app t s).1)).0
            ≡ err (unauthorized_error m))
    refresh-logout t s fixed done fresh rs =
        let (c, u, parsed, gone) = logout_gone t s done in
        refused_forever t s (Sessions.logout app t s).1 c fixed parsed (fresh c u parsed) gone rs

    -- A refresh token works once: after a refresh that succeeds, the same token is refused with a
    -- 401, whatever requests follow, as long as no later draw of a UUID gives its jti. Redis obeys
    -- its documented laws and confirms every deletion, and the claims of a token do not depend on
    -- when it is parsed.
    pub refresh-refresh :
        (t : String) (s w : State app) {r : Sessions.LoginResponse}
        → ClaimsAreFixed app.env
        → ConfirmsDel app.env
        → Sessions.refresh app t s ≡ (ok r, w)
        → ((c : JwtCustomClaim) (u : State app)
            → Jwt.parse_refresh_token app t s ≡ (ok c, u)
            → NeverMints app c.id)
        → (rs : List Request)
        → (m : String) × ((Sessions.refresh app t (serve_all app rs w)).0
            ≡ err (unauthorized_error m))
    refresh-refresh t s w fixed confirms done fresh rs =
        let (c, u, v, parsed, last) = refresh_ends t s done in
        let gone =
          del-Absent_self app L (refresh_key c.id) v (confirmed (refresh_key c.id) v confirms) in
        refused_forever t s w c fixed parsed (fresh c u parsed) (rw (← last) at gone) rs
