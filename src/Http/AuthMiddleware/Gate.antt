-- ===== src/Http/AuthMiddleware/Gate.antt =====
-- Who gets past the auth middleware.
use mathlib.Core.Path.{subst}
use go_rest_boilerplate.Base.{
  ℤ, String, true, false, not, ◌&&◌, Option, none, some, List, [], ◌∷◌, ◌≡◌, ◌⊎◌, refl, arith,
  str_eq, str_eq→eq, Bool-cases, inl, inr,
}
use go_rest_boilerplate.Base.Int.{lt_ℤ}
use go_rest_boilerplate.Exec.{Result, ok, err}
use go_rest_boilerplate.Time.{Time, unix}
use go_rest_boilerplate.Redis
use go_rest_boilerplate.Auth.Keys.{token_cutoff_key}
use go_rest_boilerplate.Frames.Redis.{parse_token-RedisIs}
use go_rest_boilerplate.Jwt.Accepted.{IsSigned, parse_token_ok}
use go_rest_boilerplate.Config.{App}
use go_rest_boilerplate.State.{State}
use go_rest_boilerplate.Jwt
use go_rest_boilerplate.Jwt.Claims.{JwtCustomClaim}
use go_rest_boilerplate.Http.AuthMiddleware.{
  AuthMiddleware, next, split_space, is_before, is_revoked_since, is_revoked, check_privilege,
  handle_bearer, handle, handle_parts,
}

module _ (app : App) where
  abbrev pub Uncut : Time → Option ℤ → Type 0
  Uncut issued none = Unit
  Uncut issued (some cutoff) = lt_ℤ (unix issued) cutoff ≡ false

  -- A token of this time of issue outlives what Redis answers for the user's cutoff. It does where it
  -- has no such time, and where the answer is an error, an empty text or no number.
  abbrev pub Outlives : Option Time → Result String → Type 0
  Outlives none r = Unit
  Outlives (some issued) (err e) = Unit
  Outlives (some issued) (ok v) = (v ≡ "") ⊎ Uncut issued (app.parse_int v)

  get-redis :
      (k : String) (s t : State app)
      → t.redis ≡ s.redis
      → (Redis.get app k t).0 ≡ (Redis.get app k s).0
  unfolding Redis.get
  get-redis k s t h = ground (arith, h)

  not_cut :
      (issued : Time) (v : String)
      → (not (str_eq v "") && is_before app (unix issued) (app.parse_int v)) ≡ false
      → (v ≡ "") ⊎ Uncut issued (app.parse_int v)
  not_cut issued v h = elim (Bool-cases (str_eq v "")) [
    | inl e ↦ inl (str_eq→eq v "" e)
    | inr e ↦ inr (uncut (app.parse_int v) (ground (arith, h, e)))
  ]
    where
      uncut : (n : Option ℤ) → is_before app (unix issued) n ≡ false → Uncut issued n
      uncut none k = tt
      uncut (some n) k = k

module _ (app : App) (m : AuthMiddleware) where
  outlives :
      (c : JwtCustomClaim) (s : State app)
      → (is_revoked app m c s).0 ≡ ok false
      → (m.has_redis ≡ false)
        ⊎ Outlives app c.issued_at (Redis.get app (token_cutoff_key c.user_id) s).0
  unfolding is_revoked
  outlives c s h = elim (Bool-cases m.has_redis) [
    | inl e ↦ inr (by_time c.issued_at (rw e at h))
    | inr e ↦ inl e
  ]
    where
      key : String
      key = token_cutoff_key c.user_id

      by_time :
          (issued : Option Time)
          → (is_revoked_since app c issued s).0 ≡ ok false
          → Outlives app issued (Redis.get app key s).0
      by_time none k = tt
      by_time (some t) k = by_answer (Redis.get app key s).0 refl
        where
          by_answer : (r : Result String) → (Redis.get app key s).0 ≡ r → Outlives app (some t) r
          by_answer (err e) q = tt
          by_answer (ok v) q = not_cut app t v (ground (arith, k, q))

  -- Behind the header's form: the claims are those of the token, and pass every check.
  bearer-next :
      (token : String) (s : State app) {c : JwtCustomClaim}
      → (handle_bearer app m token s).0 ≡ ok (next c)
      → ((Jwt.parse_token app token s).0 ≡ ok c)
        × ((is_revoked app m c (Jwt.parse_token app token s).1).0 ≡ ok false)
        × (m.is_admin ≡ true → c.is_admin ≡ true)
  unfolding handle_bearer check_privilege
  bearer-next token s h = ground arith

  -- The chain goes on only for a header `Bearer <token>` whose token is validly signed and of the
  -- kind of access tokens, or of none, was not issued in a second before its user's cutoff, where
  -- the middleware has a Redis and it answers one, and belongs to an admin where the routes are for
  -- admins; and it goes on with the claims of that very token.
  pub handle-next :
      (header : String) (s : State app) {c : JwtCustomClaim}
      → (handle app m header s).0 ≡ ok (next c)
      → (token : String) × (split_space header ≡ "Bearer" ∷ token ∷ [])
        × IsSigned app token s c
        × ((c.kind ≡ "access") ⊎ (c.kind ≡ ""))
        × ((m.has_redis ≡ false)
            ⊎ Outlives app c.issued_at (Redis.get app (token_cutoff_key c.user_id) s).0)
        × (m.is_admin ≡ true → c.is_admin ≡ true)
  unfolding handle
  handle-next header s {c} h = by_parts (split_space header) refl (ground arith)
    where
      cutoff : State app → Result String
      cutoff t = (Redis.get app (token_cutoff_key c.user_id) t).0

      Admitted : Type 0
      Admitted =
          (token : String) × (split_space header ≡ "Bearer" ∷ token ∷ [])
          × IsSigned app token s c
          × ((c.kind ≡ "access") ⊎ (c.kind ≡ ""))
          × ((m.has_redis ≡ false) ⊎ Outlives app c.issued_at (cutoff s))
          × (m.is_admin ≡ true → c.is_admin ≡ true)

      by_parts :
          (ps : List String)
          → split_space header ≡ ps
          → (handle_parts app m ps s).0 ≡ ok (next c)
          → Admitted
      by_parts (scheme ∷ token ∷ []) e k = elim (Bool-cases (str_eq scheme "Bearer")) [
        | inl bearer ↦
            let (parsed, live, admin) = bearer-next token s (rw bearer at k) in
            let u = (Jwt.parse_token app token s).1 in
            let (signed, kind) = parse_token_ok app token s parsed in
            let read : cutoff u ≡ cutoff s =
              get-redis app (token_cutoff_key c.user_id) s u
                ((parse_token-RedisIs token).at s refl) in
            (
              token,
              rw (str_eq→eq scheme "Bearer" bearer) at e,
              signed,
              kind,
              subst (λ r. (m.has_redis ≡ false) ⊎ Outlives app c.issued_at r) read
                  (outlives c u live),
              admin,
            )
        | inr bad ↦ absurd (ground arith)
      ]
      by_parts [] e k = absurd (ground arith)
      by_parts (a ∷ []) e k = absurd (ground arith)
      by_parts (a ∷ b ∷ d ∷ ps) e k = absurd (ground arith)
