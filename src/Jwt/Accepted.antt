-- ===== src/Jwt/Accepted.antt =====
-- What ParseToken and ParseRefreshToken of pkg/jwt/jwt.go accept.
use go_rest_boilerplate.Base.{
  String, true, ◌≡◌, ◌⊎◌, inl, inr, refl, arith, str_eq, str_eq→eq, Bool-cases,
}
use go_rest_boilerplate.Exec.{Result, ok, err}
use go_rest_boilerplate.Config.{App}
use go_rest_boilerplate.State.{State}
use go_rest_boilerplate.Time.{Time, at}
use go_rest_boilerplate.Jwt
use go_rest_boilerplate.Jwt.{key_func}
use go_rest_boilerplate.Jwt.Claims.{JwtCustomClaim, Parsed, kind_access, kind_refresh}

module _ (app : App) where
  -- golang-jwt finds the token valid at the time of the clock, under the key that the server gives
  -- for an HMAC, and reads these claims in it.
  abbrev pub IsSigned : String → State app → JwtCustomClaim → Type 0
  IsSigned t s c =
      app.parse_with_claims (key_func app) (at (app.now s.world).0) t
      ≡ ok (record { claims = c; valid = true })

  parse_ok :
      (t : String) (s : State app) {c : JwtCustomClaim}
      → (Jwt.parse app t s).0 ≡ ok c
      → IsSigned t s c
  unfolding Jwt.parse
  parse_ok t s {c} h = by_result (app.parse_with_claims (key_func app) now t) refl
    where
      now : Time
      now = at (app.now s.world).0

      by_result :
          (r : Result Parsed) → app.parse_with_claims (key_func app) now t ≡ r → IsSigned t s c
      by_result (err x) e = absurd (ground (arith, e, h))
      by_result (ok token) e = elim (Bool-cases token.valid) [
        | inl v ↦
            let same : token.claims ≡ c = ground (arith, e, h, v) in ground (arith, e, same, v)
        | inr v ↦ absurd (ground (arith, e, h, v))
      ]

  pub parse_token_ok :
      (t : String) (s : State app) {c : JwtCustomClaim}
      → (Jwt.parse_token app t s).0 ≡ ok c
      → IsSigned t s c × ((c.kind ≡ "access") ⊎ (c.kind ≡ ""))
  unfolding Jwt.parse_token
  parse_token_ok t s {c} h =
      let parsed : (Jwt.parse app t s).0 ≡ ok c = ground arith in
      (
        parse_ok t s parsed,
        elim (Bool-cases (str_eq c.kind "")) [
          | inl e ↦ inr (str_eq→eq c.kind "" e)
          | inr e ↦ inl (str_eq→eq c.kind kind_access (ground arith))
        ],
      )

  pub parse_refresh_token_ok :
      (t : String) (s : State app) {c : JwtCustomClaim}
      → (Jwt.parse_refresh_token app t s).0 ≡ ok c
      → IsSigned t s c × (c.kind ≡ "refresh")
  unfolding Jwt.parse_refresh_token
  parse_refresh_token_ok t s {c} h =
      let parsed : (Jwt.parse app t s).0 ≡ ok c = ground arith in
      (parse_ok t s parsed, str_eq→eq c.kind kind_refresh (ground arith))
