-- ===== src/Auth/Soundness.antt =====
-- What it takes to be given a session.
pub mod Codes
use go_rest_boilerplate.Base.{
  String, Option, none, some, ◌≤◌, Bool, true, false, ◌≡◌, refl, arith, ap,
}
use go_rest_boilerplate.Exec.{Result, ok, err}
use go_rest_boilerplate.Config.{App}
use go_rest_boilerplate.State.{State}
use go_rest_boilerplate.Domain.User.{User}
use go_rest_boilerplate.Domain.Account.{normalize_email, verify_password}
use go_rest_boilerplate.Redis
use go_rest_boilerplate.Users
use go_rest_boilerplate.Jwt
use go_rest_boilerplate.Time.{Time, zero_time, at}
use go_rest_boilerplate.Jwt.Accepted.{IsSigned, parse_refresh_token_ok}
use go_rest_boilerplate.Jwt.Claims.{JwtCustomClaim}
use go_rest_boilerplate.Auth.Keys.{refresh_key}
use go_rest_boilerplate.Auth.Attempts.{limit_attempts_if_positive}
use go_rest_boilerplate.Auth.Sessions
use go_rest_boilerplate.Auth.Sessions.{LoginResponse, is_rotated_away}

-- A time of issue, where there is one, is not before the change of a password, where there was one.
-- The zero time stands for none, and is before every other.
abbrev pub IssuedSince : Option Time → Option Time → Type 0
IssuedSince (some (at changed)) (some (at issued)) = changed ≤ issued
IssuedSince (some (at changed)) (some zero_time) = ⊥
IssuedSince _ _ = Unit

module _ (app : App) where
  authenticate_ok :
      (e p : String) (s : State app) {u : User}
      → (Sessions.authenticate app e p s).0 ≡ ok u
      → ((Users.get_by_email app e s).0 ≡ ok u)
        × (u.active ≡ true)
        × (verify_password app u p ≡ true)
  unfolding Sessions.authenticate
  authenticate_ok e p s h = ground arith

  open_session_ok :
      (e p : String) (s : State app) {r : LoginResponse}
      → (Sessions.open_session app e p s).0 ≡ ok r
      → (Sessions.authenticate app e p s).0 ≡ ok r.user
  unfolding Sessions.open_session
  open_session_ok e p s h = ground arith

  -- A login that succeeds was let through by the lockout, and then found, under the normalised
  -- email, an active account whose password is the one given; the response is about that account.
  pub login_sound :
      (e p : String) (s : State app) {r : LoginResponse}
      → (Sessions.login app e p s).0 ≡ ok r
      → (t : State app) × (Sessions.limit_logins app (normalize_email app e) s ≡ (ok tt, t))
        × ((Users.get_by_email app (normalize_email app e) t).0 ≡ ok r.user)
        × (r.user.active ≡ true)
        × (verify_password app r.user p ≡ true)
  unfolding Sessions.login
  login_sound e p s {r} h =
      let email = normalize_email app e in
      let t = (Sessions.limit_logins app email s).1 in
      let opened : (Sessions.open_session app email p t).0 ≡ ok r = ground arith in
      let (found, active, verified) =
        authenticate_ok email p t (open_session_ok email p t opened) in
      (t, ground arith, found, active, verified)

  renew_ok :
      (c : JwtCustomClaim) (s : State app) {r : LoginResponse}
      → (Sessions.renew app c s).0 ≡ ok r
      → (r.user.active ≡ true)
        × (is_rotated_away r.user c ≡ false)
        × ((v : String) × ((Redis.get app (refresh_key c.id) s).0 ≡ ok v))
        × ((Users.get_by_email app c.email (Redis.get app (refresh_key c.id) s).1).0 ≡ ok r.user)
  unfolding Sessions.renew
  renew_ok c s h = ground arith

  -- What the test of the rotation lets through.
  is_rotated_away-false :
      (u : User) (c : JwtCustomClaim)
      → is_rotated_away u c ≡ false
      → IssuedSince u.password_changed_at c.issued_at
  unfolding is_rotated_away
  is_rotated_away-false u c h = since u.password_changed_at c.issued_at h
    where
      since :
          (changed issued : Option Time)
          → is_rotated_away
              (record u { password_changed_at = changed })
              (record c { issued_at = issued })
            ≡ false
          → IssuedSince changed issued
      since none issued k = tt
      since (some zero_time) issued k = tt
      since (some (at d)) none k = tt
      since (some (at d)) (some zero_time) k = absurd (ground (arith, k))
      since (some (at d)) (some (at i)) k = ground (arith, k)

  -- A refresh that succeeds was given a token that is validly signed and of the kind of refresh
  -- tokens, whose jti has an entry in Redis, and whose email is that of an active account, as the
  -- lookup, which the cache may answer, has it; the token's time of issue, where it has one, is not
  -- before the account's last change of password; and the response is about that account.
  pub refresh_sound :
      (t : String) (s : State app) {r : LoginResponse}
      → (Sessions.refresh app t s).0 ≡ ok r
      → (c : JwtCustomClaim) × (u : State app) × (Jwt.parse_refresh_token app t s ≡ (ok c, u))
        × IsSigned app t s c
        × (c.kind ≡ "refresh")
        × (r.user.active ≡ true)
        × IssuedSince r.user.password_changed_at c.issued_at
        × ((v : String) × ((Redis.get app (refresh_key c.id) u).0 ≡ ok v))
        × ((Users.get_by_email app c.email (Redis.get app (refresh_key c.id) u).1).0 ≡ ok r.user)
  unfolding Sessions.refresh
  refresh_sound t s {r} h = by_claims (Jwt.parse_refresh_token app t s) refl
    where
      Sound : Type 0
      Sound =
          (c : JwtCustomClaim) × (u : State app) × (Jwt.parse_refresh_token app t s ≡ (ok c, u))
          × IsSigned app t s c
          × (c.kind ≡ "refresh")
          × (r.user.active ≡ true)
          × IssuedSince r.user.password_changed_at c.issued_at
          × ((v : String) × ((Redis.get app (refresh_key c.id) u).0 ≡ ok v))
          × ((Users.get_by_email app c.email (Redis.get app (refresh_key c.id) u).1).0 ≡ ok r.user)

      by_claims :
          (p : Result JwtCustomClaim × State app) → Jwt.parse_refresh_token app t s ≡ p → Sound
      by_claims (err e, u) k = absurd (ground arith)
      by_claims (ok c, u) k =
          let renewed : (Sessions.renew app c u).0 ≡ ok r = ground arith in
          let (active, kept, live, found) = renew_ok c u renewed in
          let (signed, kind) = parse_refresh_token_ok app t s (ap (λ x. x.0) k) in
          (c, u, k, signed, kind, active, is_rotated_away-false r.user c kept, live, found)
