-- ===== src/Tests/Tokens.antt =====
-- Refresh tokens, reset tokens: the examples.
use go_rest_boilerplate.Base.{String, true, false, ◌≡◌, refl, ap, ◌∙◌, arith, str_eq}
use go_rest_boilerplate.Apperror.{unauthorized_error}
use go_rest_boilerplate.Exec.{ok, err}
use go_rest_boilerplate.State.{State}
use go_rest_boilerplate.Records.{to_domain}
use go_rest_boilerplate.Redis
use go_rest_boilerplate.Ristretto
use go_rest_boilerplate.Users
use go_rest_boilerplate.Repository
use go_rest_boilerplate.Repository.Table.{is_live}
use go_rest_boilerplate.Jwt
use go_rest_boilerplate.Jwt.Claims.{JwtCustomClaim}
use go_rest_boilerplate.Auth.Keys.{refresh_key}
use go_rest_boilerplate.Auth.Sessions
use go_rest_boilerplate.Auth.Sessions.{is_rotated_away}
use go_rest_boilerplate.Auth.Requests.{serve_all}
use go_rest_boilerplate.Auth.Revocation.{NeverMints, refresh-logout, refresh-refresh}
use go_rest_boilerplate.Auth.Soundness.{IssuedSince, refresh_sound}
use go_rest_boilerplate.Jwt.Accepted.{IsSigned}
use go_rest_boilerplate.Tests.Environment.{redis_laws, confirms_del, claims_are_fixed}
use go_rest_boilerplate.Tests.Fixture.{app, row, start, later, differ}

uuid_differs : str_eq "uuid" "jti" ≡ false
unfolding str_eq
uuid_differs = refl

logged_out : (Sessions.logout app "refresh" (start true 0)).0 ≡ ok tt
unfolding Sessions.logout Jwt.parse_refresh_token Jwt.parse Redis.del str_eq
logged_out = refl

jti_of_token :
    (c : JwtCustomClaim) (u : State app)
    → Jwt.parse_refresh_token app "refresh" (start true 0) ≡ (ok c, u)
    → c.id ≡ "jti"
unfolding Jwt.parse_refresh_token Jwt.parse str_eq
jti_of_token c u h = ground arith

fresh :
    (c : JwtCustomClaim) (u : State app)
    → Jwt.parse_refresh_token app "refresh" (start true 0) ≡ (ok c, u)
    → NeverMints app c.id
fresh c u h w e = differ "uuid" "jti" uuid_differs (e ∙ jti_of_token c u h)

refresh-logout_example :
    (m : String) × ((Sessions.refresh app "refresh"
        (serve_all app later (Sessions.logout app "refresh" (start true 0)).1)).0
      ≡ err (unauthorized_error m))
refresh-logout_example =
    refresh-logout app redis_laws "refresh" (start true 0) claims_are_fixed logged_out fresh later

abbrev refreshed : Sessions.LoginResponse
refreshed = record {
  user = to_domain (row true);
  access_token = "minted";
  refresh_token = "minted";
}

refreshed_ok : (Sessions.refresh app "refresh" (start true 0)).0 ≡ ok refreshed
unfolding Sessions.refresh Sessions.renew Sessions.issue_pair Sessions.remember_refresh
    is_rotated_away Jwt.parse_refresh_token Jwt.parse Jwt.generate_token_pair Jwt.sign_access
    Jwt.sign_refresh Jwt.sign Users.get_by_email Users.load_by_email Repository.get_by_email
    Repository.run_statement Repository.Table.find_live Ristretto.get Ristretto.set Redis.get
    Redis.set Redis.del Redis.expire refresh_key str_eq
refreshed_ok = refl

abbrev after_refresh : State app
after_refresh = (Sessions.refresh app "refresh" (start true 0)).1

refresh-refresh_example :
    (m : String) × ((Sessions.refresh app "refresh" (serve_all app later after_refresh)).0
      ≡ err (unauthorized_error m))
refresh-refresh_example =
    refresh-refresh app redis_laws "refresh" (start true 0) after_refresh claims_are_fixed
      confirms_del (ap (λ x. (x, after_refresh)) refreshed_ok) fresh later

refresh_sound_example :
    (c : JwtCustomClaim) × (u : State app) × (Jwt.parse_refresh_token app "refresh" (start true 0)
      ≡ (ok c, u))
    × IsSigned app "refresh" (start true 0) c
    × (c.kind ≡ "refresh")
    × (true ≡ true)
    × IssuedSince refreshed.user.password_changed_at c.issued_at
    × ((v : String) × ((Redis.get app (refresh_key c.id) u).0 ≡ ok v))
    × ((Users.get_by_email app c.email (Redis.get app (refresh_key c.id) u).1).0
        ≡ ok refreshed.user)
refresh_sound_example = refresh_sound app "refresh" (start true 0) refreshed_ok
