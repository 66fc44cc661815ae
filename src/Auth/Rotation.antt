-- ===== src/Auth/Rotation.antt =====
-- What a change of the password does to the tokens that are out.
use go_rest_boilerplate.Base.{
  ℕ, ◌*◌, ◌/◌, pos, String, Bool, true, some, ◌≡◌, arith, ltb, str_eq_refl,
}
use go_rest_boilerplate.Exec.{ok}
use go_rest_boilerplate.Env.Laws.{SteadyRedis, TextLaws, TruncatesToSeconds}
use go_rest_boilerplate.Config.{App}
use go_rest_boilerplate.State.{State}
use go_rest_boilerplate.Time.{Time, at, second, minute}
use go_rest_boilerplate.Domain.User.{User}
use go_rest_boilerplate.Redis
use go_rest_boilerplate.Jwt
use go_rest_boilerplate.Auth.Keys.{token_cutoff_key}
use go_rest_boilerplate.Auth.Sessions.{is_rotated_away}
use go_rest_boilerplate.Auth.Passwords.{record_token_cutoff, token_cutoff_ttl}
use go_rest_boilerplate.Http.AuthMiddleware.{AuthMiddleware, is_revoked}

module _ (app : App) where
  -- The test by which Refresh refuses a refresh token of a user whose password was changed at `c`
  -- holds exactly if the second in which the token was minted began before `c`. The token's time is
  -- cut to the second, as golang-jwt does, and the time of the change is not: a token minted after
  -- the change, but within the same second, is refused too, unless the change fell on the second's
  -- very start.
  pub is_rotated_away-refresh_claims :
      (u : User) (e j : String) (c t : ℕ) (x : Time)
      → TruncatesToSeconds app.env
      → u.password_changed_at ≡ some (at c)
      → is_rotated_away u (Jwt.refresh_claims app u.id e j (at t) x) ≡ ltb (second * (t / second)) c
  unfolding is_rotated_away
  is_rotated_away-refresh_claims u e j c t x cuts changed = ground (arith, cuts t)

  module _ (R : SteadyRedis app.env) (T : TextLaws app.env) where
    cutoff_stored :
        (i : String) (c : ℕ) (s : State app)
        → R.live (record_token_cutoff app i (at c) s).1.redis (token_cutoff_key i)
          ≡ some (app.json_marshal (app.format_int (pos (c / second))))
    unfolding record_token_cutoff Redis.set Redis.expire
    cutoff_stored i c s =
        let k = token_cutoff_key i in
        let v = app.json_marshal (app.format_int (pos (c / second))) in
        let ttl = app.redis_expires * minute in
        let d = (app.redis_set k v ttl s.redis).1 in
        ground (
          arith,
          R.set_ok k v ttl s.redis,
          R.live-set k k v ttl s.redis,
          str_eq_refl k,
          R.live-expire k k token_cutoff_ttl d,
        )

    whole_seconds : (t : ℕ) → second * (t / second) / second ≡ t / second
    whole_seconds t = omega arith

    -- Once the cutoff of a change at `c` is recorded, the auth middleware, where it has a Redis,
    -- takes an access token of that user for revoked exactly if it was minted in an earlier second
    -- than the change. A token minted before the change, but within the same second, passes. Redis
    -- answers every command, and texts are decoded to what was encoded.
    pub is_revoked-record_token_cutoff :
        (m : AuthMiddleware) (i e j : String) (b : Bool) (c t : ℕ) (x : Time) (s : State app)
        → TruncatesToSeconds app.env
        → m.has_redis ≡ true
        → (is_revoked app m
            (Jwt.access_claims app i b e j (at t) x)
            (record_token_cutoff app i (at c) s).1).0
          ≡ ok (ltb (t / second) (c / second))
    unfolding is_revoked Redis.get
    is_revoked-record_token_cutoff m i e j b c t x s cuts has =
        let n = pos (c / second) in
        let d = (record_token_cutoff app i (at c) s).1.redis in
        let read =
          R.get_some (token_cutoff_key i) (app.json_marshal (app.format_int n)) d
            (cutoff_stored i c s) in
        ground (
          arith,
          has,
          cuts t,
          read,
          T.unmarshal-marshal (app.format_int n),
          T.parse-format n,
          T.format-nonempty n,
          whole_seconds t,
        )
