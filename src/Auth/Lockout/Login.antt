-- ===== src/Auth/Lockout/Login.antt =====
-- Login's lockout: once as many attempts as allowed have failed, no password opens a session.
use go_rest_boilerplate.Base.{
  ℕ, suc, ◌+◌, ◌≤◌, pos, String, List, [], ◌∷◌, ◌≡◌, refl, ap, ◌∙◌, arith, length, str_eq_of_ne,
}
use go_rest_boilerplate.Apperror.{Error, forbidden_error}
use go_rest_boilerplate.Exec.{Exec, Result, err}
use go_rest_boilerplate.Exec.Rules.{Keeps, keeps_rules}
use go_rest_boilerplate.Env.Laws.{SteadyRedis}
use go_rest_boilerplate.Config.{App}
use go_rest_boilerplate.State.{State, time_now}
use go_rest_boilerplate.Domain.Account.{normalize_email}
use go_rest_boilerplate.Domain.User.{User, is_admin}
use go_rest_boilerplate.Redis
use go_rest_boilerplate.Users
use go_rest_boilerplate.Jwt
use go_rest_boilerplate.Jwt.Claims.{TokenPair}
use go_rest_boilerplate.Frames.Redis as Frame
use go_rest_boilerplate.Auth.Keys.{refresh_key, login_attempts_key}
use go_rest_boilerplate.Auth.Keys.Kinds.{session, login_count, key-ne}
use go_rest_boilerplate.Auth.Lockout.{count, limit_count, limit_full, limit_frame}
use go_rest_boilerplate.Auth.Attempts.{limit_attempts, limit_attempts_if_positive}
use go_rest_boilerplate.Auth.Sessions

abbrev pub lockout_message : String
lockout_message = "too many failed login attempts, please try again later"

module _ (app : App) (R : SteadyRedis app.env) where
  abbrev key : String → String
  key e = login_attempts_key (normalize_email app e)

  -- The counter of an email's failed logins.
  abbrev pub failures : String → State app → ℕ
  failures e s = count app R s (key e)

  module _ (e : String) (n : ℕ) where
    abbrev CountIs : State app → Type 0
    CountIs s = failures e s ≡ n

    framed :
        {A : Type 0} (m : Exec (State app) A)
        → ((d : app.Redis) → Keeps (Frame.RedisIs app d) m)
        → Keeps CountIs m
    framed m k = Frame.Keeps-of_RedisIs (λ d. R.count d (key e) ≡ n) m k

    get_by_email-CountIs : (x : String) → Keeps CountIs (Users.get_by_email app x)
    get_by_email-CountIs x = framed _ (λ d. Frame.get_by_email-RedisIs x)

    token_pair-CountIs :
        (u : User) → Keeps CountIs (Jwt.generate_token_pair app u.id (is_admin u) u.email)
    token_pair-CountIs u =
        framed _ (λ d. Frame.generate_token_pair-RedisIs u.id (is_admin u) u.email)

    now-CountIs : Keeps CountIs (time_now app)
    now-CountIs = framed _ (λ d. Frame.time_now-RedisIs)

    -- A session's entry is not a counter.
    set-CountIs : (j v : String) → Keeps CountIs (Redis.set app (refresh_key j) v)
    unfolding Redis.set
    set-CountIs j v = record {
      at = λ s h.
          R.count-set (refresh_key j) (key e) _ _ s.redis
            (str_eq_of_ne _ _ (key-ne session login_count j _ (λ q. ground arith)))
          ∙ h;
    }

    expire-CountIs : (j : String) (ttl : ℕ) → Keeps CountIs (Redis.expire app j ttl)
    unfolding Redis.expire
    expire-CountIs j ttl = record { at = λ s h. R.count-expire j (key e) ttl s.redis ∙ h }

    ruleset steps = (
      keeps_rules, get_by_email-CountIs, token_pair-CountIs, now-CountIs, set-CountIs,
      expire-CountIs,
    )

    remember-CountIs : (x : TokenPair) → Keeps CountIs (Sessions.remember_refresh app x)
    unfolding Sessions.remember_refresh
    remember-CountIs x = search steps depth 9

    issue_pair-CountIs : (u : User) → Keeps CountIs (Sessions.issue_pair app u)
    unfolding Sessions.issue_pair
    issue_pair-CountIs u = search (steps, remember-CountIs)

    authenticate-CountIs : (x p : String) → Keeps CountIs (Sessions.authenticate app x p)
    unfolding Sessions.authenticate
    authenticate-CountIs x p = search steps depth 9

    -- What comes after the count leaves it as it is.
    pub open_session-CountIs : (x p : String) → Keeps CountIs (Sessions.open_session app x p)
    unfolding Sessions.open_session
    open_session-CountIs x p = search (steps, authenticate-CountIs, issue_pair-CountIs)

  module _ (max : ℕ) (enabled : app.auth.login_max_attempts ≡ pos (suc max)) where
    -- Once the counter has reached the limit, Login answers 403 to every password, the right one
    -- included, and touches nothing but Redis: no user is looked up and no token is minted. The
    -- limit is positive, and Redis answers every command.
    pub login-locked :
        (e p : String) (s : State app)
        → suc max ≤ failures e s
        → Sessions.login app e p s ≡ (
          err (forbidden_error lockout_message),
          record s { redis = (Sessions.login app e p s).1.redis },
        )
    unfolding Sessions.login Sessions.limit_logins limit_attempts_if_positive
    login-locked e p s h =
        let ttl = app.auth.login_lockout_ttl in
        rw enabled (
          ground (
            arith,
            limit_full app R (key e) ttl (suc max) lockout_message s h,
            limit_frame app R (key e) ttl (pos (suc max)) lockout_message s,
          ))

    -- A failed login counts: one more failure is on record.
    failures-login :
        (e p : String) (s : State app) {x : Error}
        → (Sessions.login app e p s).0 ≡ err x
        → failures e (Sessions.login app e p s).1 ≡ failures e s + 1
    unfolding Sessions.login Sessions.limit_logins limit_attempts_if_positive
    failures-login e p s h =
        let limit =
          limit_attempts app (key e) app.auth.login_lockout_ttl (pos (suc max)) lockout_message in
        let t = (limit s).1 in
        ground (
          arith,
          enabled,
          limit_count app R (key e) app.auth.login_lockout_ttl (pos (suc max)) lockout_message s,
          (open_session-CountIs e (failures e t) (normalize_email app e) p).at t refl,
        )

    -- Every one of these passwords fails, one after the other.
    abbrev pub AllFail : String → List String → State app → Type 0
    AllFail e [] s = Unit
    AllFail e (p ∷ ps) s =
        ((x : Error) × ((Sessions.login app e p s).0 ≡ err x))
        × AllFail e ps (Sessions.login app e p s).1

    abbrev pub after_logins : String → List String → State app → State app
    after_logins e [] s = s
    after_logins e (p ∷ ps) s = after_logins e ps (Sessions.login app e p s).1

    failures-after_logins :
        (e : String) (ps : List String) (s : State app)
        → AllFail e ps s
        → failures e (after_logins e ps s) ≡ failures e s + length ps
    failures-after_logins e [] s all = omega arith
    failures-after_logins e (p ∷ ps) s ((x, failed), rest) = omega (
      arith,
      failures-login e p s failed,
      failures-after_logins e ps (Sessions.login app e p s).1 rest,
    )

    -- After as many failed logins in a row as the limit allows, whatever their passwords, the next
    -- login for that email is a 403, also with the right password. The limit is positive, Redis
    -- answers every command, and no key expires in between.
    pub login-after_logins :
        (e p : String) (ps : List String) (s : State app)
        → AllFail e ps s
        → suc max ≤ length ps
        → (Sessions.login app e p (after_logins e ps s)).0 ≡ err (forbidden_error lockout_message)
    login-after_logins e p ps s all h =
        ap (λ (r : Result Sessions.LoginResponse × State app). r.0)
          (login-locked e p (after_logins e ps s) (omega (arith, failures-after_logins e ps s all)))
