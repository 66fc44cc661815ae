-- ===== src/Auth/Soundness/Codes.antt =====
-- What it takes to activate an account, and to change a password.
use go_rest_boilerplate.Base.{
  String, true, false, ◌≡◌, ◌≢◌, ◌≤◌, pos, ℕ, refl, arith, str_eq, str_eq→eq, str_eq_refl, ap,
  Bool-cases, inl, inr,
}
use go_rest_boilerplate.Exec.{Result, ok, err}
use go_rest_boilerplate.Env.Laws.{SteadyRedis}
use go_rest_boilerplate.Config.{App}
use go_rest_boilerplate.State.{State}
use go_rest_boilerplate.Domain.User.{User}
use go_rest_boilerplate.Domain.Account.{normalize_email, verify_password}
use go_rest_boilerplate.Redis
use go_rest_boilerplate.Users
use go_rest_boilerplate.Frames.Redis as Frame
use go_rest_boilerplate.Auth.Keys.{user_otp_key, otp_attempts_key}
use go_rest_boilerplate.Auth.Attempts.{limit_attempts}
use go_rest_boilerplate.Auth.Lockout.{count, limit_full}
use go_rest_boilerplate.Auth.Otp
use go_rest_boilerplate.Auth.Passwords

abbrev otp_message : String
otp_message = "too many invalid otp attempts, please request a new code"

module _ (app : App) where
  check_code_ok :
      (email c : String) (t : State app)
      → (Otp.check_code app email c t).0 ≡ ok tt
      → let limit =
          limit_attempts app
            (otp_attempts_key email)
            app.auth.otp_ttl
            app.auth.otp_max_attempts
            otp_message in
        ((limit t).0 ≡ ok tt)
        × ((v : String) × ((Redis.get app (user_otp_key email) (limit t).1).0 ≡ ok v)
            × (str_eq v c ≡ true))
  unfolding Otp.check_code
  check_code_ok email c t h = ground arith

  -- An activation that succeeds was given the code that Redis holds for the email, for an account
  -- that was not active, and was let through by the lockout.
  pub verify_otp_sound :
      (e c : String) (s : State app)
      → (Otp.verify_otp app e c s).0 ≡ ok tt
      → let email = normalize_email app e in
        let limit =
          limit_attempts app
            (otp_attempts_key email)
            app.auth.otp_ttl
            app.auth.otp_max_attempts
            otp_message in
        (u : User) × (t : State app) × (Users.get_by_email app email s ≡ (ok u, t))
        × (u.active ≡ false)
        × ((limit t).0 ≡ ok tt)
        × ((Redis.get app (user_otp_key email) (limit t).1).0 ≡ ok c)
  unfolding Otp.verify_otp
  verify_otp_sound e c s h = by_user (Users.get_by_email app (normalize_email app e) s) refl
    where
      email : String
      email = normalize_email app e

      Sound : Type 0
      Sound =
          let limit =
            limit_attempts app (otp_attempts_key email) app.auth.otp_ttl app.auth.otp_max_attempts
              otp_message in
          (u : User) × (t : State app) × (Users.get_by_email app email s ≡ (ok u, t))
          × (u.active ≡ false)
          × ((limit t).0 ≡ ok tt)
          × ((Redis.get app (user_otp_key email) (limit t).1).0 ≡ ok c)

      by_user : (p : Result User × State app) → Users.get_by_email app email s ≡ p → Sound
      by_user (err x, t) k = absurd (ground arith)
      by_user (ok u, t) k =
          let closed : u.active ≡ false = ground arith in
          let checked : (Otp.check_code app email c t).0 ≡ ok tt = ground arith in
          let (passed, (v, stored, same)) = check_code_ok email c t checked in
          (u, t, k, closed, passed, rw (str_eq→eq v c same) at stored)

  module _ (R : SteadyRedis app.env) where
    -- Once the counter of an email has reached the limit, VerifyOTP does not succeed for any code,
    -- the right one included. Redis answers every command.
    pub verify_otp-locked :
        (e c : String) (max : ℕ) (s : State app)
        → app.auth.otp_max_attempts ≡ pos max
        → max ≤ count app R s (otp_attempts_key (normalize_email app e))
        → (Otp.verify_otp app e c s).0 ≢ ok tt
    unfolding Otp.verify_otp Otp.check_code
    verify_otp-locked e c max s limited h done =
        let email = normalize_email app e in
        let t = (Users.get_by_email app email s).1 in
        let unmoved : t.redis ≡ s.redis = (Frame.get_by_email-RedisIs email).at s refl in
        let full =
          limit_full app R (otp_attempts_key email) app.auth.otp_ttl max otp_message t
            (rw (count, unmoved) h) in
        ground (arith, limited, full)

  -- A change of password that succeeds was given the account's current password, and a new one
  -- that is not empty.
  pub change_password_sound :
      (i c p : String) (s : State app)
      → (Passwords.change_password app i c p s).0 ≡ ok tt
      → (p ≢ "")
        × ((u : User) × ((Users.get_by_id app i s).0 ≡ ok u) × (verify_password app u c ≡ true))
  unfolding Passwords.change_password
  change_password_sound i c p s h = elim (Bool-cases (str_eq p "")) [
    | inl e ↦ absurd (ground (arith, e, h))
    | inr e ↦ (eq_false e, by_user (Users.get_by_id app i s) refl e)
  ]
    where
      eq_false : str_eq p "" ≡ false → p ≢ ""
      eq_false e k = ground (arith, str_eq_refl p)

      by_user :
          (q : Result User × State app)
          → Users.get_by_id app i s ≡ q
          → str_eq p "" ≡ false
          → (u : User) × ((Users.get_by_id app i s).0 ≡ ok u) × (verify_password app u c ≡ true)
      by_user (err x, t) k e = absurd (ground arith)
      by_user (ok u, t) k e = (u, ap (λ x. x.0) k, ground arith)
