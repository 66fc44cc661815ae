-- ===== src/Auth/Activation.antt =====
-- From auth.send_otp.go to auth.verify_otp.go of internal/business/usecases/auth.
use go_rest_boilerplate.Base.{
  ℕ, ◌*◌, ◌≤◌, ℤ, pos, String, false, not, some, ◌≡◌, refl, sym, ap, ◌∙◌, arith, str_eq,
  str_eq_refl, str_eq_of_ne,
}
use go_rest_boilerplate.Apperror.{not_found_error, bad_request_error, internal_cause, errorf}
use go_rest_boilerplate.Exec.{Exec, ok, ignore, map_err, guard, ◌>>◌}
use go_rest_boilerplate.Exec.Rules.{continue_ok, map_err_ok}
use go_rest_boilerplate.Env.Laws.{SteadyRedis, TextLaws}
use go_rest_boilerplate.Config.{App}
use go_rest_boilerplate.State.{State, on_mailer}
use go_rest_boilerplate.Domain.Account.{normalize_email}
use go_rest_boilerplate.Redis
use go_rest_boilerplate.Time.{minute}
use go_rest_boilerplate.Users
use go_rest_boilerplate.Mailer
use go_rest_boilerplate.Mailer.{AsyncOtpMailer}
use go_rest_boilerplate.OtpCode.{generate_otp_code}
use go_rest_boilerplate.Auth.Keys.{user_otp_key, otp_attempts_key}
use go_rest_boilerplate.Auth.Keys.Kinds.{otp, otp_count, key-ne}
use go_rest_boilerplate.Auth.Attempts.{track_attempt, limit_attempts}
use go_rest_boilerplate.Auth.Lockout.{count, limit_open}
use go_rest_boilerplate.Auth.Otp

module _ (app : App) (R : SteadyRedis app.env) (T : TextLaws app.env) where
  -- Redis holds a code for the email, and no attempt at it.
  pub record Holds (email code : String) (s : State app) : Type 0 where
    pub stored : R.live s.redis (user_otp_key email) ≡ some (app.json_marshal code)
    pub unused : count app R s (otp_attempts_key email) ≡ 0

  attempts_key-ne : (email : String) → str_eq (otp_attempts_key email) (user_otp_key email) ≡ false
  attempts_key-ne email =
      str_eq_of_ne (otp_attempts_key email) (user_otp_key email)
        (key-ne otp_count otp email email λ e. ground (arith, e))

  -- The last two steps of SendOTP.
  abbrev publish : String → String → Exec (State app) (Unit {0})
  publish email code = do
    ignore (Redis.set app (user_otp_key email) code)
    ignore (Redis.del app (otp_attempts_key email))

  publish-Holds : (email code : String) (s : State app) → Holds email code (publish email code s).1
  unfolding Redis.set Redis.del
  publish-Holds email code s =
      let k = user_otp_key email in
      let j = otp_attempts_key email in
      let d = (app.redis_set k (app.json_marshal code) (app.redis_expires * minute) s.redis).1 in
      record {
        stored = ground (
          arith,
          R.live-set k k (app.json_marshal code) (app.redis_expires * minute) s.redis,
          R.live-del j k d,
          attempts_key-ne email,
          str_eq_refl k,
        );
        unused = ground (arith, R.count-del j j d, str_eq_refl j);
      }

  publish_mailer :
      (email code : String) (s : State app) → (publish email code s).1.mailer ≡ s.mailer
  unfolding Redis.set Redis.del
  publish_mailer email code s = refl

  pub limit_live :
      (k j : String) (ttl : ℕ) (max : ℤ) (m : String) (s : State app)
      → R.live (limit_attempts app k ttl max m s).1.redis j ≡ R.live s.redis j
  unfolding limit_attempts track_attempt Redis.incr Redis.expire
  limit_live k j ttl max m s =
      ground (arith, R.live-incr k j s.redis, R.live-expire k j ttl (app.redis_incr k s.redis).1)

  pub get_stored :
      (k c : String) (s : State app)
      → R.live s.redis k ≡ some (app.json_marshal c)
      → (Redis.get app k s).0 ≡ ok c
  unfolding Redis.get
  get_stored k c s h =
      ground (arith, R.get_some k (app.json_marshal c) s.redis h, T.unmarshal-marshal c)

  Holds-check_code :
      (email code : String) (max : ℕ) (s : State app)
      → app.auth.otp_max_attempts ≡ pos max
      → 1 ≤ max
      → Holds email code s
      → (Otp.check_code app email code s).0 ≡ ok tt
  unfolding Otp.check_code
  Holds-check_code email code max s e m h =
      let k = otp_attempts_key email in
      let limited =
        limit_open app R k app.auth.otp_ttl max
          "too many invalid otp attempts, please request a new code" s
          (omega (arith, m, h.unused)) in
      let u =
        (limit_attempts app k app.auth.otp_ttl app.auth.otp_max_attempts
          "too many invalid otp attempts, please request a new code" s).1 in
      let held =
        limit_live k (user_otp_key email) app.auth.otp_ttl app.auth.otp_max_attempts
          "too many invalid otp attempts, please request a new code" s
        ∙ h.stored in
      ground (arith, e, limited, get_stored (user_otp_key email) code u held, str_eq_refl code)

  pub mailed :
      (f : Exec AsyncOtpMailer (Unit {0})) (s t : State app)
      → on_mailer f s ≡ (ok tt, t)
      → ((f s.mailer).0 ≡ ok tt) × ((f s.mailer).1 ≡ t.mailer)
  mailed f s t h = (ap (λ x. x.0) h, ap (λ x. x.1.mailer) h)

  -- The rest of SendOTP, with the code.
  mail_and_publish_ok :
      (email code : String) (max : ℕ) (s t : State app)
      → app.auth.otp_max_attempts ≡ pos max
      → 1 ≤ max
      → (map_err
              (λ e. internal_cause (errorf "send otp" e))
              (on_mailer (Mailer.send_otp code email))
            >> publish email code)
          s
        ≡ (ok tt, t)
      → (q : AsyncOtpMailer) × ((Mailer.send_otp code email q).0 ≡ ok tt)
        × ((Mailer.send_otp code email q).1 ≡ t.mailer)
        × ((Otp.check_code app email code t).0 ≡ ok tt)
  mail_and_publish_ok email code max s t k m h =
      let (v, u, sent, rest) =
        continue_ok
          (map_err (λ e. internal_cause (errorf "send otp" e))
            (on_mailer (Mailer.send_otp code email)) s)
          (λ _. publish email code) h in
      let last : (publish email code u).1 ≡ t = ap (λ x. x.1) rest in
      let (a, b) = mailed (Mailer.send_otp code email) s u (
        map_err_ok (λ e. internal_cause (errorf "send otp" e))
          (on_mailer (Mailer.send_otp code email)) sent) in
      (
        s.mailer,
        a,
        b ∙ sym (publish_mailer email code u) ∙ ap (λ x. x.mailer) last,
        Holds-check_code email code max t k m (rw last at (publish-Holds email code u)),
      )

  -- When SendOTP succeeds, then for the one code that it put into the mail queue, the check that
  -- VerifyOTP makes before it activates the account succeeds in the state that SendOTP leaves.
  -- Redis answers, and at least one attempt is allowed.
  pub send_otp-check_code :
      (e : String) (max : ℕ) (s t : State app)
      → app.auth.otp_max_attempts ≡ pos max
      → 1 ≤ max
      → Otp.send_otp app e s ≡ (ok tt, t)
      → let email = normalize_email app e in
        (code : String) × (q : AsyncOtpMailer) × ((Mailer.send_otp code email q).0 ≡ ok tt)
        × ((Mailer.send_otp code email q).1 ≡ t.mailer)
        × ((Otp.check_code app email code t).0 ≡ ok tt)
  unfolding Otp.send_otp
  send_otp-check_code e max s t k m h =
      let email = normalize_email app e in
      let (u, s1, e1, h1) =
        continue_ok
          (map_err (λ _. not_found_error "email not found") (Users.get_by_email app email) s) _ h in
      let (g, s2, e2, h2) =
        continue_ok (guard (not u.active) (bad_request_error "account already activated") s1) _
          h1 in
      let (code, s3, e3, h3) =
        continue_ok
          (map_err (λ e. internal_cause (errorf "generate otp" e)) (generate_otp_code app 6) s2) _
          h2 in
      let (q, a, b, c) = mail_and_publish_ok email code max s3 t k m h3 in (code, q, a, b, c)
