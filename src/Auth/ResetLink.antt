-- ===== src/Auth/ResetLink.antt =====
-- From auth.forgot_password.go to auth.reset_password.go of internal/business/usecases/auth.
use go_rest_boilerplate.Base.{
  ◌*◌, String, true, false, some, ◌≡◌, refl, sym, ap, ◌∙◌, arith, str_eq, str_eq_refl, str_eq_of_ne,
  Bool-cases, inl, inr,
}
use go_rest_boilerplate.Apperror.{Error, internal_cause, errorf}
use go_rest_boilerplate.Exec.{Result, ok, err, map_err}
use go_rest_boilerplate.Exec.Rules.{continue_ok, map_err_ok}
use go_rest_boilerplate.Env.Laws.{SteadyRedis, TextLaws}
use go_rest_boilerplate.Config.{App}
use go_rest_boilerplate.State.{State, on_mailer}
use go_rest_boilerplate.Domain.User.{User}
use go_rest_boilerplate.Domain.Account.{normalize_email}
use go_rest_boilerplate.Redis
use go_rest_boilerplate.Time.{minute}
use go_rest_boilerplate.Users
use go_rest_boilerplate.Mailer
use go_rest_boilerplate.Mailer.{AsyncOtpMailer}
use go_rest_boilerplate.Auth.Keys.{password_reset_key, user_reset_index_key, forgot_attempts_key}
use go_rest_boilerplate.Auth.Keys.Kinds.{reset, reset_index, key-ne}
use go_rest_boilerplate.Auth.Attempts.{limit_attempts_if_positive}
use go_rest_boilerplate.Auth.Passwords
use go_rest_boilerplate.Auth.Passwords.{is_not_found}
use go_rest_boilerplate.Auth.Activation.{get_stored, mailed}

module _ (app : App) (R : SteadyRedis app.env) (T : TextLaws app.env) where
  pub index_key-ne :
      (user_id token : String)
      → str_eq (user_reset_index_key user_id) (password_reset_key token) ≡ false
  index_key-ne user_id token =
      str_eq_of_ne (user_reset_index_key user_id) (password_reset_key token)
        (key-ne reset_index reset user_id token λ e. ground (arith, e))

  publish_token-live :
      (token user_id : String) (s : State app)
      → R.live (Passwords.publish_token app token user_id s).1.redis (password_reset_key token)
        ≡ some (app.json_marshal user_id)
  unfolding Passwords.publish_token Redis.set Redis.expire
  publish_token-live token user_id s =
      let k = password_reset_key token in
      let j = user_reset_index_key user_id in
      let v = app.json_marshal user_id in
      let n = app.redis_expires * minute in
      let life = app.auth.password_reset_ttl in
      let d1 = (app.redis_set k v n s.redis).1 in
      let d2 = (app.redis_expire k life d1).1 in
      let d3 = (app.redis_set j (app.json_marshal token) n d2).1 in
      ground (
        arith,
        R.set_ok k v n s.redis,
        R.set_ok j (app.json_marshal token) n d2,
        R.live-expire j k life d3,
        R.live-set j k (app.json_marshal token) n d2,
        R.live-expire k k life d1,
        R.live-set k k v n s.redis,
        index_key-ne user_id token,
        str_eq_refl k,
      )

  -- The mail with the token for the email was the last to be put into the queue, and Redis knows
  -- the token as one for the user `u`.
  pub record Redeemable (token email : String) (u : User) (t : State app) : Type 0 where
    pub before : AsyncOtpMailer
    pub queued : (Mailer.send_password_reset token email before).0 ≡ ok tt
    pub after : (Mailer.send_password_reset token email before).1 ≡ t.mailer
    pub holder : (Redis.get app (password_reset_key token) t).0 ≡ ok u.id

  -- What ForgotPassword does when the lookup in the state `v` found a user, or found none: the
  -- queue is then left alone.
  pub data Answered (token email : String) (v t : State app) : Type 0 where
    mailed_to :
        (u : User)
        → (Users.get_by_email app email v).0 ≡ ok u
        → Redeemable token email u t
        → Answered token email v t
    unknown :
        (x : Error)
        → (Users.get_by_email app email v).0 ≡ err x
        → is_not_found x ≡ true
        → t.mailer ≡ (Users.get_by_email app email v).1.mailer
        → Answered token email v t

  write_decoy_mailer :
      (token : String) (s : State app) → (Passwords.write_decoy app token s).1.mailer ≡ s.mailer
  unfolding Passwords.write_decoy Redis.set Redis.expire Redis.del
  write_decoy_mailer token s = refl

  send_Redeemable :
      (token email : String) (u : User) (s t : State app)
      → R.live s.redis (password_reset_key token) ≡ some (app.json_marshal u.id)
      → on_mailer (Mailer.send_password_reset token email) s ≡ (ok tt, t)
      → Redeemable token email u t
  send_Redeemable token email u s t h sent =
      let (a, b) = mailed app R T (Mailer.send_password_reset token email) s t sent in
      record {
        before = s.mailer;
        queued = a;
        after = b;
        holder =
            get_stored app R T (password_reset_key token) u.id t
              (ap (λ x. R.live x.1.redis (password_reset_key token)) (sym sent) ∙ h);
      }

  mail_token_ok :
      (token email : String) (u : User) (s t : State app)
      → Passwords.answer_forgotten app token email (ok u) s ≡ (ok tt, t)
      → Redeemable token email u t
  mail_token_ok token email u s t h =
      let (_, s1, e1, h1) = continue_ok (Passwords.invalidate_prior app u.id s) _ h in
      let (_, s2, e2, h2) = continue_ok (Passwords.publish_token app token u.id s1) _ h1 in
      send_Redeemable token email u s2 t
        (rw (ap (λ x. x.1) e2) at (publish_token-live token u.id s1))
        (map_err_ok (λ e. internal_cause (errorf "send reset email" e))
          (on_mailer (Mailer.send_password_reset token email)) h2)

  answer_ok :
      (token email : String) (v t : State app) (q : Result User × State app)
      → Users.get_by_email app email v ≡ q
      → Passwords.answer_forgotten app token email q.0 q.1 ≡ (ok tt, t)
      → Answered token email v t
  answer_ok token email v t (ok u, s) k h =
      mailed_to u (ap (λ x. x.0) k) (mail_token_ok token email u s t h)
  answer_ok token email v t (err x, s) k h = elim (Bool-cases (is_not_found x)) [
    | inl e ↦ unknown x (ap (λ x. x.0) k) e (ground (arith, k, h, e, write_decoy_mailer token s))
    | inr e ↦ absurd (ground (arith, h, e))
  ]

  -- When ForgotPassword succeeds, the email's requests were within their limit, it has drawn one
  -- token, and then looked up the normalised email. If the lookup found a user, the mail with that
  -- token to that email is the last in the queue, and the first thing that ResetPassword asks Redis
  -- for, the holder of the token, is answered with that user's id in the state that ForgotPassword
  -- leaves. If the lookup failed, then because no such user exists, and the queue is as the lookup
  -- left it. Redis answers.
  pub forgot_password-Answered :
      (e : String) (s t : State app)
      → Passwords.forgot_password app e s ≡ (ok tt, t)
      → let email = normalize_email app e in
        (r : State app) × (limit_attempts_if_positive app
            (forgot_attempts_key email)
            app.auth.forgot_lockout_ttl
            app.auth.forgot_max_attempts
            "too many password reset requests, please try again later"
            s
          ≡ (ok tt, r))
        × (token : String) × (v : State app) × (Passwords.generate_reset_token app r
            ≡ (ok token, v))
        × Answered token email v t
  unfolding Passwords.forgot_password
  forgot_password-Answered e s t h =
      let email = normalize_email app e in
      let (_, r, within, h1) =
        continue_ok
          (limit_attempts_if_positive app (forgot_attempts_key email) app.auth.forgot_lockout_ttl
            app.auth.forgot_max_attempts "too many password reset requests, please try again later"
            s)
          _ h in
      let f : Error → Error = λ e. internal_cause (errorf "generate reset token" e) in
      let (token, v, drawn, h2) =
        continue_ok (map_err f (Passwords.generate_reset_token app) r) _ h1 in
      let answered = answer_ok token email v t (Users.get_by_email app email v) refl h2 in
      (r, within, token, v, map_err_ok f (Passwords.generate_reset_token app) drawn, answered)
