-- ===== src/Auth/Superseded.antt =====
-- A new reset link ends the one before it (auth.forgot_password.go, auth.reset_password.go of
-- internal/business/usecases/auth).
use go_rest_boilerplate.Base.{
  ℕ, ◌*◌, String, false, Option, none, some, ◌≡◌, ◌≢◌, refl, sym, ap, ◌∙◌, arith, str_eq,
  str_eq_refl, str_eq_of_ne, Bool-cases, inl, inr, ℤ, pos,
}
use go_rest_boilerplate.Base.Int.{lt_ℤ}
use go_rest_boilerplate.Apperror.{unauthorized_error}
use go_rest_boilerplate.Exec.{Result, ok, err}
use go_rest_boilerplate.Exec.Rules.{continue_ok}
use go_rest_boilerplate.Env.Laws.{SteadyRedis, TextLaws}
use go_rest_boilerplate.Config.{App}
use go_rest_boilerplate.State.{State}
use go_rest_boilerplate.Domain.User.{User}
use go_rest_boilerplate.Domain.Account.{normalize_email}
use go_rest_boilerplate.Redis
use go_rest_boilerplate.Time.{minute}
use go_rest_boilerplate.Users
use go_rest_boilerplate.Frames.Redis as Frame
use go_rest_boilerplate.Auth.Keys.{password_reset_key, user_reset_index_key, forgot_attempts_key}
use go_rest_boilerplate.Auth.Keys.Kinds.{reset, key-injective}
use go_rest_boilerplate.Auth.Attempts.{limit_attempts_if_positive}
use go_rest_boilerplate.Auth.Activation.{limit_live}
use go_rest_boilerplate.Auth.Passwords
use go_rest_boilerplate.Auth.ResetLink.{index_key-ne}

module _ (app : App) where
  -- ForgotPassword's state behind the count of the requests for the email, and the token that it
  -- draws there.
  abbrev pub drawn : String → State app → Result String × State app
  drawn e s =
      let email = normalize_email app e in
      Passwords.generate_reset_token app
        (limit_attempts_if_positive app (forgot_attempts_key email) app.auth.forgot_lockout_ttl
          app.auth.forgot_max_attempts "too many password reset requests, please try again later"
          s).1

  -- Its lookup of the account.
  abbrev pub account : String → State app → Result User × State app
  account e s = Users.get_by_email app (normalize_email app e) (drawn e s).1

module _ (app : App) (R : SteadyRedis app.env) (T : TextLaws app.env) where
  -- What Redis holds under a key.
  abbrev held : String → State app → Option String
  held k s = R.live s.redis k

  invalidate_prior-held :
      (user_id old : String) (s : State app)
      → held (user_reset_index_key user_id) s ≡ some (app.json_marshal old)
      → str_eq old "" ≡ false
      → held (password_reset_key old) (Passwords.invalidate_prior app user_id s).1 ≡ none
  unfolding Passwords.invalidate_prior Redis.get Redis.del
  invalidate_prior-held user_id old s h filled =
      let j = user_reset_index_key user_id in
      let k = password_reset_key old in
      ground (
        arith,
        filled,
        R.get_some j (app.json_marshal old) s.redis h,
        T.unmarshal-marshal old,
        R.live-del k k (app.redis_get j s.redis).1,
        str_eq_refl k,
      )

  reset_key-ne :
      (a b : String) → a ≢ b → str_eq (password_reset_key a) (password_reset_key b) ≡ false
  reset_key-ne a b n =
      str_eq_of_ne (password_reset_key a) (password_reset_key b)
        (λ e. n (key-injective reset reset a b e).1)

  publish_token-held :
      (token user_id old : String) (s : State app)
      → token ≢ old
      → held (password_reset_key old) (Passwords.publish_token app token user_id s).1
        ≡ held (password_reset_key old) s
  unfolding Passwords.publish_token Redis.set Redis.expire
  publish_token-held token user_id old s n =
      let i = password_reset_key old in
      let k = password_reset_key token in
      let j = user_reset_index_key user_id in
      let ttl = app.redis_expires * minute in
      let life = app.auth.password_reset_ttl in
      let d1 = (app.redis_set k (app.json_marshal user_id) ttl s.redis).1 in
      let d2 = (app.redis_expire k life d1).1 in
      let d3 = (app.redis_set j (app.json_marshal token) ttl d2).1 in
      ground (
        arith,
        R.set_ok k (app.json_marshal user_id) ttl s.redis,
        R.set_ok j (app.json_marshal token) ttl d2,
        R.live-expire j i life d3,
        R.live-set j i (app.json_marshal token) ttl d2,
        R.live-expire k i life d1,
        R.live-set k i (app.json_marshal user_id) ttl s.redis,
        index_key-ne app R T user_id old,
        reset_key-ne token old n,
      )

  publish_token-index :
      (token user_id : String) (s : State app)
      → held (user_reset_index_key user_id) (Passwords.publish_token app token user_id s).1
        ≡ some (app.json_marshal token)
  unfolding Passwords.publish_token Redis.set Redis.expire
  publish_token-index token user_id s =
      let k = password_reset_key token in
      let j = user_reset_index_key user_id in
      let ttl = app.redis_expires * minute in
      let life = app.auth.password_reset_ttl in
      let d1 = (app.redis_set k (app.json_marshal user_id) ttl s.redis).1 in
      let d2 = (app.redis_expire k life d1).1 in
      let d3 = (app.redis_set j (app.json_marshal token) ttl d2).1 in
      ground (
        arith,
        R.set_ok k (app.json_marshal user_id) ttl s.redis,
        R.set_ok j (app.json_marshal token) ttl d2,
        R.live-expire j j life d3,
        R.live-set j j (app.json_marshal token) ttl d2,
        str_eq_refl j,
      )

  limit_held :
      (k j : String) (ttl : ℕ) (max : ℤ) (m : String) (s : State app)
      → held j (limit_attempts_if_positive app k ttl max m s).1 ≡ held j s
  unfolding limit_attempts_if_positive
  limit_held k j ttl max m s = elim (Bool-cases (lt_ℤ (pos 0) max)) [
    | inl e ↦ rw e (limit_live app R T k j ttl max m s)
    | inr e ↦ rw e refl
  ]

  -- A key that holds nothing is not read, and its token is refused.
  refused :
      (old p : String) (s : State app)
      → held (password_reset_key old) s ≡ none
      → str_eq old "" ≡ false
      → str_eq p "" ≡ false
      → (Passwords.reset_password app old p s).0
        ≡ err (unauthorized_error "reset token is invalid or expired")
  unfolding Passwords.reset_password Passwords.redeem Redis.get
  refused old p s h o n = go (app.redis_get (password_reset_key old) s.redis).0 refl
    where
      go :
          (r : Result String)
          → (app.redis_get (password_reset_key old) s.redis).0 ≡ r
          → (Passwords.reset_password app old p s).0
            ≡ err (unauthorized_error "reset token is invalid or expired")
      go (ok v) e = absurd (R.get_none (password_reset_key old) v s.redis h e)
      go (err x) e = ground (arith, e, o, n)

  sent_redis :
      (token email : String) (u : User) (l t : State app)
      → Passwords.answer_forgotten app token email (ok u) l ≡ (ok tt, t)
      → t.redis
        ≡ (Passwords.publish_token app token u.id (Passwords.invalidate_prior app u.id l).1).1.redis
  sent_redis token email u l t h =
      let (_, s1, e1, h1) = continue_ok (Passwords.invalidate_prior app u.id l) _ h in
      let (_, s2, e2, h2) = continue_ok (Passwords.publish_token app token u.id s1) _ h1 in
      let kept : t.redis ≡ s2.redis = ap (λ x. x.1.redis) (sym h2) in ground (arith, kept, e1, e2)

  run_redis :
      (e token : String) (u : User) (s t : State app)
      → Passwords.forgot_password app e s ≡ (ok tt, t)
      → (drawn app e s).0 ≡ ok token
      → (account app e s).0 ≡ ok u
      → t.redis
        ≡ (Passwords.publish_token app token u.id
            (Passwords.invalidate_prior app u.id (account app e s).1).1).1.redis
  unfolding Passwords.forgot_password
  run_redis e token u s t h d a =
      let email = normalize_email app e in
      let answered : Passwords.answer_forgotten app token email (ok u) (account app e s).1
          ≡ (ok tt, t) =
        ground (arith, h, d, a) in
      sent_redis token email u (account app e s).1 t answered

  account-held : (e k : String) (s : State app) → held k (account app e s).1 ≡ held k s
  account-held e k s =
      let email = normalize_email app e in
      let counted =
        (limit_attempts_if_positive app (forgot_attempts_key email) app.auth.forgot_lockout_ttl
          app.auth.forgot_max_attempts "too many password reset requests, please try again later"
          s).1 in
      let found : (account app e s).1.redis ≡ (drawn app e s).1.redis =
        (Frame.get_by_email-RedisIs email).at (drawn app e s).1 refl in
      let made : (drawn app e s).1.redis ≡ counted.redis =
        Frame.generate_reset_token-RedisIs.at counted refl in
      ap (λ d. R.live d k) (found ∙ made)
      ∙ limit_held (forgot_attempts_key email) k app.auth.forgot_lockout_ttl
          app.auth.forgot_max_attempts "too many password reset requests, please try again later" s

  -- Of two runs of ForgotPassword that succeed, one right after the other and for the same account,
  -- the second ends the link of the first: the token that the first drew is refused with a 401 for
  -- every new password that is not empty. The two tokens drawn differ, the first is not empty, and
  -- Redis answers.
  pub forgot_password-forgot_password :
      (e e' a b p : String) (u u' : User) (s t w : State app)
      → Passwords.forgot_password app e s ≡ (ok tt, t)
      → Passwords.forgot_password app e' t ≡ (ok tt, w)
      → (drawn app e s).0 ≡ ok a
      → (drawn app e' t).0 ≡ ok b
      → b ≢ a
      → (account app e s).0 ≡ ok u
      → (account app e' t).0 ≡ ok u'
      → u.id ≡ u'.id
      → str_eq a "" ≡ false
      → str_eq p "" ≡ false
      → (Passwords.reset_password app a p w).0
        ≡ err (unauthorized_error "reset token is invalid or expired")
  forgot_password-forgot_password e e' a b p u u' s t w first second da db n ua ub same filled np =
      let j = user_reset_index_key u'.id in
      let l = (account app e' t).1 in
      let x = (Passwords.invalidate_prior app u.id (account app e s).1).1 in
      let index : held (user_reset_index_key u.id) t ≡ some (app.json_marshal a) =
        rw (run_redis e a u s t first da ua) (publish_token-index a u.id x) in
      let indexed : held j l ≡ some (app.json_marshal a) = account-held e' j t ∙ rw same at index in
      let dead = invalidate_prior-held u'.id a l indexed filled in
      let gone : held (password_reset_key a) w ≡ none =
        rw (run_redis e' b u' t w second db ub)
          (publish_token-held b u'.id a (Passwords.invalidate_prior app u'.id l).1 n ∙ dead) in
      refused a p w gone filled np
