-- ===== src/Users/Lookup.antt =====
-- What a lookup by email answers: the same under every spelling, and nothing stale after a change
-- of the password.
use go_rest_boilerplate.Base.{String, true, false, some, none, ◌≡◌, refl, arith, str_eq}
use go_rest_boilerplate.Exec.{Result, ok, err, map_err}
use go_rest_boilerplate.Env.Laws.{UnicodeLaws, ForgetsDeleted}
use go_rest_boilerplate.Config.{App}
use go_rest_boilerplate.State.{State}
use go_rest_boilerplate.Domain.User.{User}
use go_rest_boilerplate.Domain.Account.{normalize_email}
use go_rest_boilerplate.Records.{to_domain}
use go_rest_boilerplate.Repository
use go_rest_boilerplate.Ristretto
use go_rest_boilerplate.Users
use go_rest_boilerplate.Users.{cache_key, known_email, map_repo_error}
use go_rest_boilerplate.Auth.Sessions
use go_rest_boilerplate.Auth.Otp
use go_rest_boilerplate.Records
use go_rest_boilerplate.Exec.Rules.{map_err_ok}
use go_rest_boilerplate.Repository.Table.{is_live}
use go_rest_boilerplate.Repository.Table.Reads.{Among}
use go_rest_boilerplate.Repository.Effects.{get_by_email_sound}
use go_rest_boilerplate.Auth.Passwords

module _ (app : App) where
  normalize_normalized :
      UnicodeLaws app.env
      → (e : String) → normalize_email app (normalize_email app e) ≡ normalize_email app e
  normalize_normalized U e = cc (
    U.trim-lower (app.trim_space e),
    U.lower-lower (app.trim_space (app.trim_space e)),
    U.trim-trim e,
  )

  login-normal :
      UnicodeLaws app.env
      → (e p : String) (s : State app)
      → Sessions.login app (normalize_email app e) p s ≡ Sessions.login app e p s
  unfolding Sessions.login
  login-normal U e p s = rw (normalize_normalized U e) refl

  forgot_password-normal :
      UnicodeLaws app.env
      → (e : String) (s : State app)
      → Passwords.forgot_password app (normalize_email app e) s ≡ Passwords.forgot_password app e s
  unfolding Passwords.forgot_password
  forgot_password-normal U e s = rw (normalize_normalized U e) refl

  send_otp-normal :
      UnicodeLaws app.env
      → (e : String) (s : State app)
      → Otp.send_otp app (normalize_email app e) s ≡ Otp.send_otp app e s
  unfolding Otp.send_otp
  send_otp-normal U e s = rw (normalize_normalized U e) refl

  verify_otp-normal :
      UnicodeLaws app.env
      → (e c : String) (s : State app)
      → Otp.verify_otp app (normalize_email app e) c s ≡ Otp.verify_otp app e c s
  unfolding Otp.verify_otp
  verify_otp-normal U e c s = rw (normalize_normalized U e) refl

  get_by_email-normal :
      UnicodeLaws app.env
      → (e : String) (s : State app)
      → Users.get_by_email app (normalize_email app e) s ≡ Users.get_by_email app e s
  unfolding Users.get_by_email
  get_by_email-normal U e s = rw (normalize_normalized U e) refl

  -- The spelling of an email does not matter: Login, ForgotPassword, SendOTP, VerifyOTP and the
  -- lookup do the same, and answer the same, for an email and for its normal form. Lower case and
  -- trimming are idempotent, and commute.
  pub requests-normalize_email :
      UnicodeLaws app.env
      → (e p c : String) (s : State app)
      → (Sessions.login app (normalize_email app e) p s ≡ Sessions.login app e p s)
        × (Passwords.forgot_password app (normalize_email app e) s
            ≡ Passwords.forgot_password app e s)
        × (Otp.send_otp app (normalize_email app e) s ≡ Otp.send_otp app e s)
        × (Otp.verify_otp app (normalize_email app e) c s ≡ Otp.verify_otp app e c s)
        × (Users.get_by_email app (normalize_email app e) s ≡ Users.get_by_email app e s)
  requests-normalize_email U e p c s = (
    login-normal U e p s,
    forgot_password-normal U e s,
    send_otp-normal U e s,
    verify_otp-normal U e c s,
    get_by_email-normal U e s,
  )

  -- A lookup that misses the cache answers from the table.
  load_ok :
      (e : String) (s t : State app) (v : User)
      → Users.load_by_email app e s ≡ (ok v, t)
      → (u : State app) × (Repository.get_by_email app e s ≡ (ok v, u))
  unfolding Users.load_by_email
  load_ok e s t v h = go (Repository.get_by_email app e s) refl
    where
      go :
          (p : Result User × State app)
          → Repository.get_by_email app e s ≡ p
          → (u : State app) × (Repository.get_by_email app e s ≡ (ok v, u))
      go (err x, u) k = absurd (ground arith)
      go (ok w, u) k = let same : w ≡ v = ground arith in (u, rw same at k)

  missed :
      (e : String) (s t : State app) (v : User)
      → (app.ristretto_get (cache_key (normalize_email app e)) s.ristretto).0 ≡ none
      → Users.get_by_email app e s ≡ (ok v, t)
      → (r : State app) × (r.users ≡ s.users)
        × (u : State app) × (Repository.get_by_email app (normalize_email app e) r ≡ (ok v, u))
  unfolding Users.get_by_email Ristretto.get
  missed e s t v h k =
      let email = normalize_email app e in
      let r = record s { ristretto = (app.ristretto_get (cache_key email) s.ristretto).1 } in
      let loaded : map_err (map_repo_error "get user by email") (Users.load_by_email app email) r
          ≡ (ok v, t) =
        rw h at k in
      let (u, found) =
        load_ok email r t v (
          map_err_ok (map_repo_error "get user by email") (Users.load_by_email app email) loaded) in
      (r, refl, u, found)

  invalidated :
      (u : User) (s t : State app)
      → str_eq u.email "" ≡ false
      → Users.update_password app (some u) s ≡ (ok tt, t)
      → (w : State app) × (t ≡ (Ristretto.del app (cache_key u.email) w).1)
  unfolding Users.update_password
  invalidated u s t e h = go (Repository.update_password app u s) refl
    where
      go :
          (p : Result (Unit {0}) × State app)
          → Repository.update_password app u s ≡ p
          → (w : State app) × (t ≡ (Ristretto.del app (cache_key u.email) w).1)
      go (err x, w) k = absurd (ground (arith, e, h, k))
      go (ok v, w) k = (w, ground (arith, e, h, k))

  -- After an UpdatePassword of a user that succeeds, a user that a lookup by that user's email
  -- returns is that of a live row, with that email, of the table as it stands, whatever the cache
  -- held before. The email is not empty and is in its normal form, and the cache forgets what is
  -- deleted.
  pub get_by_email-update_password :
      (u v : User) (s t w : State app)
      → ForgetsDeleted app.env
      → str_eq u.email "" ≡ false
      → normalize_email app u.email ≡ u.email
      → Users.update_password app (some u) s ≡ (ok tt, t)
      → Users.get_by_email app u.email t ≡ (ok v, w)
      → (r : Records.Users) × Among r t.users
        × (r.email ≡ u.email)
        × (is_live r ≡ true)
        × (v ≡ to_domain r)
  unfolding Ristretto.del
  get_by_email-update_password u v s t w forgets e normal done found =
      let (q, last) = invalidated u s t e done in
      let (r, same, x, read) =
        missed u.email t w v (rw (normal, last) (forgets (cache_key u.email) q.ristretto)) found in
      rw (same, normal) at (get_by_email_sound app (normalize_email app u.email) r x v read)
