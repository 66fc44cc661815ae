-- ===== src/Auth/OneShot.antt =====
-- A reset link works once.
use go_rest_boilerplate.Base.{String, false, List, ◌≡◌, refl, str_eq, arith, Bool-cases, inl, inr}
use go_rest_boilerplate.Apperror.{unauthorized_error}
use go_rest_boilerplate.Exec.{Result, ok, err}
use go_rest_boilerplate.Exec.Rules.{Keeps-then, Keeps-ignore}
use go_rest_boilerplate.Env.Laws.{RedisLaws, ConfirmsDel}
use go_rest_boilerplate.Config.{App}
use go_rest_boilerplate.State.{State}
use go_rest_boilerplate.Redis.Absent.{Absent, get_of_Absent, del-Absent, del-Absent_self}
use go_rest_boilerplate.Auth.Keys.{password_reset_key, user_reset_index_key}
use go_rest_boilerplate.Auth.Absence.Resets.{cutoff_of-Gone}
use go_rest_boilerplate.Auth.Absence.{serve_all-Absent}
use go_rest_boilerplate.Auth.Requests.{Request, serve_all}
use go_rest_boilerplate.Auth.Revocation.{NeverDraws, confirmed, reset-NotCreated}
use go_rest_boilerplate.Auth.Passwords
use go_rest_boilerplate.Auth.Passwords.{Redeemed}

module _ (app : App) (L : RedisLaws app.env) where
  -- The token is gone when its use has been cleaned up.
  use_up-Absent :
      (t : String) (r : Redeemed) (v : State app)
      → ConfirmsDel app.env
      → NeverDraws app t
      → Absent app L (password_reset_key t) (Passwords.use_up app t r v).1
  unfolding Passwords.use_up
  use_up-Absent t r v confirms fresh =
      let q = password_reset_key t in
      let gone = del-Absent_self app L q v (confirmed app q v confirms) in
      (Keeps-then _ _ (Keeps-ignore _ (del-Absent app L q (user_reset_index_key r.user_id)))
          (cutoff_of-Gone app L q (reset-NotCreated app t fresh) r.user_id _)).at
        _ gone

  reset_ends :
      (t p : String) (s w : State app)
      → Passwords.reset_password app t p s ≡ (ok tt, w)
      → (r : Redeemed) × (v : State app) × (w ≡ (Passwords.use_up app t r v).1)
  unfolding Passwords.reset_password
  reset_ends t p s w h = go (Passwords.redeem app t p s) refl
    where
      go :
          (q : Result Redeemed × State app)
          → Passwords.redeem app t p s ≡ q
          → (r : Redeemed) × (v : State app) × (w ≡ (Passwords.use_up app t r v).1)
      go (err e, v) k = absurd (ground arith)
      go (ok r, v) k = (r, v, ground arith)

  -- A reset that succeeds was given a token.
  nonempty :
      (t p : String) (s w : State app)
      → Passwords.reset_password app t p s ≡ (ok tt, w)
      → str_eq t "" ≡ false
  unfolding Passwords.reset_password Passwords.redeem
  nonempty t p s w h = elim (Bool-cases (str_eq t "")) [ inl e ↦ absurd (ground arith) | inr e ↦ e ]

  -- A reset token that is not in Redis is refused.
  reset_of_Absent :
      (t p : String) (s : State app)
      → Absent app L (password_reset_key t) s
      → str_eq t "" ≡ false
      → str_eq p "" ≡ false
      → (Passwords.reset_password app t p s).0
        ≡ err (unauthorized_error "reset token is invalid or expired")
  unfolding Passwords.reset_password Passwords.redeem
  reset_of_Absent t p s gone ht hp =
      let (e, missing) = get_of_Absent app L (password_reset_key t) s gone in ground arith

  -- After a reset that succeeds, the same token is refused with a 401 for every new password that
  -- is not empty, whatever requests follow, as long as no draw of random bytes gives that token
  -- again. Redis obeys its documented laws and confirms every deletion.
  pub reset_password-reset_password :
      (t p p' : String) (s w : State app)
      → ConfirmsDel app.env
      → NeverDraws app t
      → Passwords.reset_password app t p s ≡ (ok tt, w)
      → str_eq p' "" ≡ false
      → (rs : List Request)
      → (Passwords.reset_password app t p' (serve_all app rs w)).0
        ≡ err (unauthorized_error "reset token is invalid or expired")
  reset_password-reset_password t p p' s w confirms fresh done hp rs =
      let q = password_reset_key t in
      let (r, v, last) = reset_ends t p s w done in
      let gone = use_up-Absent t r v confirms fresh in
      let later =
        serve_all-Absent app L q (reset-NotCreated app t fresh) rs w (rw (← last) at gone) in
      reset_of_Absent t p' (serve_all app rs w) later (nonempty t p s w done) hp
