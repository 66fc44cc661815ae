-- ===== src/Auth/Absence/Resets.antt =====
-- ForgotPassword, ResetPassword and ChangePassword leave an absent key absent.
use go_rest_boilerplate.Base.{String, Option, none, some, ◌≡◌, ◌≢◌, arith, Bool-cases, inl, inr}
use go_rest_boilerplate.Exec.{Result, ok, err, continue, attempt}
use go_rest_boilerplate.Exec.Rules.{
  Keeps, Keeps-bind, Keeps-attempt, Keeps-bind_mapped, Keeps-then, continue_ok,
}
use go_rest_boilerplate.Env.Laws.{RedisLaws}
use go_rest_boilerplate.Config.{App}
use go_rest_boilerplate.State.{State, on_world}
use go_rest_boilerplate.Time.{Time}
use go_rest_boilerplate.Domain.User.{User}
use go_rest_boilerplate.Redis.Absent.{Absent}
use go_rest_boilerplate.Frames.Redis as Frame
use go_rest_boilerplate.Users
use go_rest_boilerplate.Auth.Keys.{password_reset_key}
use go_rest_boilerplate.Auth.Passwords
use go_rest_boilerplate.Auth.Absence.Parts.{
  NotCreated, steps, framed, get_by_email-Gone, get-Gone, limit_if_positive-Gone,
}

module _ (app : App) (L : RedisLaws app.env) (q : String) (C : NotCreated app q) where
  abbrev Gone : State app → Type 0
  Gone = Absent app L q

  record_cutoff-Gone : (i : String) (t : Time) → Keeps Gone (Passwords.record_token_cutoff app i t)
  unfolding Passwords.record_token_cutoff
  record_cutoff-Gone i t = search (steps, C.not_cutoff)

  pub cutoff_of-Gone :
      (i : String) (t : Option Time) → Keeps Gone (Passwords.record_cutoff_of app i t)
  cutoff_of-Gone i none = search steps
  cutoff_of-Gone i (some t) = record_cutoff-Gone i t

  replace-Gone :
      (op : String) (u : User) (p : String) → Keeps Gone (Passwords.replace_password app op u p)
  unfolding Passwords.replace_password
  replace-Gone op u p = search steps

  pub change_password-Gone : (i c p : String) → Keeps Gone (Passwords.change_password app i c p)
  unfolding Passwords.change_password
  change_password-Gone i c p = search (steps, replace-Gone, cutoff_of-Gone) depth 9

  redeem-Gone : (t p : String) → Keeps Gone (Passwords.redeem app t p)
  unfolding Passwords.redeem
  redeem-Gone t p = search (steps, replace-Gone) depth 12

  use_up-Gone : (t : String) (r : Passwords.Redeemed) → Keeps Gone (Passwords.use_up app t r)
  unfolding Passwords.use_up
  use_up-Gone t r = search (steps, cutoff_of-Gone) depth 9

  pub reset_password-Gone : (t p : String) → Keeps Gone (Passwords.reset_password app t p)
  unfolding Passwords.reset_password
  reset_password-Gone t p = search (steps, redeem-Gone, use_up-Gone)

  -- A token that is drawn is not the one that is gone.
  token_drawn :
      (s : State app) {x : String} {t : State app}
      → Passwords.generate_reset_token app s ≡ (ok x, t)
      → password_reset_key x ≢ q
  unfolding Passwords.generate_reset_token
  token_drawn s {x} h =
      let (buf, t, drawn, rest) = continue_ok (on_world (app.read_random 32) s) _ h in
      let same : app.base64_url buf ≡ x = ground arith in
      rw same at (C.not_reset s.world buf (ground arith))

  drop_token-Gone : (r : Result String) → Keeps Gone (Passwords.drop_token app r)
  drop_token-Gone (ok x) = search steps
  drop_token-Gone (err e) = search steps

  invalidate_prior-Gone : (i : String) → Keeps Gone (Passwords.invalidate_prior app i)
  unfolding Passwords.invalidate_prior
  invalidate_prior-Gone i =
      Keeps-bind _ _ (Keeps-attempt _ (get-Gone app L q _)) (λ r. drop_token-Gone r)

  write_decoy-Gone :
      (x : String) → password_reset_key x ≢ q → Keeps Gone (Passwords.write_decoy app x)
  unfolding Passwords.write_decoy
  write_decoy-Gone x n = search steps depth 9

  publish-Gone :
      (x i : String) → password_reset_key x ≢ q → Keeps Gone (Passwords.publish_token app x i)
  unfolding Passwords.publish_token
  publish-Gone x i n = search (steps, C.not_reset_index) depth 9

  answer-Gone :
      (x e : String) (r : Result User)
      → password_reset_key x ≢ q
      → Keeps Gone (Passwords.answer_forgotten app x e r)
  answer-Gone x e (ok u) n = search (steps, invalidate_prior-Gone, publish-Gone x _ n)
  answer-Gone x e (err d) n = elim (Bool-cases (Passwords.is_not_found d)) [
    | inl c ↦ rw c (write_decoy-Gone x n)
    | inr c ↦ rw c (search steps)
  ]

  forgot_rest-Gone :
      (e x : String)
      → password_reset_key x ≢ q
      → Keeps Gone (λ s.
        continue (attempt (Users.get_by_email app e) s) (Passwords.answer_forgotten app x e))
  forgot_rest-Gone e x n =
      Keeps-bind _ _ (Keeps-attempt _ (get_by_email-Gone app L q e)) (λ r. answer-Gone x e r n)

  token-Gone : Keeps Gone (Passwords.generate_reset_token app)
  token-Gone = framed app L q _ (λ d. Frame.generate_reset_token-RedisIs)

  pub forgot_password-Gone : (e : String) → Keeps Gone (Passwords.forgot_password app e)
  unfolding Passwords.forgot_password
  forgot_password-Gone e =
      Keeps-then _ _ (limit_if_positive-Gone app L q _ _ _ _ (C.not_forgot_count _)) (
        Keeps-bind_mapped (Passwords.generate_reset_token app) _ _ token-Gone
          λ s x t h. forgot_rest-Gone _ x (token_drawn s h))
