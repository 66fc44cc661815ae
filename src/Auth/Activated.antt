-- ===== src/Auth/Activated.antt =====
-- What a successful activation does to the table (auth.verify_otp.go of
-- internal/business/usecases/auth).
use go_rest_boilerplate.Records
use go_rest_boilerplate.Base.{
  List, [], ◌∷◌, map, refl, str_eq, ◌&&◌, Bool-cases, inl, inr, if◌then◌else◌, ℕ, String, true,
  false, not, some, ◌≡◌, sym, ap, ◌∙◌, arith,
}
use go_rest_boilerplate.Apperror.{Error, not_found_error, bad_request_error, internal_cause, errorf}
use go_rest_boilerplate.Exec.{ok, attempt, guard, map_err, ignore, ◌>>=◌, ◌>>◌}
use go_rest_boilerplate.Exec.Rules.{continue_ok, map_err_ok, guard_ok}
use go_rest_boilerplate.Config.{App}
use go_rest_boilerplate.State.{State}
use go_rest_boilerplate.Time.{at}
use go_rest_boilerplate.Domain.User.{User}
use go_rest_boilerplate.Domain.Account
use go_rest_boilerplate.Domain.Account.{normalize_email}
use go_rest_boilerplate.Repository
use go_rest_boilerplate.Repository.{update_rows}
use go_rest_boilerplate.Repository.Effects.{write_ok}
use go_rest_boilerplate.Repository.Table.{has_id, is_live, update_live, set_active}
use go_rest_boilerplate.Users
use go_rest_boilerplate.Frames.Users.{
  users_after, refresh-UsersAre, forget-UsersAre, get_by_email-UsersAre, check_code-UsersAre,
}
use go_rest_boilerplate.Redis
use go_rest_boilerplate.Auth.Keys.{user_otp_key, otp_attempts_key}
use go_rest_boilerplate.Auth.Otp

-- A row, with the flag and the time of the update if it is live and has the id.
abbrev pub activated : String → ℕ → Records.Users → Records.Users
activated id now r =
    if str_eq r.id id && is_live r
    then record r { active = true; updated_at = some (at now) }
    else r

update_live-map :
    (id : String) (now : ℕ) (t : List Records.Users)
    → (update_live (has_id id) (set_active true (at now)) t).1 ≡ map (activated id now) t
unfolding update_live
update_live-map id now [] = refl
update_live-map id now (r ∷ t) = elim (Bool-cases (str_eq r.id id && is_live r)) [
  | inl e ↦ rw e (
      ap (λ l. record r { active = true; updated_at = some (at now) } ∷ l)
        (update_live-map id now t))
  | inr e ↦ rw e (ap (λ l. r ∷ l) (update_live-map id now t))
]

module _ (app : App) where
  change_active_user_ok :
      (u : User) (s t : State app)
      → Repository.change_active_user app u s ≡ (ok tt, t)
      → (now : ℕ) × (t.users ≡ (update_live (has_id u.id) (set_active u.active (at now)) s.users).1)
  unfolding Repository.change_active_user
  change_active_user_ok u s t h =
      let now = (app.sql_now s.world).0 in
      let r = record s { world = (app.sql_now s.world).1 } in
      let f = set_active u.active (at now) in
      let (n, s1, e1, h1) = continue_ok (update_rows app (has_id u.id) f r) _ h in
      let same : s1.users ≡ t.users = ap (λ x. x.1.users) h1 in
      (now, sym same ∙ write_ok app (has_id u.id) f r s1 n e1)

  activate_ok :
      (id : String) (s t : State app)
      → Users.activate app id s ≡ (ok tt, t)
      → (now : ℕ) × (t.users ≡ (update_live (has_id id) (set_active true (at now)) s.users).1)
  unfolding Users.activate Account.activate
  activate_ok id s t h =
      let u = record (Users.blank_user id) {
        active = true;
        updated_at = some (at (app.now s.world).0);
      } in
      let s1 = record s { world = (app.now s.world).1 } in
      let f : Error → Error = λ e. internal_cause (errorf "activate user" e) in
      let change = Repository.change_active_user app u in
      let refresh = attempt (Repository.get_by_id app id) >>= Users.invalidate app in
      let (_, s2, e2, h2) = continue_ok (map_err f change s1) (λ _. refresh) h in
      let (now, written) = change_active_user_ok u s1 s2 (map_err_ok f change e2) in
      let rest : t.users ≡ s2.users = users_after refresh s2 (λ l. refresh-UsersAre id) h2 in
      (now, rest ∙ written)

  -- A VerifyOTP that succeeds was for an account that its lookup of the email found and that was not
  -- active, and its whole effect on the table is to set the flag, and the time of the update, in the
  -- live rows with that account's id; every other row is as it was.
  pub verify_otp-users :
      (e c : String) (s t : State app)
      → Otp.verify_otp app e c s ≡ (ok tt, t)
      → (u : User) × (now : ℕ) × ((Users.get_by_email app (normalize_email app e) s).0 ≡ ok u)
        × (u.active ≡ false)
        × (t.users ≡ map (activated u.id now) s.users)
  unfolding Otp.verify_otp
  verify_otp-users e c s t h =
      let email = normalize_email app e in
      let lookup = Users.get_by_email app email in
      let f : Error → Error = λ _. not_found_error "email not found" in
      let (u, s1, e1, h1) = continue_ok (map_err f lookup s) _ h in
      let (_, s2, e2, h2) =
        continue_ok (guard (not u.active) (bad_request_error "account already activated") s1) _
          h1 in
      let (_, s3, e3, h3) = continue_ok (Otp.check_code app email c s2) _ h2 in
      let (_, s4, e4, h4) = continue_ok (Users.activate app u.id s3) _ h3 in
      let (now, written) = activate_ok u.id s3 s4 e4 in
      let rest : t.users ≡ s4.users =
        users_after
          (ignore (Redis.del app (user_otp_key email))
            >> ignore (Redis.del app (otp_attempts_key email)))
          s4 (λ l. forget-UsersAre _ _) h4 in
      let found = map_err_ok f lookup e1 in
      let (closed, same) = guard_ok (not u.active) _ e2 in
      let looked : s1.users ≡ s.users =
        users_after lookup s (λ l. get_by_email-UsersAre email) found in
      let checked : s3.users ≡ s2.users =
        users_after (Otp.check_code app email c) s2 (λ l. check_code-UsersAre email c) e3 in
      let before : s3.users ≡ s.users = checked ∙ (ap (λ x. x.users) (sym same) ∙ looked) in
      (
        u,
        now,
        ap (λ x. x.0) found,
        ground (arith, closed),
        rest
            ∙ (written
                ∙ (ap (λ l. (update_live (has_id u.id) (set_active true (at now)) l).1) before
                    ∙ update_live-map u.id now s.users)),
      )
