-- ===== src/Auth/Replaced.antt =====
-- What a changed password is good for: the hash that stands in the table afterwards is one of the
-- new password (auth.reset_password.go, auth.change_password.go of
-- internal/business/usecases/auth).
use go_rest_boilerplate.Base.{
  ℤ, String, ◌<>◌, true, not, some, ◌≡◌, refl, sym, ap, ◌∙◌, arith, str_eq, str_eq→eq,
}
use go_rest_boilerplate.Apperror.{Error, unauthorized_error}
use go_rest_boilerplate.Exec.{Result, ok, err, guard, map_err, ◌>>=◌, when}
use go_rest_boilerplate.Exec.Rules.{continue_ok, map_err_ok, guard_ok, pure_ok}
use go_rest_boilerplate.Env.Laws.{VerifiesHashes}
use go_rest_boilerplate.Config.{App}
use go_rest_boilerplate.State.{State}
use go_rest_boilerplate.Domain.User.{User}
use go_rest_boilerplate.Domain.Account
use go_rest_boilerplate.Domain.Account.{verify_password, generate_hash}
use go_rest_boilerplate.Repository
use go_rest_boilerplate.Repository.{stored_time}
use go_rest_boilerplate.Repository.Effects.{update_password_ok, read_ok, read}
use go_rest_boilerplate.Repository.Table.{has_id, update_live, set_password}
use go_rest_boilerplate.Repository.Table.Reads.{find_live_found, find_live-update_live}
use go_rest_boilerplate.Redis
use go_rest_boilerplate.Ristretto
use go_rest_boilerplate.Users
use go_rest_boilerplate.Users.{map_repo_error, known_email, cache_key}
use go_rest_boilerplate.Frames.Users.{
  users_after, evict-UsersAre, use_up-UsersAre, record_cutoff_of-UsersAre,
}
use go_rest_boilerplate.Auth.Keys.{password_reset_key}
use go_rest_boilerplate.Auth.Passwords

abbrev value : String → Result String → String
value d (ok v) = v
value d (err e) = d

module _ (app : App) where
  -- The table after `u`'s row has taken its hash and times.
  abbrev Holds : User → State app → State app → Type 0
  Holds u s t =
      t.users
      ≡ (update_live (has_id u.id)
          (set_password u.password (stored_time app u.password_changed_at)
            (stored_time app u.updated_at))
          s.users).1

  hashed :
      VerifiesHashes app.env
      → (u : User) (p : String) (cost : ℤ) (s t : State app) {c : User}
      → Account.change_password app u p cost s ≡ (ok c, t)
      → (c.id ≡ u.id) × (verify_password app c p ≡ true)
  unfolding Account.change_password
  hashed V u p cost s t {c} h =
      let (_, s1, e1, h1) = continue_ok (guard (not (str_eq p "")) _ s) _ h in
      let (x, s2, e2, h2) = continue_ok (generate_hash app p cost s1) _ h1 in
      let made : app.generate_from_password p (Account.effective_cost app cost) s1.world
          ≡ (ok x, s2.world) =
        ap (λ r. (r.0, r.1.world)) e2 in
      let accepted = V p x (Account.effective_cost app cost) s1.world s2.world made in
      (ground (arith, h2), ground (arith, h2, accepted))

  update_ok :
      (u : User) (s t : State app) → Users.update_password app (some u) s ≡ (ok tt, t) → Holds u s t
  unfolding Users.update_password
  update_ok u s t h =
      let (_, s1, e1, h1) = continue_ok (guard (not (str_eq u.id "")) _ s) _ h in
      let f = map_repo_error ("update password for " <> u.id) in
      let write = Repository.update_password app u in
      let evict = known_email app u >>= λ email.
      when (not (str_eq email "")) (Ristretto.del app (cache_key email)) in
      let (_, s2, e2, h2) = continue_ok (map_err f write s1) (λ _. evict) h1 in
      let same = (guard_ok (not (str_eq u.id "")) _ e1).1 in
      let rest : t.users ≡ s2.users = users_after evict s2 (λ l. evict-UsersAre u) h2 in
      let written = update_password_ok app u s1 s2 (map_err_ok f write e2) in
      rest
      ∙ (written
          ∙ ap
              (λ x.
                (update_live (has_id u.id)
                  (set_password u.password (stored_time app u.password_changed_at)
                    (stored_time app u.updated_at))
                  x.users).1)
              (sym same))

  replaced_ok :
      VerifiesHashes app.env
      → (op : String) (u : User) (p : String) (s t : State app) {c : User}
      → Passwords.replace_password app op u p s ≡ (ok c, t)
      → (c.id ≡ u.id) × (verify_password app c p ≡ true) × ((r : State app) × Holds c r t)
  unfolding Passwords.replace_password
  replaced_ok V op u p s t {c} h =
      let f = Passwords.hash_error op in
      let change = Account.change_password app u p app.auth.bcrypt_cost in
      let (x, s1, e1, h1) = continue_ok (map_err f change s) _ h in
      let (_, s2, e2, h2) = continue_ok (Users.update_password app (some x) s1) _ h1 in
      let (owner, accepted) = hashed V u p app.auth.bcrypt_cost s s1 (map_err_ok f change e1) in
      let written = update_ok x s1 s2 e2 in
      pure_ok
        (λ x t. (x.id ≡ u.id) × (verify_password app x p ≡ true) × ((r : State app) × Holds x r t))
        h2 (owner, accepted, (s1, written))

  found_ok :
      (id : String) (s t : State app) (v : User)
      → Users.get_by_id app id s ≡ (ok v, t)
      → read app (has_id id) s ≡ (ok v, t)
  unfolding Users.get_by_id Repository.get_by_id
  found_ok id s t v h = map_err_ok (map_repo_error "get user by id") (Repository.get_by_id app id) h

  get_by_id-id :
      (id : String) (s t : State app) (v : User) → Users.get_by_id app id s ≡ (ok v, t) → v.id ≡ id
  get_by_id-id id s t v h =
      let (r, found, same) = read_ok app (has_id id) s t v (found_ok id s t v h) in
      let (_, test, _) = find_live_found (has_id id) s.users found in
      ap (λ x. x.id) same ∙ str_eq→eq r.id id test

  get_by_id-Holds :
      (c v : User) (id p : String) (r t w : State app)
      → c.id ≡ id
      → Holds c r t
      → verify_password app c p ≡ true
      → Users.get_by_id app id t ≡ (ok v, w)
      → verify_password app v p ≡ true
  get_by_id-Holds c v id p r t w owner written accepted h =
      let here : Users.get_by_id app c.id t ≡ (ok v, w) = rw owner h in
      let f =
        set_password c.password (stored_time app c.password_changed_at)
          (stored_time app c.updated_at) in
      let (q, found, same) = read_ok app (has_id c.id) t w v (found_ok c.id t w v here) in
      let (_, _, new) =
        find_live-update_live (has_id c.id) f r.users (λ x p l. rw (p, l) refl)
          (rw written at found) in
      let kept : v.password ≡ c.password = ap (λ x. x.password) same ∙ ap (λ x. x.password) new in
      ap (λ x. app.compare_hash_and_password x p) kept ∙ accepted

  redeemed_ok :
      VerifiesHashes app.env
      → (token id p : String) (s t : State app) {x : Passwords.Redeemed}
      → (Redis.get app (password_reset_key token) s).0 ≡ ok id
      → Passwords.redeem app token p s ≡ (ok x, t)
      → (c : User) × (c.id ≡ id)
        × (verify_password app c p ≡ true)
        × ((r : State app) × Holds c r t)
  unfolding Passwords.redeem
  redeemed_ok V token id p s t held h =
      let g : Error → Error = λ _. unauthorized_error "reset token is invalid or expired" in
      let get = Redis.get app (password_reset_key token) in
      let (_, a, ea, ha) = continue_ok (guard (not (str_eq p "")) _ s) _ h in
      let (_, b, eb, hb) = continue_ok (guard (not (str_eq token "")) _ a) _ ha in
      let (id', d, ed, hd) = continue_ok (map_err g get b) _ hb in
      let (_, e, ee, he) = continue_ok (guard (not (str_eq id' "")) _ d) _ hd in
      let (u, f, ef, hf) = continue_ok (Users.get_by_id app id' e) _ he in
      let (c, q, eq, hq) =
        continue_ok (Passwords.replace_password app "hash reset password" u p f) _ hf in
      let (owner, accepted, written) = replaced_ok V "hash reset password" u p f q eq in
      let read : (get b).0 ≡ ok id' = ap (λ r. r.0) (map_err_ok g get ed) in
      let still : s ≡ b = (guard_ok (not (str_eq p "")) _ ea).1 ∙ (guard_ok _ _ eb).1 in
      let known : id' ≡ id = ap (value id) (sym read ∙ (ap (λ z. (get z).0) (sym still) ∙ held)) in
      let same : t.users ≡ q.users = ap (λ r. r.1.users) (sym hq) in
      (c, owner ∙ (get_by_id-id id' e f u ef ∙ known), accepted, (written.0, same ∙ written.1))

  -- After a ResetPassword that succeeds, a user that a lookup by the id returns, for the id that
  -- Redis held under the token, has a hash that the new password passes. bcrypt accepts a password
  -- with the hash that it made of it.
  pub reset_password-verify_password :
      VerifiesHashes app.env
      → (token id p : String) (v : User) (s t w : State app)
      → (Redis.get app (password_reset_key token) s).0 ≡ ok id
      → Passwords.reset_password app token p s ≡ (ok tt, t)
      → Users.get_by_id app id t ≡ (ok v, w)
      → verify_password app v p ≡ true
  unfolding Passwords.reset_password Passwords.redeem
  reset_password-verify_password V token id p v s t w held h k =
      let (r, s1, e1, h1) = continue_ok (Passwords.redeem app token p s) _ h in
      let rest : t.users ≡ s1.users =
        users_after (Passwords.use_up app token r) s1 (λ l. use_up-UsersAre token r) h1 in
      let (c, owner, accepted, (q, written)) = redeemed_ok V token id p s s1 held e1 in
      get_by_id-Holds c v id p q t w owner (rest ∙ written) accepted k

  -- After a ChangePassword that succeeds, a user that a lookup by that id returns has a hash that
  -- the new password passes. bcrypt accepts a password with the hash that it made of it.
  pub change_password-verify_password :
      VerifiesHashes app.env
      → (id old p : String) (v : User) (s t w : State app)
      → Passwords.change_password app id old p s ≡ (ok tt, t)
      → Users.get_by_id app id t ≡ (ok v, w)
      → verify_password app v p ≡ true
  unfolding Passwords.change_password
  change_password-verify_password V id old p v s t w h k =
      let (_, a, ea, ha) = continue_ok (guard (not (str_eq p "")) _ s) _ h in
      let (u, b, eb, hb) = continue_ok (Users.get_by_id app id a) _ ha in
      let (_, d, ed, hd) = continue_ok (guard (verify_password app u old) _ b) _ hb in
      let (c, e, ee, he) =
        continue_ok (Passwords.replace_password app "hash new password" u p d) _ hd in
      let (owner, accepted, (q, written)) = replaced_ok V "hash new password" u p d e ee in
      let rest : t.users ≡ e.users =
        users_after (Passwords.record_cutoff_of app id c.password_changed_at) e
          (λ l. record_cutoff_of-UsersAre id c.password_changed_at) he in
      get_by_id-Holds c v id p q t w (owner ∙ get_by_id-id id a b u eb) (rest ∙ written) accepted k
