-- ===== src/Repository/Effects.antt =====
-- What the reads of the repository answer, also after its writes.
use go_rest_boilerplate.Base.{
  ℕ, ◌==◌, if◌then◌else◌, String, Bool, true, false, Option, none, some, List, ◌≡◌, ◌≢◌, refl, sym,
  ap, ◌∙◌, arith, str_eq→eq,
}
use go_rest_boilerplate.Exec.{Exec, Result, ok, err, pure, throw, map_err, ◌>>=◌}
use go_rest_boilerplate.Apperror.{Error, not_found_error}
use go_rest_boilerplate.Config.{App}
use go_rest_boilerplate.State.{State, on_world}
use go_rest_boilerplate.Records.{Users, to_domain}
use go_rest_boilerplate.Domain.User.{User}
use go_rest_boilerplate.Time.{at}
use go_rest_boilerplate.Repository.{
  fated, counted, found, not_found_or_same, check_affected, update_rows, get_by_email, get_by_id,
  soft_delete, update_password, run_statement, stored_time,
}
use go_rest_boilerplate.Env.{Fate, runs, refuses, loses}
use go_rest_boilerplate.Exec.Rules.{continue_ok, map_err_ok}
use go_rest_boilerplate.Repository.Table.{
  is_live, has_id, has_email, find_live, update_live, set_deleted, set_password,
}
use go_rest_boilerplate.Repository.Table.Reads.{
  Among, find_live_found, find_live-update_live, find_live_deleted,
}

abbrev reread : Users → Result Users → Option Users
reread q (ok r) = some r
reread q (err e) = some q

abbrev reread_user : User → Result User → User
reread_user u (ok v) = v
reread_user u (err e) = u

module _ (app : App) where
  module _ {A : Type 0} where
    fated_ok :
        (fate : Fate) (s : State app) (p : Result A × List Users) {a : A} {t : State app}
        → fated app fate s p ≡ (ok a, t)
        → (p.0 ≡ ok a) × (t.users ≡ p.1)
    fated_ok runs s (ok b, l) h = (ap (λ x. x.0) h, sym (ap (λ x. x.1.users) h))
    fated_ok runs s (err b, l) h = absurd (ground arith)
    fated_ok (refuses e) s p h = absurd (ground arith)
    fated_ok (loses e) s p h = absurd (ground arith)

    -- A statement that succeeds has run, on the table as it was.
    pub run_statement_ok :
        (f : Exec (List Users) A) (s : State app) {a : A} {t : State app}
        → run_statement app f s ≡ (ok a, t)
        → ((f s.users).0 ≡ ok a) × (t.users ≡ (f s.users).1)
    unfolding run_statement
    run_statement_ok f s h =
        fated_ok (app.statement_fate s.world).0
          (record s { world = (app.statement_fate s.world).1 }) (f s.users) h

  found_ok : (o : Option Users) (l : List Users) {r : Users} → (found app o l).0 ≡ ok r → o ≡ some r
  found_ok none l h = absurd (ground arith)
  found_ok (some q) l h = ap (reread q) h

  abbrev pub read : (Users → Bool) → Exec (State app) User
  read p = do
    r ← map_err (not_found_or_same app) (run_statement app (λ t. found app (find_live p t) t))
    pure (to_domain r)

  -- A read that succeeds returns the first live row that passes the test.
  pub read_ok :
      (p : Users → Bool) (s t : State app) (u : User)
      → read p s ≡ (ok u, t)
      → (r : Users) × (find_live p s.users ≡ some r) × (u ≡ to_domain r)
  read_ok p s t u h =
      let (r, s1, e1, e2) =
        continue_ok
          (map_err (not_found_or_same app) (run_statement app (λ t. found app (find_live p t) t)) s)
          (λ r. pure (to_domain r)) h in
      let e3 =
        map_err_ok (not_found_or_same app) (run_statement app (λ t. found app (find_live p t) t))
          e1 in
      let (e4, e5) = run_statement_ok (λ t. found app (find_live p t) t) s e3 in
      (r, found_ok (find_live p s.users) s.users e4, sym (ap (λ x. reread_user u x.0) e2))

  pub write_ok :
      (p : Users → Bool) (f : Users → Users) (s t : State app) (n : ℕ)
      → update_rows app p f s ≡ (ok n, t)
      → t.users ≡ (update_live p f s.users).1
  unfolding update_rows
  write_ok p f s t n h = (run_statement_ok (λ t. counted app (update_live p f t)) s h).1

  refused_or_same :
      (b : Bool) (e : Error) (s t : State app)
      → (if b then throw e else pure tt) s ≡ (ok tt, t)
      → t ≡ s
  refused_or_same true e s t h = absurd (ground arith)
  refused_or_same false e s t h = sym (ap (λ x. x.1) h)

  check_ok : (n : ℕ) (s t : State app) → check_affected app n s ≡ (ok tt, t) → t ≡ s
  check_ok n s t h = refused_or_same (n == 0) (not_found_error "user not found") s t h

  affected_ok :
      (n : ℕ) (s t : State app)
      → (on_world (app.rows_affected n) >>= check_affected app) s ≡ (ok tt, t)
      → t.users ≡ s.users
  affected_ok n s t h =
      let (k, s1, e1, e2) = continue_ok (on_world (app.rows_affected n) s) (check_affected app) h in
      let e3 = check_ok k s1 t e2 in rw e3 (sym (ap (λ x. x.1.users) e1))

  -- A user that GetByEmail returns is the domain form of a live row of the table with that email.
  pub get_by_email_sound :
      (email : String) (s t : State app) (u : User)
      → get_by_email app email s ≡ (ok u, t)
      → (r : Users) × Among r s.users × (r.email ≡ email) × (is_live r ≡ true) × (u ≡ to_domain r)
  unfolding get_by_email
  get_by_email_sound email s t u h =
      let (r, e, eu) = read_ok (has_email email) s t u h in
      let (among, same, live) = find_live_found (has_email email) s.users e in
      (r, among, str_eq→eq r.email email same, live, eu)

  -- After a SoftDelete that succeeds, GetByID with that id returns no user.
  pub get_by_id-soft_delete :
      (id : String) (s t : State app) (u : User)
      → soft_delete app id s ≡ (ok tt, t)
      → (get_by_id app id t).0 ≢ ok u
  unfolding soft_delete get_by_id
  get_by_id-soft_delete id s t u h e =
      let (n, s1, e1, e2) =
        continue_ok
          (update_rows app (has_id id) (set_deleted (at (app.sql_now s.world).0))
            (record s { world = (app.sql_now s.world).1 }))
          (λ n. on_world (app.rows_affected n) >>= check_affected app) h in
      let same = affected_ok n s1 t e2 in
      let written =
        write_ok (has_id id) (set_deleted (at (app.sql_now s.world).0))
          (record s { world = (app.sql_now s.world).1 }) s1 n e1 in
      let (r, found_r, eu) =
        read_ok (has_id id) t (get_by_id app id t).1 u (ap (λ x. (x, (get_by_id app id t).1)) e) in
      let gone = find_live_deleted (has_id id) (at (app.sql_now s.world).0) s.users in
      let found_none : none ≡ some r = rw (same, written, gone) at found_r in ground arith

  -- What an UpdatePassword that succeeds does to the table.
  pub update_password_ok :
      (u : User) (s t : State app)
      → update_password app u s ≡ (ok tt, t)
      → let f =
          set_password u.password
            (stored_time app u.password_changed_at)
            (stored_time app u.updated_at) in
        t.users ≡ (update_live (has_id u.id) f s.users).1
  unfolding update_password
  update_password_ok u s t h =
      let f =
        set_password u.password (stored_time app u.password_changed_at)
          (stored_time app u.updated_at) in
      let (n, s1, e1, e2) =
        continue_ok (update_rows app (has_id u.id) f s)
          (λ n. on_world (app.rows_affected n) >>= check_affected app) h in
      affected_ok n s1 t e2 ∙ write_ok (has_id u.id) f s s1 n e1

  -- After an UpdatePassword that succeeds, a user that GetByID returns for that id has the new hash
  -- and the new time of the change, as the column keeps it.
  pub get_by_id-update_password :
      (u v : User) (s t w : State app)
      → update_password app u s ≡ (ok tt, t)
      → get_by_id app u.id t ≡ (ok v, w)
      → (v.password ≡ u.password) × (v.password_changed_at ≡ stored_time app u.password_changed_at)
  unfolding get_by_id
  get_by_id-update_password u v s t w h k =
      let f =
        set_password u.password (stored_time app u.password_changed_at)
          (stored_time app u.updated_at) in
      let written = update_password_ok u s t h in
      let (r, found_r, ev) = read_ok (has_id u.id) t w v k in
      let found_new : find_live (has_id u.id) (update_live (has_id u.id) f s.users).1 ≡ some r =
        rw written at found_r in
      let (q, found_q, er) =
        find_live-update_live (has_id u.id) f s.users (λ r p l. rw (p, l) refl) found_new in
      (
        ap (λ x. x.password) ev ∙ ap (λ x. x.password) er,
        ap (λ x. x.password_changed_at) ev ∙ ap (λ x. x.password_changed_at) er,
      )
