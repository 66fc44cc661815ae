-- ===== src/Seed/Whole.antt =====
-- The transaction of cmd/seed/seeders/seeder.go is whole: all the accounts or none.
use go_rest_boilerplate.Base.{true, List, [], ◌∷◌, ◌≡◌, ◌⊎◌, inl, inr, refl, sym, arith, Bool-cases}
use go_rest_boilerplate.Exec.{Result, ok, err, continue}
use go_rest_boilerplate.Exec.Rules.{Keeps, Keeps-then, keeps_rules, continue_ok}
use go_rest_boilerplate.Config.{App}
use go_rest_boilerplate.Env.{Fate, runs, refuses, loses}
use go_rest_boilerplate.State.{State}
use go_rest_boilerplate.Records.{Users}
use go_rest_boilerplate.Repository.{run_statement, fated}
use go_rest_boilerplate.Repository.Table.{insert, is_live, clashes_any}
use go_rest_boilerplate.Repository.Uniqueness.{IsDistinct, insert-IsDistinct}
use go_rest_boilerplate.Repository.Uniqueness.Writes.{
  HasDistinctUsers, draw-Keeps, run_statement-Keeps,
}
use go_rest_boilerplate.Seed.{insert_user, insert_all, settle, transaction, user_seeder}

-- A row is the live row of an account.
pub record IsRowOf (user r : Users) : Type 0 where
  pub username : r.username ≡ user.username
  pub email : r.email ≡ user.email
  pub password : r.password ≡ user.password
  pub active : r.active ≡ user.active
  pub role_id : r.role_id ≡ user.role_id
  pub live : is_live r ≡ true

-- The second table is the first with one row more for each account.
abbrev pub Seeded : List Users → List Users → List Users → Type 0
Seeded [] t u = t ≡ u
Seeded (user ∷ users) t u = (r : Users) × IsRowOf user r × Seeded users (r ∷ t) u

module _ (app : App) where
  -- After a success the accounts are all in the table; after an error they are, or it is as it was.
  abbrev pub Whole : List Users → List Users → Result (Unit {0}) × State app → Type 0
  Whole users t (ok u, s) = Seeded users t s.users × HasDistinctUsers app s
  Whole users t (err e, s) = ((s.users ≡ t) ⊎ Seeded users t s.users) × HasDistinctUsers app s

  inserted :
      (user row : Users) (fate : Fate) (s t : State app) (r : Users)
      → IsRowOf user row
      → fated app fate s (insert app.sql_lower row s.users) ≡ (ok r, t)
      → IsRowOf user r × (t.users ≡ r ∷ s.users)
  unfolding insert
  inserted user row runs s t r w h = elim (Bool-cases (clashes_any app.sql_lower row s.users)) [
    | inl e ↦ ground (arith, e, h)
    | inr e ↦ let same : r ≡ row = ground (arith, e, h) in (rw same w, ground (arith, e, h))
  ]
  inserted user row (refuses e) s t r w h = ground arith
  inserted user row (loses e) s t r w h = ground arith

  insert_user_ok :
      (user : Users) (s t : State app) {r : Users}
      → insert_user app user s ≡ (ok r, t)
      → IsRowOf user r × (t.users ≡ r ∷ s.users)
  unfolding insert_user run_statement
  insert_user_ok user s t {r} h =
      inserted user _ _ _ t r
        (record {
          username = refl;
          email = refl;
          password = refl;
          active = refl;
          role_id = refl;
          live = refl;
        })
        h

  insert_all_ok :
      (users : List Users) (s t : State app)
      → insert_all app users s ≡ (ok tt, t)
      → Seeded users s.users t.users
  unfolding insert_all
  insert_all_ok [] s t h = ground arith
  insert_all_ok (user ∷ users) s t h =
      let (r, s1, e, h1) = continue_ok (insert_user app user s) _ h in
      let (w, added) = insert_user_ok user s s1 e in
      (r, w, rw (sym added) (insert_all_ok users s1 t h1))

  insert_user-Keeps : (user : Users) → Keeps (HasDistinctUsers app) (insert_user app user)
  unfolding insert_user
  insert_user-Keeps user =
      search (keeps_rules, draw-Keeps, run_statement-Keeps, insert-IsDistinct) depth 9

  insert_all-Keeps : (users : List Users) → Keeps (HasDistinctUsers app) (insert_all app users)
  unfolding insert_all
  insert_all-Keeps [] = search keeps_rules
  insert_all-Keeps (user ∷ users) =
      Keeps-then (insert_user app user) (insert_all app users) (insert_user-Keeps user)
        (insert_all-Keeps users)

  committed :
      (users t u : List Users) (fate : Fate) (s : State app)
      → s.users ≡ t
      → IsDistinct app.sql_lower t
      → IsDistinct app.sql_lower u
      → Seeded users t u
      → Whole users t (fated app fate s (ok tt, u))
  committed users t u runs s e d d' h = (h, d')
  committed users t u (refuses x) s e d d' h = (inl e, rw e d)
  committed users t u (loses x) s e d d' h = (inr h, d')

  settled :
      (users : List Users) (s : State app) (p : Result (Unit {0}) × State app)
      → HasDistinctUsers app s
      → HasDistinctUsers app p.1
      → (p.0 ≡ ok tt → Seeded users s.users p.1.users)
      → Whole users s.users (settle app s p)
  unfolding run_statement
  settled users s (ok tt, t) d d' h =
      committed users s.users t.users (app.statement_fate t.world).0 _ refl d d' (h refl)
  settled users s (err x, t) d d' h = (inl refl, d)

  transaction-Whole :
      (users : List Users) (s : State app)
      → HasDistinctUsers app s
      → Whole users s.users (transaction app users s)
  transaction-Whole users s d =
      settled users s (insert_all app users s) d ((insert_all-Keeps users).at s d)
        (λ e. insert_all_ok users s (insert_all app users s).1 (ground (arith, e)))

  -- Begin leaves the table as it is, whatever the server does with it.
  begun :
      (fate : Fate) (s : State app) (t : List Users)
      → s.users ≡ t
      → (fated app {A = Unit {0}} fate s (ok tt, t)).1.users ≡ t
  begun runs s t e = refl
  begun (refuses x) s t e = e
  begun (loses x) s t e = refl

  opened :
      (users t : List Users) (p : Result (Unit {0}) × State app)
      → p.1.users ≡ t
      → IsDistinct app.sql_lower t
      → Whole users t (continue p (λ _. transaction app users))
  opened users t (ok u, s) e d = rw (sym e) (transaction-Whole users s (rw e d))
  opened users t (err x, s) e d = (inl e, rw e d)

  -- Whatever the server does with each statement of the seeder, Begin and Commit among them, on a
  -- table with one row for an id, and one live row for an email and for a username in lower case: a
  -- success leaves one new live row for every account of the list, with its name, email, hash, flag
  -- and role; an error leaves the table as it was, or all of these rows in it, and never some of
  -- them; and the table has one row for an id, an email and a name as before.
  pub user_seeder-Whole :
      (users : List Users) (s : State app)
      → HasDistinctUsers app s
      → Whole users s.users (user_seeder app users s)
  unfolding user_seeder run_statement
  user_seeder-Whole [] s d = (inl refl, d)
  user_seeder-Whole (user ∷ users) s d =
      opened (user ∷ users) s.users _ (begun (app.statement_fate s.world).0 _ s.users refl) d
