-- ===== src/Repository/Uniqueness/Writes.antt =====
-- The statements of the repository leave the table's rows apart.
use go_rest_boilerplate.Base.{ℕ, String, Bool, List, Bool-cases, ◌==◌, inl, inr, Option}
use go_rest_boilerplate.Exec.{Exec}
use go_rest_boilerplate.Exec.Rules.{Keeps, keeps_rules}
use go_rest_boilerplate.Config.{App}
use go_rest_boilerplate.State.{State, draw, on_world}
use go_rest_boilerplate.Records.{Users}
use go_rest_boilerplate.Domain.User.{User}
use go_rest_boilerplate.Time.{Time}
use go_rest_boilerplate.Repository.{
  fated, counted, update_rows, run_statement, store, update_password, soft_delete,
  change_active_user, check_affected,
}
use go_rest_boilerplate.Env.{Fate, runs, refuses, loses}
use go_rest_boilerplate.Repository.Table.{
  has_id, update_live, set_active, set_password, set_deleted,
}
use go_rest_boilerplate.Repository.Uniqueness.{
  IsDistinct, Narrows, set_active-Narrows, set_password-Narrows, set_deleted-Narrows,
  update_live-IsDistinct, insert-IsDistinct,
}

module _ (app : App) where
  -- The table of the state has distinct rows.
  abbrev pub HasDistinctUsers : State app → Type 0
  HasDistinctUsers s = IsDistinct app.sql_lower s.users

  module _ {A : Type 0} (f : Exec (List Users) A)
      (k : (t : List Users) → IsDistinct app.sql_lower t → IsDistinct app.sql_lower (f t).1) where
    fated-Keeps :
        (fate : Fate) (s : State app) (w : app.World)
        → HasDistinctUsers s
        → HasDistinctUsers (fated app fate (record s { world = w }) (f s.users)).1
    fated-Keeps runs s w h = k s.users h
    fated-Keeps (refuses e) s w h = h
    fated-Keeps (loses e) s w h = k s.users h

    pub run_statement-Keeps : Keeps HasDistinctUsers (run_statement app f)
    unfolding run_statement
    run_statement-Keeps = record {
      at = λ s h. fated-Keeps (app.statement_fate s.world).0 s (app.statement_fate s.world).1 h;
    }

  pub draw-Keeps :
      {A : Type 0} (f : app.World → A × app.World) → Keeps HasDistinctUsers (draw {app = app} f)
  draw-Keeps f = record { at = λ s h. h }

  on_world-Keeps :
      {A : Type 0} (f : Exec app.World A) → Keeps HasDistinctUsers (on_world {app = app} f)
  on_world-Keeps f = record { at = λ s h. h }

  update-Keeps :
      (p : Users → Bool) (f : Users → Users)
      → ((r : Users) → Narrows (f r) r)
      → Keeps HasDistinctUsers (update_rows app p f)
  unfolding update_rows
  update-Keeps p f n =
      run_statement-Keeps (λ t. counted app (update_live p f t))
        (update_live-IsDistinct app.sql_lower p f n)

  activity-Keeps :
      (id : String) (active : Bool) (now : Time)
      → Keeps HasDistinctUsers (update_rows app (has_id id) (set_active active now))
  activity-Keeps id active now =
      update-Keeps (has_id id) (set_active active now) (set_active-Narrows active now)

  password-Keeps :
      (id w : String) (changed updated : Option Time)
      → Keeps HasDistinctUsers (update_rows app (has_id id) (set_password w changed updated))
  password-Keeps id w changed updated =
      update-Keeps (has_id id) (set_password w changed updated)
        (set_password-Narrows w changed updated)

  deletion-Keeps :
      (id : String) (now : Time)
      → Keeps HasDistinctUsers (update_rows app (has_id id) (set_deleted now))
  deletion-Keeps id now = update-Keeps (has_id id) (set_deleted now) (set_deleted-Narrows now)

  check_affected-Keeps : (n : ℕ) → Keeps HasDistinctUsers (check_affected app n)
  check_affected-Keeps n = elim (Bool-cases (n == 0)) [
    | inl e ↦ rw e (search keeps_rules)
    | inr e ↦ rw e (search keeps_rules)
  ]

  store-Keeps : (u : User) → Keeps HasDistinctUsers (store app u)
  unfolding store
  store-Keeps u = search (keeps_rules, draw-Keeps, run_statement-Keeps, insert-IsDistinct) depth 9

  update_password-Keeps : (u : User) → Keeps HasDistinctUsers (update_password app u)
  unfolding update_password
  update_password-Keeps u =
      search (keeps_rules, password-Keeps, check_affected-Keeps, on_world-Keeps) depth 9

  soft_delete-Keeps : (id : String) → Keeps HasDistinctUsers (soft_delete app id)
  unfolding soft_delete
  soft_delete-Keeps id =
      search (keeps_rules, draw-Keeps, deletion-Keeps, check_affected-Keeps, on_world-Keeps) depth 9

  change_active_user-Keeps : (u : User) → Keeps HasDistinctUsers (change_active_user app u)
  unfolding change_active_user
  change_active_user-Keeps u = search (keeps_rules, draw-Keeps, activity-Keeps) depth 9

  -- Whatever the server does with each statement, every write of the repository to a table that has
  -- one row for an id, and one live row for an email and for a username in lower case, leaves a
  -- table that has this too.
  pub writes-HasDistinctUsers :
      (s : State app) (u : User) (id : String)
      → HasDistinctUsers s
      → HasDistinctUsers (store app u s).1
        × HasDistinctUsers (change_active_user app u s).1
        × HasDistinctUsers (update_password app u s).1
        × HasDistinctUsers (soft_delete app id s).1
  writes-HasDistinctUsers s u id h = (
    (store-Keeps u).at s h,
    (change_active_user-Keeps u).at s h,
    (update_password-Keeps u).at s h,
    (soft_delete-Keeps id).at s h,
  )
