-- ===== src/Repository/Uniqueness.antt =====
-- The table's rows stay apart: one row for an id, and one live row for an email or a username.
pub mod Writes
use go_rest_boilerplate.Base.{
  ℕ, String, Bool, true, false, ◌&&◌, ◌||◌, List, [], ◌∷◌, ◌≡◌, ◌≢◌, refl, arith, str_eq, str_eq→eq,
  str_eq_refl, Bool-cases, ◌==◌, inl, inr, none, some, Option,
}
use go_rest_boilerplate.Exec.{Exec, Result, ok, err}
use go_rest_boilerplate.Exec.Rules.{Keeps, Keeps-bind, Keeps-then, keeps_rules}
use go_rest_boilerplate.Config.{App}
use go_rest_boilerplate.State.{State, draw, on_world}
use go_rest_boilerplate.Records.{Users}
use go_rest_boilerplate.Domain.User.{User}
use go_rest_boilerplate.Time.{Time}
use go_rest_boilerplate.Repository.{
  fated, counted, update_rows, run_statement, store, update_password, soft_delete,
  change_active_user, check_affected, inserted_row,
}
use go_rest_boilerplate.Env.{Fate, runs, refuses, loses}
use go_rest_boilerplate.Repository.Table.{
  has_id, is_live, clashes, clashes_any, insert, update_live, set_active, set_password, set_deleted,
}

module _ (lower : String → String) where
  -- Two rows that the unique indexes allow side by side.
  pub record Apart (r q : Users) : Type 0 where
    pub ids : r.id ≢ q.id
    pub emails : is_live r ≡ true → is_live q ≡ true → r.email ≢ q.email
    pub names : is_live r ≡ true → is_live q ≡ true → lower r.username ≢ lower q.username

  abbrev pub AllApart : Users → List Users → Type 0
  AllApart r [] = Unit
  AllApart r (q ∷ t) = Apart r q × AllApart r t

  abbrev pub IsDistinct : List Users → Type 0
  IsDistinct [] = Unit
  IsDistinct (r ∷ t) = AllApart r t × IsDistinct t

  eq_false : (s t : String) → str_eq s t ≡ false → s ≢ t
  eq_false s t h e = ground (arith, str_eq_refl s)

  -- What the indexes test is what keeps rows apart.
  Apart-of_test : (r q : Users) → clashes lower r q ≡ false → Apart r q
  Apart-of_test r q h = record {
    ids = eq_false r.id q.id (ground arith);
    emails = λ a b. eq_false r.email q.email (ground arith);
    names = λ a b. eq_false (lower r.username) (lower q.username) (ground arith);
  }

  AllApart-of_test : (r : Users) (t : List Users) → clashes_any lower r t ≡ false → AllApart r t
  unfolding clashes_any
  AllApart-of_test r [] h = tt
  AllApart-of_test r (q ∷ t) h =
      (Apart-of_test r q (ground arith), AllApart-of_test r t (ground arith))

  pub insert-IsDistinct :
      (r : Users) (t : List Users) → IsDistinct t → IsDistinct (insert lower r t).1
  unfolding insert
  insert-IsDistinct r t d = elim (Bool-cases (clashes_any lower r t)) [
    | inl e ↦ rw e d
    | inr e ↦ rw e (AllApart-of_test r t e, d)
  ]

-- `q` is `r` with other data, and live only if `r` is.
pub record Narrows (q r : Users) : Type 0 where
  pub id : q.id ≡ r.id
  pub email : q.email ≡ r.email
  pub username : q.username ≡ r.username
  pub live : is_live q ≡ true → is_live r ≡ true

Narrows-refl : (r : Users) → Narrows r r
Narrows-refl r = record { id = refl; email = refl; username = refl; live = λ h. h }

pub set_active-Narrows : (a : Bool) (now : Time) (r : Users) → Narrows (set_active a now r) r
set_active-Narrows a now r = record { id = refl; email = refl; username = refl; live = λ h. h }

pub set_password-Narrows :
    (w : String) (t u : Option Time) (r : Users) → Narrows (set_password w t u r) r
set_password-Narrows w t u r = record { id = refl; email = refl; username = refl; live = λ h. h }

pub set_deleted-Narrows : (now : Time) (r : Users) → Narrows (set_deleted now r) r
set_deleted-Narrows now r = record {
  id = refl;
  email = refl;
  username = refl;
  live = λ h. absurd (ground arith);
}

module _ (lower : String → String) (p : Users → Bool) (f : Users → Users)
    (narrows : (r : Users) → Narrows (f r) r) where
  Apart-narrow : (r q a b : Users) → Narrows a r → Narrows b q → Apart lower r q → Apart lower a b
  Apart-narrow r q a b na nb h = record {
    ids = λ e. h.ids (ground arith);
    emails = λ la lb e. h.emails (na.live la) (nb.live lb) (ground arith);
    names = λ la lb e. h.names (na.live la) (nb.live lb) (ground arith);
  }

  AllApart-update_live :
      (r a : Users) (t : List Users)
      → Narrows a r
      → AllApart lower r t
      → AllApart lower a (update_live p f t).1
  unfolding update_live
  AllApart-update_live r a [] n h = tt
  AllApart-update_live r a (q ∷ t) n (h, hs) = elim (Bool-cases (p q && is_live q)) [
    | inl e ↦ rw e (Apart-narrow r q a (f q) n (narrows q) h, AllApart-update_live r a t n hs)
    | inr e ↦ rw e (Apart-narrow r q a q n (Narrows-refl q) h, AllApart-update_live r a t n hs)
  ]

  pub update_live-IsDistinct :
      (t : List Users) → IsDistinct lower t → IsDistinct lower (update_live p f t).1
  unfolding update_live
  update_live-IsDistinct [] d = tt
  update_live-IsDistinct (q ∷ t) (h, d) = elim (Bool-cases (p q && is_live q)) [
    | inl e ↦ rw e (AllApart-update_live q (f q) t (narrows q) h, update_live-IsDistinct t d)
    | inr e ↦ rw e (AllApart-update_live q q t (Narrows-refl q) h, update_live-IsDistinct t d)
  ]
