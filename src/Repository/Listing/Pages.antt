-- ===== src/Repository/Listing/Pages.antt =====
-- The pages of `List` of internal/datasources/repositories/postgres/users/users.list.go.
use go_rest_boilerplate.Base.{
  ℕ, zero, suc, ◌≤◌, ℤ, pos, negsuc, Bool, true, List, [], ◌∷◌, ◌≡◌, ◌⊎◌, inl, inr, refl, ap, sym,
  ◌∙◌, arith, map, length, Bool-cases,
}
use go_rest_boilerplate.Exec.{Result, ok, err, pure}
use go_rest_boilerplate.Exec.Rules.{continue_ok}
use go_rest_boilerplate.Config.{App}
use go_rest_boilerplate.State.{State}
use go_rest_boilerplate.Records.{Users, to_domain}
use go_rest_boilerplate.Domain.User.{User}
use go_rest_boilerplate.Repository.{run_statement}
use go_rest_boilerplate.Repository.Effects.{run_statement_ok}
use go_rest_boilerplate.Repository.Table.Reads.{Among}
use go_rest_boilerplate.Repository.Listing.{
  UserListFilter, hard_limit, clamped_limit, clamped_offset, matches, select, take, drop, page,
  list,
}

abbrev or_ok : {A : Type 0} → A → Result A → A
or_ok a (ok b) = b
or_ok a (err e) = a

ok_inj : {A : Type 0} {a b : A} → ok a ≡ ok b → a ≡ b
ok_inj {A} {a} {b} h = ap (or_ok a) h

clamped_limit_bounded : (n : ℤ) → clamped_limit n ≤ hard_limit
clamped_limit_bounded (pos zero) = omega arith
clamped_limit_bounded (pos (suc n)) = ground arith
clamped_limit_bounded (negsuc n) = omega arith

length-take : {A : Type 0} (n : ℕ) (l : List A) → length (take n l) ≤ n
unfolding take
length-take zero l = omega arith
length-take (suc n) [] = omega arith
length-take (suc n) (x ∷ l) = omega (arith, length-take n l)

length-map : {A B : Type 0} (f : A → B) (l : List A) → length (map f l) ≡ length l
length-map f [] = refl
length-map f (x ∷ l) = ap suc (length-map f l)

Among-take : (n : ℕ) (l : List Users) (r : Users) → Among r (take n l) → Among r l
unfolding take
Among-take zero l r h = absurd h
Among-take (suc n) [] r h = h
Among-take (suc n) (x ∷ l) r (inl e) = inl e
Among-take (suc n) (x ∷ l) r (inr h) = inr (Among-take n l r h)

Among-drop : (n : ℕ) (l : List Users) (r : Users) → Among r (drop n l) → Among r l
unfolding drop
Among-drop zero l r h = h
Among-drop (suc n) [] r h = h
Among-drop (suc n) (x ∷ l) r h = inr (Among-drop n l r h)

the_rest : (x : Users) (l : List Users) (r : Users) → Among r (x ∷ l) → (r ≡ x) ⊎ Among r l
the_rest x l r h = h

Among-select :
    (p : Users → Bool) (l : List Users) (r : Users)
    → Among r (select p l)
    → Among r l × (p r ≡ true)
unfolding select
Among-select p [] r h = absurd h
Among-select p (x ∷ l) r h = elim (Bool-cases (p x)) [
  | inl e ↦ elim (the_rest x (select p l) r (rw e at h)) [
    | inl q ↦ (inl q, rw q e)
    | inr a ↦ let (b, c) = Among-select p l r a in (inr b, c)
  ]
  | inr e ↦ let (b, c) = Among-select p l r (rw e at h) in (inr b, c)
]

-- A user of a list stands for a row that passes.
pub data Stands (f : UserListFilter) (t : List Users) : List User → Type 0 where
  none_stands : Stands f t []
  stands :
      (u : User) (us : List User) (r : Users)
      → Among r t
      → matches f r ≡ true
      → u ≡ to_domain r
      → Stands f t us
      → Stands f t (u ∷ us)

map-Stands :
    (f : UserListFilter) (t l : List Users)
    → ((r : Users) → Among r l → Among r t × (matches f r ≡ true))
    → Stands f t (map to_domain l)
map-Stands f t [] h = none_stands
map-Stands f t (r ∷ l) h =
    let (a, m) = h r (inl refl) in
    stands (to_domain r) (map to_domain l) r a m refl (map-Stands f t l (λ q x. h q (inr x)))

module _ (app : App) (order_by_created_at : List Users → List Users) where
  list_ok :
      (f : UserListFilter) (offset limit : ℤ) (s t : State app) (us : List User)
      → list app order_by_created_at f offset limit s ≡ (ok us, t)
      → (us
          ≡ map to_domain (
              page
                (clamped_offset offset)
                (clamped_limit limit)
                (order_by_created_at (select (matches f) s.users))))
        × (t.users ≡ s.users)
  unfolding list
  list_ok f offset limit s t us h =
      let (rows, s1, e1, e2) =
        continue_ok (run_statement app _ s) (λ rows. pure (map to_domain rows)) h in
      let r = run_statement_ok app _ s e1 in
      (
        sym (ok_inj (ap (λ x. x.0) e2)) ∙ ap (map to_domain) (sym (ok_inj r.0)),
        ap (λ x. x.1.users) (sym e2) ∙ r.1,
      )

  -- Where the server's ORDER BY keeps to the rows it is given, a List that succeeds leaves the
  -- table as it is and returns at most 200 users, and each stands for a row of the table that
  -- passes the filter.
  pub list_sound :
      (f : UserListFilter) (offset limit : ℤ) (s t : State app) (us : List User)
      → ((l : List Users) (r : Users) → Among r (order_by_created_at l) → Among r l)
      → list app order_by_created_at f offset limit s ≡ (ok us, t)
      → (length us ≤ 200) × Stands f s.users us × (t.users ≡ s.users)
  list_sound f offset limit s t us k h =
      let (e, same) = list_ok f offset limit s t us h in
      let rows =
        page (clamped_offset offset) (clamped_limit limit)
          (order_by_created_at (select (matches f) s.users)) in
      (
        rw e (
            omega (
              arith,
              length-map to_domain rows,
              clamped_limit_bounded limit,
              length-take (clamped_limit limit)
                  (drop (clamped_offset offset) (order_by_created_at (select (matches f) s.users))),
            )),
        rw e (
            map-Stands f s.users rows λ r a. Among-select (matches f) s.users r (
              k (select (matches f) s.users) r (
                Among-drop (clamped_offset offset)
                  (order_by_created_at (select (matches f) s.users)) r
                  (Among-take (clamped_limit limit)
                    (drop (clamped_offset offset)
                      (order_by_created_at (select (matches f) s.users)))
                    r a)))),
        same,
      )
