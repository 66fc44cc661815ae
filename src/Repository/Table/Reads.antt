-- ===== src/Repository/Table/Reads.antt =====
-- What a read of the table finds, also after a write.
use go_rest_boilerplate.Base.{
  Bool, true, ◌&&◌, Option, none, some, List, [], ◌∷◌, ◌≡◌, refl, sym, ap, arith, ◌⊎◌, Bool-cases,
  inl, inr,
}
use go_rest_boilerplate.Records.{Users}
use go_rest_boilerplate.Time.{Time}
use go_rest_boilerplate.Repository.Table.{is_live, find_live, update_live, set_deleted}

-- A row of the list.
abbrev pub Among : Users → List Users → Type 0
Among r [] = ⊥
Among r (q ∷ t) = (r ≡ q) ⊎ Among r t

abbrev unsome : Users → Option Users → Users
unsome q none = q
unsome q (some r) = r

pub some_inj : {q r : Users} → some q ≡ some r → q ≡ r
some_inj {q} h = ap (unsome q) h

pub and_true : (a b : Bool) → (a && b) ≡ true → (a ≡ true) × (b ≡ true)
and_true a b h = (ground arith, ground arith)

pub find_live_found :
    (p : Users → Bool) (t : List Users) {r : Users}
    → find_live p t ≡ some r
    → Among r t × (p r ≡ true) × (is_live r ≡ true)
unfolding find_live
find_live_found p [] h = absurd (ground arith)
find_live_found p (q ∷ t) {r} h = elim (Bool-cases (p q && is_live q)) [
  | inl e ↦
      let same : some q ≡ some r = rw e at h in
      let equal : r ≡ q = sym (some_inj same) in
      let (hp, hl) = and_true (p q) (is_live q) e in (inl equal, rw equal hp, rw equal hl)
  | inr e ↦ let (a, b, c) = find_live_found p t (rw e at h) in (inr a, b, c)
]

-- A write that keeps the test and the row live shows in the next read; one that does neither makes
-- the read find nothing.
pub find_live-update_live :
    (p : Users → Bool) (f : Users → Users) (t : List Users)
    → ((r : Users) → p r ≡ true → is_live r ≡ true → (p (f r) && is_live (f r)) ≡ true)
    → {q : Users} → find_live p (update_live p f t).1 ≡ some q
    → (r : Users) × (find_live p t ≡ some r) × (q ≡ f r)
unfolding find_live update_live
find_live-update_live p f [] keeps h = absurd (ground arith)
find_live-update_live p f (r ∷ t) keeps {q} h = elim (Bool-cases (p r && is_live r)) [
  | inl e ↦
      let (hp, hl) = and_true (p r) (is_live r) e in
      let again = keeps r hp hl in
      let same : some (f r) ≡ some q = rw (e, again) at h in (r, rw e refl, sym (some_inj same))
  | inr e ↦ rw e (find_live-update_live p f t keeps (ground (arith, e)))
]

pub find_live_deleted :
    (p : Users → Bool) (now : Time) (t : List Users)
    → find_live p (update_live p (set_deleted now) t).1 ≡ none
unfolding find_live update_live
find_live_deleted p now [] = refl
find_live_deleted p now (r ∷ t) = ground (arith, find_live_deleted p now t)
