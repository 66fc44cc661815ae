-- ===== src/Migration/Ledger.antt =====
-- The names in `schema_migrations`, of internal/datasources/migration/migration.go, after a run.
use go_rest_boilerplate.Base.{
  String, Bool, true, false, not, ◌&&◌, ◌||◌, List, [], ◌∷◌, ◌++◌, ◌≡◌, inl, inr, refl, ap, arith,
  str_eq, str_eq→eq, str_eq_refl, Bool-cases,
}
use go_rest_boilerplate.Migration.Names.{base, derive_up_name, insert_sorted, sort_by}
use go_rest_boilerplate.Migration.{Host, Draft, contains, note, forget}
use go_rest_boilerplate.Migration.Progress.{key, pending, AllRan}

-- Whether some file of a run is booked under the name.
unfoldable pub books : Bool → List String → String → Bool
books is_up [] m = false
books is_up (file ∷ files) m = str_eq (key is_up file) m || books is_up files m

contains_append :
    (l : List String) (n m : String) → contains (l ++ n ∷ []) m ≡ contains l m || str_eq n m
unfolding contains
contains_append [] n m = ground arith
contains_append (x ∷ l) n m = ground (arith, contains_append l n m)

contains-note :
    (l : List String) (n m : String) → contains (note n l) m ≡ contains l m || str_eq n m
unfolding note
contains-note l n m = elim (Bool-cases (contains l n)) [
  | inl e ↦ rw e (elim (Bool-cases (str_eq n m)) [
    | inl q ↦ ground (arith, q, e, ap (contains l) (str_eq→eq n m q))
    | inr q ↦ ground (arith, q)
  ])
  | inr e ↦ rw e (contains_append l n m)
]

contains-forget :
    (l : List String) (n m : String) → contains (forget n l) m ≡ contains l m && not (str_eq n m)
unfolding contains forget
contains-forget [] n m = refl
contains-forget (x ∷ l) n m =
    let rest = contains-forget l n m in
    elim (Bool-cases (str_eq x n)) [
      | inl e ↦ rw e (ground (arith, rest, ap (λ z. str_eq z m) (str_eq→eq x n e)))
      | inr e ↦ rw e (elim (Bool-cases (str_eq n m)) [
        | inl q ↦ ground (arith, rest, e, q, ap (str_eq x) (str_eq→eq n m q))
        | inr q ↦ ground (arith, rest, e, q)
      ])
    ]

module _ (host : Host) where
  -- What the ledger holds after `Up` applied these files.
  pub AllRan-books :
      (files : List String) (d e : Draft host)
      → AllRan host true files d e
      → (m : String) → contains e.ledger m ≡ contains d.ledger m || books true files m
  unfolding AllRan books
  AllRan-books [] d e h m = ground (arith, ap (λ z. contains z.ledger m) h)
  AllRan-books (file ∷ files) d e (u, r, h) m = ground (
    arith,
    AllRan-books files u e h m,
    contains-note d.ledger (base file) m,
    ap (λ l. contains l m) r.noted,
  )

  pub AllRan-unbooks :
      (files : List String) (d e : Draft host)
      → AllRan host false files d e
      → (m : String) → contains e.ledger m ≡ contains d.ledger m && not (books false files m)
  unfolding AllRan books
  AllRan-unbooks [] d e h m = ground (arith, ap (λ z. contains z.ledger m) h)
  AllRan-unbooks (file ∷ files) d e (u, r, h) m =
      let n = derive_up_name (base file) in
      ground (
        arith,
        AllRan-unbooks files u e h m,
        contains-forget d.ledger n m,
        ap (λ l. contains l m) r.noted,
      )

-- Applying what is pending books every file.
pub books-pending :
    (applied files : List String) (m : String)
    → contains applied m || books true (pending applied files) m
      ≡ contains applied m || books true files m
unfolding pending books
books-pending applied [] m = refl
books-pending applied (file ∷ files) m =
    let rest = books-pending applied files m in
    elim (Bool-cases (contains applied (base file))) [
      | inl e ↦ rw e (elim (Bool-cases (str_eq (base file) m)) [
        | inl q ↦ ground (arith, rest, q, e, ap (contains applied) (str_eq→eq (base file) m q))
        | inr q ↦ ground (arith, rest, q)
      ])
      | inr e ↦ rw e (ground (arith, rest))
    ]

pub pending_none :
    (l files : List String)
    → ((m : String) → books true files m ≡ true → contains l m ≡ true)
    → pending l files ≡ []
unfolding pending books
pending_none l [] h = refl
pending_none l (file ∷ files) h =
    rw (h (base file) (ground (arith, str_eq_refl (base file))))
      (pending_none l files (λ m q. h m (ground (arith, q))))

books-insert_sorted :
    (less : String → String → Bool) (is_up : Bool) (file : String) (files : List String)
    (m : String)
    → books is_up (insert_sorted less file files) m ≡ books is_up (file ∷ files) m
unfolding insert_sorted books
books-insert_sorted less is_up file [] m = refl
books-insert_sorted less is_up file (next ∷ files) m =
    ground (arith, books-insert_sorted less is_up file files m)

-- Sorting keeps the names.
pub books-sort_by :
    (less : String → String → Bool) (is_up : Bool) (files : List String) (m : String)
    → books is_up (sort_by less files) m ≡ books is_up files m
unfolding sort_by books
books-sort_by less is_up [] m = refl
books-sort_by less is_up (file ∷ files) m = ground (
  arith,
  books-insert_sorted less is_up file (sort_by less files) m,
  books-sort_by less is_up files m,
)
