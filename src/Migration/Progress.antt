-- ===== src/Migration/Progress.antt =====
-- A run over a list of files, of internal/datasources/migration/migration.go, from first to last.
use go_rest_boilerplate.Base.{
  String, Bool, true, false, List, [], ◌∷◌, ◌++◌, ◌≡◌, ◌≢◌, ◌⊎◌, inl, inr, refl, ap, arith,
  Bool-cases, if◌then◌else◌,
}
use go_rest_boilerplate.Exec.{Exec, Result, ok, err, pure, ◌>>◌, continue}
use go_rest_boilerplate.Migration.Names.{base, derive_up_name}
use go_rest_boilerplate.Migration.{
  Host, Draft, Database, contains, apply_file, apply_all, revert_all,
}
use go_rest_boilerplate.Migration.Runs.{Ran, Whole, apply_file-Whole}

-- The name under which a file's action books it.
abbrev pub key : Bool → String → String
key true file = base file
key false file = derive_up_name (base file)

-- The files whose names were not applied yet.
unfoldable pub pending : List String → List String → List String
pending applied [] = []
pending applied (file ∷ files) =
    let rest = pending applied files in if contains applied (base file) then rest else file ∷ rest

continue_eq :
    {S A B : Type 0} (p : Result A × S) (f g : A → Exec S B)
    → ((a : A) (t : S) → f a t ≡ g a t)
    → continue p f ≡ continue p g
continue_eq (ok a, t) f g h = h a t
continue_eq (err e, t) f g h = refl

module _ (host : Host) where
  -- The files ran to the end, one after another, from the one draft to the other.
  unfoldable pub AllRan : Bool → List String → Draft host → Draft host → Type 0
  AllRan is_up [] d e = e ≡ d
  AllRan is_up (file ∷ files) d e =
      (m : Draft host) × Ran host is_up file (key is_up file) d m × AllRan is_up files m e

  -- Some first part of the files ran to the end and nothing else happened; without an error, all.
  pub record Progress (is_up : Bool) (files : List String) (d e : Draft host)
      (r : Result (Unit {0})) : Type 0 where
    pub finished : List String
    pub left : List String
    pub all : finished ++ left ≡ files
    pub ran : AllRan is_up finished d e
    pub complete : (r ≢ ok tt) ⊎ (left ≡ [])

  unfoldable pub run_all : Bool → List String → Exec (Database host) (Unit {0})
  run_all is_up [] = pure tt
  run_all is_up (file ∷ files) = apply_file host file (key is_up file) is_up >> run_all is_up files

  pub apply_all-run_all :
      (applied files : List String) (s : Database host)
      → apply_all host applied files s ≡ run_all true (pending applied files) s
  unfolding apply_all run_all pending
  apply_all-run_all applied [] s = refl
  apply_all-run_all applied (file ∷ files) s =
      let rest = apply_all-run_all applied files in
      elim (Bool-cases (contains applied (base file))) [
        | inl h ↦ rw h (rest s)
        | inr h ↦ rw h (continue_eq (apply_file host file (base file) true s) _ _ λ _. rest)
      ]

  pub revert_all-run_all :
      (files : List String) (s : Database host) → revert_all host files s ≡ run_all false files s
  unfolding revert_all run_all
  revert_all-run_all [] s = refl
  revert_all-run_all (file ∷ files) s =
      continue_eq (apply_file host file (derive_up_name (base file)) false s) _ _
        λ _. revert_all-run_all files

  -- After a first file, on the run over the others.
  module _ (is_up : Bool) (file : String) (files : List String) (s : Database host) where
    first-Progress :
        (p : Result (Unit {0}) × Database host)
        → ((t : Database host)
            → let (r, u) = run_all is_up files t in Progress is_up files t.stored u.stored r)
        → Whole host is_up file (key is_up file) s.stored p
        → let (r, t) = continue p (λ _. run_all is_up files) in
          Progress is_up (file ∷ files) s.stored t.stored r
    unfolding AllRan
    first-Progress (ok u, t) k (inl (e, n)) = absurd (n refl)
    first-Progress (err x, t) k (inl (e, n)) = record {
      finished = [];
      left = file ∷ files;
      all = refl;
      ran = e;
      complete = inl λ h. ground arith;
    }
    first-Progress (err x, t) k (inr h) = record {
      finished = file ∷ [];
      left = files;
      all = refl;
      ran = (t.stored, h, refl);
      complete = inl λ h. ground arith;
    }
    first-Progress (ok u, t) k (inr h) =
        let rest = k t in
        record {
          finished = file ∷ rest.finished;
          left = rest.left;
          all = ap (λ l. file ∷ l) rest.all;
          ran = (t.stored, h, rest.ran);
          complete = rest.complete;
        }

  pub run_all-Progress :
      (is_up : Bool) (files : List String) (s : Database host)
      → let (r, t) = run_all is_up files s in Progress is_up files s.stored t.stored r
  unfolding run_all AllRan
  run_all-Progress is_up [] s = record {
    finished = [];
    left = [];
    all = refl;
    ran = refl;
    complete = inr refl;
  }
  run_all-Progress is_up (file ∷ files) s =
      first-Progress is_up file files s (apply_file host file (key is_up file) is_up s)
        (run_all-Progress is_up files) (apply_file-Whole host is_up file (key is_up file) s)
