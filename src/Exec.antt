-- ===== src/Exec.antt =====
-- A Go function that mutates state and returns `(value, error)`: an action on the state whose
-- result is a value or an error. What was written before an early return stays written.
pub mod Rules
use go_rest_boilerplate.Base.{Bool, true, false}
use go_rest_boilerplate.Apperror.{Error}

pub data Result (A : Type 0) : Type 0 where
  ok : A → Result A
  err : Error → Result A

abbrev pub Exec : Type 0 → Type 0 → Type 0
Exec S A = S → Result A × S

abbrev replaced : {A : Type 0} → (Error → Error) → Result A → Result A
replaced f (ok a) = ok a
replaced f (err e) = err (f e)

module _ {S A : Type 0} where
  -- `return a, nil`
  abbrev pub pure : A → Exec S A
  pure a s = (ok a, s)

  -- `return _, e`
  abbrev pub throw : Error → Exec S A
  throw e s = (err e, s)

  abbrev attempted : Result A × S → Result (Result A) × S
  attempted (r, s) = (ok r, s)

  -- `r, e := m` with the error kept as a value
  abbrev pub attempt : Exec S A → Exec S (Result A)
  attempt m s = attempted (m s)

  abbrev ignored : Result A × S → Result (Unit {0}) × S
  ignored (r, s) = (ok tt, s)

  -- `_ = m`: an error is dropped
  abbrev pub ignore : Exec S A → Exec S (Unit {0})
  ignore m s = ignored (m s)

  -- `if e != nil { return f(e) }`
  abbrev pub map_err : (Error → Error) → Exec S A → Exec S A
  map_err f m s = let (r, t) = m s in (replaced f r, t)

module _ {S A B : Type 0} where
  abbrev pub continue : Result A × S → (A → Exec S B) → Result B × S
  continue (ok a, s) f = f a s
  continue (err e, s) f = (err e, s)

  infixl 5 ◌>>=◌ ◌>>◌
  abbrev pub ◌>>=◌ : Exec S A → (A → Exec S B) → Exec S B
  ◌>>=◌ m f s = continue (m s) f

  abbrev pub ◌>>◌ : Exec S A → Exec S B → Exec S B
  ◌>>◌ m n s = continue (m s) (λ _. n)

module _ {S : Type 0} where
  -- `if !b { return e }`
  abbrev pub guard : Bool → Error → Exec S (Unit {0})
  guard true e s = (ok tt, s)
  guard false e s = (err e, s)

  -- `if b { m }`
  abbrev pub when : Bool → Exec S (Unit {0}) → Exec S (Unit {0})
  when true m = m
  when false m = λ s. (ok tt, s)
