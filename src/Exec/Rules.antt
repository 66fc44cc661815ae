-- ===== src/Exec/Rules.antt =====
-- Rules for actions: what a successful action says of its parts, and properties of the state that
-- an action keeps whether it returns or fails.
use mathlib.Core.Path.{subst}
use go_rest_boilerplate.Base.{◌≡◌, refl, Bool, true, false, arith}
use go_rest_boilerplate.Apperror.{Error}
use go_rest_boilerplate.Exec.{
  Result, ok, err, Exec, continue, pure, throw, attempt, ignore, map_err, guard, when, ◌>>=◌, ◌>>◌,
}

module _ {S A B : Type 0} where
  -- A sequence that succeeds is made of two that do.
  pub continue_ok :
      (p : Result A × S) (f : A → Exec S B) {b : B} {u : S}
      → continue p f ≡ (ok b, u)
      → (a : A) × (t : S) × (p ≡ (ok a, t)) × (f a t ≡ (ok b, u))
  continue_ok (ok a, t) f h = (a, t, refl, h)
  continue_ok (err e, t) f h = ground arith

module _ {S A : Type 0} where
  pub map_err_ok :
      (g : Error → Error) (m : Exec S A) {s t : S} {a : A}
      → map_err g m s ≡ (ok a, t)
      → m s ≡ (ok a, t)
  map_err_ok g m h = ground arith

module _ {S A : Type 0} (P : A → S → Type 0) where
  abbrev OnOk : Result A × S → Type 0
  OnOk (ok a, s) = P a s
  OnOk (err e, s) = Unit {0}

  -- What holds of the value and the state that an action ends with holds of those it is known by.
  pub pure_ok : {a b : A} {s t : S} → pure a s ≡ (ok b, t) → P a s → P b t
  pure_ok h k = subst OnOk h k

module _ {S : Type 0} where
  pub guard_ok : (b : Bool) (e : Error) {s t : S} → guard b e s ≡ (ok tt, t) → (b ≡ true) × (s ≡ t)
  guard_ok true e h = ground arith
  guard_ok false e h = ground arith

-- `m` keeps `P`, whether it returns or fails.
pub record Keeps {S A : Type 0} (P : S → Type 0) (m : Exec S A) : Type 0 where
  pub at : (s : S) → P s → P (m s).1

module _ {S A : Type 0} {P : S → Type 0} where
  pub Keeps-pure : (a : A) → Keeps P (pure a)
  Keeps-pure a = record { at = λ s h. h }

  pub Keeps-throw : (e : Error) → Keeps P (throw {A = A} e)
  Keeps-throw e = record { at = λ s h. h }

  pub Keeps-map_err : (g : Error → Error) (m : Exec S A) → Keeps P m → Keeps P (map_err g m)
  Keeps-map_err g m k = record { at = k.at }

  pub Keeps-attempt : (m : Exec S A) → Keeps P m → Keeps P (attempt m)
  Keeps-attempt m k = record { at = k.at }

  pub Keeps-ignore : (m : Exec S A) → Keeps P m → Keeps P (ignore m)
  Keeps-ignore m k = record { at = k.at }

module _ {S : Type 0} {P : S → Type 0} where
  pub Keeps-guard : (b : Bool) (e : Error) → Keeps P (guard b e)
  Keeps-guard true e = record { at = λ s h. h }
  Keeps-guard false e = record { at = λ s h. h }

  pub Keeps-when : (b : Bool) (m : Exec S (Unit {0})) → Keeps P m → Keeps P (when b m)
  Keeps-when true m k = k
  Keeps-when false m k = record { at = λ s h. h }

module _ {S A B : Type 0} {P : S → Type 0} where
  keeps_continue :
      (p : Result A × S) (f : A → Exec S B) → ((a : A) → Keeps P (f a)) → P p.1 → P (continue p f).1
  keeps_continue (ok a, t) f k h = (k a).at t h
  keeps_continue (err e, t) f k h = h

  pub Keeps-bind :
      (m : Exec S A) (f : A → Exec S B) → Keeps P m → ((a : A) → Keeps P (f a)) → Keeps P (m >>= f)
  Keeps-bind m f km kf = record { at = λ s h. keeps_continue (m s) f kf (km.at s h) }

  keeps_continue_of :
      (p : Result A × S) (f : A → Exec S B)
      → ((a : A) (t : S) → p ≡ (ok a, t) → Keeps P (f a))
      → P p.1
      → P (continue p f).1
  keeps_continue_of (ok a, t) f k h = (k a t refl).at t h
  keeps_continue_of (err e, t) f k h = h

  -- The rest of a sequence may use that the first action returned the value that it is given.
  pub Keeps-bind_of :
      (m : Exec S A) (f : A → Exec S B)
      → Keeps P m
      → ((s : S) (a : A) (t : S) → m s ≡ (ok a, t) → Keeps P (f a))
      → Keeps P (m >>= f)
  Keeps-bind_of m f km kf = record { at = λ s h. keeps_continue_of (m s) f (kf s) (km.at s h) }

  pub Keeps-bind_mapped :
      (m : Exec S A) (g : Error → Error) (f : A → Exec S B)
      → Keeps P m
      → ((s : S) (a : A) (t : S) → m s ≡ (ok a, t) → Keeps P (f a))
      → Keeps P (map_err g m >>= f)
  Keeps-bind_mapped m g f km kf =
      Keeps-bind_of (map_err g m) f (Keeps-map_err g m km) λ s a t h. kf s a t (map_err_ok g m h)

  pub Keeps-then : (m : Exec S A) (n : Exec S B) → Keeps P m → Keeps P n → Keeps P (m >> n)
  Keeps-then m n km kn = record { at = λ s h. keeps_continue (m s) (λ _. n) (λ _. kn) (km.at s h) }

pub ruleset keeps_rules = (
  Keeps-pure, Keeps-throw, Keeps-map_err, Keeps-attempt, Keeps-ignore, Keeps-guard, Keeps-when,
  Keeps-bind, Keeps-then,
)
