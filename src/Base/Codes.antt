-- ===== src/Base/Codes.antt =====
-- A text as the list of its code points, to tell texts with different fixed prefixes apart.
use Prim.Native.Nat.{ℕ}
use Prim.Native.Char.{code}
use Prim.Native.String.{String, ◌++◌ as ◌<>◌}
use mathlib.Core.Path.{◌≡◌, ap, sym, ◌∙◌}
use mathlib.Core.List.{List, [], ◌∷◌, ◌++◌}
use text.Mathlib.TextLemmas.{nil-append, cons-append}

abbrev pub codes : String → List ℕ
codes String.[] = []
codes (String.◌∷◌ c s) = code c ∷ codes s

pub codes-append : (s t : String) → codes (s <> t) ≡ codes s ++ codes t
codes-append String.[] t = rw nil-append
codes-append (String.◌∷◌ c s) t = rw (cons-append, codes-append s t)

pub codes_of_eq : (p q x y : String) → (p <> x) ≡ (q <> y) → codes p ++ codes x ≡ codes q ++ codes y
codes_of_eq p q x y h = sym (codes-append p x) ∙ ap codes h ∙ codes-append q y
