-- ===== src/Migration/Keys.antt =====
-- `deriveUpName` of internal/datasources/migration/migration.go against what it is meant to do.
use Prim.Native.Char.{Char}
use text.Mathlib.TextLemmas.{cons-append, nil-append, length-append, length-cons}
use Prim.Native.String.{count}
use go_rest_boilerplate.Base.{
  String, ◌<>◌, false, some, ◌≡◌, ◌≢◌, ◌⊎◌, inl, inr, ap, sym, ◌∙◌, refl, arith, str_eq, str_eq→eq,
  str_eq_of_ne, str_eq_refl, Bool-cases, Option-cases,
}
use go_rest_boilerplate.Migration.Names.{
  down_suffix, prefixed, cut_suffix, up_name_of, derive_up_name,
}

some_inj : {s t : String} → some s ≡ some t → s ≡ t
some_inj h = ground (arith, h)

cut_suffix-some : (n : String) (p : String) → cut_suffix n ≡ some p → n ≡ p <> down_suffix
unfolding cut_suffix
cut_suffix-some String.[] p h = ground (arith, h)
cut_suffix-some (String.◌∷◌ c n) p h = elim (Bool-cases (str_eq (String.◌∷◌ c n) down_suffix)) [
  | inl e ↦
      str_eq→eq _ _ e
      ∙ sym (nil-append down_suffix)
      ∙ ap (λ z. z <> down_suffix) (some_inj (rw e at h))
  | inr e ↦ elim (Option-cases (cut_suffix n)) [
    | inl o ↦ ground (arith, ap (prefixed c) o, rw e at h)
    | inr (q, o) ↦
        ap (λ z. String.◌∷◌ c z) (cut_suffix-some n q o)
        ∙ sym (cons-append c q down_suffix)
        ∙ ap (λ z. z <> down_suffix) (some_inj (sym (ap (prefixed c) o) ∙ rw e at h))
  ]
]

cut_suffix-down_suffix : cut_suffix down_suffix ≡ some ""
unfolding cut_suffix str_eq
cut_suffix-down_suffix = refl

longer : (c : Char) (p : String) → str_eq (String.◌∷◌ c (p <> down_suffix)) down_suffix ≡ false
longer c p = str_eq_of_ne (String.◌∷◌ c (p <> down_suffix)) down_suffix λ h.
    let l = sym (length-cons c (p <> down_suffix)) ∙ ap count h in
    omega (arith, l, length-append p down_suffix)

cut_suffix-append : (p : String) → cut_suffix (p <> down_suffix) ≡ some p
unfolding cut_suffix
cut_suffix-append String.[] = ap cut_suffix (nil-append down_suffix) ∙ cut_suffix-down_suffix
cut_suffix-append (String.◌∷◌ c p) =
    rw (cons-append c p down_suffix) (rw (longer c p, cut_suffix-append p) refl)

-- The name that a down file removes: when the file's name is `p` and `.down.sql`, for some `p` that
-- is not empty, it is `p` and `.up.sql`; otherwise it is the file's own name.
pub derive_up_name_cases :
    (n : String)
    → ((p : String) × (p ≢ "") × (n ≡ p <> ".down.sql") × (derive_up_name n ≡ p <> ".up.sql"))
      ⊎ (((p : String) → p ≢ "" → n ≢ p <> ".down.sql") × (derive_up_name n ≡ n))
unfolding derive_up_name
derive_up_name_cases n = elim (Option-cases (cut_suffix n)) [
  | inl o ↦ inr (
    (λ p ne e. ground (arith, sym o ∙ ap cut_suffix e ∙ cut_suffix-append p)),
    ap (up_name_of n) o,
  )
  | inr (p, o) ↦ elim (Bool-cases (str_eq p "")) [
    | inl e ↦ inr (
      (λ q ne r.
          ne (some_inj (sym (cut_suffix-append q) ∙ ap cut_suffix (sym r) ∙ o) ∙ str_eq→eq p "" e)),
      ap (up_name_of n) o ∙ rw e refl,
    )
    | inr e ↦ inl (
      p,
      (λ q. ground (arith, sym e ∙ ap (λ z. str_eq z "") q ∙ str_eq_refl "")),
      cut_suffix-some n p o,
      ap (up_name_of n) o ∙ rw e refl,
    )
  ]
]
