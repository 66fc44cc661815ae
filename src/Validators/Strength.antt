-- ===== src/Validators/Strength.antt =====
-- `StrongPassword` of pkg/validators/validator.user.go against what it asks for.
use Prim.Native.Char.{Char}
use go_rest_boilerplate.Base.{String, Bool, false, ◌&&◌, ◌||◌, not, ◌≡◌, arith}
use go_rest_boilerplate.Validators.{Library, Seen, see, scan, strong_password}

-- Whether some character passes.
unfoldable pub has : (Char → Bool) → String → Bool
has p String.[] = false
has p (String.◌∷◌ c t) = p c || has p t

module _ (lib : Library) where
  abbrev pub lower_only : Char → Bool
  lower_only c = lib.is_lower c && not (lib.is_upper c)

  abbrev pub digit_only : Char → Bool
  digit_only c = lib.is_digit c && not (lib.is_lower c || lib.is_upper c)

  abbrev pub special_only : Char → Bool
  special_only c =
      (lib.is_punct c || lib.is_symbol c)
      && not (lib.is_digit c || lib.is_lower c || lib.is_upper c)

  scan-has :
      (s : Seen) (t : String)
      → let u = scan lib s t in
        (u.upper ≡ s.upper || has lib.is_upper t)
        × (u.lower ≡ s.lower || has lower_only t)
        × (u.digit ≡ s.digit || has digit_only t)
        × (u.special ≡ s.special || has special_only t)
  unfolding scan has
  scan-has s String.[] = ground arith
  scan-has s (String.◌∷◌ c t) = ground (arith, scan-has (see lib c s) t)

  -- A password is strong exactly when it has an upper-case character, a lower-case one, a digit and
  -- a special one, each character counted in the first of these classes that it is in.
  pub strong_password-has :
      (t : String)
      → strong_password lib t
        ≡ (has lib.is_upper t && has lower_only t && has digit_only t && has special_only t)
  unfolding strong_password
  strong_password-has t =
      ground (
        arith,
        scan-has (record { upper = false; lower = false; digit = false; special = false }) t,
      )
