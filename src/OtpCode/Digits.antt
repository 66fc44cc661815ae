-- ===== src/OtpCode/Digits.antt =====
-- What the codes of `GenerateOTPCode` look like, and that no digit is more likely than another.
use go_rest_boilerplate.Base.{
  ℕ, zero, String, if◌then◌else◌, suc, ◌+◌, ◌-◌, ◌≤◌, ◌<◌, ◌==◌, ◌≡◌, refl, Bool, false, List, [],
  ◌∷◌, ◌++◌, ltb, leb, length, arith, Bool-cases, inl, inr,
}
use go_rest_boilerplate.Base.{length_append}
use go_rest_boilerplate.Exec.{ok, pure}
use go_rest_boilerplate.Exec.Rules.{continue_ok}
use go_rest_boilerplate.Config.{App}
use go_rest_boilerplate.State.{State, on_world}
use go_rest_boilerplate.OtpCode.{max_valid, accept_bytes, digits_text, fill, generate_otp_code}

abbrev pub AllDigits : List ℕ → Type 0
AllDigits [] = Unit
AllDigits (d ∷ ds) = (d < 10) × AllDigits ds

accept_bytes-AllDigits : (n : ℕ) (buf : List ℕ) → AllDigits (accept_bytes n buf)
unfolding accept_bytes
accept_bytes-AllDigits n [] = tt
accept_bytes-AllDigits zero (b ∷ buf) = tt
accept_bytes-AllDigits (suc n) (b ∷ buf) = elim (Bool-cases (ltb b max_valid)) [
  | inl e ↦ rw e (omega arith, accept_bytes-AllDigits n buf)
  | inr e ↦ rw e (accept_bytes-AllDigits (suc n) buf)
]

length-accept_bytes : (n : ℕ) (buf : List ℕ) → length (accept_bytes n buf) ≤ n
unfolding accept_bytes
length-accept_bytes n [] = omega arith
length-accept_bytes zero (b ∷ buf) = omega arith
length-accept_bytes (suc n) (b ∷ buf) = elim (Bool-cases (ltb b max_valid)) [
  | inl e ↦ rw e (omega (arith, length-accept_bytes n buf))
  | inr e ↦ rw e (length-accept_bytes (suc n) buf)
]

AllDigits-append : (xs ys : List ℕ) → AllDigits xs → AllDigits ys → AllDigits (xs ++ ys)
AllDigits-append [] ys h k = k
AllDigits-append (x ∷ xs) ys (a, h) k = (a, AllDigits-append xs ys h k)

module _ (app : App) where
  -- The digits that the loop returns are as many as asked for.
  fill_ok :
      (n len : ℕ) (ds es : List ℕ) (s t : State app)
      → length ds ≤ len
      → AllDigits ds
      → fill app n len ds s ≡ (ok es, t)
      → (length es ≡ len) × AllDigits es
  unfolding fill
  fill_ok zero len ds es s t h k e = elim (Bool-cases (leb len (length ds))) [
    | inl full ↦
        let same : ds ≡ es = ground (arith, full, e) in rw (← same) (ground (arith, full, h), k)
    | inr short ↦ absurd (ground (arith, short, e))
  ]
  fill_ok (suc n) len ds es s t h k e = elim (Bool-cases (leb len (length ds))) [
    | inl full ↦
        let same : ds ≡ es = ground (arith, full, e) in rw (← same) (ground (arith, full, h), k)
    | inr short ↦
        let (buf, u, e1, e2) =
          continue_ok (on_world (app.read_random (len + 10)) s)
            (λ buf. fill app n len (ds ++ accept_bytes (len - length ds) buf)) (rw short at e) in
        let more = accept_bytes (len - length ds) buf in
        fill_ok n len (ds ++ more) es u t
          (omega (arith, h, length_append ds more, length-accept_bytes (len - length ds) buf))
          (AllDigits-append ds more k (accept_bytes-AllDigits (len - length ds) buf)) e2
  ]

  -- A code that is returned is the text of exactly as many digits as were asked for, each of them
  -- from 0 to 9.
  pub generate_otp_code-digits :
      (len : ℕ) (s t : State app) (code : String)
      → generate_otp_code app len s ≡ (ok code, t)
      → (ds : List ℕ) × (code ≡ digits_text ds) × (length ds ≡ len) × AllDigits ds
  unfolding generate_otp_code
  generate_otp_code-digits len s t code h =
      let (ds, u, e1, e2) =
        continue_ok (fill app app.otp_rounds len [] s) (λ ds. pure (digits_text ds)) h in
      let (full, digits) = fill_ok app.otp_rounds len [] ds s u (omega arith) tt e1 in
      (ds, ground (arith, e2), full, digits)

abbrev is_one : ℕ → List ℕ → Bool
is_one d (e ∷ []) = e == d
is_one d _ = false

-- How many of the bytes below `n` are accepted as the digit `d`.
abbrev pub bytes_for : ℕ → ℕ → ℕ
bytes_for d zero = 0
bytes_for d (suc n) =
    let rest = bytes_for d n in if is_one d (accept_bytes 1 (n ∷ [])) then suc rest else rest

-- No digit is favoured: each of the ten comes from exactly 25 of the 256 bytes.
pub bytes_for-uniform : (d : ℕ) → d < 10 → bytes_for d 256 ≡ 25
unfolding accept_bytes
bytes_for-uniform zero h = refl
bytes_for-uniform (suc zero) h = refl
bytes_for-uniform (suc (suc zero)) h = refl
bytes_for-uniform (suc (suc (suc zero))) h = refl
bytes_for-uniform (suc (suc (suc (suc zero)))) h = refl
bytes_for-uniform (suc (suc (suc (suc (suc zero))))) h = refl
bytes_for-uniform (suc (suc (suc (suc (suc (suc zero)))))) h = refl
bytes_for-uniform (suc (suc (suc (suc (suc (suc (suc zero))))))) h = refl
bytes_for-uniform (suc (suc (suc (suc (suc (suc (suc (suc zero)))))))) h = refl
bytes_for-uniform (suc (suc (suc (suc (suc (suc (suc (suc (suc zero))))))))) h = refl
bytes_for-uniform (suc (suc (suc (suc (suc (suc (suc (suc (suc (suc d)))))))))) h =
    absurd (omega (arith, h))
