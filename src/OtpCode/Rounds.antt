-- ===== src/OtpCode/Rounds.antt =====
-- How many rounds of `GenerateOTPCode` are enough.
use go_rest_boilerplate.Base.{
  ℕ, zero, suc, String, ◌+◌, ◌-◌, ◌≤◌, ◌<◌, ◌≡◌, refl, List, [], ◌∷◌, ◌++◌, leb, length, arith,
  Bool-cases, inl, inr, ◌⊎◌,
}
use go_rest_boilerplate.Exec.{ok}
use go_rest_boilerplate.Config.{App}
use go_rest_boilerplate.State.{State}
use go_rest_boilerplate.OtpCode.{max_valid, accept_bytes, digits_text, fill, generate_otp_code}
use go_rest_boilerplate.Base.{length_append}

-- Some byte of the buffer is accepted.
abbrev pub HasValid : List ℕ → Type 0
HasValid [] = ⊥
HasValid (b ∷ buf) = (b < max_valid) ⊎ HasValid buf

-- Every read of at least one byte returns bytes, and among them one that is accepted.
abbrev pub ReadsValid : App → Type 0
ReadsValid app =
    (n : ℕ) (w : app.World)
    → 1 ≤ n
    → (buf : List ℕ) × ((app.read_random n w).0 ≡ ok buf) × HasValid buf

some_accepted : (n : ℕ) (buf : List ℕ) → 1 ≤ n → HasValid buf → 1 ≤ length (accept_bytes n buf)
unfolding accept_bytes
some_accepted zero buf k h = absurd (omega (arith, k))
some_accepted (suc n) [] k h = absurd h
some_accepted (suc n) (b ∷ buf) k (inl h) = ground (arith, h)
some_accepted (suc n) (b ∷ buf) k (inr h) = ground (arith, some_accepted (suc n) buf k h)

module _ (app : App) (reads : ReadsValid app) where
  fill_total :
      (n len : ℕ) (ds : List ℕ) (s : State app)
      → len ≤ length ds + n
      → (es : List ℕ) × ((fill app n len ds s).0 ≡ ok es)
  unfolding fill
  fill_total zero len ds s h = (ds, ground (arith, h))
  fill_total (suc n) len ds s h = elim (Bool-cases (leb len (length ds))) [
    | inl full ↦ (ds, rw full refl)
    | inr short ↦
        let (buf, got, valid) = reads (len + 10) s.world (omega arith) in
        let missing = len - length ds in
        let accepted : 1 ≤ length (accept_bytes missing buf) =
          some_accepted missing buf (ground (arith, short)) valid in
        let more = ds ++ accept_bytes missing buf in
        let t = record s { world = (app.read_random (len + 10) s.world).1 } in
        let (es, done) =
          fill_total n len more t
            (omega (arith, h, accepted, length_append ds (accept_bytes missing buf))) in
        (es, rw (short, got) done)
  ]

  -- A code is returned, in no more rounds than it has digits, where every read of random bytes
  -- returns at least one byte that is accepted.
  pub generate_otp_code-total :
      (len : ℕ) (s : State app)
      → len ≤ app.otp_rounds
      → (code : String) × ((generate_otp_code app len s).0 ≡ ok code)
  unfolding generate_otp_code
  generate_otp_code-total len s h =
      let (ds, done) = fill_total app.otp_rounds len [] s (omega (arith, h)) in
      (digits_text ds, ground (arith, done))
