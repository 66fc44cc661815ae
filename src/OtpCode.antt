-- ===== src/OtpCode.antt =====
-- pkg/helpers/helper.otp_code_generator.go: digits from random bytes, by rejection.
pub mod Digits
pub mod Rounds
use go_rest_boilerplate.Base.{
  ℕ, zero, suc, ◌+◌, ◌-◌, ◌%◌, String, ◌<>◌, Bool, true, false, List, [], ◌∷◌, ◌++◌, ltb, leb,
  length, if◌then◌else◌,
}
use go_rest_boilerplate.Apperror.{external}
use go_rest_boilerplate.Exec.{Exec, Result, ok, err, pure, throw, ◌>>=◌}
use go_rest_boilerplate.Config.{App}
use go_rest_boilerplate.State.{State, on_world}

abbrev pub otp_chars_length : ℕ
otp_chars_length = 10

-- The largest multiple of the number of digits that fits in a byte.
abbrev pub max_valid : ℕ
max_valid = 256 - 256 % otp_chars_length

-- The `for … range buf` loop: `missing` is `length - filled`. It gives the digits that it adds.
unfoldable pub accept_bytes : ℕ → List ℕ → List ℕ
accept_bytes missing [] = []
accept_bytes zero (b ∷ buf) = []
accept_bytes (suc missing) (b ∷ buf) =
    let taken = b % otp_chars_length ∷ accept_bytes missing buf in
    let skipped = accept_bytes (suc missing) buf in if ltb b max_valid then taken else skipped

-- The characters of `otpPayloads`.
abbrev payload : ℕ → String
payload zero = "0"
payload (suc zero) = "1"
payload (suc (suc zero)) = "2"
payload (suc (suc (suc zero))) = "3"
payload (suc (suc (suc (suc zero)))) = "4"
payload (suc (suc (suc (suc (suc zero))))) = "5"
payload (suc (suc (suc (suc (suc (suc zero)))))) = "6"
payload (suc (suc (suc (suc (suc (suc (suc zero))))))) = "7"
payload (suc (suc (suc (suc (suc (suc (suc (suc zero)))))))) = "8"
payload _ = "9"

unfoldable pub digits_text : List ℕ → String
digits_text [] = ""
digits_text (d ∷ ds) = payload d <> digits_text ds

module _ (app : App) where
  -- The outer loop, a round of `rand.Read` each time, for as many rounds as the fuel allows.
  unfoldable pub fill : ℕ → ℕ → List ℕ → Exec (State app) (List ℕ)
  fill zero len result =
      if leb len (length result)
      then pure result
      else throw (external "otp: more rounds than are followed")
  fill (suc rounds) len result =
      let more = (do
        buf ← on_world (app.read_random (len + 10))
        fill rounds len (result ++ accept_bytes (len - length result) buf)) in
      if leb len (length result) then pure result else more

  unfoldable pub generate_otp_code : ℕ → Exec (State app) String
  generate_otp_code len = do result ← fill app.otp_rounds len []; pure (digits_text result)
