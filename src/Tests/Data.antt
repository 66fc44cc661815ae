-- ===== src/Tests/Data.antt =====
-- Cutoffs, codes, answers and the mail queue: the examples.
use go_rest_boilerplate.Base.{
  ℕ, zero, suc, ◌≤◌, ◌<◌, String, true, false, none, some, List, [], ◌∷◌, ◌≡◌, ◌≢◌, ◌⊎◌, refl,
  arith, length, inl,
}
use go_rest_boilerplate.Apperror.{Error, internal_cause, external, error_text, as_validation_errors}
use go_rest_boilerplate.Exec.{ok}
use go_rest_boilerplate.Mailer.{AsyncOtpMailer, OtpJob, job_otp}
use go_rest_boilerplate.Records.{to_domain}
use go_rest_boilerplate.Domain.User.{User}
use go_rest_boilerplate.Time.{at}
use go_rest_boilerplate.Jwt
use go_rest_boilerplate.OtpCode.{generate_otp_code, digits_text, fill, accept_bytes}
use go_rest_boilerplate.OtpCode.Digits.{AllDigits, generate_otp_code-digits}
use go_rest_boilerplate.OtpCode.Rounds.{ReadsValid, generate_otp_code-total}
use go_rest_boilerplate.Auth.Sessions.{is_rotated_away}
use go_rest_boilerplate.Auth.Passwords
use go_rest_boilerplate.Auth.Rotation.{
  is_rotated_away-refresh_claims, is_revoked-record_token_cutoff,
}
use go_rest_boilerplate.Http.AuthMiddleware.{AuthMiddleware, is_revoked}
use go_rest_boilerplate.Http.Response.{respond_with_error}
use go_rest_boilerplate.Http.Response.Sanitised.{respond_with_error-sanitised}
use go_rest_boilerplate.Tests.Environment.{steady_redis, text_laws, truncates, sevens}
use go_rest_boilerplate.Tests.Fixture.{app, row, start}

-- The password is changed half a second after the token was minted, and half a second before.
abbrev changed_at : ℕ → User
changed_at c = record (to_domain (row true)) { password_changed_at = some (at c) }

is_rotated_away-refresh_claims_example :
    is_rotated_away
      (changed_at 5_500_000_000)
      (Jwt.refresh_claims app "1" "ada@x.io" "jti" (at 5_900_000_000) (at 0))
    ≡ true
is_rotated_away-refresh_claims_example =
    is_rotated_away-refresh_claims app (changed_at 5_500_000_000) "ada@x.io" "jti" 5_500_000_000
      5_900_000_000 (at 0) truncates refl

abbrev checked : AuthMiddleware
checked = record { has_redis = true; is_admin = false }

is_revoked-record_token_cutoff_example :
    (is_revoked app checked
      (Jwt.access_claims app "1" false "ada@x.io" "jti" (at 4_900_000_000) (at 0))
      (Passwords.record_token_cutoff app "1" (at 5_500_000_000) (start true 0)).1).0
    ≡ ok true
is_revoked-record_token_cutoff_example =
    is_revoked-record_token_cutoff app steady_redis text_laws checked "1" "ada@x.io" "jti" false
      5_500_000_000 4_900_000_000 (at 0) (start true 0) truncates refl

reads_sevens : ReadsValid app
reads_sevens zero w h = absurd (omega (arith, h))
reads_sevens (suc n) w h = (sevens (suc n), refl, inl (omega arith))

generate_otp_code-total_example :
    (code : String) × ((generate_otp_code app 6 (start true 0)).0 ≡ ok code)
generate_otp_code-total_example =
    generate_otp_code-total app reads_sevens 6 (start true 0) (omega arith)

generated :
    generate_otp_code app 6 (start true 0) ≡ (ok "777777", record (start true 0) { world = 6 })
unfolding generate_otp_code fill accept_bytes digits_text
generated = refl

generate_otp_code-digits_example :
    (ds : List ℕ) × ("777777" ≡ digits_text ds) × (length ds ≡ 6) × AllDigits ds
generate_otp_code-digits_example =
    generate_otp_code-digits app 6 (start true 0) (record (start true 0) { world = 6 }) "777777"
      generated

abbrev fault : Error
fault = internal_cause (external "dial tcp: connection refused")

respond_with_error-sanitised_example :
    (500 ≤ (respond_with_error fault).status
      → ((respond_with_error fault).message ≡ "internal server error")
        × ((respond_with_error fault).details ≡ none))
    × ((respond_with_error fault).status < 500
        → (((respond_with_error fault).status ≡ 422)
            × (as_validation_errors fault ≡ (respond_with_error fault).details)
            × ((respond_with_error fault).details ≢ none))
          ⊎ (((respond_with_error fault).message ≡ error_text fault)
              × ((respond_with_error fault).details ≡ none)))
respond_with_error-sanitised_example = respond_with_error-sanitised fault

abbrev job : OtpJob
job = record { kind = job_otp; payload = "123456"; receiver = "ada@x.io" }

abbrev full : AsyncOtpMailer
full = record { queue = job ∷ []; queue_size = 1 }
