-- ===== src/Tests/Flows.antt =====
-- From the mail with a code to the activation, and from the mail with a link to the new password:
-- the examples.
use go_rest_boilerplate.Base.{String, ◌≡◌, refl, arith, str_eq, false, true}
use go_rest_boilerplate.Exec.{ok}
use go_rest_boilerplate.State.{State}
use go_rest_boilerplate.Domain.Account.{normalize_email}
use go_rest_boilerplate.Redis
use go_rest_boilerplate.Ristretto
use go_rest_boilerplate.Users
use go_rest_boilerplate.Repository
use go_rest_boilerplate.Repository.Table
use go_rest_boilerplate.Mailer
use go_rest_boilerplate.Mailer.{AsyncOtpMailer, enqueue}
use go_rest_boilerplate.OtpCode.{generate_otp_code, fill, accept_bytes, digits_text}
use go_rest_boilerplate.Auth.Otp
use go_rest_boilerplate.Auth.Activation.{send_otp-check_code}
use go_rest_boilerplate.Auth.Attempts.{limit_attempts_if_positive, limit_attempts, track_attempt}
use go_rest_boilerplate.Auth.Keys.{forgot_attempts_key, user_reset_index_key}
use go_rest_boilerplate.Auth.Passwords
use go_rest_boilerplate.Auth.ResetLink.{Answered, forgot_password-Answered}
use go_rest_boilerplate.Tests.Environment.{steady_redis, text_laws}
use go_rest_boilerplate.Tests.Fixture.{app, start}

abbrev sent : State app
sent = (Otp.send_otp app "ada@x.io" (start false 0)).1

sends : Otp.send_otp app "ada@x.io" (start false 0) ≡ (ok tt, sent)
unfolding Otp.send_otp Users.get_by_email Users.load_by_email Ristretto.get Ristretto.set
    Repository.get_by_email Repository.Table.find_live Repository.run_statement str_eq
    generate_otp_code fill accept_bytes digits_text enqueue Redis.set Redis.del
sends = refl

send_otp-check_code_example :
    (code : String) × (q : AsyncOtpMailer) × ((Mailer.send_otp code
        (normalize_email app "ada@x.io")
        q).0
      ≡ ok tt)
    × ((Mailer.send_otp code (normalize_email app "ada@x.io") q).1 ≡ sent.mailer)
    × ((Otp.check_code app (normalize_email app "ada@x.io") code sent).0 ≡ ok tt)
send_otp-check_code_example =
    send_otp-check_code app steady_redis text_laws "ada@x.io" 2 (start false 0) sent refl
      (omega arith) sends

abbrev forgotten : State app
forgotten = (Passwords.forgot_password app "ada@x.io" (start true 0)).1

forgets : Passwords.forgot_password app "ada@x.io" (start true 0) ≡ (ok tt, forgotten)
unfolding Passwords.forgot_password Passwords.generate_reset_token Passwords.invalidate_prior
    Passwords.publish_token limit_attempts_if_positive limit_attempts track_attempt
    Users.get_by_email Users.load_by_email Ristretto.get Ristretto.set Repository.get_by_email
    Repository.Table.find_live Repository.run_statement str_eq enqueue Redis.get Redis.set Redis.del
    Redis.incr Redis.expire user_reset_index_key
forgets = refl

forgot_password-Answered_example :
    (r : State app) × (limit_attempts_if_positive app
        (forgot_attempts_key (normalize_email app "ada@x.io"))
        app.auth.forgot_lockout_ttl
        app.auth.forgot_max_attempts
        "too many password reset requests, please try again later"
        (start true 0)
      ≡ (ok tt, r))
    × (token : String) × (v : State app) × (Passwords.generate_reset_token app r ≡ (ok token, v))
    × Answered app steady_redis text_laws token (normalize_email app "ada@x.io") v forgotten
forgot_password-Answered_example =
    forgot_password-Answered app steady_redis text_laws "ada@x.io" (start true 0) forgotten forgets
