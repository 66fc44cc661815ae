-- ===== src/Mailer.antt =====
-- pkg/mailer/mailer.async.go: the queue that requests write to.
pub mod Queue
pub mod Backoff
pub mod Pool
use go_rest_boilerplate.Base.{ℕ, String, List, [], ◌∷◌, ◌++◌, ltb, length, if◌then◌else◌}
use go_rest_boilerplate.Apperror.{sentinel, err_queue_full}
use go_rest_boilerplate.Exec.{Exec, ok, err}

pub data JobKind : Type 0 where
  job_otp job_password_reset : JobKind

-- `otpJob`, less the trace identifiers
pub record OtpJob : Type 0 where
  pub kind : JobKind
  pub payload : String
  pub receiver : String

-- `AsyncOTPMailer`: the channel and its capacity.
pub record AsyncOtpMailer : Type 0 where
  pub queue : List OtpJob
  pub queue_size : ℕ

-- The `select` with a default: it never blocks.
unfoldable pub enqueue : OtpJob → Exec AsyncOtpMailer (Unit {0})
enqueue j a =
    if ltb (length a.queue) a.queue_size
    then (ok tt, record a { queue = a.queue ++ j ∷ [] })
    else (err (sentinel err_queue_full), a)

abbrev pub send_otp : String → String → Exec AsyncOtpMailer (Unit {0})
send_otp otp_code receiver =
    enqueue (record { kind = job_otp; payload = otp_code; receiver = receiver })

abbrev pub send_password_reset : String → String → Exec AsyncOtpMailer (Unit {0})
send_password_reset token receiver =
    enqueue (record { kind = job_password_reset; payload = token; receiver = receiver })
