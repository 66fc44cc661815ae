-- ===== src/Tests/Mails.antt =====
-- The mail workers: the examples.
use go_rest_boilerplate.Base.{◌+◌, ◌≤◌, pos, negsuc, false, List, [], ◌∷◌, ◌≡◌, ◌⊎◌, refl, arith}
use go_rest_boilerplate.Apperror.{external}
use go_rest_boilerplate.Exec.{err}
use go_rest_boilerplate.Mailer.{OtpJob, job_otp, enqueue}
use go_rest_boilerplate.Mailer.Backoff.{Settings, wait_after}
use go_rest_boilerplate.Mailer.Pool.{
  Worker, idle, sending, waiting, receives, replies, stops, turn, request, shutdown, Pool,
  new_async_otp_mailer, Turn, turns, works, requests, shuts, Reached, starts, goes_on,
}
use go_rest_boilerplate.Mailer.Pool.Accounts.{Accounted, Reached-Accounted}
use go_rest_boilerplate.Mailer.Pool.TurnsLeft.{turns_left}
use go_rest_boilerplate.Mailer.Pool.Drain.{rests, turns_on, Drained, shutdown-Drained}

abbrev settings : Settings
settings = record { workers = 1; queue_size = 1; retries = 2; backoff = 1_000_000_000 }

abbrev job : OtpJob
job = record { kind = job_otp; payload = "123456"; receiver = "ada@x.io" }

-- A mailer with one worker, at which one job was put.
abbrev pool : Worker → List OtpJob → Pool
pool w q = record {
  workers = w ∷ [];
  shared = record {
    channel = record { queue = q; queue_size = 1 };
    closed = false;
    accepted = job ∷ [];
    sent = [];
    failed = [];
    dropped = [];
  };
}

abbrev closing : Pool
closing =
    let p = pool (waiting job 1 (pos 1_000_000_000)) [] in record p { shared = shutdown p.shared }

received : Turn settings (pool idle (job ∷ [])) (pool (sending job 1) [])
unfolding turn
received =
    turns [] [] receives idle (sending job 1) (pool idle (job ∷ [])).shared (pool idle []).shared
      refl

refused : Turn settings (pool (sending job 1) []) (pool (waiting job 1 (pos 1_000_000_000)) [])
unfolding turn wait_after
refused =
    turns [] [] (replies (err (external "421"))) (sending job 1) (waiting job 1 (pos 1_000_000_000))
      (pool idle []).shared (pool idle []).shared refl

waits : Reached settings (pool (waiting job 1 (pos 1_000_000_000)) [])
unfolding new_async_otp_mailer request enqueue
waits =
    goes_on _ _
      (goes_on _ _ (goes_on _ _ starts (requests (new_async_otp_mailer settings) job refl))
        (works _ _ received))
      (works _ _ refused)

Reached-Accounted_example : Accounted settings (pool (waiting job 1 (pos 1_000_000_000)) [])
Reached-Accounted_example =
    Reached-Accounted settings (pool (waiting job 1 (pos 1_000_000_000)) []) (omega arith) waits

-- The pause ends at the shutdown.
abbrev gave_up : Pool
gave_up = record { workers = idle ∷ []; shared = record closing.shared { dropped = job ∷ [] } }

gives_up : Turn settings closing gave_up
unfolding turn shutdown
gives_up =
    turns [] [] stops (waiting job 1 (pos 1_000_000_000)) idle closing.shared gave_up.shared refl

shutdown-Drained_example :
    (1 + turns_left settings gave_up ≤ turns_left settings closing)
    × (Drained gave_up ⊎ ((u : Pool) × Turn settings gave_up u))
unfolding shutdown
shutdown-Drained_example =
    shutdown-Drained settings closing (omega arith) (omega arith)
      (goes_on (pool (waiting job 1 (pos 1_000_000_000)) []) closing waits (shuts _)) refl
      (turns_on 0 closing gave_up gave_up gives_up (rests gave_up))

-- After so many attempts the product is negative, and the pause is over at once.
wraps : wait_after settings 35 ≡ negsuc 1_266_874_889_709_551_615
unfolding wait_after
wraps = refl
