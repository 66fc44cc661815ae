-- ===== src/Tests/Processes.antt =====
-- The shutdown of the process: the examples.
use go_rest_boilerplate.Base.{ℕ, Bool, true, false, List, [], ◌∷◌, ◌≡◌, ◌≢◌, ◌⊎◌, refl, arith}
use go_rest_boilerplate.Exec.{ok}
use go_rest_boilerplate.Mailer.{OtpJob, job_otp, enqueue}
use go_rest_boilerplate.Mailer.Backoff.{Settings}
use go_rest_boilerplate.Mailer.Pool.{
  Worker, idle, exited, sending, receives, replies, turn, request, shutdown, Pool, Turn, turns,
  new_async_otp_mailer,
}
use go_rest_boilerplate.Mailer.Pool.Drain.{AllExited, Drained}
use go_rest_boilerplate.Process.{
  Phase, serving, shutting_down, http_stopped, limiter_stopped, mailer_closed, mailer_stopped,
  panicked, Process, started, closes, takes_requests, runs, is_open, accepts, mails, finishes,
  works, quits, stops_http, shuts_mailer, waits, goes_on, Reached, starts, steps,
}
use go_rest_boilerplate.Process.Orderly.{Reached_safe, waited-Drained}

abbrev settings : Settings
settings = record { workers = 1; queue_size = 1; retries = 2; backoff = 1_000_000_000 }

abbrev job : OtpJob
job = record { kind = job_otp; payload = "123456"; receiver = "ada@x.io" }

abbrev pool : Worker → List OtpJob → List OtpJob → List OtpJob → Bool → Pool
pool w q accepted sent closed = record {
  workers = w ∷ [];
  shared = record {
    channel = record { queue = q; queue_size = 1 };
    closed = closed;
    accepted = accepted;
    sent = sent;
    failed = [];
    dropped = [];
  };
}

abbrev process : Phase → ℕ → Pool → Process
process phase in_flight p = record {
  phase = phase;
  in_flight = in_flight;
  pool = p;
  waited = false;
}

abbrev fresh : Pool
fresh = pool idle [] [] [] false

abbrev taken : Pool
taken = pool idle (job ∷ []) (job ∷ []) [] false

abbrev mailed : Pool
mailed = pool idle [] (job ∷ []) (job ∷ []) false

abbrev closed : Pool
closed = pool idle [] (job ∷ []) (job ∷ []) true

abbrev done : Pool
done = pool exited [] (job ∷ []) (job ∷ []) true

abbrev busy : Process
busy = process serving 1 taken

takes : Reached settings busy
unfolding started new_async_otp_mailer takes_requests runs request enqueue
takes =
    steps (process serving 1 fresh) busy
      (steps (process serving 0 fresh) (process serving 1 fresh) starts
        (accepts (process serving 0 fresh) refl))
      (mails (process serving 1 fresh) job 0 refl refl refl)

receives_job : Turn settings taken (pool (sending job 1) [] (job ∷ []) [] false)
unfolding turn
receives_job =
    turns [] [] receives idle (sending job 1) taken.shared (pool idle [] (job ∷ []) [] false).shared
      refl

sends_job : Turn settings (pool (sending job 1) [] (job ∷ []) [] false) mailed
unfolding turn
sends_job =
    turns [] [] (replies (ok tt)) (sending job 1) idle (pool idle [] (job ∷ []) [] false).shared
      mailed.shared refl

returns : Turn settings closed done
unfolding turn
returns = turns [] [] receives idle exited closed.shared done.shared refl

delivers : Reached settings (process serving 1 mailed)
unfolding runs
delivers =
    steps (process serving 1 (pool (sending job 1) [] (job ∷ []) [] false)) _
      (steps busy _ takes (works busy _ refl receives_job))
      (works (process serving 1 (pool (sending job 1) [] (job ∷ []) [] false)) mailed refl
        sends_job)

stops : Reached settings (process http_stopped 0 mailed)
unfolding runs
stops =
    steps (process shutting_down 0 mailed) _
      (steps (process shutting_down 1 mailed) _
        (steps (process serving 1 mailed) _ delivers (quits (process serving 1 mailed) refl))
        (finishes (process shutting_down 1 mailed) 0 refl refl))
      (stops_http (process shutting_down 0 mailed) refl refl)

shuts : Reached settings (process mailer_closed 0 closed)
unfolding closes shutdown
shuts =
    steps (process limiter_stopped 0 mailed) _
      (steps (process http_stopped 0 mailed) _ stops
        (goes_on (process http_stopped 0 mailed) limiter_stopped refl))
      (shuts_mailer (process limiter_stopped 0 mailed) refl)

abbrev drained : Process
drained = record (process mailer_stopped 0 done) { waited = true }

drains : Reached settings drained
unfolding runs AllExited
drains =
    steps (process mailer_closed 0 done) drained
      (steps (process mailer_closed 0 closed) _ shuts
        (works (process mailer_closed 0 closed) done refl returns))
      (waits (process mailer_closed 0 done) refl (refl, tt))

Reached_safe_example :
    (serving ≢ panicked)
    × ((busy.in_flight ≡ 0) ⊎ ((is_open serving ≡ true) × (taken.shared.closed ≡ false)))
Reached_safe_example = Reached_safe settings busy takes

waited-Drained_example : Drained done
waited-Drained_example = waited-Drained settings drained (omega arith) (omega arith) drains refl
