-- ===== src/Mailer/Queue.antt =====
-- The mail queue neither overflows nor loses or reorders what it has taken.
use go_rest_boilerplate.Base.{
  ◌≤◌, ◌≡◌, refl, [], ◌∷◌, ◌++◌, length, ltb, arith, Bool-cases, inl, inr, ◌⊎◌,
}
use go_rest_boilerplate.Apperror.{sentinel, err_queue_full}
use go_rest_boilerplate.Exec.{ok, err}
use go_rest_boilerplate.Base.{length_append}
use go_rest_boilerplate.Mailer.{OtpJob, AsyncOtpMailer, enqueue}

-- A queue within its capacity stays within it. A job is either put behind all others, or, exactly
-- when the queue is full, refused with ErrQueueFull and the queue is left as it was.
pub enqueue-bounded :
    (j : OtpJob) (a : AsyncOtpMailer)
    → length a.queue ≤ a.queue_size
    → (length (enqueue j a).1.queue ≤ a.queue_size)
      × ((((enqueue j a).0 ≡ ok tt) × ((enqueue j a).1.queue ≡ a.queue ++ j ∷ []))
          ⊎ ((length a.queue ≡ a.queue_size) × (enqueue j a ≡ (err (sentinel err_queue_full), a))))
unfolding enqueue
enqueue-bounded j a h = elim (Bool-cases (ltb (length a.queue) a.queue_size)) [
  | inl e ↦ rw e (ground (arith, e, length_append a.queue (j ∷ [])), inl (refl, refl))
  | inr e ↦ rw e (h, inr (ground (arith, e, h), refl))
]
