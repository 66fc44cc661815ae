-- ===== src/Mailer/Pool/Accounts.antt =====
-- No job of pkg/mailer/mailer.async.go is lost or mailed twice.
use go_rest_boilerplate.Base.{
  ℕ, zero, suc, ◌+◌, ◌≤◌, Bool, true, false, List, [], ◌∷◌, ◌++◌, ◌≡◌, ◌⊎◌, inl, inr, Bool-cases,
  refl, ap, ◌∙◌, arith, length, length_append, ltb, if_ind,
}
use go_rest_boilerplate.Mailer.{OtpJob, enqueue}
use go_rest_boilerplate.Mailer.Backoff.{Settings}
use go_rest_boilerplate.Mailer.Pool.{
  Worker, idle, exited, sending, waiting, Shared, request, shutdown, Pool, enqueued, idles,
  new_async_otp_mailer, Turn, turns, Step, works, requests, shuts, Reached, starts, goes_on,
}
use go_rest_boilerplate.Mailer.Pool.Moves.{
  held, in_flight, tally, WithinAttempts, Moved, turn-MovedTo,
}

unfoldable pub AllWithin : Settings → Shared → List Worker → Type 0
AllWithin a s [] = Unit
AllWithin a s (w ∷ ws) = WithinAttempts a s w × AllWithin a s ws

-- Every job taken in is, as often as it was taken in, in the channel, in a worker's hands, mailed,
-- given up or dropped; nothing is dropped before Shutdown.
pub record Accounted (a : Settings) (p : Pool) : Type 0 where
  pub balanced :
      (t : OtpJob → Bool)
      → tally t p.shared.accepted
        ≡ tally t p.shared.channel.queue
          + (tally t (in_flight p.workers)
              + (tally t p.shared.sent + (tally t p.shared.failed + tally t p.shared.dropped)))
  pub fits : length p.shared.channel.queue ≤ p.shared.channel.queue_size
  pub within : AllWithin a p.shared p.workers
  pub kept : (p.shared.closed ≡ true) ⊎ (p.shared.dropped ≡ [])

AllWithin_mono :
    (a : Settings) (s u : Shared) (ws : List Worker)
    → ((s.closed ≡ true) × (s.channel.queue ≡ []) → (u.closed ≡ true) × (u.channel.queue ≡ []))
    → AllWithin a s ws
    → AllWithin a u ws
unfolding AllWithin
AllWithin_mono a s u [] f h = tt
AllWithin_mono a s u (idle ∷ ws) f h = (tt, AllWithin_mono a s u ws f h.1)
AllWithin_mono a s u (exited ∷ ws) f h = (f h.0, AllWithin_mono a s u ws f h.1)
AllWithin_mono a s u (sending j k ∷ ws) f h = (h.0, AllWithin_mono a s u ws f h.1)
AllWithin_mono a s u (waiting j k d ∷ ws) f h = (h.0, AllWithin_mono a s u ws f h.1)

pub AllWithin-at :
    (a : Settings) (s : Shared) (before behind : List Worker) (w : Worker)
    → AllWithin a s (before ++ w ∷ behind)
    → WithinAttempts a s w
unfolding AllWithin
AllWithin-at a s [] behind w h = h.0
AllWithin-at a s (x ∷ before) behind w h = AllWithin-at a s before behind w h.1

AllWithin-put :
    (a : Settings) (s : Shared) (before behind : List Worker) (w v : Worker)
    → AllWithin a s (before ++ w ∷ behind)
    → WithinAttempts a s v
    → AllWithin a s (before ++ v ∷ behind)
unfolding AllWithin
AllWithin-put a s [] behind w v h g = (g, h.1)
AllWithin-put a s (x ∷ before) behind w v h g = (h.0, AllWithin-put a s before behind w v h.1 g)

tally_append : (t : OtpJob → Bool) (l m : List OtpJob) → tally t (l ++ m) ≡ tally t l + tally t m
unfolding tally
tally_append t [] m = omega arith
tally_append t (j ∷ l) m = omega (arith, tally_append t l m)

tally-in_flight :
    (t : OtpJob → Bool) (before behind : List Worker) (w : Worker)
    → tally t (in_flight (before ++ w ∷ behind))
      ≡ tally t (in_flight before) + (tally t (held w) + tally t (in_flight behind))
unfolding in_flight tally
tally-in_flight t [] behind w = omega (arith, tally_append t (held w) (in_flight behind))
tally-in_flight t (x ∷ before) behind w = omega (
  arith,
  tally-in_flight t before behind w,
  tally_append t (held x) (in_flight before),
  tally_append t (held x) (in_flight (before ++ w ∷ behind)),
)

turns-Accounted :
    (a : Settings) (before behind : List Worker) (w v : Worker) (s u : Shared)
    → Accounted a (record { workers = before ++ w ∷ behind; shared = s })
    → Moved a w s v u
    → Accounted a (record { workers = before ++ v ∷ behind; shared = u })
turns-Accounted a before behind w v s u h m = record {
  balanced = λ t. omega (
    arith,
    h.balanced t,
    m.conserved t,
    tally-in_flight t before behind w,
    tally-in_flight t before behind v,
    ap (tally t) m.accepted_same,
  );
  fits = omega (arith, h.fits, m.shorter, m.size_same);
  within =
      AllWithin-put a u before behind w v
        (AllWithin_mono a s u (before ++ w ∷ behind)
          (λ c. (m.closed_same ∙ c.0, empty u.channel.queue (ground (arith, m.shorter, c.1))))
          h.within)
        m.v_within;
  kept = elim (Bool-cases s.closed) [
    | inl c ↦ inl (m.closed_same ∙ c)
    | inr c ↦ elim h.kept [ inl o ↦ inl (m.closed_same ∙ o) | inr d ↦ inr (m.not_dropped c ∙ d) ]
  ];
}
  where
    empty : (l : List OtpJob) → length l ≤ 0 → l ≡ []
    empty [] _ = refl
    empty (x ∷ l) e = absurd (omega (arith, e))

pub Turn-Accounted :
    (a : Settings) (p q : Pool) → 1 ≤ a.retries → Accounted a p → Turn a p q → Accounted a q
Turn-Accounted a _ _ r h (turns before behind e w v s u eq) =
    let m : Moved a w s v u =
      rw eq at (turn-MovedTo a e w s r (AllWithin-at a s before behind w h.within)) in
    turns-Accounted a before behind w v s u h m

request-Accounted :
    (a : Settings) (p : Pool) (j : OtpJob)
    → p.shared.closed ≡ false
    → Accounted a p
    → Accounted a (record p { shared = request j p.shared })
unfolding request enqueue tally
request-Accounted a p j c h =
    if_ind (λ x. Accounted a (record p { shared = enqueued j p.shared x }))
      (ltb (length p.shared.channel.queue) p.shared.channel.queue_size) _ _
      (λ e. record {
        balanced = λ t. omega (arith, h.balanced t, tally_append t p.shared.channel.queue (j ∷ []));
        fits = ground (arith, e, length_append p.shared.channel.queue (j ∷ []));
        within = AllWithin_mono a p.shared _ p.workers (λ x. ground (arith, x.0, c)) h.within;
        kept = h.kept;
      })
      λ e. record {
        balanced = h.balanced;
        fits = h.fits;
        within = AllWithin_mono a p.shared _ p.workers (λ x. x) h.within;
        kept = h.kept;
      }

Step-Accounted :
    (a : Settings) (p q : Pool) → 1 ≤ a.retries → Accounted a p → Step a p q → Accounted a q
unfolding shutdown
Step-Accounted a _ _ r h (works p q t) = Turn-Accounted a p q r h t
Step-Accounted a _ _ r h (requests p j c) = request-Accounted a p j c h
Step-Accounted a _ _ r h (shuts p) = record {
  balanced = h.balanced;
  fits = h.fits;
  within = AllWithin_mono a p.shared _ p.workers (λ c. (refl, c.1)) h.within;
  kept = inl refl;
}

idles_within : (a : Settings) (s : Shared) (n : ℕ) → AllWithin a s (idles n)
unfolding AllWithin
idles_within a s zero = tt
idles_within a s (suc n) = (tt, idles_within a s n)

in_flight-idles : (n : ℕ) → in_flight (idles n) ≡ []
unfolding in_flight
in_flight-idles zero = refl
in_flight-idles (suc n) = in_flight-idles n

new-Accounted : (a : Settings) → Accounted a (new_async_otp_mailer a)
unfolding new_async_otp_mailer tally
new-Accounted a = record {
  balanced = λ t. ground (arith, ap (tally t) (in_flight-idles a.workers));
  fits = omega arith;
  within = idles_within a _ a.workers;
  kept = inr refl;
}

-- In every pool that a mailer with at least one attempt comes to, in any order of its workers,
-- requests and shutdown, each job was mailed, given up or dropped at most as often as it was taken
-- in, and is otherwise in the channel or with a worker; the channel is within its size; no worker
-- goes beyond the attempts or leaves before the channel is closed and empty; and nothing is
-- dropped before the shutdown.
pub Reached-Accounted : (a : Settings) (p : Pool) → 1 ≤ a.retries → Reached a p → Accounted a p
Reached-Accounted a _ r starts = new-Accounted a
Reached-Accounted a _ r (goes_on p q h t) = Step-Accounted a p q r (Reached-Accounted a p r h) t
