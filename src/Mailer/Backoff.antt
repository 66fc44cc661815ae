-- ===== src/Mailer/Backoff.antt =====
-- pkg/mailer/mailer.async.go: the settings that `NewAsyncOTPMailer` fills in, and the pause after a
-- failed attempt, in 64-bit arithmetic. Durations in nanoseconds.
use go_rest_boilerplate.Base.{
  ℕ, zero, suc, ◌-◌, ◌*◌, ◌%◌, ◌^◌, ◌≤◌, ◌<◌, true, ℤ, pos, negsuc, ◌≡◌, inl, inr, refl, ltb, arith,
  if◌then◌else◌, Bool-cases,
}

-- `if n <= 0 { n = default }`
abbrev positive_or : ℕ → ℤ → ℕ
positive_or default (pos zero) = default
positive_or default (pos (suc n)) = suc n
positive_or default (negsuc n) = default

pub record Settings : Type 0 where
  pub workers : ℕ
  pub queue_size : ℕ
  pub retries : ℕ
  pub backoff : ℕ

unfoldable pub new_settings : ℤ → ℤ → ℤ → ℤ → Settings
new_settings workers queue_size retries backoff = record {
  workers = positive_or 2 workers;
  queue_size = positive_or 64 queue_size;
  retries = positive_or 3 retries;
  backoff = positive_or 1_000_000_000 backoff;
}

-- A 64-bit word as a signed number.
abbrev int64 : ℕ → ℤ
int64 w = if ltb w (2 ^ 63) then pos w else negsuc (2 ^ 64 - suc w)

-- `30 * time.Second`
abbrev pub max_wait : ℕ
max_wait = 30_000_000_000

abbrev at_most : ℕ → ℤ → ℤ
at_most m (pos n) = if ltb m n then pos m else pos n
at_most m (negsuc n) = negsuc n

-- The pause after an attempt, counted from 1; the product wraps around.
unfoldable pub wait_after : Settings → ℕ → ℤ
wait_after a attempt = at_most max_wait (int64 ((a.backoff * 2 ^ (attempt - 1)) % 2 ^ 64))

unwrapped :
    (n : ℕ)
    → n < 2 ^ 63
    → at_most max_wait (int64 (n % 2 ^ 64)) ≡ pos (if ltb max_wait n then max_wait else n)
unwrapped n h =
    let m : n % 2 ^ 64 ≡ n = omega (arith, h) in
    let l : ltb n (2 ^ 63) ≡ true = ground (arith, h) in
    rw (m, l) (elim (Bool-cases (ltb max_wait n)) [ inl e ↦ rw e refl | inr e ↦ rw e refl ])

-- Where the first pause, doubled for every attempt before, is a 64-bit number, the pause after an
-- attempt is that product, or 30 seconds if it is longer.
pub wait_after-doubles :
    (a : Settings) (attempt : ℕ)
    → a.backoff * 2 ^ (attempt - 1) < 2 ^ 63
    → wait_after a attempt
      ≡ pos (
          if ltb max_wait (a.backoff * 2 ^ (attempt - 1))
          then max_wait
          else a.backoff * 2 ^ (attempt - 1))
unfolding wait_after
wait_after-doubles a attempt h = unwrapped (a.backoff * 2 ^ (attempt - 1)) h

-- The settings of a mailer are in range whatever it is given.
pub new_settings_positive :
    (workers queue_size retries backoff : ℤ)
    → let a = new_settings workers queue_size retries backoff in
      (1 ≤ a.workers) × (1 ≤ a.queue_size) × (1 ≤ a.retries) × (1 ≤ a.backoff)
unfolding new_settings
new_settings_positive workers queue_size retries backoff = (
  positive_or_positive 2 workers (omega arith),
  positive_or_positive 64 queue_size (omega arith),
  positive_or_positive 3 retries (omega arith),
  positive_or_positive 1_000_000_000 backoff (omega arith),
)
  where
    positive_or_positive : (m : ℕ) (n : ℤ) → 1 ≤ m → 1 ≤ positive_or m n
    positive_or_positive m (pos zero) h = h
    positive_or_positive m (pos (suc n)) h = omega arith
    positive_or_positive m (negsuc n) h = h
