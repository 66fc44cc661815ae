-- ===== src/Time.antt =====
-- `time.Time` and `time.Duration`, as far as the program uses them, and pkg/clock.
use go_rest_boilerplate.Base.{ℕ, ◌*◌, ◌/◌, ℤ, pos, negsuc, Bool, true, false, ltb}

-- The zero value, or an instant by its nanoseconds since 1970. Instants in between are left out.
pub data Time : Type 0 where
  zero_time : Time
  at : ℕ → Time

-- Durations in nanoseconds. All durations of the program are at least zero.
abbrev pub second : ℕ
second = 1_000_000_000

abbrev pub minute : ℕ
minute = 60 * second

abbrev pub hour : ℕ
hour = 3600 * second

abbrev pub is_zero : Time → Bool
is_zero zero_time = true
is_zero (at n) = false

-- `t.Before(u)`
abbrev pub before : Time → Time → Bool
before zero_time zero_time = false
before zero_time (at n) = true
before (at m) zero_time = false
before (at m) (at n) = ltb m n

-- `t.Unix()`: the zero time is -62135596800.
abbrev pub unix : Time → ℤ
unix zero_time = negsuc 62135596799
unix (at n) = pos (n / second)
