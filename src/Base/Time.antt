-- ===== src/Base/Time.antt =====
-- Go's `time.Time` and `time.Duration` as nanoseconds. A time counts from the zero time, so that
-- `IsZero` is a test with 0.
use pigeongram_chat.Base.{ℕ, ◌-◌, ◌==◌, nat_eq, ltb, min, Bool}

abbrev pub second : ℕ
second = 1000000000

abbrev pub minute : ℕ
minute = 60000000000

abbrev pub hour : ℕ
hour = 3600000000000

-- The largest duration; `Sub` saturates there.
abbrev pub max_duration : ℕ
max_duration = 9223372036854775807

-- `now.Sub(t)`. A negative difference is 0 here: it is compared only with durations of 0 or more.
abbrev pub elapsed : ℕ → ℕ → ℕ
elapsed now t = min (now - t) max_duration

-- `now.Sub(t) > ttl`
abbrev pub is_older : ℕ → ℕ → ℕ → Bool
is_older ttl now t = ltb ttl (elapsed now t)

-- `t.IsZero()`
abbrev pub is_zero : ℕ → Bool
is_zero t = t == 0

-- `t.After(u)`
abbrev pub after : ℕ → ℕ → Bool
after t u = ltb u t
