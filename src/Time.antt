-- ===== src/Time.antt =====
-- Go's time.Time and time.Duration as daemon/ uses them, and daemon/constants.go. A Time is the
-- number of nanoseconds since the zero Time (1 January of the year 1, UTC), so time.Time{} is
-- `pos 0`; a Duration is a number of nanoseconds, negative ones included. Nothing wraps: the
-- durations that the code adds are below 293 years.
use cbdynclusterd.Prelude.{ℕ, ◌+◌, ◌-◌, ◌*◌, ◌/◌, ◌^◌, ◌<◌, Bool}
use cbdynclusterd.Prelude.Int.{ℤ, pos, negsuc, ◌+ℤ◌, ltb_ℤ}

abbrev pub Time : Type 0
Time = ℤ

abbrev pub Duration : Type 0
Duration = ℤ

abbrev pub second : ℕ
second = 10 ^ 9

abbrev pub hour : ℕ
hour = 3600 * second

-- t.Before(u)
abbrev pub before : Time → Time → Bool
before = ltb_ℤ

-- t.Add(d)
abbrev pub add : Time → Duration → Time
add t d = t +ℤ d

-- 811203 days lie between 1 January of the years 1 and 2222.
abbrev pub default_cluster_timeout : Time
default_cluster_timeout = pos (811203 * 24 * hour)

-- What time.RFC3339 keeps of a time: whole seconds, rounded down.
abbrev pub truncate_second : Time → Time
truncate_second (pos n) = pos (n / second * second)
truncate_second (negsuc n) = negsuc (n / second * second + second - 1)

-- The times with a year between 1 and 9999, which RFC3339 can write with four digits.
abbrev pub IsWritable : Time → Type 0
IsWritable (pos n) = n < 3652059 * 24 * hour
IsWritable (negsuc n) = ⊥
