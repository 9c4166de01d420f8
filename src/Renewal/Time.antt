-- ===== src/Renewal/Time.antt =====
-- Go's times and durations as pkg/util/pki/renewaltime.go uses them. A time is its distance from the
-- zero time in nanoseconds, a duration an integer in the range of int64.
use cert_manager.Common.{ℕ, suc, ◌+◌, ◌-◌, ◌*◌, ◌/◌, ◌%◌, ◌^◌, if◌then◌else◌}
use cert_manager.Common.Int.{ℤ, pos, negsuc, sub_ℕ, ◌-ℤ◌, ltb_ℤ, to_int64}

abbrev pub second : ℕ
second = 1000000000

abbrev pub max_int64 : ℤ
max_int64 = pos 9223372036854775807

abbrev pub min_int64 : ℤ
min_int64 = negsuc 9223372036854775807

-- `t.Sub(u)`: a difference out of range gives the nearest duration.
unfoldable pub time_sub : ℤ → ℤ → ℤ
unfolding ◌-ℤ◌
time_sub t u =
    let d = t -ℤ u in
    if ltb_ℤ max_int64 d then max_int64 else if ltb_ℤ d min_int64 then min_int64 else d

-- The int64 that an integer wraps to.
abbrev pub wrap64 : ℤ → ℤ
wrap64 (pos n) = to_int64 n
wrap64 (negsuc n) = to_int64 (2 ^ 64 - 1 - n % 2 ^ 64)

-- `d * time.Duration(p)` for a number p that is not negative.
abbrev pub mul64 : ℤ → ℕ → ℤ
mul64 (pos n) p = wrap64 (pos (n * p))
mul64 (negsuc n) p = wrap64 (sub_ℕ 0 (suc n * p))

-- `t.Truncate(time.Second)`: down to a whole second.
unfoldable pub truncate : ℤ → ℤ
truncate (pos n) = pos (n - n % second)
truncate (negsuc n) = sub_ℕ 0 ((n / second + 1) * second)
