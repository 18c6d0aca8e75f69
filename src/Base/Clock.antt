-- ===== src/Base/Clock.antt =====
-- Package `time`: an instant is its number of nanoseconds since the zero time.Time, which is 0
-- (the program meets no earlier instant). A Duration is an int64 number of nanoseconds.
use Prim.Native.Nat.{ℕ, ◌+◌, ◌-◌, ◌*◌, ◌/◌, ◌^◌}
use mathlib.Core.Bool.{Bool}
use ntn_operators.Base.Tests.{ltb, ◌==◌, if◌then◌else◌}
use ntn_operators.Base.Int.{ℤ, pos, negsuc, pos_part, neg_part, sub_ℕ, ltb_ℤ}

abbrev pub Time : Type 0
Time = ℕ

abbrev pub Duration : Type 0
Duration = ℤ

abbrev pub zero_time : Time
zero_time = 0

-- t.IsZero(), t.After(u).
abbrev pub is_zero : Time → Bool
is_zero t = t == 0

abbrev pub after : Time → Time → Bool
after t u = ltb u t

abbrev pub max_duration : Duration
max_duration = pos (2 ^ 63 - 1)

abbrev pub min_duration : Duration
min_duration = negsuc (2 ^ 63 - 1)

-- t.Truncate(time.Second).
abbrev pub truncate_second : Time → Time
truncate_second t = t / 1000000000 * 1000000000

-- t.Add(d).
abbrev pub add_time : Time → Duration → Time
add_time t d = t + pos_part d - neg_part d

-- d / 2 on an int64, towards zero.
abbrev pub half : Duration → Duration
half (pos n) = pos (n / 2)
half (negsuc n) = sub_ℕ 0 ((n + 1) / 2)

-- t.Sub(u), which saturates at the ends of int64.
unfoldable pub sub_time : Time → Time → Duration
sub_time t u =
    let d = sub_ℕ t u in
    if ltb_ℤ max_duration d then max_duration else if ltb_ℤ d min_duration then min_duration else d
