-- ===== src/Passes/Window.antt =====
-- pkg/ephemeris/pass_predictor.go: ceilToSecond, floorToSecond, conservativePassWindow.
use ntn_operators.Base.{◌+◌, Bool, ltb, Time, after, truncate_second, if◌then◌else◌}

unfoldable pub ceil_to_second : Time → Time
ceil_to_second t =
    let trunc = truncate_second t in if ltb trunc t then trunc + 1000000000 else trunc

unfoldable pub floor_to_second : Time → Time
floor_to_second t = truncate_second t

-- The rounded window, and whether it is valid.
unfoldable pub conservative_pass_window : Time → Time → Time × Time × Bool
unfolding ceil_to_second floor_to_second
conservative_pass_window aos los =
    let a = ceil_to_second aos in let l = floor_to_second los in (a, l, after l a)
