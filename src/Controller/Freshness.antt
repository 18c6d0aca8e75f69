-- ===== src/Controller/Freshness.antt =====
-- internal/controller/ephemeris_freshness.go: when a source element set is too far ahead of the
-- clock to be plausible, and when it is too old to be delivered.
use ntn_operators.Base.{ℕ, ◌+◌, ◌*◌, Bool, not, Time, after, sub_time, ltb_ℤ, pos}

abbrev pub hour : ℕ
hour = 3600000000000

abbrev pub max_epoch_age : ℕ
max_epoch_age = 7 * 24 * hour

abbrev pub max_source_epoch_future_skew : ℕ
max_source_epoch_future_skew = 24 * hour

-- The absence of an error.
unfoldable pub source_epoch_plausible : Time → Time → Bool
source_epoch_plausible now src = not (after src (now + max_source_epoch_future_skew))

unfoldable pub source_epoch_fresh : Time → Time → Bool
source_epoch_fresh now src = not (ltb_ℤ (pos max_epoch_age) (sub_time now src))
