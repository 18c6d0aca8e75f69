-- ===== src/Passes/Rounding.antt =====
-- pkg/ephemeris/pass_predictor.go: the rounding of a window to whole seconds.
use ntn_operators.Base.{◌+◌, ◌≤◌, ◌<◌, ◌≡◌, ◌↔◌, Bool, true, Time, truncate_second, arith}
use ntn_operators.Passes.Window.{ceil_to_second, floor_to_second, conservative_pass_window}

-- The widest window of whole seconds that lies within the given one.
pub record IsRounded (aos los a l : Time) (valid : Bool) : Type 0 where
  pub inside_left : aos ≤ a
  pub inside_right : l ≤ los
  pub stored_left : truncate_second a ≡ a
  pub stored_right : truncate_second l ≡ l
  pub tight_left : a < aos + 1000000000
  pub tight_right : los < l + 1000000000
  pub valid_iff : (valid ≡ true) ↔ (a < l)

-- A rounded window lies within the computed one, loses less than a second on each side, and is made of
-- whole seconds, so that storing it as a metav1.Time changes nothing; it is valid exactly if it is not
-- empty.
pub conservative_pass_window-IsRounded :
    (aos los : Time)
    → let (a, l, valid) = conservative_pass_window aos los in IsRounded aos los a l valid
unfolding conservative_pass_window ceil_to_second floor_to_second
conservative_pass_window-IsRounded aos los = record {
  inside_left = ground arith;
  inside_right = omega arith;
  stored_left = ground arith;
  stored_right = ground arith;
  tight_left = ground arith;
  tight_right = omega arith;
  valid_iff = (λ h. ground arith, λ h. ground arith);
}
