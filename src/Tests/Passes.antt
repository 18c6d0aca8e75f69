-- ===== src/Tests/Passes.antt =====
-- The theorems on pass prediction at a concrete pass, and test runs.
use mathlib.Core.List.{Mem, flat_map}
use ntn_operators.Base.{
  ℕ, ◌+◌, ◌*◌, ◌/◌, ◌≡◌, ◌≢◌, refl, subst, inl, Bool, true, false, Option, none, some, List, [],
  ◌∷◌, ◌++◌, leb, all, codes, Time, sub_time, ℤ, pos, sub_ℕ, if◌then◌else◌, arith,
}
use ntn_operators.Passes.{
  Omm, GroundStation, PassResult, PassDetails, Sgp4, bounded_satellite_label,
}
use ntn_operators.Passes.Window.{conservative_pass_window}
use ntn_operators.Passes.Mask.{bisect, refine_mask_crossing, trim_pass_to_mask}
use ntn_operators.Passes.Cap.{less_pass, satellites, share, cap_per_satellite}
use ntn_operators.Passes.Predict.{
  valid_elevation, parse_elevation, filter_omms, Query, elevation_at, pass_of, predict_single,
  predicted, answer, conclude_passes, prepare,
}
use ntn_operators.Passes.Pool.{PoolState, start_pool, receive, deliver, Reach, here, next}
use ntn_operators.Passes.Bisection.{some_inv}
use ntn_operators.Passes.Crossing.{IsCrossing, refine-IsCrossing}
use ntn_operators.Passes.Rounding.{IsRounded, conservative_pass_window-IsRounded}
use ntn_operators.Passes.Fairness.{cap_per_satellite-keeps}
use ntn_operators.Passes.Schedules.{collected, IsPrediction, conclude-IsPrediction}
use ntn_operators.Passes.Soundness.{is_sound, is_pass, IsGenerator, predict-IsSound}
use ntn_operators.Tests.Whole.{whole}
use ntn_operators.Tests.Sorting.{sorter}

abbrev second : ℕ
second = 1000000000

-- In tenths of a degree: up to 60 degrees and down again.
abbrev tent : Time → ℤ
tent t = if leb t (700 * second) then sub_ℕ (t / second) 100 else sub_ℕ 1300 (t / second)

abbrev query : Query ℤ
query = record { start = 0; stop = 2000 * second; min_elevation = pos 100 }

abbrev station : GroundStation ℤ
station = record {
  name = codes "taipei";
  latitude = pos 25;
  longitude = pos 121;
  altitude = pos 10;
}

abbrev omm : Omm Bool ℤ
omm = record {
  object_name = codes "SAT";
  norad_cat_id = 7;
  epoch_str = [];
  mean_motion = pos 15;
  elements = true;
}

abbrev details : PassDetails ℤ
details = record {
  aos = 100 * second + 250000000;
  los = 1300 * second + 750000000;
  max_elevation = pos 600;
  max_elevation_time = 700 * second;
}

abbrev sgp4 : Sgp4 ℕ Time Bool ℤ
sgp4 = record {
  to_tle = λ o. if o.elements then some o.norad_cat_id else none;
  generate_passes = λ tle gs start stop step. some (details ∷ []);
  find_position_at_time = λ tle t. some t;
  get_look_angle = λ t gs u. some (tent t);
}

abbrev item : Omm Bool ℤ × GroundStation ℤ
item = (omm, station)

abbrev predict : Omm Bool ℤ × GroundStation ℤ → Option (List (PassResult ℤ))
predict w = predict_single sgp4 query w

-- The pass above the mask, in whole seconds.
abbrev usable_pass : PassResult ℤ
usable_pass = record {
  satellite = codes "SAT";
  norad_id = 7;
  ground_station = codes "taipei";
  aos = 201 * second;
  los = 1200 * second;
  max_elevation = pos 600;
}

predict_test : predict item ≡ some (usable_pass ∷ [])
unfolding predict_single pass_of elevation_at trim_pass_to_mask refine_mask_crossing bisect
    conservative_pass_window bounded_satellite_label flat_map sub_time
predict_test = refl

crossing_test :
    refine_mask_crossing (λ t. some (tent t)) details.aos (700 * second) (pos 100) true
    ≡ some 200110717772
unfolding refine_mask_crossing bisect sub_time
crossing_test = refl

refine-IsCrossing_example :
    ((t : Time)
      → refine_mask_crossing (λ t. some (tent t)) details.aos (700 * second) (pos 100) true ≡ some t
      → IsCrossing (λ t. some (tent t)) (pos 100) true details.aos (700 * second) t)
    × (((t : Time) → some (tent t) ≢ none)
        → refine_mask_crossing (λ t. some (tent t)) details.aos (700 * second) (pos 100) true
          ≢ none)
refine-IsCrossing_example =
    refine-IsCrossing (λ t. some (tent t)) details.aos (700 * second) (pos 100) true (omega arith)
      (omega arith)

conservative_pass_window-IsRounded_example :
    IsRounded details.aos details.los (101 * second) (1300 * second) true
unfolding conservative_pass_window
conservative_pass_window-IsRounded_example =
    conservative_pass_window-IsRounded details.aos details.los

known : (t : Time) → some (tent t) ≢ none
known t e = cc

-- Four passes of one satellite and one of another, for three places.
abbrev pass_at : Time → PassResult ℤ
pass_at t = record usable_pass { aos = t * second }

abbrev other_pass : PassResult ℤ
other_pass = record usable_pass { satellite = codes "OTHER"; aos = 900 * second }

abbrev crowd : List (PassResult ℤ)
crowd = pass_at 1 ∷ pass_at 2 ∷ pass_at 3 ∷ pass_at 4 ∷ []

cap_per_satellite_test :
    cap_per_satellite (crowd ++ (other_pass ∷ [])) 3 ≡ pass_at 1 ∷ pass_at 2 ∷ other_pass ∷ []
unfolding cap_per_satellite share satellites less_pass
cap_per_satellite_test = refl

cap_per_satellite-keeps_example : Mem other_pass (cap_per_satellite (crowd ++ (other_pass ∷ [])) 3)
unfolding satellites
cap_per_satellite-keeps_example =
    cap_per_satellite-keeps crowd [] other_pass 3 (omega arith) (omega arith)

-- One item: a worker takes it and delivers its passes.
abbrev taken : PoolState (Omm Bool ℤ × GroundStation ℤ) ℤ
taken = record {
  queue = [];
  running = item ∷ [];
  all_passes = [];
  failed = false;
  cancelled = false;
}

abbrev done : PoolState (Omm Bool ℤ × GroundStation ℤ) ℤ
done = record {
  queue = [];
  running = [];
  all_passes = usable_pass ∷ [];
  failed = false;
  cancelled = false;
}

run : Reach predict (start_pool predict (item ∷ [])) done
unfolding start_pool predict_single pass_of elevation_at trim_pass_to_mask refine_mask_crossing
    bisect conservative_pass_window bounded_satellite_label flat_map sub_time
run =
    next {t = taken} {u = done}
      (next {u = taken} here (receive item [] refl refl (omega arith) refl))
      (deliver item [] [] refl refl)

conclude_passes_test :
    conclude_passes done.cancelled done.failed done.all_passes ≡ predicted (usable_pass ∷ [])
unfolding conclude_passes cap_per_satellite
conclude_passes_test = refl

conclude-IsPrediction_example : IsPrediction (collected predict (item ∷ [])) (usable_pass ∷ [])
conclude-IsPrediction_example =
    conclude-IsPrediction predict (item ∷ []) done (usable_pass ∷ []) run (refl, inl refl)
      conclude_passes_test

query-IsGenerator : IsGenerator sgp4 query
query-IsGenerator tle gs ps e =
    subst (λ (l : List (PassDetails ℤ)). all (is_pass query) l ≡ true) (some_inv e) refl

predict-IsSound_example : all (is_sound query) (usable_pass ∷ []) ≡ true
predict-IsSound_example =
    predict-IsSound sgp4 query (item ∷ []) done (usable_pass ∷ []) (omega arith) query-IsGenerator
      run conclude_passes_test

parse_elevation_test : parse_elevation (pos 10) (pos 90) (codes "91") ≡ none
unfolding parse_elevation valid_elevation
parse_elevation_test = refl

prepare_test :
    prepare (pos 90) (omm ∷ []) (station ∷ []) (pos 10) (pos second) (8 ∷ []) 5 7
    ≡ answer (predicted [])
unfolding prepare valid_elevation filter_omms
prepare_test = refl
