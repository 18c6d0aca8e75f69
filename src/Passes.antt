-- ===== src/Passes.antt =====
-- pkg/ephemeris/pass_predictor.go: the data of pass prediction. The element sets, their conversion and
-- the propagation belong to github.com/akhenakh/sgp4, which is a parameter.
use ntn_operators.Base.{
  ℕ, ◌≡◌, Bool, true, false, Option, List, Text, Time, Duration, length, take, byte_length, ltb,
  leb, if◌then◌else◌,
}
use mathlib.Core.List.{Perm, Pairwise}
pub mod Window
pub mod Mask
pub mod Cap
pub mod Predict
pub mod Pool
pub mod Order
pub mod Rounding
pub mod Bisection
pub mod Crossing
pub mod Trim
pub mod Shares
pub mod Fairness
pub mod Schedules
pub mod Soundness

-- sgp4.OMM; `elements` is what only the library reads.
pub record Omm {ℓ} (E F : Type ℓ) : Type ℓ where
  pub object_name : Text
  pub norad_cat_id : ℕ
  pub epoch_str : Text
  pub mean_motion : F
  pub elements : E

pub record GroundStation {ℓ} (F : Type ℓ) : Type ℓ where
  pub name : Text
  pub latitude : F
  pub longitude : F
  pub altitude : F

pub record PassResult {ℓ} (F : Type ℓ) : Type ℓ where
  pub satellite : Text
  pub norad_id : ℕ
  pub ground_station : Text
  pub aos : Time
  pub los : Time
  pub max_elevation : F

-- sgp4.PassDetails
pub record PassDetails {ℓ} (F : Type ℓ) : Type ℓ where
  pub aos : Time
  pub los : Time
  pub max_elevation : F
  pub max_elevation_time : Time

-- What the code calls of sgp4: OMM.ToTLE, TLE.GeneratePasses, and TLE.FindPositionAtTime with
-- StateVector.GetLookAngle, of which it reads the elevation. `none` is an error.
pub record Sgp4 {ℓ} (Tle Eci E F : Type ℓ) : Type ℓ where
  pub to_tle : Omm E F → Option Tle
  pub generate_passes : Tle → GroundStation F → Time → Time → ℕ → Option (List (PassDetails F))
  pub find_position_at_time : Tle → Time → Option Eci
  pub get_look_angle : Eci → GroundStation F → Time → Option F

abbrev pub max_pass_windows : ℕ
max_pass_windows = 500

abbrev pub max_satellite_name_len : ℕ
max_satellite_name_len = 64

abbrev pub default_step_seconds : ℕ
default_step_seconds = 60

-- BoundedSatelliteLabel: len is in bytes, the rest in runes.
unfoldable pub bounded_satellite_label : Text → Text
bounded_satellite_label name =
    if leb (byte_length name) max_satellite_name_len
    then name
    else if ltb max_satellite_name_len (length name)
    then take max_satellite_name_len name
    else name
