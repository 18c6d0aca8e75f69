-- ===== src/Passes/Predict.antt =====
-- pkg/ephemeris/pass_predictor.go: predictSingle, PredictPasses but for its worker pool, FilterOMMs,
-- ParseElevation.
use mathlib.Core.List.{flat_map}
use ntn_operators.Base.{
  ℕ, ◌==◌, Bool, not, ◌&&◌, ◌||◌, any, filter, Option, none, some, List, [], ◌∷◌, map, is_empty,
  Text, Time, Duration, is_zero, add_time, if◌then◌else◌,
}
use ntn_operators.Float.{Float}
use ntn_operators.Passes.{
  Omm, GroundStation, PassResult, PassDetails, Sgp4, bounded_satellite_label, default_step_seconds,
  max_pass_windows,
}
use ntn_operators.Passes.Window.{conservative_pass_window}
use ntn_operators.Passes.Mask.{trim_pass_to_mask}
use ntn_operators.Passes.Cap.{Sorter, cap_per_satellite}

-- What PredictPasses checks of the mask, with the constant 90.
unfoldable pub valid_elevation {ℓ} : {F : Type ℓ} ⦃fl : Float F⦄ → F → F → Bool
valid_elevation ⦃fl⦄ ninety v =
    not (fl.is_nan v || fl.is_inf v || fl.lt v fl.zero_float || fl.lt ninety v)

-- ParseElevation, with the constants 10 and 90; `none` is its error.
unfoldable pub parse_elevation {ℓ} : {F : Type ℓ} ⦃fl : Float F⦄ → F → F → Text → Option F
unfolding valid_elevation
parse_elevation ⦃fl⦄ ten ninety s = if is_empty s then some ten else elim (fl.parse_float s) [
  | none ↦ none
  | some v ↦ if valid_elevation ninety v then some v else none
]

module _ {ℓ} {E F : Type ℓ} where
  unfoldable pub filter_omms : List (Omm E F) → List ℕ → List (Omm E F)
  filter_omms omms ids =
      if is_empty ids
      then omms
      else filter (λ (o : Omm E F). any (λ (i : ℕ). i == o.norad_cat_id) ids) omms

  -- The work items, one for each element set and station.
  unfoldable pub work_items :
      List (Omm E F) → List (GroundStation F) → List (Omm E F × GroundStation F)
  work_items omms stations =
      flat_map (λ (o : Omm E F). map (λ (g : GroundStation F). (o, g)) stations) omms

-- What the prediction reads, and its bounds.
pub record Query {ℓ} (F : Type ℓ) : Type ℓ where
  pub start : Time
  pub stop : Time
  pub min_elevation : F

module _ {ℓ} {E F : Type ℓ} ⦃fl : Float F⦄ where
  -- The loop body of predictSingle: the pass of one PassDetails, if any.
  unfoldable pub pass_of :
      Omm E F → GroundStation F → (Time → Option F) → F → PassDetails F → List (PassResult F)
  pass_of omm gs elev mask p =
      let w = trim_pass_to_mask elev p mask in
      let (aos, los, valid) = conservative_pass_window w.0 w.1 in
      if fl.lt p.max_elevation mask
      then []
      else if not valid
      then []
      else record {
        satellite = bounded_satellite_label omm.object_name;
        norad_id = omm.norad_cat_id;
        ground_station = gs.name;
        aos = aos;
        los = los;
        max_elevation = p.max_elevation;
      }
        ∷ []

module _ {ℓ} {Tle Eci E F : Type ℓ} ⦃fl : Float F⦄ (sgp4 : Sgp4 Tle Eci E F) where
  unfoldable pub elevation_at : Tle → GroundStation F → Time → Option F
  elevation_at tle gs t = elim (sgp4.find_position_at_time tle t) [
    | none ↦ none
    | some eci ↦ sgp4.get_look_angle eci gs t
  ]

  -- `none` is the error of the conversion.
  unfoldable pub predict_single : Query F → Omm E F × GroundStation F → Option (List (PassResult F))
  unfolding pass_of elevation_at
  predict_single q (omm, gs) = elim (sgp4.to_tle omm) [
    | none ↦ none
    | some tle ↦ elim (sgp4.generate_passes tle gs q.start q.stop default_step_seconds) [
      | none ↦ some []
      | some ps ↦ some (flat_map (pass_of omm gs (elevation_at tle gs) q.min_elevation) ps)
    ]
  ]

pub data PredictResult {ℓ} (F : Type ℓ) : Type ℓ where
  invalid_mask cancelled conversion_failed : PredictResult F
  predicted : List (PassResult F) → PredictResult F

module _ {ℓ} {F : Type ℓ} ⦃sorter : Sorter F⦄ where
  -- What follows wg.Wait(): whether the context is done, whether an item failed, all passes.
  unfoldable pub conclude_passes : Bool → Bool → List (PassResult F) → PredictResult F
  conclude_passes ctx_done err all_passes =
      if ctx_done
      then cancelled
      else if err && is_empty all_passes
      then conversion_failed
      else predicted (cap_per_satellite (sorter.sort all_passes) max_pass_windows)

-- What precedes the worker pool: the answer, or the query and the work items.
pub data Prepared {ℓ} (E F : Type ℓ) : Type ℓ where
  answer : PredictResult F → Prepared E F
  dispatch : Query F → List (Omm E F × GroundStation F) → Prepared E F

module _ {ℓ} {E F : Type ℓ} ⦃fl : Float F⦄ where
  unfoldable pub prepare :
      F
      → List (Omm E F)
      → List (GroundStation F)
      → F
      → Duration
      → List ℕ
      → Time
      → Time
      → Prepared E F
  prepare ninety omms stations mask horizon ids start_time now =
      let start = if is_zero start_time then now else start_time in
      let work = filter_omms omms ids in
      if not (valid_elevation ninety mask)
      then answer invalid_mask
      else if is_empty omms || is_empty stations
      then answer (predicted [])
      else if is_empty work
      then answer (predicted [])
      else dispatch (record { start = start; stop = add_time start horizon; min_elevation = mask })
          (work_items work stations)
