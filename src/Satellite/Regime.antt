-- ===== src/Satellite/Regime.antt =====
-- pkg/ephemeris/orbit_regime.go, and reportOrbitRegime of
-- internal/controller/satelliteephemeris_controller.go. The quotient 1440 / x and the limit of 225
-- minutes are parameters.
use ntn_operators.Base.{
  ℕ, Bool, ◌||◌, Option, none, some, List, [], ◌∷◌, is_empty, length, map, take, ltb, Text,
  if◌then◌else◌,
}
use ntn_operators.Float.{Float}
use ntn_operators.Station.{condition_true, condition_false}
use ntn_operators.Passes.{Omm, bounded_satellite_label}
use ntn_operators.Satellite.{
  EphemerisObject, unsupported_orbit_regime, Label, named, numbered, Message, all_near_earth,
  deep_space_sets, MetaConditions, is_condition_true,
}

-- minutesPerDay / x, DeepSpacePeriodMinutes, and fmt.Sprintf("%.0f").
pub record RegimeConstants {ℓ} (F : Type ℓ) : Type ℓ where
  pub minutes_of_motion : F → F
  pub deep_space_period_minutes : F
  pub print_minutes : F → Text

abbrev pub deep_space_summary_max_examples : ℕ
deep_space_summary_max_examples = 3

module _ {ℓ} {E F : Type ℓ} ⦃fl : Float F⦄ (constants : RegimeConstants F) where
  unfoldable pub orbital_period_minutes : Omm E F → F
  orbital_period_minutes o =
      if fl.le o.mean_motion fl.zero_float || fl.is_nan o.mean_motion || fl.is_inf o.mean_motion
      then fl.zero_float
      else constants.minutes_of_motion o.mean_motion

  unfoldable pub is_deep_space : Omm E F → Bool
  unfolding orbital_period_minutes
  is_deep_space o = fl.le constants.deep_space_period_minutes (orbital_period_minutes o)

  unfoldable pub split_by_orbit_regime : List (Omm E F) → List (Omm E F) × List (Omm E F)
  split_by_orbit_regime [] = ([], [])
  split_by_orbit_regime (o ∷ os) =
      let rest = split_by_orbit_regime os in
      if is_deep_space o then (rest.0, o ∷ rest.1) else (o ∷ rest.0, rest.1)

  unfoldable pub example_of : Omm E F → Label × Text
  example_of o =
      let name = bounded_satellite_label o.object_name in
      (
        if is_empty name then numbered o.norad_cat_id else named name,
        constants.print_minutes (orbital_period_minutes o),
      )

  -- `none` is the empty text.
  unfoldable pub deep_space_summary : List (Omm E F) → Option Message
  unfolding example_of
  deep_space_summary deep_space =
      if is_empty deep_space
      then none
      else let examples = map example_of (take deep_space_summary_max_examples deep_space) in
        some
          (deep_space_sets (length deep_space) examples (ltb (length examples) (length deep_space)))

module _ {ℓ} {C : Type ℓ} ⦃meta : MetaConditions C⦄ where
  -- The summary is there exactly if sets were rejected.
  unfoldable pub report_orbit_regime : EphemerisObject → Option Message → C → C × Option Message
  report_orbit_regime o none cs = (
    meta.set unsupported_orbit_regime
        (record {
          status = condition_false;
          reason = "AllNearEarth";
          message = all_near_earth;
          observed_generation = o.generation;
        })
        cs,
    none,
  )
  report_orbit_regime o (some summary) cs = (
    meta.set unsupported_orbit_regime
        (record {
          status = condition_true;
          reason = "DeepSpaceElementsRejected";
          message = summary;
          observed_generation = o.generation;
        })
        cs,
    if is_condition_true (meta.find unsupported_orbit_regime cs) then none else some summary,
  )
