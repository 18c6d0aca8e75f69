-- ===== src/Satellite/Cadence.antt =====
-- internal/controller/satelliteephemeris_controller.go: the bounds of the intervals and horizons, and
-- when the pass sweep is due.
use mathlib.Core.Option
use ntn_operators.Base.{
  ℕ, ◌*◌, Bool, true, false, not, ◌||◌, Option, none, some, List, [], String, Text, text_eq,
  is_empty, Time, Duration, ltb_ℤ, pos, add_time, after, ltb, if◌then◌else◌,
}
use ntn_operators.Station.{condition_true, condition_false}
use ntn_operators.Controller.Freshness.{hour}
use ntn_operators.Satellite.{
  EphemerisSpec, EphemerisObject, EphemerisStatus, refresh_interval_clamped, passes_predicted,
  Message, interval_clamped, interval_within, MetaConditions, condition_episode_changed,
}

abbrev pub minute : ℕ
minute = 60000000000

abbrev pub min_refresh_interval : Duration
min_refresh_interval = pos (2 * hour)

abbrev pub max_refresh_interval : Duration
max_refresh_interval = pos (24 * hour)

abbrev pub max_propagated_states : ℕ
max_propagated_states = 128

abbrev pub propagation_epoch_lead : Duration
propagation_epoch_lead = pos (5 * minute)

abbrev pub propagation_refresh_interval : Duration
propagation_refresh_interval = pos (3 * minute)

abbrev pub pass_prediction_interval : Duration
pass_prediction_interval = pos (15 * minute)

abbrev pub max_pass_horizon : Duration
max_pass_horizon = pos (7 * 24 * hour)

-- A clampWarn that is not empty.
pub record ClampWarn : Type 0 where
  pub reason : String
  pub msg : Message

-- The effective interval, with the reason where it is not the configured one.
unfoldable pub effective_interval : Duration → Duration × Option String
effective_interval d =
    if ltb_ℤ d min_refresh_interval
    then (min_refresh_interval, some "BelowMinimum")
    else if ltb_ℤ max_refresh_interval d
    then (max_refresh_interval, some "AboveMaximum")
    else (d, none)

module _ {ℓ} {C : Type ℓ} ⦃meta : MetaConditions C⦄ where
  -- The conditions, and the warning of a new episode.
  unfoldable pub clamp_refresh_interval : EphemerisObject → C → Duration × C × Option ClampWarn
  unfolding effective_interval
  clamp_refresh_interval o cs =
      let d = o.spec.refresh_interval in
      let (interval, reason) = effective_interval d in
      elim reason [
        | none ↦ (
          interval,
          meta.set refresh_interval_clamped
              (record {
                status = condition_false;
                reason = "WithinBounds";
                message = interval_within;
                observed_generation = o.generation;
              })
              cs,
          none,
        )
        | some r ↦ (
          interval,
          meta.set refresh_interval_clamped
              (record {
                status = condition_true;
                reason = r;
                message = interval_clamped d;
                observed_generation = o.generation;
              })
              cs,
          if condition_episode_changed (meta.find refresh_interval_clamped cs) condition_true r
                o.generation
              then some (record { reason = r; msg = interval_clamped d })
              else none,
        )
      ]

  -- invalidatePassPredictionStatus.
  unfoldable pub invalidate_pass_prediction_status : EphemerisStatus C → EphemerisStatus C
  invalidate_pass_prediction_status s = record s {
    next_pass_windows = [];
    last_pass_prediction_time = none;
    last_pass_prediction_input_hash = [];
    conditions = meta.remove passes_predicted s.conditions;
  }

  unfoldable pub pass_sweep_due : EphemerisStatus C → Time → Text → Bool
  pass_sweep_due s now current_input_hash =
      if not (text_eq current_input_hash s.last_pass_prediction_input_hash)
      then true
      else elim s.last_pass_prediction_time [
        | none ↦ true
        | some last ↦
            if after last now then true else not (ltb now (add_time last pass_prediction_interval))
      ]

-- The horizon and whether it was clamped; `none` is the error.
unfoldable pub effective_pass_horizon : Duration → Option (Duration × Bool)
effective_pass_horizon raw =
    if not (ltb_ℤ raw (pos 0) || ltb_ℤ (pos 0) raw)
    then some (pos (24 * hour), false)
    else if ltb_ℤ raw (pos 0)
    then none
    else if ltb_ℤ max_pass_horizon raw
    then some (max_pass_horizon, true)
    else some (raw, false)

unfoldable pub pass_prediction_configured : EphemerisSpec → Bool
pass_prediction_configured spec = elim spec.pass_prediction [
  | none ↦ false
  | some pp ↦ not (is_empty pp.ground_stations)
]

-- spec.selector.noradIDs, which is nil without a selector.
abbrev pub norad_ids : EphemerisSpec → List ℕ
norad_ids spec = Option.get_or spec.selector []
