-- ===== src/Satellite/Propagate.antt =====
-- internal/controller/satelliteephemeris_controller.go: propagateStates and its four reports;
-- pkg/ephemeris/propagator.go: PropagateToECEF, in which the rotation to the ECEF frame and its
-- quantization are a parameter.
use ntn_operators.Base.{
  ℕ, ◌+◌, ◌-◌, ◌*◌, ◌/◌, Bool, not, ◌&&◌, Option, none, some, List, [], ◌∷◌, take, length, String,
  ℤ, pos, negsuc, leb_ℤ, ltb_ℤ, leb, ltb, ◌==◌, Time, add_time, sub_time, if◌then◌else◌,
}
use ntn_operators.Station.{condition_true, condition_false}
use ntn_operators.Controller.Freshness.{max_epoch_age, source_epoch_plausible}
use ntn_operators.Passes.{Omm, Sgp4, bounded_satellite_label}
use ntn_operators.Passes.Predict.{filter_omms}
use ntn_operators.Satellite.{
  EphemerisObject, EphemerisStatus, Ecef, PropagatedState, ConditionType, states_truncated,
  ephemeris_epoch_stale, source_epoch_rejected, propagation_failed, Message, within_cap,
  epochs_fresh, propagation_ok, epochs_plausible, cap_exceeded, epochs_stale, epochs_rejected,
  not_propagated, MetaConditions, is_condition_true, GpFetchResult,
}
use ntn_operators.Satellite.Cadence.{minute, max_propagated_states, norad_ids}
use ntn_operators.Satellite.Canonical.{TimeParser, parse_omm_epoch, OmmSorter, canonicalize_omms}

-- t.UnixMilli(): milliseconds since 1970, rounded down. An instant counts from the year 1.
abbrev pub unix_epoch : Time
unix_epoch = 62135596800 * 1000000000

abbrev pub unix_milliseconds : Time → ℤ
unix_milliseconds t =
    if leb unix_epoch t
    then pos ((t - unix_epoch) / 1000000)
    else negsuc ((unix_epoch - t - 1) / 1000000)

abbrev pub ecef_pos_min : ℤ
ecef_pos_min = negsuc 33554431

abbrev pub ecef_pos_max : ℤ
ecef_pos_max = pos 33554430

abbrev pub ecef_vel_min : ℤ
ecef_vel_min = negsuc 131071

abbrev pub ecef_vel_max : ℤ
ecef_vel_max = pos 131071

abbrev pub within : ℤ → ℤ → ℤ → Bool
within lo hi v = leb_ℤ lo v && leb_ℤ v hi

unfoldable pub in_ecef_range : Ecef → Bool
in_ecef_range e =
    within ecef_pos_min ecef_pos_max e.pos_x
    && within ecef_pos_min ecef_pos_max e.pos_y
    && within ecef_pos_min ecef_pos_max e.pos_z
    && within ecef_vel_min ecef_vel_max e.vel_x
    && within ecef_vel_min ecef_vel_max e.vel_y
    && within ecef_vel_min ecef_vel_max e.vel_z

-- What one element set gives: it is refused for its epoch, it fails, or it gives a state.
pub data Attempt : Type 0 where
  refused not_computable : Attempt
  propagated : PropagatedState → Attempt

-- The counts of the first pass: stale, unparseable and future-dated epochs.
pub record EpochHealth : Type 0 where
  pub stale : ℕ
  pub unparseable : ℕ
  pub future : ℕ

-- What the second pass leaves, with the satellites that failed.
pub record Propagated : Type 0 where
  pub states : List PropagatedState
  pub skipped_by_cap : ℕ
  pub failed_norads : List ℕ

abbrev pub propagation_failed_examples : ℕ
propagation_failed_examples = 3

module _ {ℓ} {E F : Type ℓ} (parse : TimeParser) where
  unfoldable pub epoch_health : Time → List (Omm E F) → EpochHealth
  epoch_health now [] = record { stale = 0; unparseable = 0; future = 0 }
  epoch_health now (o ∷ os) =
      let rest = epoch_health now os in
      elim (parse_omm_epoch parse o.epoch_str) [
        | none ↦ record rest { unparseable = rest.unparseable + 1 }
        | some t ↦
            if not (source_epoch_plausible now t)
            then record rest { future = rest.future + 1 }
            else if ltb_ℤ (pos max_epoch_age) (sub_time now t)
            then record rest { stale = rest.stale + 1 }
            else rest
      ]

-- What is recorded of an element set with the epoch t.
unfoldable pub pushed_state {ℓ} : {E F : Type ℓ} → Time → Time → Omm E F → Ecef → PropagatedState
pushed_state epoch t o ecef = record {
  satellite = bounded_satellite_label o.object_name;
  norad_id = o.norad_cat_id;
  epoch_unix_ms = unix_milliseconds epoch;
  source_epoch_unix_ms = unix_milliseconds t;
  ecef = ecef;
}

module _ {ℓ} {Tle Eci E F : Type ℓ} (parse : TimeParser) (sgp4 : Sgp4 Tle Eci E F)
    (codepoints : Eci → Ecef) where
  unfoldable pub propagate_to_ecef : Omm E F → Time → Option Ecef
  unfolding in_ecef_range
  propagate_to_ecef o t = elim (sgp4.to_tle o) [
    | none ↦ none
    | some tle ↦ elim (sgp4.find_position_at_time tle t) [
      | none ↦ none
      | some eci ↦ if in_ecef_range (codepoints eci) then some (codepoints eci) else none
    ]
  ]

  unfoldable pub attempt : Time → Time → Omm E F → Attempt
  unfolding propagate_to_ecef pushed_state
  attempt now epoch o = elim (parse_omm_epoch parse o.epoch_str) [
    | none ↦ refused
    | some t ↦
        if not (source_epoch_plausible now t) then refused else elim (propagate_to_ecef o epoch) [
          | none ↦ not_computable
          | some ecef ↦ propagated (pushed_state epoch t o ecef)
        ]
  ]

  -- The loop, after n states.
  unfoldable pub propagate_all : Time → Time → ℕ → List (Omm E F) → Propagated
  unfolding attempt
  propagate_all now epoch n [] = record { states = []; skipped_by_cap = 0; failed_norads = [] }
  propagate_all now epoch n (o ∷ os) =
      if leb max_propagated_states n
      then record { states = []; skipped_by_cap = length (o ∷ os); failed_norads = [] }
      else elim (attempt now epoch o) [
        | refused ↦ propagate_all now epoch n os
        | not_computable ↦
            let rest = propagate_all now epoch n os in
            record rest { failed_norads = o.norad_cat_id ∷ rest.failed_norads }
        | propagated s ↦
            let rest = propagate_all now epoch (n + 1) os in
            record rest { states = s ∷ rest.states }
      ]

abbrev rejected_reason : ℕ → ℕ → String
rejected_reason unparseable future =
    if ltb 0 unparseable && ltb 0 future
    then "SourceEpochRejected"
    else if ltb 0 unparseable
    then "UnparseableSourceEpoch"
    else "FutureDatedSourceEpoch"

module _ {ℓ} {C : Type ℓ} ⦃meta : MetaConditions C⦄ (o : EphemerisObject) where
  -- A condition that is true with a count above zero.
  abbrev pub report : ConditionType → Bool → String → Message → String → Message → C → C
  report t bad reason message good_reason good_message cs =
      meta.set t
        (record {
          status = if bad then condition_true else condition_false;
          reason = if bad then reason else good_reason;
          message = if bad then message else good_message;
          observed_generation = o.generation;
        })
        cs

  unfoldable pub report_states_truncated : ℕ → ℕ → C → C × Option Message
  report_states_truncated selected truncated cs =
      let cs' =
        report states_truncated (not (truncated == 0)) "PropagatedStateCapExceeded"
          (cap_exceeded selected truncated) "WithinCap" within_cap cs in
      let first_transition = not (is_condition_true (meta.find states_truncated cs)) in
      (
        cs',
        if not (truncated == 0) && first_transition
            then some (cap_exceeded selected truncated)
            else none,
      )

  unfoldable pub report_ephemeris_epoch_stale : ℕ → ℕ → C → C
  report_ephemeris_epoch_stale stale total cs =
      report ephemeris_epoch_stale (ltb 0 stale) "EpochStale" (epochs_stale stale total)
        "EpochsFresh" epochs_fresh cs

  unfoldable pub report_source_epoch_rejected : ℕ → ℕ → ℕ → C → C
  report_source_epoch_rejected unparseable future total cs =
      report source_epoch_rejected (ltb 0 (unparseable + future))
        (rejected_reason unparseable future) (epochs_rejected unparseable future total)
        "SourceEpochsPlausible" epochs_plausible cs

  unfoldable pub report_propagation_failed : List ℕ → ℕ → C → C
  report_propagation_failed failed total cs =
      let examples = take propagation_failed_examples failed in
      report propagation_failed (ltb 0 (length failed)) "PropagationFailed"
        (not_propagated (length failed) total examples (ltb (length examples) (length failed)))
        "PropagationOK" propagation_ok cs

module _ {ℓ} {Tle Eci E F C : Type ℓ} ⦃meta : MetaConditions C⦄ (parse : TimeParser)
    (sgp4 : Sgp4 Tle Eci E F) (codepoints : Eci → Ecef) (sorter : OmmSorter E F) where
  unfoldable pub propagate_states :
      EphemerisObject
      → GpFetchResult E F
      → Time
      → EphemerisStatus C
      → EphemerisStatus C × Option Message
  unfolding epoch_health propagate_all report_states_truncated report_ephemeris_epoch_stale
      report_source_epoch_rejected report_propagation_failed
  propagate_states o result epoch s =
      let omms = canonicalize_omms parse sorter (filter_omms result.omms (norad_ids o.spec)) in
      let now = add_time epoch (negsuc (5 * minute - 1)) in
      let health = epoch_health parse now omms in
      let out = propagate_all parse sgp4 codepoints now epoch 0 omms in
      let total = length omms in
      let (cs, trunc_event) = report_states_truncated o total out.skipped_by_cap s.conditions in
      (
        record s {
          propagated_states = out.states;
          truncated_satellite_count = out.skipped_by_cap;
          conditions = report_propagation_failed o out.failed_norads total (
              report_source_epoch_rejected o health.unparseable health.future total
                (report_ephemeris_epoch_stale o health.stale total cs));
        },
        trunc_event,
      )
