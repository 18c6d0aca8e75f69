-- ===== src/Satellite/Sweep.antt =====
-- internal/controller/satelliteephemeris_controller.go: the pass sweep (predictPasses,
-- handlePassPrediction).
use ntn_operators.Base.{
  ℕ, Bool, true, false, Option, none, some, ◌⊎◌, inl, inr, List, [], ◌∷◌, map, is_empty, length,
  String, Text, Time, Duration, if◌then◌else◌,
}
use ntn_operators.Float.{Float}
use ntn_operators.Station.{condition_true, condition_false}
use ntn_operators.Passes.{Omm, GroundStation, PassResult}
use ntn_operators.Passes.Predict.{
  PredictResult, invalid_mask, cancelled, conversion_failed, predicted, parse_elevation,
}
use ntn_operators.Satellite.{
  PassPrediction, EphemerisSpec, EphemerisObject, EphemerisStatus, PassWindow, PredictionDetail,
  station_not_found, station_unreadable, invalid_latitude, invalid_longitude, invalid_altitude,
  invalid_min_elevation, invalid_horizon, not_computed, passes_predicted, Message, of_prediction,
  computed_passes, EphCondition, MetaConditions, condition_episode_changed,
}
use ntn_operators.Satellite.Cadence.{effective_pass_horizon, norad_ids}
use ntn_operators.Satellite.Digests.{StationObject, StationRead, missing, read_failed, station}

-- A predictionError, and whether it wraps the error of the context.
pub record PredictionFailure : Type 0 where
  pub reason : String
  pub detail : PredictionDetail
  pub of_context : Bool

abbrev failure : String → PredictionDetail → PredictionFailure
failure reason detail = record { reason = reason; detail = detail; of_context = false }

-- What the sweep calls: PredictPasses, fmt.Sprintf("%.1f").
-- The constants are 10 and 90.
pub record Predictor {ℓ} (E F : Type ℓ) : Type ℓ where
  pub predict_passes :
      List (Omm E F) → List (GroundStation F) → F → Duration → List ℕ → Time → PredictResult F
  pub print_elevation : F → Text
  pub ten : F
  pub ninety : F

-- ParseGeoCoord, with `none` for its error.
abbrev pub parse_geo_coord {ℓ} : {F : Type ℓ} ⦃fl : Float F⦄ → Text → Option F
parse_geo_coord ⦃fl⦄ s = fl.parse_float s

module _ {ℓ} {E F : Type ℓ} ⦃fl : Float F⦄ (predictor : Predictor E F) where
  unfoldable pub resolve_station : Text → StationObject → PredictionFailure ⊎ GroundStation F
  resolve_station name g =
      let bad : PredictionDetail → PredictionFailure ⊎ GroundStation F =
        λ d. inl (failure "InvalidGroundStationLocation" d) in
      elim (parse_geo_coord {F = F} g.lat) [
        | none ↦ bad (invalid_latitude name)
        | some lat ↦ elim (parse_geo_coord {F = F} g.lon) [
          | none ↦ bad (invalid_longitude name)
          | some lon ↦
              elim (if is_empty g.alt then some fl.zero_float else parse_geo_coord {F = F} g.alt) [
                | none ↦ bad (invalid_altitude name)
                | some alt ↦
                    inr (record { name = name; latitude = lat; longitude = lon; altitude = alt })
              ]
        ]
      ]

  abbrev prepend :
      GroundStation F
      → PredictionFailure ⊎ List (GroundStation F)
      → PredictionFailure ⊎ List (GroundStation F)
  prepend g (inl e) = inl e
  prepend g (inr gs) = inr (g ∷ gs)

  -- The loop over the names, which stops at the first error.
  unfoldable pub resolve_stations :
      (Text → StationRead) → List Text → PredictionFailure ⊎ List (GroundStation F)
  unfolding resolve_station
  resolve_stations get [] = inr []
  resolve_stations get (n ∷ ns) =
      let rest = resolve_stations get ns in
      elim (get n) [
        | missing ↦ inl (failure "GroundStationNotFound" (station_not_found n))
        | read_failed context ↦ inl (record {
          reason = "PredictionFailed";
          detail = station_unreadable n;
          of_context = context;
        })
        | station g ↦
            if g.terminating
            then rest
            else elim (resolve_station n g) [ inl e ↦ inl e | inr gs ↦ prepend gs rest ]
      ]

  unfoldable pub pass_window_of : PassResult F → PassWindow
  pass_window_of p = record {
    satellite = p.satellite;
    norad_id = p.norad_id;
    ground_station = p.ground_station;
    aos = p.aos;
    los = p.los;
    max_elevation = predictor.print_elevation p.max_elevation;
  }

  -- The windows, the number of stations, and whether the horizon was clamped.
  unfoldable pub compute_windows :
      (Text → StationRead)
      → EphemerisSpec
      → PassPrediction
      → List (Omm E F)
      → Time
      → PredictionFailure ⊎ (List PassWindow × ℕ × Bool)
  unfolding resolve_stations pass_window_of
  compute_windows get spec pp omms now = elim (resolve_stations get pp.ground_stations) [
    | inl e ↦ inl e
    | inr stations ↦ elim (parse_elevation predictor.ten predictor.ninety pp.min_elevation) [
      | none ↦ inl (failure "InvalidPredictionConfig" invalid_min_elevation)
      | some min_el ↦ elim (effective_pass_horizon pp.horizon) [
        | none ↦ inl (failure "InvalidPredictionConfig" (invalid_horizon pp.horizon))
        | some (horizon, clamped) ↦
            elim (predictor.predict_passes omms stations min_el horizon (norad_ids spec) now) [
              | invalid_mask ↦ inl (failure "PredictionComputationFailed" not_computed)
              | conversion_failed ↦ inl (failure "PredictionComputationFailed" not_computed)
              | cancelled ↦ inl (record {
                reason = "PredictionComputationFailed";
                detail = not_computed;
                of_context = true;
              })
              | predicted passes ↦ inr (map pass_window_of passes, length stations, clamped)
            ]
      ]
    ]
  ]

-- The notes of handlePassPrediction.
pub record SweepNotes : Type 0 where
  pub pass_note : Option Message
  pub pass_fail_note : Option Message

module _ {ℓ} {E F C : Type ℓ} ⦃fl : Float F⦄ ⦃meta : MetaConditions C⦄
    (predictor : Predictor E F) where
  unfoldable pub record_windows :
      EphemerisObject
      → List PassWindow × ℕ × Bool
      → EphemerisStatus C
      → EphemerisStatus C × SweepNotes
  record_windows o (windows, stations, clamped) s =
      let msg = computed_passes (length windows) stations clamped in
      let c : EphCondition = record {
        status = condition_true;
        reason = "PredictionSucceeded";
        message = msg;
        observed_generation = o.generation;
      } in
      (
        record s {
          next_pass_windows = windows;
          conditions = meta.set passes_predicted c s.conditions;
        },
        record {
          pass_note = if meta.changes passes_predicted c s.conditions then some msg else none;
          pass_fail_note = none;
        },
      )

  unfoldable pub record_failure :
      EphemerisObject → PredictionFailure → EphemerisStatus C → EphemerisStatus C × SweepNotes
  record_failure o e s =
      let fail_episode =
        condition_episode_changed (meta.find passes_predicted s.conditions) condition_false e.reason
          o.generation in
      (
        record s {
          next_pass_windows = [];
          conditions =
              meta.set passes_predicted
                (record {
                  status = condition_false;
                  reason = e.reason;
                  message = of_prediction e.detail;
                  observed_generation = o.generation;
                })
                s.conditions;
        },
        record {
          pass_note = none;
          pass_fail_note = if fail_episode then some (of_prediction e.detail) else none;
        },
      )

  -- `none` is the error of the context.
  unfoldable pub handle_pass_prediction :
      (Text → StationRead)
      → EphemerisObject
      → List (Omm E F)
      → Time
      → EphemerisStatus C
      → Option (EphemerisStatus C × SweepNotes)
  unfolding compute_windows record_windows record_failure
  handle_pass_prediction get o omms now s = elim o.spec.pass_prediction [
    | none ↦ some (
      record s { next_pass_windows = []; conditions = meta.remove passes_predicted s.conditions },
      record { pass_note = none; pass_fail_note = none },
    )
    | some pp ↦
        if is_empty pp.ground_stations
        then some (
          record s {
            next_pass_windows = [];
            conditions = meta.remove passes_predicted s.conditions;
          },
          record { pass_note = none; pass_fail_note = none },
        )
        else elim (compute_windows predictor get o.spec pp omms now) [
          | inr r ↦ some (record_windows o r s)
          | inl e ↦ if e.of_context then none else some (record_failure o e s)
        ]
  ]
