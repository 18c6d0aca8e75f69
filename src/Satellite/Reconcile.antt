-- ===== src/Satellite/Reconcile.antt =====
-- internal/controller/satelliteephemeris_controller.go: Reconcile, on the durable status, the caches,
-- the readiness gauge and the events of one object.
use text.Mathlib.Text.{◌==◌ as str_eq}
use ntn_operators.Base.{
  Bool, true, false, not, Option, none, some, List, [], ◌∷◌, ◌++◌, String, Text, text_eq, Time,
  Duration, min_ℤ, add_time, if◌then◌else◌,
}
use ntn_operators.Base.Dict.{delete}
use ntn_operators.Float.{Float}
use ntn_operators.Station.{ConditionStatus, condition_true, condition_false, condition_unknown}
use ntn_operators.Controller.FlapState.{NamespacedName, name_key}
use ntn_operators.Passes.{Sgp4}
use ntn_operators.Passes.Predict.{filter_omms}
use ntn_operators.Readers.Allowlist.{UrlLibrary}
use ntn_operators.Satellite.{
  EphemerisObject, EphemerisStatus, Ecef, gp_data_fetched, gp_data_parsed, passes_predicted,
  Message, using_cache, json_parsed, recomputing, serving_cache, repropagated, unchanged, fetched,
  EphCondition, MetaConditions, condition_episode_changed, EphEvent, Printer,
}
use ntn_operators.Satellite.Cadence.{
  ClampWarn, clamp_refresh_interval, invalidate_pass_prediction_status, pass_prediction_configured,
  propagation_epoch_lead, propagation_refresh_interval, norad_ids,
}
use ntn_operators.Satellite.Durable.{OmmCodec}
use ntn_operators.Satellite.Failure.{
  World, Outcome, failed, stopped, requeue_after, StatusWrite, persist_eph_status, when,
}
use ntn_operators.Satellite.Acquire.{AcquireInputs, FetchOutcome, early, usable, acquire_omms}
use ntn_operators.Satellite.Canonical.{TimeParser, OmmSorter}
use ntn_operators.Satellite.Propagate.{propagate_states}
use ntn_operators.Satellite.Regime.{
  RegimeConstants, split_by_orbit_regime, deep_space_summary, report_orbit_regime,
}
use ntn_operators.Satellite.Digests.{StationRead, propagation_input_hash, pass_sweep_decision}
use ntn_operators.Satellite.Sweep.{Predictor, handle_pass_prediction}

-- The functions that the controller calls and that are not modelled.
pub record Deps {ℓ} (Tle Eci E F : Type ℓ) : Type ℓ where
  pub urls : UrlLibrary
  pub print : Printer
  pub codec : OmmCodec E F
  pub parse : TimeParser
  pub sgp4 : Sgp4 Tle Eci E F
  pub codepoints : Eci → Ecef
  pub sorter : OmmSorter E F
  pub regime : RegimeConstants F
  pub predictor : Predictor E F

-- What one reconcile reads: r.now() where it propagates and where the sweep ends, the stations, and
-- the two status writes.
pub record Inputs {ℓ} (E F : Type ℓ) : Type ℓ where
  pub acquire : AcquireInputs E F
  pub propagated_at : Time
  pub swept_at : Time
  pub get_station : Text → StationRead
  pub write_a : StatusWrite
  pub write_b : StatusWrite

-- r.Get of the object.
pub data ObjectRead : Type 0 where
  get_failed not_found : ObjectRead
  got : EphemerisObject → ObjectRead

abbrev note_event : String → Option Message → List EphEvent
note_event reason none = []
note_event reason (some m) = record { reason = reason; note = m } ∷ []

abbrev pub condition_now : EphemerisObject → ConditionStatus → String → Message → EphCondition
condition_now o status reason message = record {
  status = status;
  reason = reason;
  message = message;
  observed_generation = o.generation;
}

module _ {ℓ} {E F : Type ℓ} where
  abbrev pub reason_of : FetchOutcome E F → String
  reason_of out = if str_eq out.serve_reason "" then "FetchFailedServingCache" else out.serve_reason

module _ {ℓ} {E F C : Type ℓ} ⦃meta : MetaConditions C⦄ (o : EphemerisObject) where
  -- The two conditions of the switch on how the element sets were obtained.
  unfoldable pub report_fetch : FetchOutcome E F → C → C
  report_fetch out cs =
      let n = out.result.satellite_count in
      let both =
        λ (a b : EphCondition). meta.set gp_data_parsed b (meta.set gp_data_fetched a cs) in
      let cached = condition_now o condition_true "CachedOMMs" using_cache in
      if out.served_cache_on_error
      then both
          (condition_now o condition_false (reason_of out) (serving_cache out.cache_serve_err n))
          cached
      else if out.reused_cache
      then both (condition_now o condition_true "CachedRepropagation" (repropagated n)) cached
      else if out.result.not_modified
      then both (condition_now o condition_true "NotModified" (unchanged o.spec.source_type)) cached
      else both (condition_now o condition_true "FetchSucceeded" (fetched n o.spec.source_type))
          (condition_now o condition_true "ParseSucceeded" json_parsed)

  unfoldable pub publish_fetch : FetchOutcome E F → EphemerisStatus C → EphemerisStatus C
  unfolding report_fetch
  publish_fetch out s = record s {
    satellite_count = out.result.satellite_count;
    last_updated = some out.result.fetched_at;
    conditions = report_fetch out s.conditions;
  }

  -- The event that follows write A.
  unfoldable pub fetch_events : FetchOutcome E F → C → List EphEvent
  fetch_events out cs =
      let n = out.result.satellite_count in
      let episode =
        condition_episode_changed (meta.find gp_data_fetched cs) condition_false (reason_of out)
          o.generation in
      if out.served_cache_on_error
      then when episode
          (record { reason = reason_of out; note = serving_cache out.cache_serve_err n })
      else when (not out.reused_cache)
          (record { reason = "GPDataFetched"; note = fetched n o.spec.source_type })

module _ {ℓ} {C : Type ℓ} ⦃meta : MetaConditions C⦄ where
  unfoldable pub mark_recomputing : EphemerisObject → EphemerisStatus C → EphemerisStatus C
  mark_recomputing o s = record s {
    conditions =
        meta.set passes_predicted (condition_now o condition_unknown "Recomputing" recomputing)
          s.conditions;
  }

  -- What becomes of the windows before write A.
  unfoldable pub prepare_passes : EphemerisObject → Text → EphemerisStatus C → EphemerisStatus C
  unfolding mark_recomputing
  prepare_passes o sig s =
      if not (pass_prediction_configured o.spec)
      then invalidate_pass_prediction_status s
      else if not (text_eq sig s.last_pass_prediction_input_hash)
      then mark_recomputing o (invalidate_pass_prediction_status s)
      else s

module _ {ℓ} {Tle Eci E F C : Type ℓ} ⦃fl : Float F⦄ ⦃meta : MetaConditions C⦄
    (deps : Deps Tle Eci E F) where
  -- The status of write A but for the windows, with the notes on the orbits and on the cap.
  unfoldable pub draft_heartbeat :
      Inputs E F
      → EphemerisObject
      → FetchOutcome E F
      → EphemerisStatus C
      → EphemerisStatus C × Option Message × Option Message
  unfolding publish_fetch
  draft_heartbeat i o out s =
      let s1 = publish_fetch o out s in
      let (near_earth, deep_space) = split_by_orbit_regime deps.regime out.result.omms in
      let tracked = filter_omms deep_space (norad_ids o.spec) in
      let (cs, regime_event) =
        report_orbit_regime o (deep_space_summary deps.regime tracked) s1.conditions in
      let (s2, trunc_event) =
        propagate_states deps.parse deps.sgp4 deps.codepoints deps.sorter o
          (record (out.result) { omms = near_earth })
          (add_time i.propagated_at propagation_epoch_lead) (record s1 { conditions = cs }) in
      (
        record s2 { propagated_states_input_hash = propagation_input_hash deps.print o.spec },
        regime_event,
        trunc_event,
      )

  -- The sweep and write B, on the status as write A stored it.
  unfoldable pub sweep :
      Inputs E F
      → EphemerisObject
      → FetchOutcome E F
      → Text
      → Outcome
      → World E F C
      → Outcome × World E F C
  sweep i o out sig outcome w =
      elim (handle_pass_prediction deps.predictor i.get_station o
        (split_by_orbit_regime deps.regime out.result.omms).0 i.acquire.now w.status) [
          | none ↦ (failed, w)
          | some (s, notes) ↦
              elim (persist_eph_status i.write_b
                (record s {
                  last_pass_prediction_time = some i.swept_at;
                  last_pass_prediction_input_hash = sig;
                })
                none w) [
                  | none ↦ (failed, w)
                  | some w' ↦ (
                    outcome,
                    record w' {
                      events =
                          note_event "PredictionFailed" notes.pass_fail_note
                          ++ (note_event "PassesPredicted" notes.pass_note ++ w'.events);
                    },
                  )
                ]
        ]

  unfoldable pub sweep_if_due :
      Inputs E F
      → EphemerisObject
      → FetchOutcome E F
      → Text × Bool
      → Outcome
      → World E F C
      → Outcome × World E F C
  unfolding sweep
  sweep_if_due i o out (sig, due) outcome w =
      if due then sweep i o out sig outcome w else (outcome, w)

  -- Steps 6 to 7b.
  unfoldable pub publish :
      Inputs E F
      → EphemerisObject
      → Duration
      → Option ClampWarn
      → FetchOutcome E F
      → EphemerisStatus C
      → World E F C
      → Outcome × World E F C
  unfolding draft_heartbeat prepare_passes sweep_if_due
  publish i o interval clamp out s w =
      let ready = record w { ready = some true } in
      let (draft, regime_event, trunc_event) = draft_heartbeat i o out s in
      let decision = pass_sweep_decision deps.print i.get_station o.spec draft i.acquire.now in
      let outcome = requeue_after (min_ℤ interval propagation_refresh_interval) in
      elim (persist_eph_status i.write_a (prepare_passes o decision.0 draft) clamp ready) [
        | none ↦ (failed, ready)
        | some w' ↦ sweep_if_due i o out decision outcome (record w' {
          events =
              fetch_events o out s.conditions
              ++ (note_event "StatesTruncated" trunc_event
                  ++ (note_event "UnsupportedOrbitRegime" regime_event ++ w'.events));
        })
      ]

  unfoldable pub reconcile_object :
      Inputs E F → EphemerisObject → World E F C → Outcome × World E F C
  unfolding publish
  reconcile_object i o w =
      let (interval, cs, clamp) = clamp_refresh_interval o w.status.conditions in
      let s = record (w.status) { conditions = cs } in
      let (acquired, w') =
        acquire_omms deps.urls deps.print deps.codec i.acquire o interval s clamp w in
      elim acquired [
        | early outcome ↦ (outcome, record w' { ready = some false })
        | usable out ↦ publish i o interval clamp out s w'
      ]

  -- Step 1. A deleted object leaves no entry and no gauge.
  unfoldable pub reconcile :
      Inputs E F → NamespacedName → ObjectRead → World E F C → Outcome × World E F C
  unfolding reconcile_object
  reconcile i key get_failed w = (failed, w)
  reconcile i key not_found w = (stopped, record w { cache = delete key w.cache; ready = none })
  reconcile i key (got o) w = reconcile_object i o w
