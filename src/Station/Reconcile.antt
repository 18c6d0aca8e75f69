-- ===== src/Station/Reconcile.antt =====
-- internal/controller/groundstationlifecycle_controller.go: Reconcile, on the durable status, the
-- events and the health gauges of one station.
use mathlib.Core.Option
use ntn_operators.Base.{
  ℕ, Bool, true, false, not, ◌||◌, Option, none, some, List, [], ◌∷◌, ◌++◌, is_empty, map, Time,
  Duration, if◌then◌else◌,
}
use ntn_operators.Station.{
  Phase, no_phase, provisioning, running, degraded, offline, updating, ConditionType, antenna_ready,
  rf_link_healthy, k8s_node_ready, condition_true, condition_false, condition_unknown, Condition,
  Conditions, Node, StationSpec, StationStatus, Instants,
}
use ntn_operators.Station.Health.{
  ListResult, NodeLookup, lookup_error, no_node, found, Probe, find_matching_node, reconcile_health,
  health_check_interval,
}
use ntn_operators.Station.Firmware.{StationEvent, phase_changed, reconcile_firmware}

unfoldable pub same_phase : Phase → Phase → Bool
same_phase no_phase no_phase = true
same_phase provisioning provisioning = true
same_phase running running = true
same_phase degraded degraded = true
same_phase offline offline = true
same_phase updating updating = true
same_phase _ _ = false

-- The values 1, 0 and -1 of the gauge.
pub data Gauge : Type 0 where
  gauge_healthy gauge_unhealthy gauge_unknown : Gauge

unfoldable pub gauge_of : Option Condition → Gauge
gauge_of none = gauge_unknown
gauge_of (some c) = elim c.status [
  | condition_true ↦ gauge_healthy
  | condition_false ↦ gauge_unhealthy
  | condition_unknown ↦ gauge_unknown
]

-- What r.Get gives: an error of the API, no object, or the object with its spec.
pub data GetResult : Type 0 where
  get_error not_found : GetResult
  got : ℕ → StationSpec → GetResult

-- What one reconcile reads. `same_status` is equality.Semantic.DeepEqual, and `write_ok` says that
-- the status update succeeds; `stored` is the instant that a metav1.Time reads back as.
pub record Inputs {ℓ} (C : Type ℓ) : Type ℓ where
  pub nodes : ListResult
  pub probe : Probe
  pub instants : Instants
  pub same_status : StationStatus C → StationStatus C → Bool
  pub write_ok : Bool
  pub stored : Time → Time

unfoldable pub store_status {ℓ} : {C : Type ℓ} → (Time → Time) → StationStatus C → StationStatus C
store_status stored s = record s {
  last_health_check = Option.map stored s.last_health_check;
  firmware_update_started = Option.map stored s.firmware_update_started;
}

-- The durable status, the events so far (the event recorder is there), and the gauges of the station's
-- conditions.
pub record World {ℓ} (C : Type ℓ) : Type ℓ where
  pub status : StationStatus C
  pub events : List StationEvent
  pub gauges : List (ConditionType × Gauge)

-- The error, and the requeue of a result without one.
pub data Outcome : Type 0 where
  done failed : Outcome
  requeue_after : Duration → Outcome

unfoldable pub phase_events : Phase → Phase → List StationEvent
phase_events old new = if same_phase old new then [] else phase_changed old new ∷ []

-- The station's node, where its lookup did not fail.
abbrev pub node_of : NodeLookup → Option (Option Node)
node_of (lookup_error e) = none
node_of no_node = some none
node_of (found n) = some (some n)

module _ {ℓ} {C : Type ℓ} ⦃ops : Conditions C⦄ where
  open ops use {find}

  -- Steps 3 and 4, with the queued firmware events.
  unfoldable pub evaluate_lookup :
      ℕ
      → StationSpec
      → Inputs C
      → NodeLookup
      → StationStatus C
      → StationStatus C × List StationEvent
  evaluate_lookup generation spec i lookup s =
      let s' = reconcile_health generation i.instants.at_health spec lookup i.probe s in
      elim (node_of lookup) [
        | none ↦ (s', [])
        | some node ↦ reconcile_firmware generation i.instants spec node s'
      ]

  unfoldable pub evaluate_station :
      ℕ → StationSpec → Inputs C → StationStatus C → StationStatus C × List StationEvent
  evaluate_station generation spec i s =
      evaluate_lookup generation spec i (find_matching_node i.nodes) s

  unfoldable pub gauges_of : C → List (ConditionType × Gauge)
  unfolding gauge_of
  gauges_of cs =
      map (λ (t : ConditionType). (t, gauge_of (find t cs)))
        (k8s_node_ready ∷ antenna_ready ∷ rf_link_healthy ∷ [])

  -- Steps 5 to 8.
  unfoldable pub announce :
      Inputs C → World C → StationStatus C → List StationEvent → World C × Bool
  announce i w s pending =
      let measured = record w { gauges = gauges_of s.conditions } in
      if not (i.same_status w.status s) || not (is_empty pending)
      then if i.write_ok
        then (
          record measured { status = store_status i.stored s; events = w.events ++ pending },
          true,
        )
        else (measured, false)
      else (measured, true)

  unfoldable pub reconcile : GetResult → Inputs C → World C → World C × Outcome
  reconcile get_error i w = (w, failed)
  reconcile not_found i w = (record w { gauges = [] }, done)
  reconcile (got generation spec) i w =
      let ev = evaluate_station generation spec i w.status in
      let r = announce i w ev.0 (ev.1 ++ phase_events w.status.phase ev.0.phase) in
      (r.0, if r.1 then requeue_after (health_check_interval spec) else failed)
