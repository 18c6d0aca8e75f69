-- ===== src/Station/Health.antt =====
-- internal/controller/groundstationlifecycle_controller.go: reconcileHealth, with what it calls.
use text.Mathlib.Text.{◌==◌ as str_eq}
use ntn_operators.Base.{
  ℕ, ◌*◌, Bool, true, false, not, ◌&&◌, ◌||◌, ltb, leb, Option, none, some, List, [], ◌∷◌, length,
  String, Text, is_empty, codes, text_eq, Time, Duration, pos, ltb_ℤ, if◌then◌else◌,
}
use ntn_operators.Station.{
  Phase, no_phase, provisioning, running, degraded, offline, updating, ConditionType,
  ConditionStatus, condition_true, condition_false, condition_unknown, NodeError, listing_failed,
  ambiguous, Reason, Condition, Conditions, NodeConditionType, memory_pressure, disk_pressure,
  pid_pressure, other_type, Node, StationSpec, StationStatus,
}

-- The result of r.List with the label of the station.
pub data ListResult : Type 0 where
  list_error : String → ListResult
  listed : List Node → ListResult

-- The node and the error of findMatchingNode.
pub data NodeLookup : Type 0 where
  lookup_error : NodeError → NodeLookup
  no_node : NodeLookup
  found : Node → NodeLookup

unfoldable pub find_matching_node : ListResult → NodeLookup
find_matching_node (list_error e) = lookup_error (listing_failed e)
find_matching_node (listed []) = no_node
find_matching_node (listed (n ∷ [])) = found n
find_matching_node (listed ns) = lookup_error (ambiguous (length ns))

abbrev same_type : NodeConditionType → NodeConditionType → Bool
same_type NodeConditionType.node_ready NodeConditionType.node_ready = true
same_type memory_pressure memory_pressure = true
same_type disk_pressure disk_pressure = true
same_type pid_pressure pid_pressure = true
same_type (other_type s) (other_type t) = str_eq s t
same_type _ _ = false

abbrev is_true : ConditionStatus → Bool
is_true condition_true = true
is_true _ = false

unfoldable pub first_is_true : List (NodeConditionType × ConditionStatus) → NodeConditionType → Bool
first_is_true [] t = false
first_is_true (c ∷ cs) t =
    let rest = first_is_true cs t in if same_type c.0 t then is_true c.1 else rest

unfoldable pub is_node_condition_true : Node → NodeConditionType → Bool
is_node_condition_true node t = first_is_true node.conditions t

-- How far checkHTTPEndpoint gets: no client, no request from the URL, the scheme of the URL with the
-- status code of the response, or none where the request fails.
pub data Probe : Type 0 where
  no_client invalid_url : Probe
  request : Text → Option ℕ → Probe

abbrev is_2xx : Option ℕ → Bool
is_2xx none = false
is_2xx (some code) = leb 200 code && ltb code 300

unfoldable pub check_http_endpoint : Probe → Bool
check_http_endpoint no_client = true
check_http_endpoint invalid_url = false
check_http_endpoint (request scheme response) =
    if not (text_eq scheme (codes "http")) && not (text_eq scheme (codes "https"))
    then false
    else is_2xx response

unfoldable pub health_check_interval : StationSpec → Duration
health_check_interval spec = elim spec.monitoring [
  | some m ↦
      if ltb_ℤ (pos 0) m.health_check_interval
      then m.health_check_interval
      else pos (30 * 1000000000)
  | none ↦ pos (30 * 1000000000)
]

-- The endpoint that is configured, if any.
unfoldable pub endpoint_of : StationSpec → Option Text
endpoint_of spec = elim spec.monitoring [
  | none ↦ none
  | some m ↦ if is_empty m.endpoint then none else some m.endpoint
]

unfoldable pub is_uncertain : Option Condition → Bool
is_uncertain none = false
is_uncertain (some c) = elim c.reason [
  | Reason.update_interrupted ↦ true
  | Reason.update_timed_out ↦ true
  | _ ↦ false
]

-- The phase from the conditions of the Node: ready, under pressure, firmware state uncertain.
unfoldable pub phase_of : Bool → Bool → Bool → Phase → Phase
phase_of ready pressure uncertain phase = if not ready then offline else elim phase [
  | updating ↦ updating
  | degraded ↦ if uncertain then degraded else if pressure then degraded else running
  | _ ↦ if pressure then degraded else running
]

unfoldable pub phase_without_node : Phase → Phase
phase_without_node no_phase = provisioning
phase_without_node provisioning = provisioning
phase_without_node _ = offline

unfoldable pub checked_at : Phase → Time → Option Time → Option Time
checked_at running now last = some now
checked_at updating now last = some now
checked_at _ now last = last

-- A failed check of the endpoint degrades a running station.
unfoldable pub degrade : Bool → Phase → Phase
degrade true phase = phase
degrade false running = degraded
degrade false phase = phase

abbrev pub condition : ℕ → ConditionStatus → Reason → Condition
condition generation s r = record { status = s; reason = r; observed_generation = generation }

abbrev error_reason : NodeError → Reason
error_reason (ambiguous n) = Reason.ambiguous_node_mapping (ambiguous n)
error_reason (listing_failed e) = Reason.api_error (listing_failed e)

module _ {ℓ} {C : Type ℓ} ⦃ops : Conditions C⦄ where
  open ops use {set, find, remove}

  -- The three conditions where no Node is at hand.
  unfoldable pub set_unknown : ℕ → Reason → Reason → C → C
  set_unknown generation ready other cs =
      set ConditionType.rf_link_healthy (condition generation condition_unknown other) (
        set ConditionType.antenna_ready (condition generation condition_unknown other)
          (set ConditionType.k8s_node_ready (condition generation condition_false ready) cs))

  unfoldable pub node_conditions : ℕ → Bool → C → C
  node_conditions generation ready cs =
      set ConditionType.antenna_ready
        (condition generation condition_unknown Reason.no_antenna_probe)
        (set ConditionType.k8s_node_ready
          (if ready
            then condition generation condition_true Reason.node_ready
            else condition generation condition_false Reason.node_not_ready)
          cs)

  -- The optional HTTP health endpoint.
  unfoldable pub check_endpoint : ℕ → StationSpec → Probe → StationStatus C → StationStatus C
  unfolding degrade
  check_endpoint generation spec probe s = elim (endpoint_of spec) [
    | none ↦ record s { conditions = remove ConditionType.rf_link_healthy s.conditions }
    | some e ↦
        let healthy = check_http_endpoint probe in
        record s {
          phase = degrade healthy s.phase;
          conditions =
              set ConditionType.rf_link_healthy
                (if healthy
                  then condition generation condition_true Reason.endpoint_healthy
                  else condition generation condition_false Reason.endpoint_unhealthy)
                s.conditions;
        }
  ]

  unfoldable pub node_health : ℕ → Time → Node → StationStatus C → StationStatus C
  unfolding phase_of checked_at
  node_health generation now node s =
      let ready = is_node_condition_true node NodeConditionType.node_ready in
      let conditions' = node_conditions generation ready s.conditions in
      let phase' =
        phase_of ready
          (is_node_condition_true node memory_pressure
            || is_node_condition_true node disk_pressure
            || is_node_condition_true node pid_pressure)
          (is_uncertain (find ConditionType.firmware_up_to_date conditions')) s.phase in
      record s {
        phase = phase';
        k8s_version = node.kubelet_version;
        last_health_check = checked_at phase' now s.last_health_check;
        conditions = conditions';
      }

  unfoldable pub reconcile_health :
      ℕ → Time → StationSpec → NodeLookup → Probe → StationStatus C → StationStatus C
  unfolding phase_without_node
  reconcile_health generation now spec (lookup_error e) probe s = record s {
    phase = offline;
    conditions = set_unknown generation (error_reason e) (Reason.node_api_error e) s.conditions;
  }
  reconcile_health generation now spec no_node probe s = record s {
    phase = phase_without_node s.phase;
    conditions = set_unknown generation Reason.node_not_found Reason.node_not_found s.conditions;
  }
  reconcile_health generation now spec (found node) probe s =
      check_endpoint generation spec probe (node_health generation now node s)
