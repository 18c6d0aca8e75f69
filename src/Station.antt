-- ===== src/Station.antt =====
-- api/v1alpha1/groundstationlifecycle_types.go and what
-- internal/controller/groundstationlifecycle_controller.go reads of a Node: the data of the ground
-- station controller. Spec.hardware, spec.deployment and firmware.channel are read by no code.
-- A condition's reason carries the values that its message prints.
use ntn_operators.Base.{ℕ, ◌≡◌, ◌≢◌, Bool, Option, none, some, List, String, Text, Time, Duration}
pub mod Window
pub mod Health
pub mod Firmware
pub mod Reconcile
pub mod Phases
pub mod Windows
pub mod Updates
pub mod Lifecycle
pub mod Progress
pub mod Announce
pub mod Invariant
pub mod Reports
pub mod Accepted
use ntn_operators.Station.Window.{WindowError}

-- GroundStationPhase, with the empty string first.
pub data Phase : Type 0 where
  no_phase provisioning running degraded offline updating : Phase

pub data ConditionType : Type 0 where
  antenna_ready rf_link_healthy k8s_node_ready firmware_up_to_date : ConditionType

pub data ConditionStatus : Type 0 where
  condition_true condition_false condition_unknown : ConditionStatus

-- listing_failed is an error of the API, ambiguous an ambiguousNodeError.
pub data NodeError : Type 0 where
  listing_failed : String → NodeError
  ambiguous : ℕ → NodeError

pub data Reason : Type 0 where
  api_error ambiguous_node_mapping node_api_error : NodeError → Reason
  node_not_found node_ready node_not_ready no_antenna_probe : Reason
  endpoint_healthy endpoint_unhealthy : Reason
  version_unknown : Reason
  update_available : String → String → Reason
  up_to_date : String → Reason
  update_timed_out update_interrupted : Reason
  update_completed : String → Reason
  invalid_maintenance_window : Text → WindowError → Reason

pub record Condition : Type 0 where
  pub status : ConditionStatus
  pub reason : Reason
  pub observed_generation : ℕ

-- k8s.io/apimachinery/pkg/api/meta on a list of conditions: SetStatusCondition,
-- FindStatusCondition, RemoveStatusCondition.
pub record Conditions {ℓ} (C : Type ℓ) : Type ℓ where
  pub set : ConditionType → Condition → C → C
  pub find : ConditionType → C → Option Condition
  pub remove : ConditionType → C → C

-- Their documented behaviour.
pub record ConditionLaws {ℓ} {C : Type ℓ} (ops : Conditions C) : Type ℓ where
  pub find-set : (t : ConditionType) (c : Condition) (cs : C) → ops.find t (ops.set t c cs) ≡ some c
  pub find-set_other :
      (t u : ConditionType) (c : Condition) (cs : C)
      → t ≢ u
      → ops.find t (ops.set u c cs) ≡ ops.find t cs
  pub find-remove : (t : ConditionType) (cs : C) → ops.find t (ops.remove t cs) ≡ none
  pub find-remove_other :
      (t u : ConditionType) (cs : C) → t ≢ u → ops.find t (ops.remove u cs) ≡ ops.find t cs

pub data NodeConditionType : Type 0 where
  node_ready memory_pressure disk_pressure pid_pressure : NodeConditionType
  other_type : String → NodeConditionType

-- A Node, with the values of its two firmware annotations.
pub record Node : Type 0 where
  pub kubelet_version : String
  pub conditions : List (NodeConditionType × ConditionStatus)
  pub firmware_version : Option String
  pub available_firmware : Option String

pub record MonitoringSpec : Type 0 where
  pub health_check_interval : Duration
  pub endpoint : Text

pub record FirmwareSpec : Type 0 where
  pub auto_update : Bool
  pub maintenance_window : Text

pub record StationSpec : Type 0 where
  pub monitoring : Option MonitoringSpec
  pub firmware : Option FirmwareSpec

pub record StationStatus {ℓ} (C : Type ℓ) : Type ℓ where
  pub phase : Phase
  pub k8s_version : String
  pub firmware_version : String
  pub last_health_check : Option Time
  pub firmware_update_started : Option Time
  pub conditions : C

-- What one reconcile reads of the clock: r.now() in the health check, in the test of the update's
-- timeout, in the test of the window, and at the start of an update.
pub record Instants : Type 0 where
  pub at_health : Time
  pub at_timeout : Time
  pub at_window : Time
  pub at_start : Time

unfoldable pub is_updating : Phase → Bool
is_updating Phase.updating = Bool.true
is_updating _ = Bool.false
