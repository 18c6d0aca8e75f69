-- ===== src/Tests/Stations.antt =====
-- The theorems on the ground station controller at concrete stations, and test runs.
use ntn_operators.Base.{
  ◌≡◌, ◌≢◌, ◌⊎◌, refl, sym, sub_time, Bool, true, false, ltb, Option, none, some, [], ◌∷◌, codes,
  if◌then◌else◌, arith,
}
use ntn_operators.Station.{
  running, degraded, offline, updating, is_updating, ConditionType, antenna_ready, rf_link_healthy,
  k8s_node_ready, firmware_up_to_date, condition_true, Condition, Conditions, ConditionLaws, Node,
  node_ready, FirmwareSpec, StationSpec, StationStatus,
}
use ntn_operators.Station.Window.{
  WindowError, within, window_error, skip_blanks, is_utc, clock_prefix, after_dash, match_window,
  minutes_of, parse_hhmm, in_window, evaluate_window, is_within_maintenance_window,
}
use ntn_operators.Station.Health.{
  no_client, listed, find_matching_node, first_is_true, is_node_condition_true,
  health_check_interval, is_uncertain, phase_of, checked_at, node_conditions, check_endpoint,
  endpoint_of, node_health, reconcile_health,
}
use ntn_operators.Station.Firmware.{
  synced_version, up_to_date, version_condition, timed_out, window_of, may_update, set_firmware,
  sync_version, start_update, step_update, reconcile_firmware,
}
use ntn_operators.Station.Reconcile.{
  World, Inputs, failed, requeue_after, got, evaluate_lookup, evaluate_station, reconcile,
}
use ntn_operators.Station.Windows.{
  window_text, with_clock, with_spaces, minutes_until, is_within-circular,
}
use ntn_operators.Station.Lifecycle.{IsPermitted, evaluate-IsPermitted}
use ntn_operators.Station.Progress.{evaluate-timeout}
use ntn_operators.Station.Announce.{IsRolledBack, IsRecorded, reconcile-announces}
use ntn_operators.Station.Invariant.{IsTimed, reconcile-IsTimed}

abbrev same_type : ConditionType → ConditionType → Bool
same_type antenna_ready antenna_ready = true
same_type rf_link_healthy rf_link_healthy = true
same_type k8s_node_ready k8s_node_ready = true
same_type firmware_up_to_date firmware_up_to_date = true
same_type _ _ = false

-- Conditions as a function.
abbrev Store : Type 0
Store = ConditionType → Option Condition

instance abbrev store : Conditions Store
store = record {
  set = λ t c cs u. if same_type t u then some c else cs u;
  find = λ t cs. cs t;
  remove = λ t cs u. if same_type t u then none else cs u;
}

same_type_refl : (t : ConditionType) → same_type t t ≡ true
same_type_refl t = ground arith

same_type-other : (t u : ConditionType) → t ≢ u → same_type t u ≡ false
same_type-other t u n = ground arith

store_laws : ConditionLaws store
store_laws = record {
  find-set = λ t c cs. rw (same_type_refl t) refl;
  find-set_other = λ t u c cs n. rw (same_type-other u t (λ e. n (sym e))) refl;
  find-remove = λ t cs. rw (same_type_refl t) refl;
  find-remove_other = λ t u cs n. rw (same_type-other u t (λ e. n (sym e))) refl;
}

windows : Unit {0}
unfolding is_within_maintenance_window match_window clock_prefix after_dash is_utc skip_blanks
    parse_hhmm minutes_of evaluate_window in_window
windows = tt

station_run : Unit {0}
unfolding windows evaluate_station evaluate_lookup find_matching_node reconcile_health node_health
    is_node_condition_true first_is_true node_conditions check_endpoint endpoint_of is_uncertain
    phase_of checked_at reconcile_firmware step_update start_update sync_version set_firmware
    synced_version up_to_date version_condition window_of may_update is_updating sub_time
station_run = tt

wrapped : is_within_maintenance_window (codes "23:00-02:00 UTC") 5400000000000 ≡ within true
unfolding windows
wrapped = refl

unpadded :
    is_within_maintenance_window (codes "2:00-04:00 UTC") 0
    ≡ window_error WindowError.invalid_format
unfolding windows
unpadded = refl

out_of_range :
    is_within_maintenance_window (codes "24:00-04:00 UTC") 0
    ≡ window_error WindowError.invalid_start
unfolding windows
out_of_range = refl

is_open : is_within_maintenance_window (window_text 1380 120 0) 5400000000000 ≡ within true
unfolding windows window_text with_clock with_spaces
is_open = refl

-- From 23:00 to 02:00.
is_within-circular_example :
    is_within_maintenance_window (window_text 1380 120 0) 5400000000000
    ≡ within (ltb (minutes_until 1380 90) (minutes_until 1380 120))
is_within-circular_example =
    is_within-circular 1380 120 0 5400000000000 (omega arith) (omega arith) (λ e. omega (arith, e))

abbrev box : Node
box = record {
  kubelet_version = "v1.30";
  conditions = (node_ready, condition_true) ∷ [];
  firmware_version = some "1.0";
  available_firmware = some "1.1";
}

abbrev automatic : FirmwareSpec
automatic = record { auto_update = true; maintenance_window = codes "23:00-02:00 UTC" }

abbrev spec : StationSpec
spec = record { monitoring = none; firmware = some automatic }

-- An hour and a half after midnight.
abbrev inputs : Inputs Store
inputs = record {
  nodes = listed (box ∷ []);
  probe = no_client;
  instants = record {
    at_health = 5400000000000;
    at_timeout = 5400000000000;
    at_window = 5400000000000;
    at_start = 5400000000000;
  };
  same_status = λ a b. false;
  write_ok = true;
  stored = λ t. t;
}

abbrev idle_station : StationStatus Store
idle_station = record {
  phase = running;
  k8s_version = "v1.30";
  firmware_version = "1.0";
  last_health_check = none;
  firmware_update_started = none;
  conditions = λ t. none;
}

-- An update that began an hour before.
abbrev busy_station : StationStatus Store
busy_station = record idle_station {
  phase = updating;
  firmware_update_started = some 1800000000000;
}

abbrev world : World Store
world = record { status = idle_station; events = []; gauges = [] }

idle_station-IsTimed : IsTimed idle_station
idle_station-IsTimed e = ground (arith, e)

starts : (evaluate_station 3 spec inputs idle_station).0.phase ≡ updating
unfolding station_run
starts = refl

evaluate-IsPermitted_example : IsPermitted spec inputs idle_station
evaluate-IsPermitted_example =
    evaluate-IsPermitted 3 spec inputs idle_station (λ e. ground (arith, e)) starts

evaluate-timeout_example :
    ((evaluate_station 3 spec inputs busy_station).0.phase ≡ degraded)
    ⊎ ((evaluate_station 3 spec inputs busy_station).0.phase ≡ offline)
unfolding timed_out sub_time
evaluate-timeout_example = evaluate-timeout 3 spec inputs busy_station automatic refl refl refl

reconcile-IsTimed_example : IsTimed ((reconcile (got 3 spec) inputs world).0.status)
reconcile-IsTimed_example = reconcile-IsTimed (got 3 spec) inputs world idle_station-IsTimed

reconcile-announces_example :
    let r = reconcile (got 3 spec) inputs world in
    let ev = evaluate_station 3 spec inputs idle_station in
    ((r.1 ≡ failed) × IsRolledBack world r.0)
    ⊎ ((r.1 ≡ requeue_after (health_check_interval spec)) × IsRecorded world ev.0.phase ev.1 r.0)
reconcile-announces_example = reconcile-announces 3 spec inputs world
