-- ===== src/Tests/Reconciler.antt =====
-- The theorems on the NTNSlice reconciler at concrete slices, and test runs.
use text.Mathlib.TextEquality.{eq_iff}
use ntn_operators.Base.{
  String, ap, ◌+◌, ◌*◌, ◌≡◌, ◌≢◌, ◌⊎◌, refl, inr, Bool, true, false, some, [], ◌∷◌, codes, Time, ℤ,
  pos, sub_time, arith,
}
use ntn_operators.Base.Dict.{lookup, insert, delete}
use ntn_operators.Slice.Trigger.{Metrics}
use ntn_operators.Slice.Path.{PathType, terrestrial, satellite, switchback, is_failover}
use ntn_operators.Slice.AntiFlap.{zero_state}
use ntn_operators.Controller.Contact.{
  PassWindow, Ephemeris, found, ContactCandidate, check_satellite_availability, scan_windows,
  build_contact_candidate, state_of, unix_milli,
}
use ntn_operators.Controller.Freshness.{source_epoch_fresh}
use ntn_operators.Controller.Contact.Selection.{any_usable, availability_iff}
use ntn_operators.Controller.FlapState.{
  NamespacedName, name_key, FlapStateEntry, load_flap_state, seed_last_switchback,
  persist_last_switchback, reset_recovery_streak,
}
use ntn_operators.Controller.Reconcile.{
  SliceSpec, SliceObject, Observation, ReadResult, reader_error, value, World, Inputs,
  read_path_quality, parse_margin, evaluate_slice, evaluate_reliable, apply_decision, same_path,
  same_status, persist_status_if_changed, reconcile,
}
use ntn_operators.Controller.Durability.{reconcile-counts, reconcile-leaves_satellite}
use ntn_operators.Controller.Outage.{IsStatic, reconcile_all, outage-IsStatic}
use ntn_operators.Controller.Isolation.{Keeps, failed_write-commits_nothing}
use ntn_operators.Controller.Clocks.{dwell-survives_restart, new_policy-reconfirms, gap-skips_delay}
use ntn_operators.Tests.Whole.{whole}
use ntn_operators.Tests.Engine.{second, weak, good, policy, loops, engine}

abbrev slice_key : NamespacedName
slice_key = record { namespace = "ran"; name = "maritime" }

abbrev other_key : NamespacedName
other_key = record { namespace = "ran"; name = "rural" }

abbrev spec : SliceSpec
spec = record {
  triggers = policy;
  hysteresis_margin = codes "10";
  switchback_delay = pos (600 * second);
  confirmation_samples = some 2;
  min_terrestrial_dwell = pos (60 * second);
}

abbrev object : SliceObject
object = record { key = slice_key; uid = "a"; generation = 2; spec = spec }

abbrev entry : FlapStateEntry
entry = record {
  uid = "a";
  generation = 2;
  state = record zero_state {
    consecutive_degraded = 1;
    recovery_observed_at = 4;
    last_counted_observed_at = 9;
  };
}

abbrev world : PathType → World
world path = record {
  status = record {
    active_path_type = path;
    failover_count = 3;
    last_failover = some (100 * second);
    last_switchback_time = some (200 * second);
  };
  flaps = (slice_key, entry) ∷ [];
  failover_total = 3;
  events = [];
}

abbrev observe_at : Metrics ℤ → Time → Observation ℤ
observe_at m t = record { metrics = m; stale = false; last_fresh_at = t; observed_at = t }

abbrev inputs : ReadResult ℤ → Bool → Inputs ℤ
inputs read available = record {
  read = read;
  available = available;
  known = true;
  now = 230 * second;
  other_changes = false;
  write_ok = true;
  stored = λ t. t;
}

reconcile-counts_example :
    (reconcile object (inputs reader_error true) (world terrestrial)).failover_total + 3
    ≡ 3 + (reconcile object (inputs reader_error true) (world terrestrial)).status.failover_count
reconcile-counts_example = reconcile-counts object (inputs reader_error true) (world terrestrial)

reconcile-leaves_satellite_example :
    (reconcile object (inputs reader_error false) (world satellite)).status.active_path_type
    ≢ satellite
reconcile-leaves_satellite_example =
    reconcile-leaves_satellite object (inputs reader_error false) (world satellite) refl refl refl

-- Two reconciles without metrics, the second of which sees the pass end.
outage-IsStatic_example : IsStatic object true (world satellite) (
    reconcile_all object
      (inputs reader_error true ∷ inputs reader_error false ∷ [])
      (world satellite))
unfolding read_path_quality
outage-IsStatic_example =
    outage-IsStatic object (inputs reader_error true) (inputs reader_error false ∷ [])
      (world satellite) ((inr refl, refl), ((inr refl, refl), tt))

absurd_name : ◌≢◌ {A = String} "maritime" "rural"
absurd_name = ground (arith, eq_iff "maritime" "rural")

keys_differ : slice_key ≢ other_key
keys_differ e = absurd_name (ap (λ k. k.name) e)

-- On terrestrial with a weak signal, thirty seconds after a switchback.
dwell-survives_restart_example :
    is_failover
      (evaluate_slice object
        (inputs (value (observe_at weak 10)) true)
        (world terrestrial)).result.decision
    ≡ false
unfolding sub_time
dwell-survives_restart_example =
    dwell-survives_restart object (inputs (value (observe_at weak 10)) true) (200 * second)
      (world terrestrial) refl refl (omega arith) (omega arith) refl

abbrev edited : SliceObject
edited = record object { generation = 3 }

old_generation :
    (e : FlapStateEntry)
    → lookup slice_key (world terrestrial).flaps ≡ some e
    → (e.uid ≢ "a") ⊎ (e.generation ≢ 3)
unfolding lookup
old_generation e h = inr (ground (arith, h))

new_policy-reconfirms_example :
    is_failover
      (evaluate_slice edited
        (inputs (value (observe_at weak 10)) true)
        (world terrestrial)).result.decision
    ≡ false
new_policy-reconfirms_example =
    new_policy-reconfirms edited (inputs (value (observe_at weak 10)) true) (world terrestrial) refl
      (omega arith) old_generation

gap-skips_delay_example :
    (evaluate_reliable object (observe_at good 9) true (260 * second) (record {
      status = (world satellite).status;
      flaps = reset_recovery_streak slice_key (world satellite).flaps;
      failover_total = 3;
      events = [];
    })).result.decision
    ≡ switchback
unfolding loops parse_margin lookup
gap-skips_delay_example =
    gap-skips_delay object (observe_at good 9) (260 * second) (world satellite) entry refl refl
      (refl, refl) refl (omega arith, omega arith) refl refl

reconcile_run : Unit {0}
unfolding loops reconcile evaluate_slice evaluate_reliable read_path_quality load_flap_state
    seed_last_switchback persist_last_switchback parse_margin engine apply_decision same_status
    same_path persist_status_if_changed lookup insert delete
reconcile_run = tt

failed_write : Inputs ℤ
failed_write = record (inputs (value (observe_at good 12)) true) {
  write_ok = false;
  other_changes = true;
}

failed_write-commits_nothing_example :
    let w' = reconcile object failed_write (world satellite) in
    (w'.status ≡ (world satellite).status)
    × (w'.failover_total ≡ 3)
    × (w'.events ≡ [])
    × Keeps slice_key (world satellite).flaps entry
unfolding failed_write reconcile_run
failed_write-commits_nothing_example =
    failed_write-commits_nothing object failed_write (world satellite) entry refl refl

-- One stale and one fresh member overhead.
abbrev fresh_window : PassWindow
fresh_window = record {
  norad_id = 7;
  satellite = codes "LEO-7";
  ground_station = codes "gs";
  aos = unix_milli 1000000;
  los = unix_milli 1600000;
}

abbrev ephemeris : Ephemeris
ephemeris = record {
  passes_predicted = true;
  windows = record fresh_window { norad_id = 8; los = unix_milli 1500000 } ∷ fresh_window ∷ [];
  states = record { norad_id = 7; source_epoch_unix_ms = 900000; epoch_unix_ms = 1000000 } ∷ [];
}

contact_run : Unit {0}
unfolding check_satellite_availability scan_windows build_contact_candidate state_of unix_milli
    source_epoch_fresh sub_time
contact_run = tt

availability_iff_example :
    let c = check_satellite_availability (found ephemeris) (unix_milli 1200000) in
    (c.available ≡ any_usable (unix_milli 1200000) ephemeris.states ephemeris.windows)
    × (c.known ≡ true)
availability_iff_example = availability_iff ephemeris (unix_milli 1200000)

abbrev reported : ContactCandidate
reported = record {
  norad_id = 8;
  satellite = codes "LEO-7";
  ground_station = codes "gs";
  aos = unix_milli 1000000;
  los = unix_milli 1500000;
  source_epoch_unix_ms = 0;
  propagated_epoch_unix_ms = 0;
  valid_until = unix_milli 1500000;
}
