-- ===== src/Station/Firmware.antt =====
-- internal/controller/groundstationlifecycle_controller.go: reconcileFirmware, the state machine of
-- an over-the-air update.
use text.Mathlib.Text.{◌==◌ as str_eq}
use ntn_operators.Base.{
  ℕ, ◌*◌, Bool, true, false, not, ◌&&◌, ◌||◌, Option, none, some, List, [], ◌∷◌, String, is_empty,
  Time, sub_time, pos, ltb_ℤ, if◌then◌else◌,
}
use ntn_operators.Station.{
  Phase, running, degraded, updating, firmware_up_to_date, condition_true, condition_false,
  condition_unknown, Reason, Condition, Conditions, Node, FirmwareSpec, StationSpec, StationStatus,
  Instants, is_updating,
}
use ntn_operators.Station.Window.{WindowResult, is_within_maintenance_window}
use ntn_operators.Station.Health.{condition}

pub data StationEvent : Type 0 where
  firmware_update_timed_out : Time → StationEvent
  firmware_updated : String → StationEvent
  firmware_update_started : String → String → StationEvent
  phase_changed : Phase → Phase → StationEvent

abbrev pub firmware_update_timeout : ℕ
firmware_update_timeout = 30 * 60 * 1000000000

-- The value of a map at a key, the empty string where it is missing.
abbrev pub or_empty : Option String → String
or_empty none = ""
or_empty (some v) = v

-- The version of the annotation, or the one that the status has.
unfoldable pub synced_version {ℓ} : {C : Type ℓ} → Node → StationStatus C → String
synced_version node s = elim node.firmware_version [ some v ↦ v | none ↦ s.firmware_version ]

unfoldable pub up_to_date : String → String → Bool
up_to_date current available = str_eq available "" || str_eq current available

unfoldable pub version_condition : ℕ → String → String → Condition
unfolding up_to_date
version_condition generation current available =
    if str_eq current ""
    then condition generation condition_unknown Reason.version_unknown
    else if not (up_to_date current available)
    then condition generation condition_false (Reason.update_available current available)
    else condition generation condition_true (Reason.up_to_date current)

unfoldable pub timed_out : Time → Option Time → Bool
timed_out now none = false
timed_out now (some started) = ltb_ℤ (pos firmware_update_timeout) (sub_time now started)

-- Whether the window, where there is one, lets an update start.
unfoldable pub window_of : FirmwareSpec → Time → WindowResult
window_of fw now =
    if is_empty fw.maintenance_window
    then WindowResult.within true
    else is_within_maintenance_window fw.maintenance_window now

-- gs.Status.Phase == PhaseRunning || gs.Status.Phase == PhaseDegraded
unfoldable pub may_update : Phase → Bool
may_update running = true
may_update degraded = true
may_update _ = false

abbrev timeout_events : Option Time → List StationEvent
timeout_events none = []
timeout_events (some started) = firmware_update_timed_out started ∷ []

module _ {ℓ} {C : Type ℓ} ⦃ops : Conditions C⦄ where
  open ops use {set, remove}

  -- meta.SetStatusCondition for FirmwareUpToDate.
  unfoldable pub set_firmware : Condition → StationStatus C → StationStatus C
  set_firmware c s = record s { conditions = set firmware_up_to_date c s.conditions }

  unfoldable pub sync_version : ℕ → Node → StationStatus C → StationStatus C
  unfolding set_firmware synced_version version_condition
  sync_version generation node s =
      let current = synced_version node s in
      set_firmware (version_condition generation current (or_empty node.available_firmware))
        (record s { firmware_version = current })

  -- The update ends in the given phase.
  unfoldable pub end_update : Phase → Condition → StationStatus C → StationStatus C
  unfolding set_firmware
  end_update phase c s = set_firmware c (record s { phase = phase; firmware_update_started = none })

  unfoldable pub complete_update : ℕ → Node → StationStatus C → StationStatus C × List StationEvent
  unfolding end_update
  complete_update generation node s =
      let available = or_empty node.available_firmware in
      if str_eq available ""
      then (
        end_update degraded (condition generation condition_unknown Reason.update_interrupted) s,
        [],
      )
      else if str_eq (or_empty node.firmware_version) available
      then (
        end_update running (condition generation condition_true (Reason.update_completed available))
            (record s { firmware_version = available }),
        firmware_updated available ∷ [],
      )
      else (s, [])

  unfoldable pub start_update :
      ℕ → Instants → FirmwareSpec → Node → StationStatus C → StationStatus C × List StationEvent
  unfolding set_firmware may_update up_to_date
  start_update generation t fw node s =
      let available = or_empty node.available_firmware in
      if not (up_to_date s.firmware_version available) && fw.auto_update && may_update s.phase
      then elim (window_of fw t.at_window) [
        | WindowResult.window_error e ↦ (
          set_firmware
              (condition generation condition_false
                (Reason.invalid_maintenance_window fw.maintenance_window e))
              s,
          [],
        )
        | WindowResult.within false ↦ (s, [])
        | WindowResult.within true ↦ (
          record s { phase = updating; firmware_update_started = some t.at_start },
          firmware_update_started s.firmware_version available ∷ [],
        )
      ]
      else (s, [])

  -- What follows the sync of the version.
  unfoldable pub step_update :
      ℕ → Instants → FirmwareSpec → Node → StationStatus C → StationStatus C × List StationEvent
  unfolding end_update is_updating timed_out
  step_update generation t fw node s =
      if is_updating s.phase
      then if timed_out t.at_timeout s.firmware_update_started
        then (
          end_update degraded (condition generation condition_false Reason.update_timed_out) s,
          timeout_events s.firmware_update_started,
        )
        else complete_update generation node s
      else start_update generation t fw node s

  unfoldable pub reconcile_firmware :
      ℕ
      → Instants
      → StationSpec
      → Option Node
      → StationStatus C
      → StationStatus C × List StationEvent
  reconcile_firmware generation t spec node s = elim spec.firmware [
    | none ↦ (record s { conditions = remove firmware_up_to_date s.conditions }, [])
    | some fw ↦ elim node [
      | none ↦ (
        record s { conditions = remove firmware_up_to_date s.conditions; firmware_version = "" },
        [],
      )
      | some n ↦ step_update generation t fw n (sync_version generation n s)
    ]
  ]
