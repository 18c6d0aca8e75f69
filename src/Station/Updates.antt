-- ===== src/Station/Updates.antt =====
-- reconcileFirmware of groundstationlifecycle_controller.go: the steps of an update, and what its
-- start asks for.
use text.Mathlib.Text.{◌==◌ as str_eq}
use ntn_operators.Base.{
  ℕ, ◌≡◌, refl, subst, not, ◌&&◌, ◌⊎◌, inl, inr, true, false, Option, none, some, arith, Bool-cases,
  Option-cases,
}
use ntn_operators.Station.{
  Phase, no_phase, provisioning, running, degraded, offline, updating, Conditions, Node,
  StationSpec, StationStatus, Instants, FirmwareSpec, is_updating,
}
use ntn_operators.Station.Window.{WindowResult}
use ntn_operators.Station.Firmware.{
  up_to_date, or_empty, window_of, may_update, complete_update, start_update, step_update,
  reconcile_firmware, set_firmware, sync_version, end_update, timed_out, synced_version,
}

-- What the firmware does to a phase.
pub data FirmwareStep : Phase → Phase → Type 0 where
  idle : (p : Phase) → FirmwareStep p p
  started_from_running : FirmwareStep running updating
  started_from_degraded : FirmwareStep degraded updating
  completed : FirmwareStep updating running
  aborted : FirmwareStep updating degraded

-- The phase and the start of an update are those of before.
pub record IsIdle {ℓ} {C : Type ℓ} (s s' : StationStatus C) : Type 0 where
  pub same_phase : s'.phase ≡ s.phase
  pub same_start : s'.firmware_update_started ≡ s.firmware_update_started

-- An update starts, and all that it asks for holds.
pub record IsStarted {ℓ} {C : Type ℓ} (t : Instants) (fw : FirmwareSpec) (node : Node)
    (s s' : StationStatus C) : Type 0 where
  pub phase_updating : s'.phase ≡ updating
  pub started_now : s'.firmware_update_started ≡ some t.at_start
  pub healthy_before : may_update s.phase ≡ true
  pub automatic : fw.auto_update ≡ true
  pub outdated : up_to_date s.firmware_version (or_empty node.available_firmware) ≡ false
  pub inside_window : window_of fw t.at_window ≡ WindowResult.within true

-- The update ends, and no start of one is left.
pub record IsEnded {ℓ} {C : Type ℓ} (s s' : StationStatus C) : Type 0 where
  pub was_updating : s.phase ≡ updating
  pub now : (s'.phase ≡ running) ⊎ (s'.phase ≡ degraded)
  pub cleared : s'.firmware_update_started ≡ none

is_updating-updating : (p : Phase) → is_updating p ≡ true → p ≡ updating
unfolding is_updating
is_updating-updating updating h = refl
is_updating-updating no_phase h = ground arith
is_updating-updating provisioning h = ground arith
is_updating-updating running h = ground arith
is_updating-updating degraded h = ground arith
is_updating-updating offline h = ground arith

ended-FirmwareStep :
    (p q : Phase) → p ≡ updating → (q ≡ running) ⊎ (q ≡ degraded) → FirmwareStep p q
ended-FirmwareStep p q e (inl h) = rw (e, h) completed
ended-FirmwareStep p q e (inr h) = rw (e, h) aborted

may_update-starts : (p : Phase) → may_update p ≡ true → FirmwareStep p updating
unfolding may_update
may_update-starts running h = started_from_running
may_update-starts degraded h = started_from_degraded
may_update-starts no_phase h = ground arith
may_update-starts provisioning h = ground arith
may_update-starts offline h = ground arith
may_update-starts updating h = ground arith

module _ {ℓ} {C : Type ℓ} ⦃ops : Conditions C⦄ where
  start-cases :
      (r : WindowResult) (g : ℕ) (t : Instants) (fw : FirmwareSpec) (node : Node)
      (s : StationStatus C)
      → window_of fw t.at_window ≡ r
      → not (up_to_date s.firmware_version (or_empty node.available_firmware))
          && fw.auto_update
          && may_update s.phase
        ≡ true
      → IsIdle s ((start_update g t fw node s).0)
        ⊎ IsStarted t fw node s ((start_update g t fw node s).0)
  unfolding set_firmware start_update
  start-cases (WindowResult.window_error x) g t fw node s w e =
      inl (rw (start_update, e, w) record { same_phase = refl; same_start = refl })
  start-cases (WindowResult.within false) g t fw node s w e =
      inl (rw (start_update, e, w) record { same_phase = refl; same_start = refl })
  start-cases (WindowResult.within true) g t fw node s w e = inr (
      rw (start_update, e, w)
        record {
          phase_updating = refl;
          started_now = refl;
          healthy_before = ground arith;
          automatic = ground arith;
          outdated = ground arith;
          inside_window = w;
        })

  -- What start_update does to the phase and to the start of the update.
  pub start_update-cases :
      (g : ℕ) (t : Instants) (fw : FirmwareSpec) (node : Node) (s : StationStatus C)
      → IsIdle s ((start_update g t fw node s).0)
        ⊎ IsStarted t fw node s ((start_update g t fw node s).0)
  unfolding start_update
  start_update-cases g t fw node s =
      elim (Bool-cases (
        not (up_to_date s.firmware_version (or_empty node.available_firmware))
        && fw.auto_update
        && may_update s.phase)) [
          | inr e ↦ inl (rw (start_update, e) record { same_phase = refl; same_start = refl })
          | inl e ↦ start-cases (window_of fw t.at_window) g t fw node s refl e
        ]

  complete_update-cases :
      (g : ℕ) (node : Node) (s : StationStatus C)
      → s.phase ≡ updating
      → IsIdle s ((complete_update g node s).0) ⊎ IsEnded s ((complete_update g node s).0)
  unfolding complete_update end_update set_firmware
  complete_update-cases g node s u =
      elim (Bool-cases (str_eq (or_empty node.available_firmware) "")) [
        | inl e ↦
            inr
              (rw (complete_update, e) record { was_updating = u; now = inr refl; cleared = refl })
        | inr e ↦
            elim (Bool-cases
              (str_eq (or_empty node.firmware_version) (or_empty node.available_firmware))) [
                | inl f ↦ inr (
                    rw (complete_update, e, f)
                      record { was_updating = u; now = inl refl; cleared = refl })
                | inr f ↦
                    inl (rw (complete_update, e, f) record { same_phase = refl; same_start = refl })
              ]
      ]

  -- An update that runs for more than its timeout ends in the phase degraded.
  pub step_update-timeout :
      (g : ℕ) (t : Instants) (fw : FirmwareSpec) (node : Node) (s : StationStatus C)
      → is_updating s.phase ≡ true
      → timed_out t.at_timeout s.firmware_update_started ≡ true
      → ((step_update g t fw node s).0.phase ≡ degraded)
        × ((step_update g t fw node s).0.firmware_update_started ≡ none)
  unfolding step_update end_update set_firmware
  step_update-timeout g t fw node s u e = rw (step_update, u, e) (refl, refl)

  pub step_update-cases :
      (g : ℕ) (t : Instants) (fw : FirmwareSpec) (node : Node) (s : StationStatus C)
      → IsIdle s ((step_update g t fw node s).0)
        ⊎ (IsStarted t fw node s ((step_update g t fw node s).0)
            ⊎ IsEnded s ((step_update g t fw node s).0))
  unfolding step_update
  step_update-cases g t fw node s = elim (Bool-cases (is_updating s.phase)) [
    | inr u ↦ elim (start_update-cases g t fw node s) [
      | inl h ↦ inl (rw (step_update, u) h)
      | inr h ↦ inr (inl (rw (step_update, u) h))
    ]
    | inl u ↦ elim (Bool-cases (timed_out t.at_timeout s.firmware_update_started)) [
      | inl e ↦ inr (
          inr record {
            was_updating = is_updating-updating s.phase u;
            now = inr ((step_update-timeout g t fw node s u e).0);
            cleared = (step_update-timeout g t fw node s u e).1;
          })
      | inr e ↦ elim (complete_update-cases g node s (is_updating-updating s.phase u)) [
        | inl h ↦ inl (rw (step_update, u, e) h)
        | inr h ↦ inr (inr (rw (step_update, u, e) h))
      ]
    ]
  ]

  step_update-FirmwareStep :
      (g : ℕ) (t : Instants) (fw : FirmwareSpec) (node : Node) (s : StationStatus C)
      → FirmwareStep s.phase ((step_update g t fw node s).0.phase)
  step_update-FirmwareStep g t fw node s = elim (step_update-cases g t fw node s) [
    | inl h ↦ rw (h.same_phase) (idle s.phase)
    | inr (inl h) ↦ rw (h.phase_updating) (may_update-starts s.phase h.healthy_before)
    | inr (inr h) ↦ ended-FirmwareStep s.phase _ h.was_updating h.now
  ]

  pub sync_version-phase :
      (g : ℕ) (node : Node) (s : StationStatus C)
      → ((sync_version g node s).phase ≡ s.phase)
        × (((sync_version g node s).firmware_update_started ≡ s.firmware_update_started)
            × ((sync_version g node s).firmware_version ≡ synced_version node s))
  unfolding sync_version set_firmware
  sync_version-phase g node s = (refl, (refl, refl))

  -- The firmware step takes a station's phase along a step of the machine: an update starts from
  -- running or degraded alone, and ends in one of these two.
  pub reconcile_firmware-FirmwareStep :
      (g : ℕ) (t : Instants) (spec : StationSpec) (node : Option Node) (s : StationStatus C)
      → FirmwareStep s.phase ((reconcile_firmware g t spec node s).0.phase)
  unfolding reconcile_firmware
  reconcile_firmware-FirmwareStep g t spec node s = elim (Option-cases spec.firmware) [
    | inl e ↦ rw (reconcile_firmware, e) (idle s.phase)
    | inr f ↦ elim (Option-cases node) [
      | inl e ↦ rw (reconcile_firmware, f.1, e) (idle s.phase)
      | inr n ↦
          rw (reconcile_firmware, f.1, n.1)
            (subst (λ p. FirmwareStep p ((step_update g t f.0 n.0 (sync_version g n.0 s)).0.phase))
              ((sync_version-phase g n.0 s).0)
              (step_update-FirmwareStep g t f.0 n.0 (sync_version g n.0 s)))
    ]
  ]
