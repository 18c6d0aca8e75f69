-- ===== src/Station/Progress.antt =====
-- Reconcile of groundstationlifecycle_controller.go: whether an update that runs comes to an end.
use ntn_operators.Base.{
  ℕ, ◌≡◌, refl, ◌∙◌, ap, ◌⊎◌, inl, inr, true, Option, none, some, Time, arith, Bool-cases,
  Option-cases,
}
use ntn_operators.Station.{
  degraded, offline, updating, Conditions, Node, NodeError, StationSpec, StationStatus, Instants,
  FirmwareSpec, is_updating, node_ready,
}
use ntn_operators.Station.Health.{
  NodeLookup, lookup_error, no_node, found, Probe, find_matching_node, is_node_condition_true,
  reconcile_health, phase_without_node,
}
use ntn_operators.Station.Firmware.{step_update, reconcile_firmware, sync_version, timed_out}
use ntn_operators.Station.Reconcile.{Inputs, evaluate_lookup, evaluate_station}
use ntn_operators.Station.Updates.{step_update-cases, step_update-timeout, sync_version-phase}
use ntn_operators.Station.Lifecycle.{
  offline-not_may_update, not_ready-offline, ready-updating, reconcile_health-IsSameFirmware,
}

module _ {ℓ} {C : Type ℓ} ⦃ops : Conditions C⦄ where
  offline-stays :
      (g : ℕ) (t : Instants) (fw : FirmwareSpec) (node : Node) (s : StationStatus C)
      → s.phase ≡ offline
      → (step_update g t fw node s).0.phase ≡ offline
  offline-stays g t fw node s h = elim (step_update-cases g t fw node s) [
    | inl k ↦ k.same_phase ∙ h
    | inr (inl k) ↦ elim (offline-not_may_update s.phase h k.healthy_before) [ ]
    | inr (inr k) ↦ ground (arith, k.was_updating)
  ]

  firmware-timeout :
      (g : ℕ) (t : Instants) (spec : StationSpec) (node : Node) (s : StationStatus C)
      (fw : FirmwareSpec)
      → spec.firmware ≡ some fw
      → (s.phase ≡ offline)
        ⊎ ((s.phase ≡ updating) × (timed_out t.at_timeout s.firmware_update_started ≡ true))
      → ((reconcile_firmware g t spec (some node) s).0.phase ≡ degraded)
        ⊎ ((reconcile_firmware g t spec (some node) s).0.phase ≡ offline)
  unfolding reconcile_firmware is_updating
  firmware-timeout g t spec node s fw f (inl o) =
      rw (reconcile_firmware, f)
        (inr (offline-stays g t fw node _ ((sync_version-phase g node s).0 ∙ o)))
  firmware-timeout g t spec node s fw f (inr u) =
      rw (reconcile_firmware, f)
        (inl (
          (step_update-timeout g t fw node (sync_version g node s)
            (ap is_updating ((sync_version-phase g node s).0 ∙ u.0))
            (ap (timed_out t.at_timeout) ((sync_version-phase g node s).1.0) ∙ u.1)).0))

  no_firmware-phase :
      (g : ℕ) (t : Instants) (spec : StationSpec) (n : Option Node) (s : StationStatus C)
      → spec.firmware ≡ none
      → (reconcile_firmware g t spec n s).0.phase ≡ s.phase
  unfolding reconcile_firmware
  no_firmware-phase g t spec n s f = rw (reconcile_firmware, f) refl

  no_node-phase :
      (g : ℕ) (t : Instants) (spec : StationSpec) (s : StationStatus C)
      → (reconcile_firmware g t spec none s).0.phase ≡ s.phase
  unfolding reconcile_firmware
  no_node-phase g t spec s = elim (Option-cases spec.firmware) [
    | inl f ↦ rw (reconcile_firmware, f) refl
    | inr f ↦ rw (reconcile_firmware, f.1) refl
  ]

  error-offline :
      (g : ℕ) (now : Time) (spec : StationSpec) (e : NodeError) (probe : Probe)
      (s : StationStatus C)
      → (reconcile_health g now spec (lookup_error e) probe s).phase ≡ offline
  unfolding reconcile_health
  error-offline g now spec e probe s = refl

  no_node-offline :
      (g : ℕ) (now : Time) (spec : StationSpec) (probe : Probe) (s : StationStatus C)
      → s.phase ≡ updating
      → (reconcile_health g now spec no_node probe s).phase ≡ offline
  unfolding reconcile_health phase_without_node
  no_node-offline g now spec probe s u = rw (u) refl

  lookup-timeout :
      (g : ℕ) (spec : StationSpec) (i : Inputs C) (s : StationStatus C) (fw : FirmwareSpec)
      (l : NodeLookup)
      → spec.firmware ≡ some fw
      → s.phase ≡ updating
      → timed_out i.instants.at_timeout s.firmware_update_started ≡ true
      → ((evaluate_lookup g spec i l s).0.phase ≡ degraded)
        ⊎ ((evaluate_lookup g spec i l s).0.phase ≡ offline)
  unfolding evaluate_lookup
  lookup-timeout g spec i s fw (lookup_error e) f u t = inr (error-offline g _ spec e _ s)
  lookup-timeout g spec i s fw no_node f u t =
      inr (no_node-phase g _ spec _ ∙ no_node-offline g _ spec _ s u)
  lookup-timeout g spec i s fw (found n) f u t =
      firmware-timeout g _ spec n _ fw f (elim (Bool-cases (is_node_condition_true n node_ready)) [
        | inr e ↦ inl (not_ready-offline g _ spec n _ s e)
        | inl e ↦ inr (
          ready-updating g _ spec n _ s e u,
          ap (timed_out i.instants.at_timeout)
                ((reconcile_health-IsSameFirmware g _ spec (found n) _ s).same_start)
              ∙ t,
        )
      ])

  -- An update that runs for more than thirty minutes is over in the next evaluation of a station
  -- that has a firmware spec: the station is degraded, or it is offline.
  pub evaluate-timeout :
      (g : ℕ) (spec : StationSpec) (i : Inputs C) (s : StationStatus C) (fw : FirmwareSpec)
      → spec.firmware ≡ some fw
      → s.phase ≡ updating
      → timed_out i.instants.at_timeout s.firmware_update_started ≡ true
      → ((evaluate_station g spec i s).0.phase ≡ degraded)
        ⊎ ((evaluate_station g spec i s).0.phase ≡ offline)
  unfolding evaluate_station
  evaluate-timeout g spec i s fw f u t =
      lookup-timeout g spec i s fw (find_matching_node i.nodes) f u t

  lookup-stays_updating :
      (g : ℕ) (spec : StationSpec) (i : Inputs C) (s : StationStatus C) (node : Node)
      → spec.firmware ≡ none
      → is_node_condition_true node node_ready ≡ true
      → s.phase ≡ updating
      → (evaluate_lookup g spec i (found node) s).0.phase ≡ updating
  unfolding evaluate_lookup
  lookup-stays_updating g spec i s node f r u =
      no_firmware-phase g _ spec (some node) _ f ∙ ready-updating g _ spec node _ s r u

  -- Without a firmware spec an update has no end: as long as the Node is found and ready, a station
  -- in the phase updating stays in it, whatever the clock and the rest of the inputs say.
  pub evaluate-stays_updating :
      (g : ℕ) (spec : StationSpec) (i : Inputs C) (s : StationStatus C) (node : Node)
      → spec.firmware ≡ none
      → find_matching_node i.nodes ≡ found node
      → is_node_condition_true node node_ready ≡ true
      → s.phase ≡ updating
      → (evaluate_station g spec i s).0.phase ≡ updating
  unfolding evaluate_station
  evaluate-stays_updating g spec i s node f n r u =
      rw (evaluate_station, n) (lookup-stays_updating g spec i s node f r u)
