-- ===== src/Station/Invariant.antt =====
-- Reconcile of groundstationlifecycle_controller.go: the start of an update, from which its timeout is
-- measured.
use mathlib.Core.Option
use ntn_operators.Base.{
  ℕ, ◌≡◌, sym, subst, ◌∙◌, ap, ◌||◌, not, inl, inr, some, List, is_empty, Time, Bool-cases,
}
use ntn_operators.Station.{
  updating, Conditions, Node, FirmwareSpec, Instants, StationSpec, StationStatus,
}
use ntn_operators.Station.Health.{NodeLookup, found, reconcile_health}
use ntn_operators.Station.Firmware.{StationEvent, sync_version, step_update}
use ntn_operators.Station.Reconcile.{
  GetResult, get_error, not_found, got, Inputs, World, store_status, evaluate_lookup,
  evaluate_station, announce, reconcile,
}
use ntn_operators.Station.Phases.{reconcile_health-HealthStep}
use ntn_operators.Station.Updates.{IsIdle, step_update-cases, sync_version-phase}
use ntn_operators.Station.Lifecycle.{
  HealthStep-updating, running-not_updating, reconcile_health-IsSameFirmware, evaluate_lookup-cases,
}

module _ {ℓ} {C : Type ℓ} where
  -- A station in the phase updating has the start of its update on record.
  abbrev pub IsTimed : StationStatus C → Type 0
  IsTimed s = s.phase ≡ updating → (t : Time) × (s.firmware_update_started ≡ some t)

  idle-IsTimed : (s s' : StationStatus C) → IsIdle s s' → IsTimed s → IsTimed s'
  idle-IsTimed s s' h timed u = let r = timed (sym h.same_phase ∙ u) in (r.0, h.same_start ∙ r.1)

  store_status-IsTimed :
      (stored : Time → Time) (s : StationStatus C) → IsTimed s → IsTimed (store_status stored s)
  unfolding store_status
  store_status-IsTimed stored s timed u =
      let r = timed u in (stored r.0, ap (Option.map stored) r.1)

module _ {ℓ} {C : Type ℓ} ⦃ops : Conditions C⦄ where
  health-IsTimed :
      (g : ℕ) (spec : StationSpec) (i : Inputs C) (l : NodeLookup) (s : StationStatus C)
      → IsTimed s
      → IsTimed (reconcile_health g i.instants.at_health spec l i.probe s)
  health-IsTimed g spec i l s timed u =
      let r = timed (
        HealthStep-updating s.phase _
          (reconcile_health-HealthStep g i.instants.at_health spec l i.probe s) u) in
      (
        r.0,
        (reconcile_health-IsSameFirmware g i.instants.at_health spec l i.probe s).same_start ∙ r.1,
      )

  sync_version-IsTimed :
      (g : ℕ) (node : Node) (s : StationStatus C) → IsTimed s → IsTimed (sync_version g node s)
  sync_version-IsTimed g node s timed u =
      let h = sync_version-phase g node s in let r = timed (sym h.0 ∙ u) in (r.0, h.1.0 ∙ r.1)

  step_update-IsTimed :
      (g : ℕ) (t : Instants) (fw : FirmwareSpec) (node : Node) (s : StationStatus C)
      → IsTimed s
      → IsTimed ((step_update g t fw node s).0)
  step_update-IsTimed g t fw node s timed u = elim (step_update-cases g t fw node s) [
    | inl h ↦ idle-IsTimed s _ h timed u
    | inr (inl h) ↦ (t.at_start, h.started_now)
    | inr (inr h) ↦ elim (running-not_updating _ h.now u) [ ]
  ]

  evaluate_lookup-IsTimed :
      (g : ℕ) (spec : StationSpec) (i : Inputs C) (l : NodeLookup) (s : StationStatus C)
      → IsTimed s
      → IsTimed ((evaluate_lookup g spec i l s).0)
  evaluate_lookup-IsTimed g spec i l s timed = elim (evaluate_lookup-cases g spec i l s) [
    | inl h ↦ idle-IsTimed _ _ h (health-IsTimed g spec i l s timed)
    | inr k ↦ subst IsTimed (sym k.is_step) (
        step_update-IsTimed g i.instants k.firmware k.node _
          (sync_version-IsTimed g k.node _ (health-IsTimed g spec i (found k.node) s timed)))
  ]

  announce-IsTimed :
      (i : Inputs C) (w : World C) (s : StationStatus C) (pending : List StationEvent)
      → IsTimed w.status
      → IsTimed s
      → IsTimed ((announce i w s pending).0.status)
  unfolding announce
  announce-IsTimed i w s pending old new =
      elim (Bool-cases (not (i.same_status w.status s) || not (is_empty pending))) [
        | inl a ↦ elim (Bool-cases i.write_ok) [
          | inl k ↦ rw (announce, a, k) (store_status-IsTimed i.stored s new)
          | inr k ↦ rw (announce, a, k) old
        ]
        | inr a ↦ rw (announce, a) old
      ]

  -- Every reconcile, of a missing station and with a failing write too, keeps the start of an update
  -- on record while the station is in the phase updating.
  pub reconcile-IsTimed :
      (get : GetResult) (i : Inputs C) (w : World C)
      → IsTimed w.status
      → IsTimed ((reconcile get i w).0.status)
  unfolding reconcile evaluate_station
  reconcile-IsTimed get_error i w timed = timed
  reconcile-IsTimed not_found i w timed = timed
  reconcile-IsTimed (got g spec) i w timed =
      announce-IsTimed i w _ _ timed (evaluate_lookup-IsTimed g spec i _ w.status timed)
