-- ===== src/Station/Phases.antt =====
-- The state machine of a station's phase in groundstationlifecycle_controller.go, as a step
-- relation, and the code's functions against it.
use ntn_operators.Base.{
  ℕ, ◌≡◌, ◌≢◌, Bool, true, false, Time, arith, inl, inr, Option-cases, if◌then◌else◌,
}
use ntn_operators.Station.{
  Phase, no_phase, provisioning, running, degraded, offline, updating, Conditions, StationSpec,
  StationStatus, is_updating,
}
use ntn_operators.Station.Health.{
  NodeLookup, lookup_error, no_node, found, Probe, phase_of, phase_without_node, degrade,
  check_endpoint, endpoint_of, node_health, reconcile_health,
}

-- What the health check does to a phase. An update is left alone, or lost with the Node.
pub data HealthStep : Phase → Phase → Type 0 where
  registered : HealthStep no_phase provisioning
  waiting : HealthStep provisioning provisioning
  lost : (p : Phase) → HealthStep p offline
  kept_updating : HealthStep updating updating
  healthy : (p : Phase) → p ≢ updating → HealthStep p running
  impaired : (p : Phase) → p ≢ updating → HealthStep p degraded

degrade-HealthStep : (h : Bool) (p q : Phase) → HealthStep p q → HealthStep p (degrade h q)
unfolding degrade
degrade-HealthStep true p q s = s
degrade-HealthStep false _ _ registered = registered
degrade-HealthStep false _ _ waiting = waiting
degrade-HealthStep false _ _ (lost p) = lost p
degrade-HealthStep false _ _ kept_updating = kept_updating
degrade-HealthStep false _ _ (healthy p n) = impaired p n
degrade-HealthStep false _ _ (impaired p n) = impaired p n

pub not_updating : (p : Phase) → is_updating p ≡ false → p ≢ updating
unfolding is_updating
not_updating p h e = ground arith

pressed-HealthStep :
    (pressure : Bool) (p : Phase)
    → p ≢ updating
    → HealthStep p (if pressure then degraded else running)
pressed-HealthStep true p n = impaired p n
pressed-HealthStep false p n = healthy p n

phase_of-HealthStep :
    (ready pressure uncertain : Bool) (p : Phase)
    → HealthStep p (phase_of ready pressure uncertain p)
unfolding phase_of
phase_of-HealthStep false pressure uncertain p = lost p
phase_of-HealthStep true pressure uncertain updating = kept_updating
phase_of-HealthStep true pressure true degraded = impaired degraded (λ e. ground arith)
phase_of-HealthStep true pressure false degraded =
    pressed-HealthStep pressure degraded (λ e. ground arith)
phase_of-HealthStep true pressure uncertain no_phase =
    pressed-HealthStep pressure no_phase (λ e. ground arith)
phase_of-HealthStep true pressure uncertain provisioning =
    pressed-HealthStep pressure _ (λ e. ground arith)
phase_of-HealthStep true pressure uncertain running =
    pressed-HealthStep pressure _ (λ e. ground arith)
phase_of-HealthStep true pressure uncertain offline =
    pressed-HealthStep pressure _ (λ e. ground arith)

without_node-HealthStep : (p : Phase) → HealthStep p (phase_without_node p)
unfolding phase_without_node
without_node-HealthStep no_phase = registered
without_node-HealthStep provisioning = waiting
without_node-HealthStep running = lost running
without_node-HealthStep degraded = lost degraded
without_node-HealthStep offline = lost offline
without_node-HealthStep updating = lost updating

module _ {ℓ} {C : Type ℓ} ⦃ops : Conditions C⦄ where
  check_endpoint-HealthStep :
      (p : Phase) (g : ℕ) (spec : StationSpec) (probe : Probe) (s : StationStatus C)
      → HealthStep p s.phase
      → HealthStep p ((check_endpoint g spec probe s).phase)
  unfolding check_endpoint
  check_endpoint-HealthStep p g spec probe s h = elim (Option-cases (endpoint_of spec)) [
    | inl e ↦ rw (check_endpoint, e) h
    | inr r ↦ rw (check_endpoint, r.1) (degrade-HealthStep _ p s.phase h)
  ]

  -- The health check takes a station's phase along a step of the machine, whatever the Node, the
  -- probe and the conditions say: an update is never turned into another phase but offline, and
  -- only a station that was never seen with a Node is provisioning.
  pub reconcile_health-HealthStep :
      (g : ℕ) (now : Time) (spec : StationSpec) (l : NodeLookup) (probe : Probe)
      (s : StationStatus C)
      → HealthStep s.phase ((reconcile_health g now spec l probe s).phase)
  unfolding reconcile_health node_health
  reconcile_health-HealthStep g now spec (lookup_error e) probe s = lost s.phase
  reconcile_health-HealthStep g now spec no_node probe s = without_node-HealthStep s.phase
  reconcile_health-HealthStep g now spec (found node) probe s =
      check_endpoint-HealthStep s.phase g spec probe _ (phase_of-HealthStep _ _ _ s.phase)
