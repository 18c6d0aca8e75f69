-- ===== src/Station/Lifecycle.antt =====
-- Reconcile of groundstationlifecycle_controller.go: what the health check leaves alone, and when an
-- update starts.
use ntn_operators.Base.{
  ℕ, ◌≡◌, ◌≢◌, refl, sym, subst, ◌∙◌, ap, ◌⊎◌, inl, inr, Bool, true, false, some, Time, arith,
  Bool-cases, Option-cases,
}
use ntn_operators.Station.{
  Phase, running, degraded, offline, updating, Conditions, Node, StationSpec, StationStatus,
  FirmwareSpec, node_ready,
}
use ntn_operators.Station.Window.{WindowResult}
use ntn_operators.Station.Health.{
  NodeLookup, lookup_error, no_node, found, Probe, find_matching_node, is_node_condition_true,
  phase_of, degrade, check_endpoint, endpoint_of, node_health, reconcile_health,
}
use ntn_operators.Station.Firmware.{
  up_to_date, or_empty, window_of, may_update, step_update, reconcile_firmware, sync_version,
  synced_version,
}
use ntn_operators.Station.Reconcile.{Inputs, evaluate_lookup, evaluate_station}
use ntn_operators.Station.Phases.{
  HealthStep, registered, waiting, lost, kept_updating, healthy, impaired,
  reconcile_health-HealthStep,
}
use ntn_operators.Station.Updates.{IsIdle, IsStarted, step_update-cases, sync_version-phase}

-- The fields that the health check leaves alone.
pub record IsSameFirmware {ℓ} {C : Type ℓ} (s s' : StationStatus C) : Type 0 where
  pub same_version : s'.firmware_version ≡ s.firmware_version
  pub same_start : s'.firmware_update_started ≡ s.firmware_update_started

degrade-offline : (h : Bool) → degrade h offline ≡ offline
unfolding degrade
degrade-offline true = refl
degrade-offline false = refl

degrade-updating : (h : Bool) → degrade h updating ≡ updating
unfolding degrade
degrade-updating true = refl
degrade-updating false = refl

pub offline-not_may_update : (p : Phase) → p ≡ offline → may_update p ≢ true
unfolding may_update
offline-not_may_update p e h = ground arith

pub HealthStep-updating : (p q : Phase) → HealthStep p q → q ≡ updating → p ≡ updating
HealthStep-updating _ _ registered e = ground arith
HealthStep-updating _ _ waiting e = ground arith
HealthStep-updating _ _ (lost p) e = ground arith
HealthStep-updating _ _ kept_updating e = refl
HealthStep-updating _ _ (healthy p n) e = ground arith
HealthStep-updating _ _ (impaired p n) e = ground arith

pub running-not_updating : (p : Phase) → (p ≡ running) ⊎ (p ≡ degraded) → p ≢ updating
running-not_updating p (inl e) u = ground arith
running-not_updating p (inr e) u = ground arith

-- Why an update starts: the Node is found and ready, the spec asks for automatic updates, the
-- version in the status differs from the available one, and the window, where there is one, holds.
pub record IsPermitted {ℓ} {C : Type ℓ} (spec : StationSpec) (i : Inputs C) (s : StationStatus C)
    : Type 0 where
  pub node : Node
  pub firmware : FirmwareSpec
  pub node_found : find_matching_node i.nodes ≡ found node
  pub ready : is_node_condition_true node node_ready ≡ true
  pub configured : spec.firmware ≡ some firmware
  pub automatic : firmware.auto_update ≡ true
  pub outdated : up_to_date (synced_version node s) (or_empty node.available_firmware) ≡ false
  pub inside_window : window_of firmware i.instants.at_window ≡ WindowResult.within true

module _ {ℓ} {C : Type ℓ} ⦃ops : Conditions C⦄ where
  check_endpoint-IsSameFirmware :
      (g : ℕ) (spec : StationSpec) (probe : Probe) (s : StationStatus C)
      → IsSameFirmware s (check_endpoint g spec probe s)
  unfolding check_endpoint
  check_endpoint-IsSameFirmware g spec probe s = elim (Option-cases (endpoint_of spec)) [
    | inl e ↦ rw (check_endpoint, e) record { same_version = refl; same_start = refl }
    | inr r ↦ rw (check_endpoint, r.1) record { same_version = refl; same_start = refl }
  ]

  pub reconcile_health-IsSameFirmware :
      (g : ℕ) (now : Time) (spec : StationSpec) (l : NodeLookup) (probe : Probe)
      (s : StationStatus C)
      → IsSameFirmware s (reconcile_health g now spec l probe s)
  unfolding reconcile_health node_health
  reconcile_health-IsSameFirmware g now spec (lookup_error e) probe s = record {
    same_version = refl;
    same_start = refl;
  }
  reconcile_health-IsSameFirmware g now spec no_node probe s = record {
    same_version = refl;
    same_start = refl;
  }
  reconcile_health-IsSameFirmware g now spec (found node) probe s =
      let h = check_endpoint-IsSameFirmware g spec probe (node_health g now node s) in
      record { same_version = h.same_version; same_start = h.same_start }

  check_endpoint-offline :
      (g : ℕ) (spec : StationSpec) (probe : Probe) (s : StationStatus C)
      → s.phase ≡ offline
      → (check_endpoint g spec probe s).phase ≡ offline
  unfolding check_endpoint
  check_endpoint-offline g spec probe s h = elim (Option-cases (endpoint_of spec)) [
    | inl e ↦ rw (check_endpoint, e) h
    | inr r ↦ rw (check_endpoint, r.1, h) (degrade-offline _)
  ]

  check_endpoint-updating :
      (g : ℕ) (spec : StationSpec) (probe : Probe) (s : StationStatus C)
      → s.phase ≡ updating
      → (check_endpoint g spec probe s).phase ≡ updating
  unfolding check_endpoint
  check_endpoint-updating g spec probe s h = elim (Option-cases (endpoint_of spec)) [
    | inl e ↦ rw (check_endpoint, e) h
    | inr r ↦ rw (check_endpoint, r.1, h) (degrade-updating _)
  ]

  pub not_ready-offline :
      (g : ℕ) (now : Time) (spec : StationSpec) (node : Node) (probe : Probe) (s : StationStatus C)
      → is_node_condition_true node node_ready ≡ false
      → (reconcile_health g now spec (found node) probe s).phase ≡ offline
  unfolding reconcile_health node_health phase_of
  not_ready-offline g now spec node probe s e =
      check_endpoint-offline g spec probe (node_health g now node s) (rw (e))

  pub ready-updating :
      (g : ℕ) (now : Time) (spec : StationSpec) (node : Node) (probe : Probe) (s : StationStatus C)
      → is_node_condition_true node node_ready ≡ true
      → s.phase ≡ updating
      → (reconcile_health g now spec (found node) probe s).phase ≡ updating
  unfolding reconcile_health node_health phase_of
  ready-updating g now spec node probe s e u =
      check_endpoint-updating g spec probe (node_health g now node s) (rw (e, u))

  -- The firmware step runs on a Node that was found, with a firmware spec.
  pub record IsUpdateStep (g : ℕ) (spec : StationSpec) (i : Inputs C) (l : NodeLookup)
      (s : StationStatus C) : Type ℓ where
    pub node : Node
    pub firmware : FirmwareSpec
    pub node_found : l ≡ found node
    pub configured : spec.firmware ≡ some firmware
    pub is_step :
        (evaluate_lookup g spec i l s).0
        ≡ (step_update g i.instants firmware node (
            sync_version g node
              (reconcile_health g i.instants.at_health spec (found node) i.probe s))).0

  pub evaluate_lookup-cases :
      (g : ℕ) (spec : StationSpec) (i : Inputs C) (l : NodeLookup) (s : StationStatus C)
      → IsIdle
          (reconcile_health g i.instants.at_health spec l i.probe s)
          ((evaluate_lookup g spec i l s).0)
        ⊎ IsUpdateStep g spec i l s
  unfolding evaluate_lookup reconcile_firmware reconcile_health check_endpoint endpoint_of
  evaluate_lookup-cases g spec i (lookup_error e) s =
      inl record { same_phase = refl; same_start = refl }
  evaluate_lookup-cases g spec i no_node s = elim (Option-cases spec.firmware) [
    | inl f ↦ inl (rw (reconcile_firmware, f) record { same_phase = refl; same_start = refl })
    | inr f ↦ inl (rw (reconcile_firmware, f.1) record { same_phase = refl; same_start = refl })
  ]
  evaluate_lookup-cases g spec i (found n) s = elim (Option-cases spec.firmware) [
    | inl f ↦ inl (rw (reconcile_firmware, f) record { same_phase = refl; same_start = refl })
    | inr f ↦ inr record {
      node = n;
      firmware = f.0;
      node_found = refl;
      configured = f.1;
      is_step = rw (reconcile_firmware, f.1) refl;
    }
  ]

  synced_version-same :
      (node : Node) (s s' : StationStatus C)
      → s'.firmware_version ≡ s.firmware_version
      → synced_version node s' ≡ synced_version node s
  unfolding synced_version
  synced_version-same node s s' h = rw (h) refl

  started-IsPermitted :
      (g : ℕ) (spec : StationSpec) (i : Inputs C) (s : StationStatus C)
      (u : IsUpdateStep g spec i (find_matching_node i.nodes) s)
      → IsStarted i.instants u.firmware u.node
          (sync_version g u.node
            (reconcile_health g i.instants.at_health spec (found u.node) i.probe s))
          ((evaluate_station g spec i s).0)
      → IsPermitted spec i s
  started-IsPermitted g spec i s u st = record {
    node = u.node;
    firmware = u.firmware;
    node_found = u.node_found;
    ready = elim (Bool-cases (is_node_condition_true u.node node_ready)) [
      | inl e ↦ e
      | inr e ↦
          elim (offline-not_may_update _
            ((sync_version-phase g u.node _).0
              ∙ not_ready-offline g i.instants.at_health spec u.node i.probe s e)
            st.healthy_before) [ ]
    ];
    configured = u.configured;
    automatic = st.automatic;
    outdated =
        ap (λ v. up_to_date v (or_empty u.node.available_firmware))
          (sym (
            (sync_version-phase g u.node _).1.1
            ∙ synced_version-same u.node _ _ (
                (reconcile_health-IsSameFirmware g i.instants.at_health spec (found u.node) i.probe
                  s).same_version)))
        ∙ st.outdated;
    inside_window = st.inside_window;
  }

  -- The evaluation of a reconcile takes a station into the phase updating only where the Node is
  -- found and ready, the spec asks for automatic updates, the version of the station differs from
  -- the one that is available, and the maintenance window, where one is configured, is open.
  pub evaluate-IsPermitted :
      (g : ℕ) (spec : StationSpec) (i : Inputs C) (s : StationStatus C)
      → s.phase ≢ updating
      → (evaluate_station g spec i s).0.phase ≡ updating
      → IsPermitted spec i s
  unfolding evaluate_station
  evaluate-IsPermitted g spec i s n u =
      elim (evaluate_lookup-cases g spec i (find_matching_node i.nodes) s) [
        | inl h ↦
            elim (n (
              HealthStep-updating s.phase _
                (reconcile_health-HealthStep g i.instants.at_health spec
                  (find_matching_node i.nodes) i.probe s)
                (sym h.same_phase ∙ u))) [ ]
        | inr k ↦ elim (step_update-cases g i.instants k.firmware k.node _) [
          | inl h ↦
              elim (n (
                HealthStep-updating s.phase _
                  (reconcile_health-HealthStep g i.instants.at_health spec (found k.node) i.probe s)
                  (sym ((sync_version-phase g k.node _).0)
                    ∙ sym h.same_phase
                    ∙ ap (λ r. r.phase) (sym k.is_step)
                    ∙ u))) [ ]
          | inr (inl h) ↦ started-IsPermitted g spec i s k (
              subst
                (λ r.
                  IsStarted i.instants k.firmware k.node
                    (sync_version g k.node
                      (reconcile_health g i.instants.at_health spec (found k.node) i.probe s))
                    r)
                (sym k.is_step) h)
          | inr (inr h) ↦
              elim (running-not_updating _ h.now (ap (λ r. r.phase) (sym k.is_step) ∙ u)) [ ]
        ]
      ]
