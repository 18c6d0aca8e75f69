-- ===== src/Station/Reports.antt =====
-- reconcileHealth of groundstationlifecycle_controller.go: which conditions it reports as true.
use ntn_operators.Base.{
  ℕ, ◌≡◌, refl, ◌∙◌, inl, inr, Bool, true, false, some, Time, arith, Option-cases,
}
use ntn_operators.Station.{
  antenna_ready, rf_link_healthy, k8s_node_ready, ConditionStatus, condition_true, condition_false,
  condition_unknown, Condition, Conditions, ConditionLaws, StationSpec, StationStatus, node_ready,
}
use ntn_operators.Station.Health.{
  NodeLookup, lookup_error, no_node, found, Probe, is_node_condition_true, set_unknown,
  node_conditions, check_endpoint, endpoint_of, node_health, reconcile_health,
}

-- The Node of a lookup is there and ready.
abbrev pub is_ready : NodeLookup → Bool
is_ready (found n) = is_node_condition_true n node_ready
is_ready _ = false

-- The status that a condition is given where a Boolean decides it.
abbrev pub status_if : Bool → ConditionStatus
status_if true = condition_true
status_if false = condition_false

module _ {ℓ} {C : Type ℓ} ⦃ops : Conditions C⦄ (laws : ConditionLaws ops) where
  open laws use {find-set, find-set_other, find-remove_other}

  -- The conditions of the Node and of the antenna, in a list of conditions.
  pub record IsHonest (ready : Bool) (cs : C) : Type 0 where
    pub node_condition : Condition
    pub node_found : ops.find k8s_node_ready cs ≡ some node_condition
    pub node_status : node_condition.status ≡ status_if ready
    pub antenna_condition : Condition
    pub antenna_found : ops.find antenna_ready cs ≡ some antenna_condition
    pub antenna_status : antenna_condition.status ≡ condition_unknown

  set_rf-IsHonest :
      (ready : Bool) (c : Condition) (cs : C)
      → IsHonest ready cs
      → IsHonest ready (ops.set rf_link_healthy c cs)
  set_rf-IsHonest ready c cs h = record {
    node_condition = h.node_condition;
    node_found =
        find-set_other k8s_node_ready rf_link_healthy c cs (λ e. ground arith) ∙ h.node_found;
    node_status = h.node_status;
    antenna_condition = h.antenna_condition;
    antenna_found =
        find-set_other antenna_ready rf_link_healthy c cs (λ e. ground arith) ∙ h.antenna_found;
    antenna_status = h.antenna_status;
  }

  remove_rf-IsHonest :
      (ready : Bool) (cs : C) → IsHonest ready cs → IsHonest ready (ops.remove rf_link_healthy cs)
  remove_rf-IsHonest ready cs h = record {
    node_condition = h.node_condition;
    node_found =
        find-remove_other k8s_node_ready rf_link_healthy cs (λ e. ground arith) ∙ h.node_found;
    node_status = h.node_status;
    antenna_condition = h.antenna_condition;
    antenna_found =
        find-remove_other antenna_ready rf_link_healthy cs (λ e. ground arith) ∙ h.antenna_found;
    antenna_status = h.antenna_status;
  }

  -- The two conditions, set one after the other.
  set_both-IsHonest :
      (ready : Bool) (k a : Condition) (cs : C)
      → k.status ≡ status_if ready
      → a.status ≡ condition_unknown
      → IsHonest ready (ops.set antenna_ready a (ops.set k8s_node_ready k cs))
  set_both-IsHonest ready k a cs hk ha = record {
    node_condition = k;
    node_found =
        find-set_other k8s_node_ready antenna_ready a _ (λ e. ground arith)
        ∙ find-set k8s_node_ready k cs;
    node_status = hk;
    antenna_condition = a;
    antenna_found = find-set antenna_ready a _;
    antenna_status = ha;
  }

  check_endpoint-IsHonest :
      (ready : Bool) (g : ℕ) (spec : StationSpec) (probe : Probe) (s : StationStatus C)
      → IsHonest ready s.conditions
      → IsHonest ready ((check_endpoint g spec probe s).conditions)
  unfolding check_endpoint
  check_endpoint-IsHonest ready g spec probe s h = elim (Option-cases (endpoint_of spec)) [
    | inl e ↦ rw (check_endpoint, e) (remove_rf-IsHonest ready s.conditions h)
    | inr r ↦ rw (check_endpoint, r.1) (set_rf-IsHonest ready _ s.conditions h)
  ]

  node_conditions-IsHonest :
      (ready : Bool) (g : ℕ) (cs : C) → IsHonest ready (node_conditions g ready cs)
  unfolding node_conditions
  node_conditions-IsHonest true g cs = set_both-IsHonest true _ _ cs refl refl
  node_conditions-IsHonest false g cs = set_both-IsHonest false _ _ cs refl refl

  -- After a health check, K8sNodeReady is True exactly if a Node was found and is ready, and False
  -- otherwise, also where the lookup failed; AntennaReady is always there and always Unknown.
  pub reconcile_health-IsHonest :
      (g : ℕ) (now : Time) (spec : StationSpec) (l : NodeLookup) (probe : Probe)
      (s : StationStatus C)
      → IsHonest (is_ready l) ((reconcile_health g now spec l probe s).conditions)
  unfolding reconcile_health node_health set_unknown
  reconcile_health-IsHonest g now spec (lookup_error e) probe s =
      set_rf-IsHonest false _ _ (set_both-IsHonest false _ _ s.conditions refl refl)
  reconcile_health-IsHonest g now spec no_node probe s =
      set_rf-IsHonest false _ _ (set_both-IsHonest false _ _ s.conditions refl refl)
  reconcile_health-IsHonest g now spec (found n) probe s =
      check_endpoint-IsHonest _ g spec probe _
        (node_conditions-IsHonest (is_node_condition_true n node_ready) g s.conditions)
