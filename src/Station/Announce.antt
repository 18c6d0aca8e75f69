-- ===== src/Station/Announce.antt =====
-- Reconcile of groundstationlifecycle_controller.go: what is recorded and what is announced.
use mathlib.Core.List.{append-nil}
use ntn_operators.Base.{
  ℕ, ◌≡◌, refl, sym, ◌∙◌, ap, ◌||◌, not, ◌⊎◌, inl, inr, true, false, List, [], ◌∷◌, ◌++◌, is_empty,
  arith, Bool-cases,
}
use ntn_operators.Station.{Phase, ConditionType, Conditions, StationSpec, StationStatus}
use ntn_operators.Station.Health.{health_check_interval}
use ntn_operators.Station.Firmware.{StationEvent}
use ntn_operators.Station.Reconcile.{
  same_phase, Inputs, World, failed, requeue_after, got, phase_events, store_status, Gauge,
  gauges_of, evaluate_station, announce, reconcile,
}

same_phase-≡ : (p q : Phase) → same_phase p q ≡ true → p ≡ q
unfolding same_phase
same_phase-≡ p q h = ground arith

same_phase_refl : (p : Phase) → same_phase p p ≡ true
unfolding same_phase
same_phase_refl p = ground arith

phase_events-same : (p : Phase) → phase_events p p ≡ []
unfolding phase_events
phase_events-same p = rw (same_phase_refl p) refl

phase_events-empty : (p q : Phase) → is_empty (phase_events p q) ≡ true → p ≡ q
unfolding phase_events
phase_events-empty p q h = elim (Bool-cases (same_phase p q)) [
  | inl e ↦ same_phase-≡ p q e
  | inr e ↦ ground (arith, e)
]

quiet :
    (queued : List StationEvent) (p q : Phase)
    → is_empty (queued ++ phase_events p q) ≡ true
    → (queued ≡ []) × (p ≡ q)
quiet [] p q h = (refl, phase_events-empty p q h)
quiet (e ∷ queued) p q h = ground arith

module _ {ℓ} {C : Type ℓ} ⦃ops : Conditions C⦄ where
  -- A write that fails leaves the durable status and the events as they were.
  pub record IsRolledBack (w w' : World C) : Type ℓ where
    pub same_status : w'.status ≡ w.status
    pub same_events : w'.events ≡ w.events

  -- The phase that was decided is durable, and announced with what the firmware step queued.
  pub record IsRecorded (w : World C) (decided : Phase) (queued : List StationEvent) (w' : World C)
      : Type 0 where
    pub phase_durable : w'.status.phase ≡ decided
    pub announced : w'.events ≡ w.events ++ (queued ++ phase_events w.status.phase w'.status.phase)

  quiet-IsRecorded :
      (w : World C) (s : StationStatus C) (queued : List StationEvent)
      (gauges : List (ConditionType × Gauge))
      → is_empty (queued ++ phase_events w.status.phase s.phase) ≡ true
      → IsRecorded w s.phase queued (record w { gauges = gauges })
  quiet-IsRecorded w s queued gauges h =
      let q = quiet queued w.status.phase s.phase h in
      record {
        phase_durable = q.1;
        announced =
            sym (append-nil w.events)
            ∙ ap (λ l. w.events ++ l) (rw (q.0) (sym (phase_events-same w.status.phase)));
      }

  announce-cases :
      (i : Inputs C) (w : World C) (s : StationStatus C) (queued : List StationEvent)
      → let r = announce i w s (queued ++ phase_events w.status.phase s.phase) in
        ((r.1 ≡ false) × IsRolledBack w r.0) ⊎ ((r.1 ≡ true) × IsRecorded w s.phase queued r.0)
  unfolding announce store_status
  announce-cases i w s queued =
      elim (Bool-cases (
        not (i.same_status w.status s)
        || not (is_empty (queued ++ phase_events w.status.phase s.phase)))) [
          | inl a ↦ elim (Bool-cases i.write_ok) [
            | inl k ↦
                inr (rw (announce, a, k) (refl, record { phase_durable = refl; announced = refl }))
            | inr k ↦
                inl (rw (announce, a, k) (refl, record { same_status = refl; same_events = refl }))
          ]
          | inr a ↦ inr (
              rw (announce, a)
                (refl, quiet-IsRecorded w s queued (gauges_of s.conditions) (ground (arith, a))))
        ]

  -- A reconcile of an existing station either fails, and then the durable status and the events are
  -- those of before, or it asks for the next one after the interval of the spec, and then the phase
  -- that it decided is durable, and the events are followed by those of the firmware step and by one
  -- that names the change of the phase exactly if the durable phase changed.
  pub reconcile-announces :
      (g : ℕ) (spec : StationSpec) (i : Inputs C) (w : World C)
      → let r = reconcile (got g spec) i w in
        let ev = evaluate_station g spec i w.status in
        ((r.1 ≡ failed) × IsRolledBack w r.0)
        ⊎ ((r.1 ≡ requeue_after (health_check_interval spec)) × IsRecorded w ev.0.phase ev.1 r.0)
  unfolding reconcile
  reconcile-announces g spec i w =
      elim (announce-cases i w ((evaluate_station g spec i w.status).0)
        ((evaluate_station g spec i w.status).1)) [
          | inl h ↦ inl (rw (h.0) refl, h.1)
          | inr h ↦ inr (rw (h.0) refl, h.1)
        ]
