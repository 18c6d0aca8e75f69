-- ===== src/Satellite/Sweeps.antt =====
-- internal/controller/satelliteephemeris_controller.go: what the sweep and write B leave of the states
-- that write A carries, and how they end.
use ntn_operators.Base.{
  ◌≡◌, ◌⊎◌, refl, subst, inl, inr, Bool, true, false, Option, none, some, List, is_empty, Text,
  text_eq, Bool-cases, Option-cases,
}
use ntn_operators.Float.{Float}
use ntn_operators.Passes.{Omm}
use ntn_operators.Satellite.{EphemerisObject, EphemerisStatus, PassPrediction, MetaConditions}
use ntn_operators.Satellite.Cadence.{invalidate_pass_prediction_status, pass_prediction_configured}
use ntn_operators.Satellite.Failure.{World, Outcome, failed, store_eph_status, persist_eph_status}
use ntn_operators.Satellite.Acquire.{FetchOutcome}
use ntn_operators.Satellite.Regime.{split_by_orbit_regime}
use ntn_operators.Satellite.Sweep.{
  PredictionFailure, compute_windows, record_windows, record_failure, handle_pass_prediction,
  SweepNotes,
}
use ntn_operators.Satellite.Reconcile.{
  Deps, Inputs, mark_recomputing, prepare_passes, sweep, sweep_if_due,
}
use ntn_operators.Satellite.Matching.{Sum-cases}

-- What a sweep leaves of a status.
abbrev pub SamePush {ℓ} : {C : Type ℓ} → EphemerisStatus C → EphemerisStatus C → Type 0
SamePush s t =
    (t.propagated_states ≡ s.propagated_states)
    × (t.propagated_states_input_hash ≡ s.propagated_states_input_hash)

abbrev KeepsPush {ℓ} :
    {C : Type ℓ} → Type 0 → EphemerisStatus C → Option (EphemerisStatus C × SweepNotes) → Type 0
KeepsPush why s none = why
KeepsPush why s (some r) = SamePush s r.0

-- The sweep over these element sets is stopped by the context, in a read or in PredictPasses.
abbrev pub IsCancelled {ℓ} :
    {Tle Eci E F : Type ℓ} ⦃fl : Float F⦄
    → Deps Tle Eci E F
    → Inputs E F
    → EphemerisObject
    → List (Omm E F)
    → Type 0
IsCancelled deps i o omms =
    (pp : PassPrediction) × (x : PredictionFailure) × (o.spec.pass_prediction ≡ some pp)
    × (compute_windows deps.predictor i.get_station o.spec pp omms i.acquire.now ≡ inl x)
    × (x.of_context ≡ true)

pub prepared-SamePush {ℓ} :
    {C : Type ℓ} ⦃meta : MetaConditions C⦄ (o : EphemerisObject) (sig : Text)
    (s : EphemerisStatus C)
    → SamePush s (prepare_passes o sig s)
unfolding prepare_passes mark_recomputing invalidate_pass_prediction_status
prepared-SamePush o sig s = elim (Bool-cases (pass_prediction_configured o.spec)) [
  | inr e ↦ rw (prepare_passes, e) (refl, refl)
  | inl e ↦ elim (Bool-cases (text_eq sig s.last_pass_prediction_input_hash)) [
    | inr k ↦ rw (prepare_passes, e, k) (refl, refl)
    | inl k ↦ rw (prepare_passes, e, k) (refl, refl)
  ]
]

-- An error needs a reason.
abbrev pub EndsWith {ℓ} :
    {E F C : Type ℓ} → Type 0 → Outcome → World E F C → Outcome × World E F C → Type 0
EndsWith why outcome w r =
    ((r.0 ≡ failed) × why ⊎ (r.0 ≡ outcome)) × SamePush w.status r.1.status × (r.1.ready ≡ w.ready)

module _ {ℓ} {Tle Eci E F : Type ℓ} (deps : Deps Tle Eci E F) where
  -- Write B fails, or the sweep is cancelled.
  abbrev pub IsInterrupted :
      ⦃fl : Float F⦄ → Inputs E F → EphemerisObject → FetchOutcome E F → Type 0
  IsInterrupted i o out =
      (i.write_b.write_ok ≡ false)
      ⊎ IsCancelled deps i o (split_by_orbit_regime deps.regime out.result.omms).0

module _ {ℓ} {Tle Eci E F C : Type ℓ} ⦃fl : Float F⦄ ⦃meta : MetaConditions C⦄
    (deps : Deps Tle Eci E F) (i : Inputs E F) (o : EphemerisObject) where
  handled-KeepsPush :
      (why : Type 0) (omms : List (Omm E F)) (s : EphemerisStatus C)
      → (IsCancelled deps i o omms → why)
      → KeepsPush why s (handle_pass_prediction deps.predictor i.get_station o omms i.acquire.now s)
  unfolding handle_pass_prediction record_windows record_failure
  handled-KeepsPush why omms s give = elim (Option-cases o.spec.pass_prediction) [
    | inl e ↦ rw (handle_pass_prediction, e) (refl, refl)
    | inr (pp, e) ↦ elim (Bool-cases (is_empty pp.ground_stations)) [
      | inl f ↦ rw (handle_pass_prediction, e, f) (refl, refl)
      | inr f ↦
          elim (Sum-cases
            (compute_windows deps.predictor i.get_station o.spec pp omms i.acquire.now)) [
              | inr (r, g) ↦ rw (handle_pass_prediction, e, f, g) (refl, refl)
              | inl (x, g) ↦ elim (Bool-cases x.of_context) [
                | inl k ↦ rw (handle_pass_prediction, e, f, g, k) (give (pp, x, e, g, k))
                | inr k ↦ rw (handle_pass_prediction, e, f, g, k) (refl, refl)
              ]
            ]
    ]
  ]

  sweep-EndsWith :
      (out : FetchOutcome E F) (sig : Text) (outcome : Outcome) (w : World E F C)
      → EndsWith (IsInterrupted deps i o out) outcome w (sweep deps i o out sig outcome w)
  unfolding sweep persist_eph_status store_eph_status
  sweep-EndsWith out sig outcome w =
      let omms = (split_by_orbit_regime deps.regime out.result.omms).0 in
      elim (Option-cases (
        handle_pass_prediction deps.predictor i.get_station o
          (split_by_orbit_regime deps.regime out.result.omms).0 i.acquire.now w.status)) [
            | inl k ↦
                rw (sweep, k)
                  (
                    inl (
                      refl,
                      inr (
                          subst (KeepsPush (IsCancelled deps i o omms) w.status) k
                            (handled-KeepsPush (IsCancelled deps i o omms) omms w.status (λ h. h))),
                    ),
                    (refl, refl),
                    refl,
                  )
            | inr ((s, notes), k) ↦ elim (Bool-cases i.write_b.write_ok) [
              | inr b ↦
                  rw (sweep, k, persist_eph_status, b) (inl (refl, inl refl), (refl, refl), refl)
              | inl b ↦
                  rw (sweep, k, persist_eph_status, b)
                    (
                      inr refl,
                      subst (KeepsPush (IsCancelled deps i o omms) w.status) k
                          (handled-KeepsPush (IsCancelled deps i o omms) omms w.status (λ h. h)),
                      refl,
                    )
            ]
          ]

  pub sweep_if_due-EndsWith :
      (out : FetchOutcome E F) (d : Text × Bool) (outcome : Outcome) (w : World E F C)
      → EndsWith (IsInterrupted deps i o out) outcome w (sweep_if_due deps i o out d outcome w)
  unfolding sweep_if_due
  sweep_if_due-EndsWith out (sig, true) outcome w = sweep-EndsWith out sig outcome w
  sweep_if_due-EndsWith out (sig, false) outcome w = (inr refl, (refl, refl), refl)
