-- ===== src/Satellite/Windows.antt =====
-- internal/controller/satelliteephemeris_controller.go: the inputs behind the pass windows
-- that a durable status advertises.
use ntn_operators.Base.{
  ◌≡◌, ◌⊎◌, sym, ◌∙◌, inl, inr, true, false, Option, some, [], Text, text_eq, text_eq_iff, Time,
  Duration, arith, Bool-cases, Option-cases,
}
use ntn_operators.Float.{Float}
use ntn_operators.Station.{condition_true, condition_unknown}
use ntn_operators.Satellite.{
  PassPrediction, EphemerisSpec, EphemerisObject, EphemerisStatus, passes_predicted, recomputing,
  EphCondition, MetaConditions, MetaLaws,
}
use ntn_operators.Satellite.Cadence.{
  ClampWarn, invalidate_pass_prediction_status, pass_prediction_configured, clamp_refresh_interval,
}
use ntn_operators.Satellite.Failure.{World, Outcome, store_eph_status, persist_eph_status}
use ntn_operators.Satellite.Acquire.{FetchOutcome, Acquired, acquire_omms}
use ntn_operators.Satellite.Kept.{
  IsCleared, acquire-IsKept, early-status, usable-status, Acquired-cases,
}
use ntn_operators.Satellite.Digests.{pass_prediction_input_signature, pass_sweep_decision}
use ntn_operators.Satellite.Sweep.{handle_pass_prediction}
use ntn_operators.Satellite.Regime.{split_by_orbit_regime}
use ntn_operators.Satellite.Reconcile.{
  Deps, Inputs, condition_now, mark_recomputing, prepare_passes, draft_heartbeat, sweep,
  sweep_if_due, publish, reconcile_object,
}

module _ {ℓ} {C : Type ℓ} ⦃meta : MetaConditions C⦄
    (sig : EphemerisSpec → PassPrediction → Text) where
  -- Windows that are advertised as predicted come from inputs with this digest.
  abbrev pub IsBacked : EphemerisObject → EphemerisStatus C → Type 0
  IsBacked o s =
      (c : EphCondition)
      → meta.find passes_predicted s.conditions ≡ some c
      → c.status ≡ condition_true
      → (pp : PassPrediction) × (o.spec.pass_prediction ≡ some pp)
        × (s.last_pass_prediction_input_hash ≡ sig o.spec pp)

  invalidated-IsBacked :
      MetaLaws meta
      → (o : EphemerisObject) (s : EphemerisStatus C)
      → IsBacked o (invalidate_pass_prediction_status s)
  unfolding invalidate_pass_prediction_status
  invalidated-IsBacked laws o s c h k =
      let e = laws.find-remove passes_predicted s.conditions in absurd (cc)

  recomputing-IsBacked :
      MetaLaws meta
      → (o : EphemerisObject) (s : EphemerisStatus C) → IsBacked o (mark_recomputing o s)
  unfolding mark_recomputing
  recomputing-IsBacked laws o s c h k =
      let e =
        laws.find-set passes_predicted (condition_now o condition_unknown "Recomputing" recomputing)
          s.conditions in
      absurd (cc)

-- A spec for which passes are predicted.
configured-some :
    (spec : EphemerisSpec)
    → pass_prediction_configured spec ≡ true
    → (pp : PassPrediction) × (spec.pass_prediction ≡ some pp)
unfolding pass_prediction_configured
configured-some spec h = elim (Option-cases spec.pass_prediction) [
  | inl e ↦ absurd (ground (arith, e, h))
  | inr p ↦ p
]

-- The digest of the inputs that a reconcile sees.
abbrev pub signature {ℓ} :
    {Tle Eci E F : Type ℓ} → Deps Tle Eci E F → Inputs E F → EphemerisSpec → PassPrediction → Text
signature deps i = pass_prediction_input_signature deps.print i.get_station

module _ {ℓ} {Tle Eci E F C : Type ℓ} ⦃fl : Float F⦄ ⦃meta : MetaConditions C⦄
    (deps : Deps Tle Eci E F) (i : Inputs E F) (o : EphemerisObject) where
  decision-signature :
      (s : EphemerisStatus C) (now : Time)
      → pass_prediction_configured o.spec ≡ true
      → (pp : PassPrediction) × (o.spec.pass_prediction ≡ some pp)
        × ((pass_sweep_decision deps.print i.get_station o.spec s now).0
            ≡ signature deps i o.spec pp)
  unfolding pass_sweep_decision
  decision-signature s now h =
      let (pp, e) = configured-some o.spec h in (pp, e, rw (pass_sweep_decision, h, e))

  decision-unconfigured :
      (s : EphemerisStatus C) (now : Time)
      → pass_prediction_configured o.spec ≡ false
      → pass_sweep_decision deps.print i.get_station o.spec s now ≡ ([], false)
  unfolding pass_sweep_decision
  decision-unconfigured s now h = rw (pass_sweep_decision, h)

  prepared-IsBacked :
      MetaLaws meta
      → (s d : EphemerisStatus C) (now : Time)
      → IsBacked
          (signature deps i)
          o
          (prepare_passes o (pass_sweep_decision deps.print i.get_station o.spec d now).0 s)
  unfolding prepare_passes
  prepared-IsBacked laws s d now = elim (Bool-cases (pass_prediction_configured o.spec)) [
    | inr e ↦ rw (prepare_passes, e) (invalidated-IsBacked (signature deps i) laws o s)
    | inl e ↦
        let (pp, f, g) = decision-signature d now e in
        rw (prepare_passes, e, g)
          (elim (Bool-cases
            (text_eq (signature deps i o.spec pp) s.last_pass_prediction_input_hash)) [
              | inr k ↦ rw k (
                  recomputing-IsBacked (signature deps i) laws o
                    (invalidate_pass_prediction_status s))
              | inl k ↦ rw k (λ c h t. (pp, f, sym ((text_eq_iff _ _).0 k)))
            ])
  ]

  sweep-IsBacked :
      (out : FetchOutcome E F) (sig : Text) (outcome : Outcome) (w : World E F C)
      (pp : PassPrediction)
      → o.spec.pass_prediction ≡ some pp
      → sig ≡ signature deps i o.spec pp
      → IsBacked (signature deps i) o w.status
      → IsBacked (signature deps i) o (sweep deps i o out sig outcome w).1.status
  unfolding sweep persist_eph_status store_eph_status
  sweep-IsBacked out sig outcome w pp e g h =
      elim (Option-cases (
        handle_pass_prediction deps.predictor i.get_station o
          (split_by_orbit_regime deps.regime out.result.omms).0 i.acquire.now w.status)) [
            | inl k ↦ rw (sweep, k) h
            | inr ((s, notes), k) ↦ elim (Bool-cases i.write_b.write_ok) [
              | inr b ↦ rw (sweep, k, persist_eph_status, b) h
              | inl b ↦ rw (sweep, k, persist_eph_status, b) (λ c f t. (pp, e, g))
            ]
          ]

  sweep_if_due-IsBacked :
      (out : FetchOutcome E F) (d : EphemerisStatus C) (now : Time) (outcome : Outcome)
      (w : World E F C)
      → IsBacked (signature deps i) o w.status
      → IsBacked
          (signature deps i)
          o
          (sweep_if_due deps i o out
            (pass_sweep_decision deps.print i.get_station o.spec d now)
            outcome
            w).1.status
  unfolding sweep_if_due
  sweep_if_due-IsBacked out d now outcome w h =
      elim (Bool-cases (pass_prediction_configured o.spec)) [
        | inr e ↦ rw (decision-unconfigured d now e) h
        | inl e ↦
            let (pp, f, g) = decision-signature d now e in
            elim (Bool-cases (pass_sweep_decision deps.print i.get_station o.spec d now).1) [
              | inr k ↦ rw (sweep_if_due, k) h
              | inl k ↦ rw (sweep_if_due, k) (sweep-IsBacked out _ outcome w pp f g h)
            ]
      ]

  publish-IsBacked :
      MetaLaws meta
      → (interval : Duration) (clamp : Option ClampWarn) (out : FetchOutcome E F)
        (s : EphemerisStatus C) (w : World E F C)
      → let r = publish deps i o interval clamp out s w in
        (r.1.status ≡ w.status) ⊎ IsBacked (signature deps i) o r.1.status
  unfolding publish persist_eph_status store_eph_status
  publish-IsBacked laws interval clamp out s w =
      let d = draft_heartbeat deps i o out s in
      elim (Bool-cases i.write_a.write_ok) [
        | inr b ↦ inl (rw (publish, persist_eph_status, b))
        | inl b ↦ inr (
            rw (publish, persist_eph_status, b)
              (sweep_if_due-IsBacked out d.0 i.acquire.now _ _
                (prepared-IsBacked laws d.0 d.0 i.acquire.now)))
      ]

module _ {ℓ} {Tle Eci E F C : Type ℓ} ⦃fl : Float F⦄ ⦃meta : MetaConditions C⦄
    (deps : Deps Tle Eci E F) (i : Inputs E F) (o : EphemerisObject) where
  -- The pair that acquire_omms gives in a reconcile.
  abbrev pub acquired_of : World E F C → Acquired E F × World E F C
  acquired_of w =
      let r = clamp_refresh_interval o w.status.conditions in
      acquire_omms deps.urls deps.print deps.codec i.acquire o r.0
        (record (w.status) { conditions = r.1 }) r.2 w

  cleared-IsBacked : (s t : EphemerisStatus C) → IsCleared s t → IsBacked (signature deps i) o t
  cleared-IsBacked s t k c h b = let e = k.no_condition in absurd (cc)

  -- After a reconcile of an object, the durable status is as it was, or it advertises predicted
  -- passes only where the object asks for them, with the digest of the present spec and stations:
  -- whichever of the two writes fails, whether or not the sweep is due, fails, or is cancelled, and
  -- whether or not there are element sets.
  pub reconcile-IsBacked :
      MetaLaws meta
      → (w : World E F C)
      → let r = reconcile_object deps i o w in
        (r.1.status ≡ w.status) ⊎ IsBacked (signature deps i) o r.1.status
  unfolding reconcile_object
  reconcile-IsBacked laws w =
      let s = record (w.status) { conditions = (clamp_refresh_interval o w.status.conditions).1 } in
      let kept =
        acquire-IsKept laws deps.urls deps.print deps.codec i.acquire o
          (clamp_refresh_interval o w.status.conditions).0 s
          (clamp_refresh_interval o w.status.conditions).2 w in
      elim (Acquired-cases (acquired_of w).0) [
        | inl (outcome, e) ↦
            rw (reconcile_object, e)
              (elim (early-status w.status s (acquired_of w) outcome e kept) [
                | inl k ↦ inl k
                | inr k ↦ inr (cleared-IsBacked s _ k)
              ])
        | inr (out, e) ↦
            rw (reconcile_object, e)
              (elim (publish-IsBacked deps i o laws (clamp_refresh_interval o w.status.conditions).0
                (clamp_refresh_interval o w.status.conditions).2 out s (acquired_of w).1) [
                  | inl k ↦ inl (k ∙ usable-status w.status s (acquired_of w) out e kept)
                  | inr k ↦ inr k
                ])
      ]
