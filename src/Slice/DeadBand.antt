-- ===== src/Slice/DeadBand.antt =====
-- The hysteresis of failover.go: what recovery past a margin says of a trigger, over the laws of
-- float64, and where the clamp at zero takes the margin away.
use ntn_operators.Base.{◌≡◌, refl, ◌⊎◌, inl, inr, true, false, some, arith, Option-cases}
use ntn_operators.Float.{Float, FloatLaws}
use ntn_operators.Slice.Trigger.{
  Operator, lt, gt, le, ge, Metrics, Trigger, actual_of, recovery_threshold, recovers, compares,
  evaluate, evaluate_recovery,
}

module _ {ℓ} {F : Type ℓ} ⦃fl : Float F⦄ (laws : FloatLaws fl) where
  open laws use {lt_not_le, le_not_lt, le_trans, lt_le_trans, le_lt_trans, le-add, sub-le}

  -- A strict operator, or a margin that rounding does not absorb at this value.
  abbrev pub IsEffective : Operator → F → F → Type 0
  IsEffective lt value margin = fl.le fl.zero_float margin ≡ true
  IsEffective le value margin = fl.lt value (fl.add value margin) ≡ true
  IsEffective gt value margin =
      (fl.le fl.zero_float margin ≡ true) × (fl.lt (fl.sub value margin) fl.zero_float ≡ false)
  IsEffective ge value margin =
      (fl.lt (fl.sub value margin) value ≡ true)
      × (fl.lt (fl.sub value margin) fl.zero_float ≡ false)
  IsEffective (Operator.any_other s) value margin = Unit {0}

  unclamped :
      (actual value margin : F)
      → fl.lt (fl.sub value margin) fl.zero_float ≡ false
      → fl.le actual (recovery_threshold value margin) ≡ true
      → fl.le actual (fl.sub value margin) ≡ true
  unfolding recovery_threshold
  unclamped actual value margin high h = rw high at h

  recovers-not_compares :
      (op : Operator) (actual value margin : F)
      → fl.is_nan value ≡ false
      → fl.is_inf value ≡ false
      → IsEffective op value margin
      → recovers op actual value margin ≡ true
      → compares op actual value ≡ false
  unfolding recovers compares
  recovers-not_compares lt actual value margin nan inf m h =
      le_not_lt value actual (le_trans _ _ _ (le-add value margin nan inf m) h)
  recovers-not_compares le actual value margin nan inf m h =
      lt_not_le value actual (lt_le_trans _ _ _ m h)
  recovers-not_compares gt actual value margin nan inf m h =
      le_not_lt actual value
        (le_trans _ _ _ (unclamped actual value margin m.1 h) (sub-le value margin nan inf m.0))
  recovers-not_compares ge actual value margin nan inf m h =
      lt_not_le actual value (le_lt_trans _ _ _ (unclamped actual value margin m.1 h) m.0)
  recovers-not_compares (Operator.any_other s) actual value margin nan inf m h = refl

  -- A trigger with a finite value that has recovered past an effective margin does not fire: a
  -- margin is effective that is not negative, is not absorbed by rounding where the operator is <=
  -- or >=, and does not take the threshold of > or >= below zero.
  pub evaluate_recovery-not_fires :
      (t : Trigger F) (m : Metrics F) (margin : F)
      → fl.is_nan t.value ≡ false
      → fl.is_inf t.value ≡ false
      → IsEffective t.operator t.value margin
      → evaluate_recovery t m margin ≡ true
      → evaluate t m ≡ false
  unfolding evaluate_recovery evaluate
  evaluate_recovery-not_fires t m margin nan inf e h = elim (Option-cases (actual_of t.metric m)) [
    | inl none_read ↦ rw (none_read, evaluate)
    | inr (actual, reads) ↦
        rw (reads, evaluate)
          (recovers-not_compares t.operator actual t.value margin nan inf e
            (rw (reads, evaluate_recovery) at h))
  ]

module _ {ℓ} {F : Type ℓ} ⦃fl : Float F⦄ where
  -- A trigger with > or >= whose threshold less the margin is below zero counts as recovered at every
  -- value up to zero, also where it fires: at a value above the threshold and not above zero it is
  -- both firing and recovered, whatever the margin.
  pub clamp-fires_and_recovers :
      (t : Trigger F) (m : Metrics F) (margin actual : F)
      → (t.operator ≡ gt) × (fl.lt t.value actual ≡ true)
        ⊎ (t.operator ≡ ge) × (fl.le t.value actual ≡ true)
      → fl.lt (fl.sub t.value margin) fl.zero_float ≡ true
      → fl.le actual fl.zero_float ≡ true
      → actual_of t.metric m ≡ some actual
      → (evaluate t m ≡ true) × (evaluate_recovery t m margin ≡ true)
  unfolding evaluate_recovery evaluate
  clamp-fires_and_recovers t m margin actual op low up reads = (ground arith, ground arith)
