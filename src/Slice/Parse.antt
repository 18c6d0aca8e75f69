-- ===== src/Slice/Parse.antt =====
-- pkg/slice/failover.go: ParseTrigger, on the code points of an expression such as "rsrp < -120".
use ntn_operators.Base.{
  Bool, true, false, ◌||◌, none, some, List, [], ◌∷◌, Text, codes, is_empty, trim_space,
  split_first, if◌then◌else◌,
}
use ntn_operators.Float.{Float}
use ntn_operators.Slice.Trigger.{Metric, Operator, lt, gt, le, ge, any_other, Trigger, metric_of}

pub data ParseError : Type 0 where
  invalid_value non_finite_value empty_metric unknown_metric invalid_format : ParseError

pub data Parsed {ℓ} (A : Type ℓ) : Type ℓ where
  ok : A → Parsed A
  err : ParseError → Parsed A

unfoldable pub operator_text : Operator → Text
operator_text lt = codes "<"
operator_text gt = codes ">"
operator_text le = codes "<="
operator_text ge = codes ">="
operator_text (any_other s) = s

abbrev pub is_known : Metric → Bool
is_known (Metric.other s) = false
is_known _ = true

module _ {ℓ} {F : Type ℓ} ⦃fl : Float F⦄ where
  -- The body of the loop once an operator splits the expression in two.
  unfoldable pub parse_parts : Operator → Text → Text → Parsed (Trigger F)
  parse_parts op metric value_text = elim (fl.parse_float value_text) [
    | none ↦ err invalid_value
    | some value ↦
        if fl.is_nan value || fl.is_inf value
        then err non_finite_value
        else if is_empty metric
        then err empty_metric
        else if is_known (metric_of metric)
        then ok (record { metric = metric_of metric; operator = op; value = value })
        else err unknown_metric
  ]

  -- The loop over the operators.
  unfoldable pub try_operators : List Operator → Text → Parsed (Trigger F)
  try_operators [] s = err invalid_format
  try_operators (op ∷ ops) s = elim (split_first (operator_text op) s) [
    | none ↦ try_operators ops s
    | some (before, behind) ↦ parse_parts op (trim_space before) (trim_space behind)
  ]

  unfoldable pub parse_trigger : Text → Parsed (Trigger F)
  parse_trigger s = try_operators (le ∷ ge ∷ lt ∷ gt ∷ []) (trim_space s)
