-- ===== src/Slice/TriggerSet.antt =====
-- pkg/slice/failover.go: the triggers of a policy together (parseTriggerSet, InertTriggers,
-- terrestrialDegraded, terrestrialConfirmedRecovered). Logging has no part in the result.
use ntn_operators.Base.{
  ℕ, ◌+◌, ltb, Bool, true, false, not, ◌&&◌, Option, none, some, List, [], ◌∷◌, ◌++◌, Text,
  is_empty, length, if◌then◌else◌,
}
use ntn_operators.Float.{Float}
use ntn_operators.Slice.Trigger.{Metrics, Trigger, metric_missing, evaluate, evaluate_recovery}
use ntn_operators.Slice.Parse.{Parsed, ok, err, parse_trigger}

-- parseSuffix: " (m of n triggers had parse errors)".
pub record ParseSuffix : Type 0 where
  pub failed : ℕ
  pub total : ℕ

pub record TriggerSetResult {ℓ} (F : Type ℓ) : Type ℓ where
  pub parsed : List (Trigger F)
  pub any_triggered : Bool
  pub parse_suffix : Option ParseSuffix
  pub all_invalid : Bool
  pub has_unknown_trigger : Bool

-- The variables of the loop of parseTriggerSet.
pub record Scan {ℓ} (F : Type ℓ) : Type ℓ where
  pub parsed : List (Trigger F)
  pub any_triggered : Bool
  pub has_unknown_trigger : Bool
  pub parse_errors : ℕ

abbrev pub scan_start {ℓ} : {F : Type ℓ} → Scan F
scan_start = record {
  parsed = [];
  any_triggered = false;
  has_unknown_trigger = false;
  parse_errors = 0;
}

module _ {ℓ} {F : Type ℓ} ⦃fl : Float F⦄ where
  -- One round, on the parsed expression.
  unfoldable pub scan_one : Metrics F → Parsed (Trigger F) → Scan F → Scan F
  scan_one m (err e) s =
      if s.any_triggered then s else record s { parse_errors = s.parse_errors + 1 }
  scan_one m (ok t) s =
      if metric_missing t m then record s { has_unknown_trigger = true } else record s {
        parsed = s.parsed ++ t ∷ [];
        any_triggered = if not s.any_triggered && evaluate t m then true else s.any_triggered;
      }

  unfoldable pub scan : Metrics F → List Text → Scan F → Scan F
  unfolding scan_one
  scan m [] s = s
  scan m (x ∷ xs) s = scan m xs (scan_one m (parse_trigger x) s)

  -- What follows the loop.
  unfoldable pub conclude : ℕ → Scan F → TriggerSetResult F
  conclude total s =
      let all_bad = is_empty s.parsed && ltb 0 s.parse_errors in
      record {
        parsed = s.parsed;
        any_triggered = s.any_triggered;
        parse_suffix =
            if all_bad
            then none
            else if ltb 0 s.parse_errors
            then some (record { failed = s.parse_errors; total = total })
            else none;
        all_invalid = all_bad;
        has_unknown_trigger = s.has_unknown_trigger;
      }

  unfoldable pub parse_trigger_set : List Text → Metrics F → TriggerSetResult F
  parse_trigger_set triggers m = conclude (length triggers) (scan m triggers scan_start)

  keep_inert : Metrics F → Text → Parsed (Trigger F) → List Text → List Text
  keep_inert m x (err e) rest = rest
  keep_inert m x (ok t) rest = if metric_missing t m then x ∷ rest else rest

  unfoldable pub inert_triggers : List Text → Metrics F → List Text
  unfolding keep_inert
  inert_triggers [] m = []
  inert_triggers (x ∷ xs) m = keep_inert m x (parse_trigger x) (inert_triggers xs m)

  unfoldable pub fires : Metrics F → Parsed (Trigger F) → Bool
  fires m (err e) = false
  fires m (ok t) = if metric_missing t m then false else evaluate t m

  unfoldable pub terrestrial_degraded : List Text → Metrics F → Bool
  unfolding fires
  terrestrial_degraded [] m = false
  terrestrial_degraded (x ∷ xs) m =
      let rest = terrestrial_degraded xs m in if fires m (parse_trigger x) then true else rest

  -- A round of terrestrialConfirmedRecovered: `none` goes on with an invalid trigger, `some true`
  -- with a recovered one, and `some false` returns false.
  unfoldable pub recovery_round : Metrics F → F → Parsed (Trigger F) → Option Bool
  recovery_round m margin (err e) = none
  recovery_round m margin (ok t) =
      if metric_missing t m then some false else some (evaluate_recovery t m margin)

  -- The loop with `sawValid`, and the check that follows it when the policy is not empty.
  unfoldable pub recovery_loop : Metrics F → F → Bool → Bool → List Text → Bool
  unfolding recovery_round
  recovery_loop m margin nonempty saw_valid [] = not (nonempty && not saw_valid)
  recovery_loop m margin nonempty saw_valid (x ∷ xs) =
      elim (recovery_round m margin (parse_trigger x)) [
        | none ↦ recovery_loop m margin nonempty saw_valid xs
        | some recovered ↦ elim recovered [
          | true ↦ recovery_loop m margin nonempty true xs
          | false ↦ false
        ]
      ]

  unfoldable pub terrestrial_confirmed_recovered : List Text → Metrics F → F → Bool
  terrestrial_confirmed_recovered triggers m margin =
      recovery_loop m margin (ltb 0 (length triggers)) false triggers
