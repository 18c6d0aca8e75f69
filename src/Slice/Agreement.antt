-- ===== src/Slice/Agreement.antt =====
-- The loops of failover.go over a policy's triggers, against a plain reading of the policy.
use ntn_operators.Base.{
  ◌+◌, ◌≡◌, refl, sym, ap, ◌∙◌, inl, inr, Bool, true, false, not, ◌&&◌, ◌||◌, List, [], ◌∷◌, ◌++◌,
  Text, ltb, is_empty, length, is_empty-length, arith, if◌then◌else◌, Bool-cases,
}
use mathlib.Core.List.{append-nil, append_assoc}
use ntn_operators.Float.{Float}
use ntn_operators.Slice.Trigger.{Metrics, Trigger, metric_missing, evaluate}
use ntn_operators.Slice.Parse.{Parsed, ok, err, parse_trigger}
use ntn_operators.Slice.TriggerSet.{
  Scan, scan_start, scan_one, scan, conclude, parse_trigger_set, inert_triggers,
  terrestrial_degraded, recovery_loop, terrestrial_confirmed_recovered,
}
use ntn_operators.Slice.Evaluate.{all_recovered}

module _ {ℓ} {F : Type ℓ} ⦃fl : Float F⦄ where
  -- The triggers of a policy that parse and whose metric has a source, in order.
  add_live : Metrics F → Parsed (Trigger F) → List (Trigger F) → List (Trigger F)
  add_live m (err e) rest = rest
  add_live m (ok t) rest = if metric_missing t m then rest else t ∷ rest

  unfoldable pub live_triggers : List Text → Metrics F → List (Trigger F)
  unfolding add_live
  live_triggers [] m = []
  live_triggers (x ∷ xs) m = add_live m (parse_trigger x) (live_triggers xs m)

  unfoldable pub any_fires : List (Trigger F) → Metrics F → Bool
  any_fires [] m = false
  any_fires (t ∷ ts) m = let rest = any_fires ts m in if evaluate t m then true else rest

  scan-any :
      (m : Metrics F) (xs : List Text) (s : Scan F)
      → (scan m xs s).any_triggered ≡ s.any_triggered || terrestrial_degraded xs m
  unfolding scan terrestrial_degraded
  scan-any m [] s = ground arith
  scan-any m (x ∷ xs) s = ground (arith, scan-any m xs (scan_one m (parse_trigger x) s))

  scan-unknown :
      (m : Metrics F) (xs : List Text) (s : Scan F)
      → (scan m xs s).has_unknown_trigger
        ≡ s.has_unknown_trigger || not (is_empty (inert_triggers xs m))
  unfolding scan inert_triggers
  scan-unknown m [] s = ground arith
  scan-unknown m (x ∷ xs) s = ground (arith, scan-unknown m xs (scan_one m (parse_trigger x) s))

  scan_one-parsed :
      (m : Metrics F) (r : Parsed (Trigger F)) (s : Scan F) (rest : List (Trigger F))
      → (scan_one m r s).parsed ++ rest ≡ s.parsed ++ add_live m r rest
  unfolding scan_one add_live
  scan_one-parsed m (err e) s rest = ground arith
  scan_one-parsed m (ok t) s rest = elim (Bool-cases (metric_missing t m)) [
    | inl e ↦ rw e
    | inr e ↦ rw e (append_assoc s.parsed (t ∷ []) rest)
  ]

  scan-parsed :
      (m : Metrics F) (xs : List Text) (s : Scan F)
      → (scan m xs s).parsed ≡ s.parsed ++ live_triggers xs m
  unfolding scan live_triggers
  scan-parsed m [] s = sym (append-nil s.parsed)
  scan-parsed m (x ∷ xs) s =
      scan-parsed m xs (scan_one m (parse_trigger x) s)
      ∙ scan_one-parsed m (parse_trigger x) s (live_triggers xs m)

  degraded-any_fires :
      (m : Metrics F) (xs : List Text)
      → terrestrial_degraded xs m ≡ any_fires (live_triggers xs m) m
  unfolding terrestrial_degraded live_triggers any_fires
  degraded-any_fires m [] = refl
  degraded-any_fires m (x ∷ xs) = ground (arith, degraded-any_fires m xs)

  -- parseTriggerSet, terrestrialDegraded and InertTriggers read a policy alike: the parsed triggers
  -- are those that parse and have a source, in order; anyTriggered is terrestrialDegraded, which is
  -- that one of them fires; and hasUnknownTrigger is that InertTriggers reports one.
  pub parse_trigger_set-agrees :
      (triggers : List Text) (m : Metrics F)
      → let ts = parse_trigger_set triggers m in
        (ts.parsed ≡ live_triggers triggers m)
        × (ts.any_triggered ≡ terrestrial_degraded triggers m)
        × (ts.any_triggered ≡ any_fires ts.parsed m)
        × (ts.has_unknown_trigger ≡ not (is_empty (inert_triggers triggers m)))
  unfolding parse_trigger_set conclude
  parse_trigger_set-agrees triggers m =
      let parsed = scan-parsed m triggers scan_start in
      let any = scan-any m triggers scan_start in
      (
        parsed,
        any,
        any ∙ degraded-any_fires m triggers ∙ ap (λ ts. any_fires ts m) (sym parsed),
        scan-unknown m triggers scan_start,
      )

  -- While nothing parses into a live trigger, each expression is inert or counted as an error.
  scan-errors :
      (m : Metrics F) (xs : List Text) (s : Scan F)
      → s.any_triggered ≡ false
      → is_empty (live_triggers xs m) ≡ true
      → (scan m xs s).parse_errors + length (inert_triggers xs m) ≡ s.parse_errors + length xs
  unfolding scan live_triggers inert_triggers
  scan-errors m [] s h e = refl
  scan-errors m (x ∷ xs) s h e = ground (arith, scan-errors m xs (scan_one m (parse_trigger x) s))

  -- The loop of terrestrialConfirmedRecovered, in terms of the two kinds of trigger.
  recovery_loop_lem :
      (m : Metrics F) (margin : F) (nonempty saw : Bool) (xs : List Text)
      → recovery_loop m margin nonempty saw xs
        ≡ is_empty (inert_triggers xs m)
          && all_recovered (live_triggers xs m) m margin
          && not (nonempty && not saw && is_empty (live_triggers xs m))
  unfolding recovery_loop live_triggers inert_triggers all_recovered
  recovery_loop_lem m margin nonempty saw [] = ground arith
  recovery_loop_lem m margin nonempty saw (x ∷ xs) = ground (
    arith,
    recovery_loop_lem m margin nonempty saw xs,
    recovery_loop_lem m margin nonempty true xs,
  )

  -- terrestrialConfirmedRecovered holds exactly when parseTriggerSet reports no unknown trigger, not
  -- all triggers invalid, and every parsed trigger recovered by the margin: the recovery clock of
  -- the anti-flap engine and the evaluator read recovery alike.
  pub confirmed_recovered-agrees :
      (triggers : List Text) (m : Metrics F) (margin : F)
      → let ts = parse_trigger_set triggers m in
        terrestrial_confirmed_recovered triggers m margin
        ≡ not ts.has_unknown_trigger && all_recovered ts.parsed m margin && not ts.all_invalid
  unfolding parse_trigger_set conclude terrestrial_confirmed_recovered
  confirmed_recovered-agrees triggers m margin = rw (scan-parsed m triggers scan_start) (
      ground (
        arith,
        recovery_loop_lem m margin (ltb 0 (length triggers)) false triggers,
        scan-unknown m triggers scan_start,
        scan-errors m triggers scan_start refl,
        is_empty-length (inert_triggers triggers m),
      ))
