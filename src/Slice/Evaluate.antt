-- ===== src/Slice/Evaluate.antt =====
-- pkg/slice/failover.go: the evaluators (EvaluateFailoverWithContext, EvaluateFailover,
-- EvaluateFailoverWithHysteresis, EvaluateSafeHold). The context only carries the logger.
use ntn_operators.Base.{
  ℕ, Bool, true, false, not, ◌&&◌, ◌||◌, none, List, [], ◌∷◌, Text, Time, Duration, is_zero,
  sub_time, ltb_ℤ, ◌-ℤ◌, length, if◌then◌else◌,
}
use ntn_operators.Float.{Float}
use ntn_operators.Slice.Trigger.{Metrics, Trigger, evaluate_recovery}
use ntn_operators.Slice.TriggerSet.{TriggerSetResult, parse_trigger_set}
use ntn_operators.Slice.Path.{
  PathType, terrestrial, satellite, unavailable, Decision, stay, failover, switchback, Cause,
  FailoverResult, normalize, is_satellite,
}

-- !lastFailover.IsZero() && now.Sub(lastFailover) < switchbackDelay.
unfoldable pub delay_pending : Duration → Time → Time → Bool
delay_pending delay last now = not (is_zero last) && ltb_ℤ (sub_time now last) delay

module _ {ℓ} {F : Type ℓ} where
  unfoldable pub pass_ended_reason : TriggerSetResult F → Cause F
  pass_ended_reason ts =
      if ts.any_triggered
      then Cause.pass_ended_degraded
      else if ts.has_unknown_trigger || ts.all_invalid
      then Cause.pass_ended_unconfirmed
      else Cause.pass_ended_recovered

  -- FailoverResult{...} with `+ ts.parseSuffix` in its reason.
  abbrev pub result : TriggerSetResult F → Decision → Cause F → PathType → FailoverResult F
  result ts d c p = record { decision = d; cause = c; suffix = ts.parse_suffix; target_path = p }

  -- FailoverResult{...} whose reason has no suffix.
  abbrev pub plain : Decision → Cause F → PathType → FailoverResult F
  plain d c p = record { decision = d; cause = c; suffix = none; target_path = p }

  -- The three cases of the final `switch`.
  unfoldable pub on_terrestrial : TriggerSetResult F → Bool → FailoverResult F
  on_terrestrial ts available =
      if not ts.any_triggered
      then result ts stay Cause.terrestrial_healthy terrestrial
      else if not available
      then result ts stay Cause.no_pass_available terrestrial
      else result ts failover Cause.degraded_pass_available satellite

  unfoldable pub on_satellite : TriggerSetResult F → Duration → Time → Time → FailoverResult F
  unfolding delay_pending
  on_satellite ts delay last now =
      if ts.any_triggered
      then result ts stay Cause.still_degraded satellite
      else if ts.has_unknown_trigger
      then result ts stay Cause.recovery_unconfirmed satellite
      else if delay_pending delay last now
      then result ts stay (Cause.recovered_delay_remaining (delay -ℤ sub_time now last)) satellite
      else result ts switchback Cause.recovered_delay_elapsed terrestrial

  unfoldable pub on_unavailable : TriggerSetResult F → Bool → FailoverResult F
  on_unavailable ts available =
      if not ts.any_triggered
      then if ts.has_unknown_trigger
        then if available
          then result ts failover Cause.quality_unknown_using_pass satellite
          else result ts switchback Cause.initializing_unconfirmed terrestrial
        else result ts switchback Cause.initializing terrestrial
      else if available
      then result ts failover Cause.terrestrial_unavailable satellite
      else result ts stay Cause.both_degraded unavailable

  unfoldable pub on_path :
      PathType → TriggerSetResult F → Bool → Duration → Time → Time → FailoverResult F
  unfolding on_terrestrial on_satellite on_unavailable
  on_path terrestrial ts available delay last now = on_terrestrial ts available
  on_path satellite ts available delay last now = on_satellite ts delay last now
  on_path _ ts available delay last now = on_unavailable ts available

  -- The decision from the parsed triggers, for a path that is one of the three.
  unfoldable pub decide_path :
      PathType → ℕ → TriggerSetResult F → Bool → Duration → Time → Time → FailoverResult F
  unfolding on_path pass_ended_reason
  decide_path path total ts available delay last now =
      if is_satellite path && not available
      then result ts switchback (pass_ended_reason ts) terrestrial
      else if ts.all_invalid
      then plain stay (Cause.all_triggers_invalid total) path
      else on_path path ts available delay last now

module _ {ℓ} {F : Type ℓ} ⦃fl : Float F⦄ where
  unfoldable pub evaluate_failover_with_context :
      PathType → List Text → Metrics F → Bool → Duration → Time → Time → FailoverResult F
  evaluate_failover_with_context path triggers m available delay last now =
      decide_path (normalize path) (length triggers) (parse_trigger_set triggers m) available delay
        last now

  unfoldable pub evaluate_failover :
      PathType → List Text → Metrics F → Bool → Duration → Time → Time → FailoverResult F
  evaluate_failover path triggers m available delay last now =
      evaluate_failover_with_context path triggers m available delay last now

  -- The loop over ts.parsed that ends at the first trigger inside the dead-band.
  unfoldable pub all_recovered : List (Trigger F) → Metrics F → F → Bool
  all_recovered [] m margin = true
  all_recovered (t ∷ ts) m margin =
      let rest = all_recovered ts m margin in if evaluate_recovery t m margin then rest else false

  -- What follows the delegation, with the path satellite and a margin above zero.
  unfoldable pub decide_hysteresis :
      ℕ → TriggerSetResult F → Metrics F → Bool → Duration → Time → Time → F → FailoverResult F
  unfolding pass_ended_reason all_recovered delay_pending
  decide_hysteresis total ts m available delay last now margin =
      if not available
      then result ts switchback (pass_ended_reason ts) terrestrial
      else if ts.all_invalid
      then plain stay (Cause.all_triggers_invalid total) satellite
      else if ts.any_triggered
      then result ts stay Cause.still_degraded satellite
      else if ts.has_unknown_trigger
      then result ts stay Cause.recovery_unconfirmed satellite
      else if not (all_recovered ts.parsed m margin)
      then result ts stay (Cause.in_dead_band margin) satellite
      else if delay_pending delay last now
      then result ts stay (Cause.past_dead_band_delay_remaining (delay -ℤ sub_time now last))
          satellite
      else result ts switchback Cause.past_dead_band_delay_elapsed terrestrial

  unfoldable pub evaluate_failover_with_hysteresis :
      PathType → List Text → Metrics F → Bool → Duration → Time → Time → F → FailoverResult F
  evaluate_failover_with_hysteresis path triggers m available delay last now margin =
      if not (is_satellite path) || fl.le margin fl.zero_float
      then evaluate_failover_with_context path triggers m available delay last now
      else decide_hysteresis (length triggers) (parse_trigger_set triggers m) m available delay last
          now margin

unfoldable pub evaluate_safe_hold {ℓ} : {F : Type ℓ} → PathType → Bool → FailoverResult F
unfolding normalize
evaluate_safe_hold path available =
    if is_satellite (normalize path) && not available
    then plain switchback Cause.unreliable_pass_ended terrestrial
    else plain stay Cause.unreliable_holding (normalize path)
