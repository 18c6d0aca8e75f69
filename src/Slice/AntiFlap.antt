-- ===== src/Slice/AntiFlap.antt =====
-- pkg/slice/failover.go: EvaluateFailoverWithAntiFlap, with its configuration and state.
use ntn_operators.Base.{
  ℕ, ◌+◌, ltb, Bool, not, ◌&&◌, ◌||◌, List, Text, Time, Duration, zero_time, is_zero, after,
  sub_time, pos, ltb_ℤ, ◌-ℤ◌, if◌then◌else◌,
}
use ntn_operators.Float.{Float}
use ntn_operators.Slice.Trigger.{Metrics}
use ntn_operators.Slice.TriggerSet.{terrestrial_degraded, terrestrial_confirmed_recovered}
use ntn_operators.Slice.Path.{
  PathType, stay, Cause, FailoverResult, is_satellite, is_terrestrial, is_failover, is_switchback,
}
use ntn_operators.Slice.Evaluate.{plain, evaluate_failover_with_hysteresis}

-- ConfirmationSamples is an int; a negative one acts like zero.
pub record AntiFlapConfig : Type 0 where
  pub confirmation_samples : ℕ
  pub min_terrestrial_dwell : Duration

pub record AntiFlapState : Type 0 where
  pub consecutive_degraded : ℕ
  pub recovery_observed_at : Time
  pub last_switchback : Time
  pub last_counted_observed_at : Time

abbrev pub zero_state : AntiFlapState
zero_state = record {
  consecutive_degraded = 0;
  recovery_observed_at = zero_time;
  last_switchback = zero_time;
  last_counted_observed_at = zero_time;
}

-- The `switch` of step 1: degraded, confirmed recovered, neither.
unfoldable pub advance : Bool → Bool → Time → AntiFlapState → AntiFlapState
advance degraded recovered now st =
    if degraded
    then record st {
      consecutive_degraded = st.consecutive_degraded + 1;
      recovery_observed_at = zero_time;
    }
    else if recovered
    then record st {
      consecutive_degraded = 0;
      recovery_observed_at =
          if is_zero st.recovery_observed_at then now else st.recovery_observed_at;
    }
    else record st { consecutive_degraded = 0; recovery_observed_at = zero_time }

-- observedAt.IsZero() || observedAt.After(st.LastCountedObservedAt).
unfoldable pub is_new : Time → AntiFlapState → Bool
is_new observed_at st = is_zero observed_at || after observed_at st.last_counted_observed_at

-- Step 1: only a new observation advances the clocks.
unfoldable pub observe : Time → Bool → Bool → Time → AntiFlapState → AntiFlapState
unfolding advance is_new
observe observed_at degraded recovered now st =
    if is_new observed_at st
    then record (advance degraded recovered now st) { last_counted_observed_at = observed_at }
    else st

module _ {ℓ} {F : Type ℓ} where
  -- Step 3: the gates on a failover from terrestrial.
  unfoldable pub gate :
      AntiFlapConfig → PathType → Time → AntiFlapState → FailoverResult F → FailoverResult F
  gate cfg path now st res =
      if is_failover res.decision && is_terrestrial path
      then if ltb 1 cfg.confirmation_samples && ltb st.consecutive_degraded cfg.confirmation_samples
        then plain stay (Cause.unconfirmed st.consecutive_degraded cfg.confirmation_samples) path
        else if ltb_ℤ (pos 0) cfg.min_terrestrial_dwell
            && not (is_zero st.last_switchback)
            && ltb_ℤ (sub_time now st.last_switchback) cfg.min_terrestrial_dwell
        then plain stay
            (Cause.within_min_dwell (cfg.min_terrestrial_dwell -ℤ sub_time now st.last_switchback))
            path
        else res
      else res

  -- Step 4: the dwell clock starts on a hand-back from an available satellite.
  unfoldable pub start_dwell :
      PathType → Bool → Time → FailoverResult F → AntiFlapState → AntiFlapState
  start_dwell path available now res st =
      if is_switchback res.decision && available && is_satellite path
      then record st { last_switchback = now }
      else st

module _ {ℓ} {F : Type ℓ} ⦃fl : Float F⦄ where
  unfoldable pub evaluate_failover_with_anti_flap :
      PathType
      → List Text
      → Metrics F
      → Time
      → Bool
      → Duration
      → Time
      → F
      → AntiFlapConfig
      → AntiFlapState
      → FailoverResult F × AntiFlapState
  evaluate_failover_with_anti_flap path triggers m observed_at available delay now margin cfg st =
      let st' =
        observe observed_at (terrestrial_degraded triggers m)
          (terrestrial_confirmed_recovered triggers m margin) now st in
      let res =
        evaluate_failover_with_hysteresis path triggers m available delay st'.recovery_observed_at
          now margin in
      let res' = gate cfg path now st' res in (res', start_dwell path available now res' st')
