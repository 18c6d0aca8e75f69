-- ===== src/Tests/Engine.antt =====
-- The theorems on the failover engine at concrete policies, and test runs.
use ntn_operators.Base.{
  ℕ, ◌*◌, ◌≡◌, ◌⊎◌, ◌↔◌, refl, Bool, true, false, List, [], ◌∷◌, Text, codes, Time, ℤ, pos, negsuc,
  ◌+ℤ◌, ◌-ℤ◌, ltb_ℤ, sub_time, all, take, length, is_empty, trim_space, split_first, arith,
}
use ntn_operators.Slice.Trigger.{
  Metrics, Trigger, rsrp, lt, gt, metric_of, metric_missing, evaluate, evaluate_recovery,
}
use ntn_operators.Slice.Parse.{operator_text, parse_parts, try_operators, parse_trigger}
use ntn_operators.Slice.TriggerSet.{
  scan, conclude, parse_trigger_set, inert_triggers, terrestrial_degraded, recovery_loop,
  terrestrial_confirmed_recovered,
}
use ntn_operators.Slice.Path.{terrestrial, satellite, stay, failover, switchback, normalize}
use ntn_operators.Slice.Evaluate.{
  delay_pending, decide_path, decide_hysteresis, evaluate_failover_with_context,
  evaluate_failover_with_hysteresis, evaluate_safe_hold,
}
use ntn_operators.Slice.AntiFlap.{
  AntiFlapConfig, AntiFlapState, zero_state, is_new, observe, gate, start_dwell,
  evaluate_failover_with_anti_flap,
}
use ntn_operators.Slice.Safety.{IsSound, anti_flap-IsSound, pass_ended-switchback}
use ntn_operators.Slice.Decisions.{
  unconfirmed_gate, dwell_gate, satellite-decision, anti_flap-failover_iff, anti_flap-gates,
}
use ntn_operators.Slice.Runs.{
  Policy, Sample, AreDistinct, recovery_block, oldest_now, record_reading, reading, run, history,
  failover-needs_streak, switchback-needs_recovery,
}
use ntn_operators.Tests.Whole.{whole}

abbrev pub second : ℕ
second = 1000000000

abbrev pub link : ℤ → Metrics ℤ
link power = record {
  rsrp_dbm = power;
  latency_ms = pos 20;
  packet_loss_percent = pos 1;
  rsrp_missing = false;
  latency_missing = false;
  packet_loss_missing = true;
}

abbrev pub weak : Metrics ℤ
weak = link (negsuc 129)

abbrev pub good : Metrics ℤ
good = link (negsuc 89)

abbrev pub policy : List Text
policy = codes " rsrp < -120 " ∷ codes "latency>=200" ∷ []

-- The definitions that a run of the engine reads.
unfoldable pub loops : Unit {0}
unfolding parse_trigger trim_space ◌+ℤ◌ ◌-ℤ◌ try_operators parse_parts split_first operator_text
    metric_of metric_missing evaluate evaluate_recovery terrestrial_degraded
    terrestrial_confirmed_recovered recovery_loop scan inert_triggers
loops = tt

unfoldable pub engine : Unit {0}
unfolding loops conclude parse_trigger_set normalize decide_path decide_hysteresis
    evaluate_failover_with_context evaluate_failover_with_hysteresis observe gate start_dwell
    evaluate_failover_with_anti_flap sub_time
engine = tt

weak_fires : terrestrial_degraded policy weak ≡ true
unfolding loops
weak_fires = refl

good_fine : terrestrial_degraded policy good ≡ false
unfolding loops
good_fine = refl

good_recovers : terrestrial_confirmed_recovered policy good (pos 10) ≡ true
unfolding loops
good_recovers = refl

abbrev gates : AntiFlapConfig
gates = record { confirmation_samples = 2; min_terrestrial_dwell = pos (60 * second) }

anti_flap-IsSound_example :
    IsSound satellite true
      (evaluate_failover_with_anti_flap satellite policy weak 5 true
        (pos second)
        (9 * second)
        (pos 10)
        gates
        zero_state).0
anti_flap-IsSound_example =
    anti_flap-IsSound satellite policy weak 5 true (pos second) (9 * second) (pos 10) gates
      zero_state

pass_ended-switchback_example :
    let (res, st) =
      evaluate_failover_with_anti_flap satellite policy weak 5 false
        (pos second)
        (9 * second)
        (pos 10)
        gates
        zero_state in
    (res.decision ≡ switchback)
    × (res.target_path ≡ terrestrial)
    × (st.last_switchback ≡ 0)
    × ((evaluate_safe_hold {F = ℤ} satellite false).decision ≡ switchback)
    × ((evaluate_safe_hold {F = ℤ} satellite false).target_path ≡ terrestrial)
pass_ended-switchback_example =
    pass_ended-switchback policy weak 5 (pos second) (9 * second) (pos 10) gates zero_state

satellite-decision_example :
    (evaluate_failover_with_hysteresis satellite policy good true
      (pos second)
      0
      second
      (pos 10)).decision
    ≡ switchback
unfolding loops delay_pending
satellite-decision_example = satellite-decision policy good (pos second) 0 second (pos 10) refl

one_degraded : AntiFlapState
one_degraded = record zero_state { consecutive_degraded = 1; last_counted_observed_at = 5 }

anti_flap-failover_iff_example :
    ((evaluate_failover_with_anti_flap terrestrial policy weak 6 true
        (pos second)
        second
        (pos 10)
        gates
        one_degraded).0.decision
      ≡ failover)
    ↔ ((terrestrial_degraded policy weak ≡ true)
        × ◌≡◌ {A = Bool} true true
        × (unconfirmed_gate gates 2 ≡ false)
        × (dwell_gate gates second 0 ≡ false))
unfolding one_degraded is_new
anti_flap-failover_iff_example =
    anti_flap-failover_iff policy weak 6 true (pos second) second (pos 10) gates one_degraded

anti_flap-gates_example :
    let (res, st) =
      evaluate_failover_with_anti_flap terrestrial policy weak 5 true
        (pos second)
        second
        (pos 10)
        gates
        zero_state in
    let base =
      evaluate_failover_with_hysteresis terrestrial policy weak true
        (pos second)
        st.recovery_observed_at
        second
        (pos 10) in
    (res ≡ base)
    ⊎ ((base.decision ≡ failover)
        × (terrestrial ≡ terrestrial)
        × (res.decision ≡ stay)
        × (res.target_path ≡ terrestrial))
anti_flap-gates_example =
    anti_flap-gates terrestrial policy weak 5 true (pos second) second (pos 10) gates zero_state

-- A replayed healthy sample after the recovery clock was cleared: ten minutes of delay are skipped.
replayed : AntiFlapState
replayed = record zero_state { last_counted_observed_at = 5 }

-- "rsrp > -100" at -90 dBm with a margin of 10.
strong_signal : Trigger ℤ
strong_signal = record { metric = rsrp; operator = gt; value = negsuc 99 }

-- "rsrp < -120" at -90 dBm with a margin of 10.
weak_signal : Trigger ℤ
weak_signal = record { metric = rsrp; operator = lt; value = negsuc 119 }

abbrev plan : Policy ℤ
plan = record { triggers = policy; margin = pos 10; delay = pos second; gates = gates }

abbrev sample : Metrics ℤ → Time → Time → Sample ℤ
sample m observed_at now = record {
  path = terrestrial;
  metrics = m;
  observed_at = observed_at;
  available = true;
  now = now;
}

failover-needs_streak_example :
    let h =
      record_reading
        (reading plan (sample weak 6 (2 * second)))
        (run plan (sample weak 5 second ∷ []) zero_state)
        (history plan (sample weak 5 second ∷ []) zero_state []) in
    (all (λ r. r.degraded) (take 2 h) ≡ true) × (length (take 2 h) ≡ 2) × AreDistinct h
unfolding engine run
failover-needs_streak_example =
    failover-needs_streak plan (sample weak 5 second ∷ []) (sample weak 6 (2 * second))
      (omega arith) refl

switchback-needs_recovery_example :
    let h =
      record_reading
        (reading plan (record (sample good 7 (4 * second)) { path = satellite }))
        (run plan (sample weak 5 second ∷ sample good 6 (2 * second) ∷ []) zero_state)
        (history plan (sample weak 5 second ∷ sample good 6 (2 * second) ∷ []) zero_state []) in
    (is_empty (recovery_block h) ≡ false)
    × (ltb_ℤ (sub_time (4 * second) (oldest_now (recovery_block h))) (pos second) ≡ false)
unfolding engine run history record_reading
switchback-needs_recovery_example =
    switchback-needs_recovery plan (sample weak 5 second ∷ sample good 6 (2 * second) ∷ [])
      (sample good 7 (4 * second)) refl refl (omega arith) refl
