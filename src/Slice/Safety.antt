-- ===== src/Slice/Safety.antt =====
-- The evaluators of failover.go: the path that each recommends.
use ntn_operators.Base.{
  ℕ, ◌≡◌, ◌≢◌, inl, inr, refl, Bool, true, false, List, Text, Time, Duration, arith, Bool-cases,
}
use ntn_operators.Float.{Float}
use ntn_operators.Slice.Trigger.{Metrics}
use ntn_operators.Slice.TriggerSet.{
  TriggerSetResult, terrestrial_degraded, terrestrial_confirmed_recovered,
}
use ntn_operators.Slice.Path.{
  PathType, terrestrial, satellite, stay, failover, switchback, FailoverResult, normalize,
}
use ntn_operators.Slice.Evaluate.{
  decide_path, decide_hysteresis, evaluate_failover_with_context, evaluate_failover_with_hysteresis,
  evaluate_safe_hold,
}
use ntn_operators.Slice.AntiFlap.{
  AntiFlapConfig, AntiFlapState, observe, gate, start_dwell, evaluate_failover_with_anti_flap,
}

pub observe-last_switchback :
    (observed_at : Time) (degraded recovered : Bool) (now : Time) (st : AntiFlapState)
    → (observe observed_at degraded recovered now st).last_switchback ≡ st.last_switchback
unfolding observe
observe-last_switchback observed_at degraded recovered now st = ground arith

module _ {ℓ} {F : Type ℓ} ⦃fl : Float F⦄ where
  -- A result is sound for the path that it starts from: a decision to move fits the target, the
  -- satellite is no target while no pass is active, and a stay stays or gives up an unusable path.
  pub record IsSound (path : PathType) (available : Bool) (res : FailoverResult F) : Type 0 where
    pub to_satellite : res.target_path ≡ satellite → available ≡ true
    pub failover_up : res.decision ≡ failover → res.target_path ≡ satellite
    pub switchback_down : res.decision ≡ switchback → res.target_path ≡ terrestrial
    pub stay_put : res.decision ≡ stay → res.target_path ≡ normalize path

  decide_path-IsSound :
      (path : PathType) (total : ℕ) (ts : TriggerSetResult F) (available : Bool) (delay : Duration)
      (last now : Time)
      → IsSound path available (decide_path (normalize path) total ts available delay last now)
  unfolding decide_path normalize
  decide_path-IsSound terrestrial total ts available delay last now = ground arith
  decide_path-IsSound _ total ts available delay last now = ground arith

  context-IsSound :
      (path : PathType) (triggers : List Text) (m : Metrics F) (available : Bool) (delay : Duration)
      (last now : Time)
      → IsSound path available
          (evaluate_failover_with_context path triggers m available delay last now)
  unfolding evaluate_failover_with_context
  context-IsSound path triggers m available delay last now =
      decide_path-IsSound path _ _ available delay last now

  decide_hysteresis-IsSound :
      (total : ℕ) (ts : TriggerSetResult F) (m : Metrics F) (available : Bool) (delay : Duration)
      (last now : Time) (margin : F)
      → IsSound satellite available (decide_hysteresis total ts m available delay last now margin)
  unfolding decide_hysteresis normalize
  decide_hysteresis-IsSound total ts m available delay last now margin = ground arith

  pub hysteresis-IsSound :
      (path : PathType) (triggers : List Text) (m : Metrics F) (available : Bool) (delay : Duration)
      (last now : Time) (margin : F)
      → IsSound path available
          (evaluate_failover_with_hysteresis path triggers m available delay last now margin)
  unfolding evaluate_failover_with_hysteresis
  hysteresis-IsSound satellite triggers m available delay last now margin =
      elim (Bool-cases (fl.le margin fl.zero_float)) [
        | inl e ↦ rw e (context-IsSound satellite triggers m available delay last now)
        | inr e ↦ rw e (decide_hysteresis-IsSound _ _ m available delay last now margin)
      ]
  hysteresis-IsSound path triggers m available delay last now margin =
      context-IsSound path triggers m available delay last now

  gate-IsSound :
      (cfg : AntiFlapConfig) (path : PathType) (available : Bool) (now : Time) (st : AntiFlapState)
      (res : FailoverResult F)
      → IsSound path available res
      → IsSound path available (gate cfg path now st res)
  unfolding gate normalize
  gate-IsSound cfg terrestrial available now st res v = ground arith
  gate-IsSound cfg path available now st res v = ground arith

  -- The decision of the anti-flap engine is sound for every path, trigger list, metrics, clock and
  -- configuration: it names the satellite only while a pass is active, a failover targets the
  -- satellite, a switchback terrestrial, and a stay the (normalised) current path.
  pub anti_flap-IsSound :
      (path : PathType) (triggers : List Text) (m : Metrics F) (observed_at : Time)
      (available : Bool) (delay : Duration) (now : Time) (margin : F) (cfg : AntiFlapConfig)
      (st : AntiFlapState)
      → IsSound path available
          (evaluate_failover_with_anti_flap path triggers m observed_at available delay now margin
            cfg st).0
  unfolding evaluate_failover_with_anti_flap
  anti_flap-IsSound path triggers m observed_at available delay now margin cfg st =
      gate-IsSound cfg path available now _ _
        (hysteresis-IsSound path triggers m available delay _ now margin)

  -- The fail-static decision is sound in the same sense, and it never fails over.
  pub safe_hold-IsSound :
      (path : PathType) (available : Bool)
      → IsSound path available (evaluate_safe_hold {F = F} path available)
        × ((evaluate_safe_hold {F = F} path available).decision ≢ failover)
  unfolding evaluate_safe_hold normalize
  safe_hold-IsSound terrestrial available = (ground arith, λ e. cc)
  safe_hold-IsSound path available = (ground arith, ground arith)

  -- On a satellite whose pass has ended, every evaluator switches back to terrestrial, whatever the
  -- triggers, the metrics, the delay, the margin, the gates and the clocks say; and the anti-flap
  -- engine then leaves the dwell clock as it was.
  pub pass_ended-switchback :
      (triggers : List Text) (m : Metrics F) (observed_at : Time) (delay : Duration) (now : Time)
      (margin : F) (cfg : AntiFlapConfig) (st : AntiFlapState)
      → let (res, st') =
          evaluate_failover_with_anti_flap satellite triggers m observed_at false delay now margin
            cfg st in
        (res.decision ≡ switchback)
        × (res.target_path ≡ terrestrial)
        × (st'.last_switchback ≡ st.last_switchback)
        × ((evaluate_safe_hold {F = F} satellite false).decision ≡ switchback)
        × ((evaluate_safe_hold {F = F} satellite false).target_path ≡ terrestrial)
  unfolding evaluate_failover_with_anti_flap evaluate_failover_with_hysteresis
      evaluate_failover_with_context evaluate_safe_hold decide_path decide_hysteresis normalize gate
      start_dwell
  pass_ended-switchback triggers m observed_at delay now margin cfg st =
      let kept =
        observe-last_switchback observed_at (terrestrial_degraded triggers m)
          (terrestrial_confirmed_recovered triggers m margin) now st in
      elim (Bool-cases (fl.le margin fl.zero_float)) [
        | inl e ↦ rw e (refl, refl, kept, refl, refl)
        | inr e ↦ rw e (refl, refl, kept, refl, refl)
      ]
