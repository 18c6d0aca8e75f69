-- ===== src/Slice/Decisions.antt =====
-- When the engine of failover.go fails over and when it switches back, in terms of the policy's
-- triggers alone: exact conditions for the paths terrestrial and satellite.
use ntn_operators.Base.{
  ℕ, ◌+◌, ◌≡◌, refl, sym, ap, ◌∙◌, ◌⊎◌, ◌↔◌, Bool, true, false, not, ◌&&◌, List, [], ◌∷◌, Text,
  Time, Duration, pos, ltb, ltb_ℤ, is_zero, sub_time, is_empty, arith, if◌then◌else◌,
}
use ntn_operators.Float.{Float}
use ntn_operators.Slice.Trigger.{Metrics, Trigger}
use ntn_operators.Slice.TriggerSet.{
  parse_trigger_set, conclude, terrestrial_degraded, terrestrial_confirmed_recovered,
}
use ntn_operators.Slice.Path.{
  PathType, terrestrial, satellite, stay, failover, switchback, FailoverResult, normalize,
}
use ntn_operators.Slice.Evaluate.{
  delay_pending, decide_path, decide_hysteresis, evaluate_failover_with_context,
  evaluate_failover_with_hysteresis,
}
use ntn_operators.Slice.AntiFlap.{
  AntiFlapConfig, AntiFlapState, is_new, observe, gate, start_dwell,
  evaluate_failover_with_anti_flap,
}
use ntn_operators.Slice.Safety.{observe-last_switchback}
use ntn_operators.Slice.Agreement.{any_fires, parse_trigger_set-agrees, confirmed_recovered-agrees}

-- The two gates on a failover: too few confirmations, and the dwell after a switchback.
abbrev pub unconfirmed_gate : AntiFlapConfig → ℕ → Bool
unconfirmed_gate cfg n = ltb 1 cfg.confirmation_samples && ltb n cfg.confirmation_samples

abbrev pub dwell_gate : AntiFlapConfig → Time → Time → Bool
dwell_gate cfg now last =
    ltb_ℤ (pos 0) cfg.min_terrestrial_dwell
    && not (is_zero last)
    && ltb_ℤ (sub_time now last) cfg.min_terrestrial_dwell

and_true : (a b : Bool) → (a && b) ≡ true → (a ≡ true) × (b ≡ true)
and_true a b h = ground arith

if-switchback :
    (a b c : Bool)
    → (if not a && b && not c then switchback else stay) ≡ switchback
    → (a ≡ false) × (b ≡ true) × (c ≡ false)
if-switchback a b c h = ground arith

if-failover : (b : Bool) → (if b then failover else stay) ≡ failover → b ≡ true
if-failover b h = ground arith

pub observe-count :
    (observed_at : Time) (degraded recovered : Bool) (now : Time) (st : AntiFlapState)
    → degraded ≡ true
    → (observe observed_at degraded recovered now st).consecutive_degraded
      ≡ (if is_new observed_at st then st.consecutive_degraded + 1 else st.consecutive_degraded)
unfolding observe
observe-count observed_at degraded recovered now st h = ground arith

observe-old :
    (observed_at : Time) (degraded recovered : Bool) (now : Time) (st : AntiFlapState)
    → is_new observed_at st ≡ false
    → observe observed_at degraded recovered now st ≡ st
unfolding observe
observe-old observed_at degraded recovered now st h = ground arith

module _ {ℓ} {F : Type ℓ} ⦃fl : Float F⦄ where
  -- A policy with a firing trigger is not all invalid.
  any_fires-nonempty :
      (ts : List (Trigger F)) (m : Metrics F) → any_fires ts m ≡ true → is_empty ts ≡ false
  unfolding any_fires
  any_fires-nonempty [] m h = cc
  any_fires-nonempty (t ∷ ts) m h = refl

  degraded-not_all_invalid :
      (triggers : List Text) (m : Metrics F)
      → terrestrial_degraded triggers m ≡ true
      → (parse_trigger_set triggers m).all_invalid ≡ false
  unfolding parse_trigger_set conclude
  degraded-not_all_invalid triggers m h = ground (
    arith,
    parse_trigger_set-agrees triggers m,
    any_fires-nonempty (parse_trigger_set triggers m).parsed m,
  )

  -- From terrestrial the base engine fails over exactly when a live trigger fires and a pass is
  -- active; otherwise it stays. The delay, the margin and the last failover play no part.
  pub terrestrial-decision :
      (triggers : List Text) (m : Metrics F) (available : Bool) (delay : Duration) (last now : Time)
      (margin : F)
      → (evaluate_failover_with_hysteresis terrestrial triggers m available delay last now
          margin).decision
        ≡ (if terrestrial_degraded triggers m && available then failover else stay)
  unfolding evaluate_failover_with_hysteresis evaluate_failover_with_context decide_path normalize
  terrestrial-decision triggers m available delay last now margin =
      ground (arith, (parse_trigger_set-agrees triggers m).1, degraded-not_all_invalid triggers m)

  -- From a satellite in an active pass, with a margin above zero, the engine switches back exactly
  -- when no trigger fires, recovery past the margin is confirmed, and no switchback delay is
  -- pending; otherwise it stays.
  pub satellite-decision :
      (triggers : List Text) (m : Metrics F) (delay : Duration) (last now : Time) (margin : F)
      → fl.le margin fl.zero_float ≡ false
      → (evaluate_failover_with_hysteresis satellite triggers m true delay last now margin).decision
        ≡ (if not (terrestrial_degraded triggers m)
              && terrestrial_confirmed_recovered triggers m margin
              && not (delay_pending delay last now)
            then switchback
            else stay)
  unfolding evaluate_failover_with_hysteresis decide_hysteresis
  satellite-decision triggers m delay last now margin h = rw h (
      ground (
        arith,
        (parse_trigger_set-agrees triggers m).1,
        confirmed_recovered-agrees triggers m margin,
      ))

  gate-terrestrial :
      (cfg : AntiFlapConfig) (now : Time) (st : AntiFlapState) (res : FailoverResult F)
      → ((gate cfg terrestrial now st res).decision ≡ failover) ↔ (
          (res.decision ≡ failover)
          × (unconfirmed_gate cfg st.consecutive_degraded ≡ false)
          × (dwell_gate cfg now st.last_switchback ≡ false))
  unfolding gate
  gate-terrestrial cfg now st res = (ground arith, ground arith)

  gate-satellite :
      (cfg : AntiFlapConfig) (now : Time) (st : AntiFlapState) (res : FailoverResult F)
      → (gate cfg satellite now st res).decision ≡ res.decision
  unfolding gate
  gate-satellite cfg now st res = ground arith

  gate-cases :
      (cfg : AntiFlapConfig) (path : PathType) (now : Time) (st : AntiFlapState)
      (res : FailoverResult F)
      → (gate cfg path now st res ≡ res)
        ⊎ ((res.decision ≡ failover)
            × (path ≡ terrestrial)
            × ((gate cfg path now st res).decision ≡ stay)
            × ((gate cfg path now st res).target_path ≡ terrestrial))
  unfolding gate
  gate-cases cfg path now st res = ground arith

  start_dwell-recovery :
      (path : PathType) (available : Bool) (now : Time) (res : FailoverResult F)
      (st : AntiFlapState)
      → (start_dwell path available now res st).recovery_observed_at ≡ st.recovery_observed_at
  unfolding start_dwell
  start_dwell-recovery path available now res st = ground arith

  -- From terrestrial the anti-flap engine fails over exactly when a live trigger fires, a pass is
  -- active, the counter has reached the confirmation samples (with this sample counted, where it is
  -- a new observation), and the dwell after the last switchback is over.
  pub anti_flap-failover_iff :
      (triggers : List Text) (m : Metrics F) (observed_at : Time) (available : Bool)
      (delay : Duration) (now : Time) (margin : F) (cfg : AntiFlapConfig) (st : AntiFlapState)
      → let n =
          if is_new observed_at st then st.consecutive_degraded + 1 else st.consecutive_degraded in
        ((evaluate_failover_with_anti_flap terrestrial triggers m observed_at available delay now
            margin cfg st).0.decision
          ≡ failover)
        ↔ ((terrestrial_degraded triggers m ≡ true)
            × (available ≡ true)
            × (unconfirmed_gate cfg n ≡ false)
            × (dwell_gate cfg now st.last_switchback ≡ false))
  unfolding evaluate_failover_with_anti_flap
  anti_flap-failover_iff triggers m observed_at available delay now margin cfg st =
      let degraded = terrestrial_degraded triggers m in
      let st1 =
        observe observed_at degraded (terrestrial_confirmed_recovered triggers m margin) now st in
      let base =
        evaluate_failover_with_hysteresis terrestrial triggers m available delay
          st1.recovery_observed_at now margin in
      let count =
        observe-count observed_at degraded (terrestrial_confirmed_recovered triggers m margin) now
          st in
      let kept =
        observe-last_switchback observed_at degraded
          (terrestrial_confirmed_recovered triggers m margin) now st in
      let gates = gate-terrestrial cfg now st1 base in
      let decision =
        terrestrial-decision triggers m available delay st1.recovery_observed_at now margin in
      let same_gate = ap (dwell_gate cfg now) kept in
      (
        λ h.
            let (base_up, confirmed, rested) = gates.0 h in
            let up = if-failover (degraded && available) (sym decision ∙ base_up) in
            let parts = and_true degraded available up in
            (
              parts.0,
              parts.1,
              sym (ap (unconfirmed_gate cfg) (count parts.0)) ∙ confirmed,
              sym same_gate ∙ rested,
            ),
        λ h.
            let (fires, pass, confirmed, rested) = h in
            gates.1 (
              decision ∙ rw (fires, pass),
              ap (unconfirmed_gate cfg) (count fires) ∙ confirmed,
              same_gate ∙ rested,
            ),
      )

  -- The gates only hold back: the decision of the anti-flap engine is the base engine's at the
  -- recovery clock, result and reason included, or it is a stay on terrestrial in place of the base
  -- engine's failover from there.
  pub anti_flap-gates :
      (path : PathType) (triggers : List Text) (m : Metrics F) (observed_at : Time)
      (available : Bool) (delay : Duration) (now : Time) (margin : F) (cfg : AntiFlapConfig)
      (st : AntiFlapState)
      → let (res, st') =
          evaluate_failover_with_anti_flap path triggers m observed_at available delay now margin
            cfg st in
        let base =
          evaluate_failover_with_hysteresis path triggers m available delay st'.recovery_observed_at
            now margin in
        (res ≡ base)
        ⊎ ((base.decision ≡ failover)
            × (path ≡ terrestrial)
            × (res.decision ≡ stay)
            × (res.target_path ≡ terrestrial))
  unfolding evaluate_failover_with_anti_flap
  anti_flap-gates path triggers m observed_at available delay now margin cfg st =
      rw start_dwell-recovery (gate-cases cfg path now _ _)

  -- A sample that is no new observation, on a satellite in an active pass, with the recovery clock
  -- cleared: once no trigger fires and recovery past the margin is confirmed the engine switches
  -- back at once, however long the switchback delay is.
  pub replay-skips_delay :
      (triggers : List Text) (m : Metrics F) (observed_at : Time) (delay : Duration) (now : Time)
      (margin : F) (cfg : AntiFlapConfig) (st : AntiFlapState)
      → fl.le margin fl.zero_float ≡ false
      → is_new observed_at st ≡ false
      → st.recovery_observed_at ≡ 0
      → terrestrial_degraded triggers m ≡ false
      → terrestrial_confirmed_recovered triggers m margin ≡ true
      → (evaluate_failover_with_anti_flap satellite triggers m observed_at true delay now margin cfg
          st).0.decision
        ≡ switchback
  unfolding evaluate_failover_with_anti_flap delay_pending
  replay-skips_delay triggers m observed_at delay now margin cfg st pos_margin old clear fine up =
      let base = satellite-decision triggers m delay 0 now margin pos_margin in
      rw (observe-old observed_at _ _ now st old)
        (gate-satellite cfg now st _ ∙ rw clear (base ∙ rw (fine, up)))

  -- What a switchback from a satellite in an active pass tells, with the recovery clock that the
  -- sample has already advanced.
  pub anti_flap-switchback :
      (triggers : List Text) (m : Metrics F) (observed_at : Time) (delay : Duration) (now : Time)
      (margin : F) (cfg : AntiFlapConfig) (st : AntiFlapState)
      → let degraded = terrestrial_degraded triggers m in
        let recovered = terrestrial_confirmed_recovered triggers m margin in
        fl.le margin fl.zero_float ≡ false
        → (evaluate_failover_with_anti_flap satellite triggers m observed_at true delay now margin
            cfg st).0.decision
          ≡ switchback
        → (degraded ≡ false)
          × (recovered ≡ true)
          × (delay_pending delay
                (observe observed_at degraded recovered now st).recovery_observed_at
                now
              ≡ false)
  unfolding evaluate_failover_with_anti_flap
  anti_flap-switchback triggers m observed_at delay now margin cfg st margin_pos down =
      let st1 =
        observe observed_at (terrestrial_degraded triggers m)
          (terrestrial_confirmed_recovered triggers m margin) now st in
      if-switchback _ _ _ (
        sym (satellite-decision triggers m delay st1.recovery_observed_at now margin margin_pos)
        ∙ sym (gate-satellite cfg now st1 _)
        ∙ down)
