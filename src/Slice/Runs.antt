-- ===== src/Slice/Runs.antt =====
-- Runs of the anti-flap engine of failover.go under one policy: a history of the observations that
-- it counted explains its counter, its recovery clock and its cursor.
use ntn_operators.Base.{
  ℕ, zero, suc, ◌≤◌, ◌<◌, ◌≡◌, refl, sym, ap, ◌∙◌, ◌⊎◌, inl, inr, Bool, true, false, not, ◌&&◌,
  List, [], ◌∷◌, Text, Time, Duration, ltb_ℤ, is_zero, sub_time, all, length, take, is_empty, arith,
  if◌then◌else◌, Bool-cases,
}
use ntn_operators.Float.{Float}
use ntn_operators.Slice.Trigger.{Metrics}
use ntn_operators.Slice.TriggerSet.{terrestrial_degraded, terrestrial_confirmed_recovered}
use ntn_operators.Slice.Path.{
  PathType, terrestrial, satellite, failover, switchback, FailoverResult, is_satellite,
  is_switchback,
}
use ntn_operators.Slice.Evaluate.{delay_pending}
use ntn_operators.Slice.Decisions.{anti_flap-failover_iff, anti_flap-switchback, observe-count}
use ntn_operators.Slice.AntiFlap.{
  AntiFlapConfig, AntiFlapState, zero_state, is_new, observe, start_dwell,
  evaluate_failover_with_anti_flap,
}

-- What the engine reads of one sample.
pub record Reading : Type 0 where
  pub observed_at : Time
  pub degraded : Bool
  pub recovered : Bool
  pub now : Time

-- The newest counted reading comes first.
abbrev pub History : Type 0
History = List Reading

-- A reading of confirmed recovery, as the `switch` of step 1 takes it.
abbrev pub is_recovery : Reading → Bool
is_recovery r = not r.degraded && r.recovered

-- How many of the newest readings are degraded without a break.
abbrev pub streak : History → ℕ
streak [] = 0
streak (r ∷ h) = let rest = streak h in if r.degraded then suc rest else 0

-- The newest unbroken block of recovery, and the time at which its oldest reading was taken.
abbrev pub recovery_block : History → History
recovery_block [] = []
recovery_block (r ∷ h) = let rest = recovery_block h in if is_recovery r then r ∷ rest else []

abbrev pub oldest_now : History → Time
oldest_now [] = 0
oldest_now (r ∷ []) = r.now
oldest_now (r ∷ q ∷ h) = oldest_now (q ∷ h)

-- Each counted observation is newer than the one counted before it, unless it has no timestamp.
abbrev pub AreDistinct : History → Type 0
AreDistinct [] = Unit {0}
AreDistinct (r ∷ []) = Unit {0}
AreDistinct (r ∷ q ∷ h) =
    ((r.observed_at ≡ 0) ⊎ (q.observed_at < r.observed_at)) × AreDistinct (q ∷ h)

abbrev pub AreTimed : History → Type 0
AreTimed [] = Unit {0}
AreTimed (r ∷ h) = (0 < r.now) × AreTimed h

abbrev cursor : History → Time
cursor [] = 0
cursor (r ∷ h) = r.observed_at

record Explains (h : History) (st : AntiFlapState) : Type 0 where
  counter : st.consecutive_degraded ≡ streak h
  clock : AreTimed h → st.recovery_observed_at ≡ oldest_now (recovery_block h)
  cursor_at : st.last_counted_observed_at ≡ cursor h
  distinct : AreDistinct h

-- A reading joins the history where it is new.
unfoldable pub record_reading : Reading → AntiFlapState → History → History
record_reading r st h = if is_new r.observed_at st then r ∷ h else h

oldest_now-cons :
    (r : Reading) (b : History) → oldest_now (r ∷ b) ≡ (if is_empty b then r.now else oldest_now b)
oldest_now-cons r [] = refl
oldest_now-cons r (q ∷ b) = refl

block-is_empty :
    (h : History)
    → AreTimed h
    → is_empty (recovery_block h) ≡ is_zero (oldest_now (recovery_block h))
block-is_empty [] t = refl
block-is_empty (r ∷ h) t =
    ground (arith, oldest_now-cons r (recovery_block h), block-is_empty h t.1)

distinct-cons :
    (r : Reading) (h : History)
    → (r.observed_at ≡ 0) ⊎ (cursor h < r.observed_at)
    → AreDistinct h
    → AreDistinct (r ∷ h)
distinct-cons r [] f d = tt
distinct-cons r (q ∷ h) f d = (f, d)

observe-Explains :
    (r : Reading) (st : AntiFlapState) (h : History)
    → Explains h st
    → Explains (record_reading r st h) (observe r.observed_at r.degraded r.recovered r.now st)
unfolding observe record_reading
observe-Explains r st h e = elim (Bool-cases (is_new r.observed_at st)) [
  | inr old ↦ rw old e
  | inl new ↦ rw new (record {
    counter = ground (arith, e.counter);
    clock = λ t.
        ground (arith, e.clock t.1, oldest_now-cons r (recovery_block h), block-is_empty h t.1);
    cursor_at = refl;
    distinct = distinct-cons r h (ground (arith, e.cursor_at)) e.distinct;
  })
]

start_dwell-Explains {ℓ} :
    {F : Type ℓ} (h : History) (path : PathType) (available : Bool) (now : Time)
    (res : FailoverResult F) (st : AntiFlapState)
    → Explains h st
    → Explains h (start_dwell path available now res st)
unfolding start_dwell
start_dwell-Explains h path available now res st e =
    elim (Bool-cases (is_switchback res.decision && available && is_satellite path)) [
      | inl y ↦ rw y (record {
        counter = e.counter;
        clock = e.clock;
        cursor_at = e.cursor_at;
        distinct = e.distinct;
      })
      | inr n ↦ rw n e
    ]

zero-Explains : Explains [] zero_state
zero-Explains = record { counter = refl; clock = λ t. refl; cursor_at = refl; distinct = tt }

block-filled :
    (r : Reading) (st : AntiFlapState) (h : History)
    → is_new r.observed_at st ≡ true
    → r.degraded ≡ false
    → r.recovered ≡ true
    → is_empty (recovery_block (record_reading r st h)) ≡ false
unfolding record_reading
block-filled r st h new fine up = rw (new, fine, up)

delay-over :
    (delay : Duration) (last now : Time)
    → delay_pending delay last now ≡ false
    → is_zero last ≡ false
    → ltb_ℤ (sub_time now last) delay ≡ false
unfolding delay_pending
delay-over delay last now h k = ground arith

streak-all :
    (n : ℕ) (h : History)
    → n ≤ streak h
    → (all (λ r. r.degraded) (take n h) ≡ true) × (length (take n h) ≡ n)
streak-all zero h le = (refl, refl)
streak-all (suc n) [] le = absurd (omega arith)
streak-all (suc n) (r ∷ h) le = elim (Bool-cases r.degraded) [
  | inl e ↦
      let ih = streak-all n h (ground (arith, le)) in (ground (arith, ih.0), omega (arith, ih.1))
  | inr e ↦ absurd (ground (arith, le))
]

-- The policy of a slice: what does not change from sample to sample.
pub record Policy {ℓ} (F : Type ℓ) : Type ℓ where
  pub triggers : List Text
  pub margin : F
  pub delay : Duration
  pub gates : AntiFlapConfig

-- One call of the engine: the path is whatever the caller reads from the status.
pub record Sample {ℓ} (F : Type ℓ) : Type ℓ where
  pub path : PathType
  pub metrics : Metrics F
  pub observed_at : Time
  pub available : Bool
  pub now : Time

module _ {ℓ} {F : Type ℓ} ⦃fl : Float F⦄ where
  abbrev pub reading : Policy F → Sample F → Reading
  reading p s = record {
    observed_at = s.observed_at;
    degraded = terrestrial_degraded p.triggers s.metrics;
    recovered = terrestrial_confirmed_recovered p.triggers s.metrics p.margin;
    now = s.now;
  }

  abbrev pub call : Policy F → Sample F → AntiFlapState → FailoverResult F × AntiFlapState
  call p s st =
      evaluate_failover_with_anti_flap s.path p.triggers s.metrics s.observed_at s.available p.delay
        s.now p.margin p.gates st

  -- The state after a list of calls, and the history of the readings that they counted.
  unfoldable pub run : Policy F → List (Sample F) → AntiFlapState → AntiFlapState
  run p [] st = st
  run p (s ∷ ss) st = run p ss (call p s st).1

  unfoldable pub history : Policy F → List (Sample F) → AntiFlapState → History → History
  history p [] st h = h
  history p (s ∷ ss) st h = history p ss (call p s st).1 (record_reading (reading p s) st h)

  call-Explains :
      (p : Policy F) (s : Sample F) (st : AntiFlapState) (h : History)
      → Explains h st
      → Explains (record_reading (reading p s) st h) (call p s st).1
  unfolding evaluate_failover_with_anti_flap
  call-Explains p s st h e =
      start_dwell-Explains _ s.path s.available s.now _ _ (observe-Explains (reading p s) st h e)

  run-Explains :
      (p : Policy F) (ss : List (Sample F)) (st : AntiFlapState) (h : History)
      → Explains h st
      → Explains (history p ss st h) (run p ss st)
  unfolding run history
  run-Explains p [] st h e = e
  run-Explains p (s ∷ ss) st h e = run-Explains p ss _ _ (call-Explains p s st h e)

  -- After any calls from the zero state, a failover from terrestrial under N > 1 confirmation samples
  -- means that the N newest counted observations, the present one among them where it is new, were
  -- all degraded, and that each of them was newer than the one counted before it, but for those
  -- without a timestamp.
  pub failover-needs_streak :
      (p : Policy F) (ss : List (Sample F)) (s : Sample F)
      → let st = run p ss zero_state in
        let s' = record s { path = terrestrial } in
        let h = record_reading (reading p s') st (history p ss zero_state []) in
        let n = p.gates.confirmation_samples in
        1 < n
        → (call p s' st).0.decision ≡ failover
        → (all (λ r. r.degraded) (take n h) ≡ true) × (length (take n h) ≡ n) × AreDistinct h
  failover-needs_streak p ss s many up =
      let st = run p ss zero_state in
      let s' : Sample F = record s { path = terrestrial } in
      let r = reading p s' in
      let e = observe-Explains r st _ (run-Explains p ss zero_state [] zero-Explains) in
      let (fires, pass, confirmed, rested) =
        (anti_flap-failover_iff p.triggers s.metrics s.observed_at s.available p.delay s.now
            p.margin p.gates st).0
          up in
      let count = observe-count s.observed_at r.degraded r.recovered s.now st fires in
      let (degraded, enough) =
        streak-all p.gates.confirmation_samples _
          (ground (arith, e.counter, count, confirmed, many)) in
      (degraded, enough, e.distinct)

  -- After any calls from the zero state, at clock readings above the zero time, a switchback from a
  -- satellite in an active pass on a new observation, with a margin above zero, means that the newest
  -- counted observations form an unbroken block of confirmed recovery, the present one among them,
  -- whose oldest was taken at least the switchback delay ago.
  pub switchback-needs_recovery :
      (p : Policy F) (ss : List (Sample F)) (s : Sample F)
      → let st = run p ss zero_state in
        let s' = record s { path = satellite; available = true } in
        let h = record_reading (reading p s') st (history p ss zero_state []) in
        fl.le p.margin fl.zero_float ≡ false
        → is_new s.observed_at st ≡ true
        → AreTimed h
        → (call p s' st).0.decision ≡ switchback
        → (is_empty (recovery_block h) ≡ false)
          × (ltb_ℤ (sub_time s.now (oldest_now (recovery_block h))) p.delay ≡ false)
  switchback-needs_recovery p ss s margin new timed down =
      let st = run p ss zero_state in
      let s' : Sample F = record s { path = satellite; available = true } in
      let r = reading p s' in
      let e = observe-Explains r st _ (run-Explains p ss zero_state [] zero-Explains) in
      let (fine, up, over) =
        anti_flap-switchback p.triggers s.metrics s.observed_at p.delay s.now p.margin p.gates st
          margin down in
      let block = record_reading r st (history p ss zero_state []) in
      let filled = block-filled r st (history p ss zero_state []) new fine up in
      let over' = ap (λ t. delay_pending p.delay t s.now) (sym (e.clock timed)) ∙ over in
      (filled, delay-over p.delay _ s.now over' (sym (block-is_empty block timed) ∙ filled))
