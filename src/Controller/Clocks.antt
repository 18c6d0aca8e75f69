-- ===== src/Controller/Clocks.antt =====
-- The clocks of the NTNSlice reconciler across restarts, spec edits, failed writes and gaps in its
-- inputs.
use mathlib.Core.Bool.{false≢true}
use text.Mathlib.TextEquality.{eq_iff}
use ntn_operators.Base.{
  ℕ, ◌+◌, ◌≡◌, ◌≢◌, ◌≤◌, ◌<◌, refl, sym, ◌∙◌, ◌⊎◌, inl, inr, Bool, true, false, ◌&&◌, Option, some,
  String, Time, arith, ◌==◌, is_zero, sub_time, if◌then◌else◌, Bool-cases, Option-cases,
}
use ntn_operators.Base.Dict.{lookup}
use ntn_operators.Float.{Float}
use ntn_operators.Slice.TriggerSet.{terrestrial_degraded, terrestrial_confirmed_recovered}
use ntn_operators.Slice.Path.{
  terrestrial, satellite, Decision, stay, failover, switchback, is_failover,
}
use ntn_operators.Slice.Evaluate.{evaluate_safe_hold}
use ntn_operators.Slice.AntiFlap.{AntiFlapConfig, AntiFlapState, is_new}
use ntn_operators.Slice.Decisions.{
  unconfirmed_gate, dwell_gate, anti_flap-failover_iff, replay-skips_delay,
}
use ntn_operators.Controller.FlapState.{
  NamespacedName, name_key, FlapStateEntry, FlapMap, load_flap_state, reset_recovery_streak,
  seed_last_switchback,
}
use ntn_operators.Controller.Isolation.{insert_self}
use ntn_operators.Controller.Reconcile.{
  SliceObject, Observation, World, Inputs, config_of, parse_margin, current_path, read_path_quality,
  evaluate_slice, evaluate_reliable,
}

-- Whatever the memory holds, the merged dwell clock is not before a durable one that is not ahead of
-- the clock.
pub seed-not_before :
    (now p : Time) (st : AntiFlapState)
    → p ≤ now
    → p ≤ (seed_last_switchback now st (some p)).0.last_switchback
unfolding seed_last_switchback
seed-not_before now p st h = ground arith

not_failover : {d : Decision} → d ≢ failover → is_failover d ≡ false
not_failover {d = stay} h = refl
not_failover {d = failover} h = absurd (h refl)
not_failover {d = switchback} h = refl

load-fresh :
    (key : NamespacedName) (uid : String) (generation : ℕ) (m : FlapMap)
    → ((e : FlapStateEntry) → lookup key m ≡ some e → (e.uid ≢ uid) ⊎ (e.generation ≢ generation))
    → (load_flap_state key uid generation m).0.consecutive_degraded ≡ 0
unfolding load_flap_state
load-fresh key uid generation m fresh = elim (Option-cases (lookup key m)) [
  | inl e ↦ rw (e, load_flap_state)
  | inr (e, found) ↦ rw (found, load_flap_state) (ground (arith, fresh e found, eq_iff e.uid uid))
]

seed-count :
    (now : Time) (st : AntiFlapState) (p : Option Time)
    → (seed_last_switchback now st p).0.consecutive_degraded ≡ st.consecutive_degraded
unfolding seed_last_switchback
seed-count now st p = ground arith

seed-streak :
    (now : Time) (st : AntiFlapState) (p : Option Time)
    → let st' = (seed_last_switchback now st p).0 in
      (st'.recovery_observed_at ≡ st.recovery_observed_at)
      × (st'.last_counted_observed_at ≡ st.last_counted_observed_at)
unfolding seed_last_switchback
seed-streak now st p = (ground arith, ground arith)

not_new :
    (observed_at : Time) (st : AntiFlapState)
    → 0 < observed_at
    → observed_at ≤ st.last_counted_observed_at
    → is_new observed_at st ≡ false
unfolding is_new
not_new observed_at st h k = ground arith

load-held :
    (key : NamespacedName) (uid : String) (generation : ℕ) (m : FlapMap) (e : FlapStateEntry)
    → lookup key m ≡ some e
    → (e.uid ≡ uid) × (e.generation ≡ generation)
    → (load_flap_state key uid generation m).0 ≡ e.state
unfolding load_flap_state
load-held key uid generation m e found same =
    rw (found, load_flap_state) (ground (arith, eq_iff e.uid uid))

lookup-reset :
    (key : NamespacedName) (m : FlapMap) (e : FlapStateEntry)
    → lookup key m ≡ some e
    → (e' : FlapStateEntry) × (lookup key (reset_recovery_streak key m) ≡ some e')
      × (e'.uid ≡ e.uid)
      × (e'.generation ≡ e.generation)
      × (e'.state.recovery_observed_at ≡ 0)
      × (e'.state.last_counted_observed_at ≡ e.state.last_counted_observed_at)
unfolding reset_recovery_streak
lookup-reset key m e found =
    elim (Bool-cases (is_zero e.state.recovery_observed_at && e.state.consecutive_degraded == 0)) [
      | inl clear ↦
          (e, rw (found, reset_recovery_streak) (rw clear found), refl, refl, ground arith, refl)
      | inr busy ↦ (
        record e {
          state = record (e.state) { recovery_observed_at = 0; consecutive_degraded = 0 };
        },
        rw (found, reset_recovery_streak) (rw busy (insert_self key _ m)),
        refl,
        refl,
        refl,
        refl,
      )
    ]

-- A reset clears the recovery clock of the entry and keeps its cursor.
load-reset :
    (key : NamespacedName) (uid : String) (generation : ℕ) (m : FlapMap) (e : FlapStateEntry)
    → lookup key m ≡ some e
    → (e.uid ≡ uid) × (e.generation ≡ generation)
    → let st = (load_flap_state key uid generation (reset_recovery_streak key m)).0 in
      (st.recovery_observed_at ≡ 0)
      × (st.last_counted_observed_at ≡ e.state.last_counted_observed_at)
load-reset key uid generation m e found same =
    let (e', held, uid_kept, generation_kept, clear, cursor) = lookup-reset key m e found in
    let loaded =
      load-held key uid generation _ e' held (uid_kept ∙ same.0, generation_kept ∙ same.1) in
    rw loaded (clear, cursor)

dwell_mono :
    (cfg : AntiFlapConfig) (now p last : Time)
    → 0 < p
    → p ≤ last
    → dwell_gate cfg now p ≡ true
    → dwell_gate cfg now last ≡ true
unfolding sub_time
dwell_mono cfg now p last pos_p le h = ground arith

module _ {ℓ} {F : Type ℓ} ⦃fl : Float F⦄ where
  -- A failover of the reliable branch from terrestrial opened both gates, for the loaded state with the
  -- durable dwell clock merged in.
  reliable-gates :
      (o : SliceObject) (v : Observation F) (available : Bool) (now : Time) (w : World)
      → current_path w.status.active_path_type ≡ terrestrial
      → (evaluate_reliable o v available now w).result.decision ≡ failover
      → let st =
          (seed_last_switchback now
            (load_flap_state o.key o.uid o.generation w.flaps).0
            w.status.last_switchback_time).0 in
        (unconfirmed_gate (config_of o.spec) (
            if is_new v.observed_at st
            then st.consecutive_degraded + 1
            else st.consecutive_degraded)
          ≡ false)
        × (dwell_gate (config_of o.spec) now st.last_switchback ≡ false)
  unfolding evaluate_reliable
  reliable-gates o v available now w on_ground up =
      let st =
        (seed_last_switchback now (load_flap_state o.key o.uid o.generation w.flaps).0
          w.status.last_switchback_time).0 in
      let (fires, pass, confirmed, rested) =
        (anti_flap-failover_iff o.spec.triggers v.metrics v.observed_at available
            o.spec.switchback_delay now (parse_margin o.spec.hysteresis_margin) (config_of o.spec)
            st).0
          (rw on_ground at up) in
      (confirmed, rested)

  reliable-dwells :
      (o : SliceObject) (v : Observation F) (available : Bool) (now p : Time) (w : World)
      → current_path w.status.active_path_type ≡ terrestrial
      → w.status.last_switchback_time ≡ some p
      → 0 < p
      → p ≤ now
      → dwell_gate (config_of o.spec) now p ≡ true
      → (evaluate_reliable o v available now w).result.decision ≢ failover
  reliable-dwells o v available now p w on_ground durable pos_p past within up =
      let af = (load_flap_state o.key o.uid o.generation w.flaps).0 in
      let later : p
          ≤ (seed_last_switchback now af w.status.last_switchback_time).0.last_switchback =
        rw durable (seed-not_before now p af past) in
      false≢true (
        sym (reliable-gates o v available now w on_ground up).1
        ∙ dwell_mono (config_of o.spec) now p _ pos_p later within)

  -- The dwell after a switchback survives a restart: while the durable lastSwitchbackTime lies within
  -- the minimum dwell, no reconcile fails over from terrestrial, whatever it reads and whatever the
  -- anti-flap map holds.
  pub dwell-survives_restart :
      (o : SliceObject) (i : Inputs F) (p : Time) (w : World)
      → current_path w.status.active_path_type ≡ terrestrial
      → w.status.last_switchback_time ≡ some p
      → 0 < p
      → p ≤ i.now
      → dwell_gate (config_of o.spec) i.now p ≡ true
      → is_failover (evaluate_slice o i w).result.decision ≡ false
  unfolding evaluate_slice evaluate_safe_hold
  dwell-survives_restart o i p w on_ground durable pos_p past within =
      elim (Option-cases (read_path_quality i.now i.read)) [
        | inl none_read ↦ rw (none_read, evaluate_slice) (ground arith)
        | inr (v, reliable) ↦ ground (
          arith,
          reliable,
          not_failover
              (reliable-dwells o v i.available i.now p w on_ground durable pos_p past within),
        )
      ]

  reliable-reconfirms :
      (o : SliceObject) (v : Observation F) (available : Bool) (now : Time) (w : World)
      → current_path w.status.active_path_type ≡ terrestrial
      → 1 < (config_of o.spec).confirmation_samples
      → ((e : FlapStateEntry)
          → lookup o.key w.flaps ≡ some e
          → (e.uid ≢ o.uid) ⊎ (e.generation ≢ o.generation))
      → (evaluate_reliable o v available now w).result.decision ≢ failover
  reliable-reconfirms o v available now w on_ground many fresh up =
      let (af, flaps) = load_flap_state o.key o.uid o.generation w.flaps in
      let confirmed = (reliable-gates o v available now w on_ground up).0 in
      ground (
        arith,
        confirmed,
        seed-count now af w.status.last_switchback_time,
        load-fresh o.key o.uid o.generation w.flaps fresh,
        many,
      )

  -- A spec edit, or a new object of the same name, restarts the confirmation: unless the map holds an
  -- entry of this object and generation, N > 1 confirmation samples rule out a failover from
  -- terrestrial in this reconcile, whatever it reads.
  pub new_policy-reconfirms :
      (o : SliceObject) (i : Inputs F) (w : World)
      → current_path w.status.active_path_type ≡ terrestrial
      → 1 < (config_of o.spec).confirmation_samples
      → ((e : FlapStateEntry)
          → lookup o.key w.flaps ≡ some e
          → (e.uid ≢ o.uid) ⊎ (e.generation ≢ o.generation))
      → is_failover (evaluate_slice o i w).result.decision ≡ false
  unfolding evaluate_slice evaluate_safe_hold
  new_policy-reconfirms o i w on_ground many fresh =
      elim (Option-cases (read_path_quality i.now i.read)) [
        | inl none_read ↦ rw (none_read, evaluate_slice) (ground arith)
        | inr (v, reliable) ↦ ground (
          arith,
          reliable,
          not_failover (reliable-reconfirms o v i.available i.now w on_ground many fresh),
        )
      ]

  -- A gap in the availability clears the recovery clock and keeps the cursor: when the next reliable
  -- reading replays an observation that was already counted, and recovery past a margin above zero is
  -- confirmed, the slice switches back in that reconcile, however long its switchback delay is.
  pub gap-skips_delay :
      (o : SliceObject) (v : Observation F) (now : Time) (w : World) (e : FlapStateEntry)
      → current_path w.status.active_path_type ≡ satellite
      → lookup o.key w.flaps ≡ some e
      → (e.uid ≡ o.uid) × (e.generation ≡ o.generation)
      → fl.le (parse_margin o.spec.hysteresis_margin) fl.zero_float ≡ false
      → (0 < v.observed_at) × (v.observed_at ≤ e.state.last_counted_observed_at)
      → terrestrial_degraded o.spec.triggers v.metrics ≡ false
      → terrestrial_confirmed_recovered o.spec.triggers v.metrics
          (parse_margin o.spec.hysteresis_margin)
        ≡ true
      → (evaluate_reliable o v true now
          (record w { flaps = reset_recovery_streak o.key w.flaps })).result.decision
        ≡ switchback
  unfolding evaluate_reliable
  gap-skips_delay o v now w e on_satellite held same margin replay fine up =
      let m = reset_recovery_streak o.key w.flaps in
      let af = (load_flap_state o.key o.uid o.generation m).0 in
      let cleared = load-reset o.key o.uid o.generation w.flaps e held same in
      let kept = seed-streak now af w.status.last_switchback_time in
      rw on_satellite (
        replay-skips_delay o.spec.triggers v.metrics v.observed_at o.spec.switchback_delay now
          (parse_margin o.spec.hysteresis_margin) (config_of o.spec) _ margin
          (not_new v.observed_at _ replay.0 (rw (kept.1, cleared.1) replay.1)) (kept.0 ∙ cleared.0)
          fine up)
