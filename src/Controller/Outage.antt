-- ===== src/Controller/Outage.antt =====
-- internal/controller/ntnslice_controller.go: reconciles in a row that see no availability or no
-- reliable metrics.
use mathlib.Core.Option
use ntn_operators.Base.{
  ◌≡◌, ◌⊎◌, sym, ◌∙◌, subst, ap, inl, inr, Bool, true, false, ◌||◌, any, Option, none, some, List,
  [], ◌∷◌, Time, arith, Option-cases,
}
use ntn_operators.Base.Dict.{lookup}
use ntn_operators.Float.{Float}
use ntn_operators.Slice.Path.{satellite, terrestrial}
use ntn_operators.Controller.FlapState.{name_key, FlapStateEntry, FlapMap, reset_recovery_streak}
use ntn_operators.Controller.Held.{
  failovers, sees_pass_end, evaluate-IsHeld, held-IsUncounted, stored-count, stored-path,
  stored-dwell,
}
use ntn_operators.Controller.Isolation.{insert_self}
use ntn_operators.Controller.Reconcile.{
  SliceObject, SliceStatus, World, Inputs, evaluate_slice, read_path_quality, reconcile,
}

-- What holds from the first world of an outage to the last, with whether a pass was seen to end.
pub record IsStatic (o : SliceObject) (ended : Bool) (v w : World) : Type 0 where
  pub counter : w.failover_total ≡ v.failover_total
  pub count : w.status.failover_count ≡ v.status.failover_count
  pub announced : failovers w.events ≡ failovers v.events
  pub dwell : w.status.last_switchback_time ≡ v.status.last_switchback_time
  pub not_entered : w.status.active_path_type ≡ satellite → v.status.active_path_type ≡ satellite
  pub not_left :
      v.status.active_path_type ≡ satellite
      → (w.status.active_path_type ≡ satellite)
        ⊎ (ended ≡ true) × (w.status.active_path_type ≡ terrestrial)
  pub grounded : v.status.active_path_type ≡ terrestrial → w.status.active_path_type ≡ terrestrial
  pub streaks :
      (e : FlapStateEntry)
      → lookup o.key w.flaps ≡ some e
      → (e.state.consecutive_degraded ≡ 0) × (e.state.recovery_observed_at ≡ 0)

reset-clears :
    (o : SliceObject) (m : FlapMap) (e : FlapStateEntry)
    → lookup o.key (reset_recovery_streak o.key m) ≡ some e
    → (e.state.consecutive_degraded ≡ 0) × (e.state.recovery_observed_at ≡ 0)
unfolding reset_recovery_streak
reset-clears o m e held = elim (Option-cases (lookup o.key m)) [
  | inl k ↦ absurd (cc (k, rw (k, reset_recovery_streak) at held))
  | inr (d, found) ↦ ground (
    arith,
    found,
    held,
    insert_self o.key
        (record d {
          state = record (d.state) { recovery_observed_at = 0; consecutive_degraded = 0 };
        })
        m,
  )
]

-- The last world of an outage, over its inputs.
IsStatic-more :
    (o : SliceObject) (a b : Bool) (u v w : World)
    → IsStatic o a u v
    → IsStatic o b v w
    → IsStatic o (a || b) u w
IsStatic-more o a b u v w h k = record {
  counter = k.counter ∙ h.counter;
  count = k.count ∙ h.count;
  announced = k.announced ∙ h.announced;
  dwell = k.dwell ∙ h.dwell;
  not_entered = λ e. h.not_entered (k.not_entered e);
  not_left = λ e. elim (h.not_left e) [
    | inl s ↦ elim (k.not_left s) [ inl t ↦ inl t | inr (seen, t) ↦ inr (ground (arith, seen), t) ]
    | inr (seen, t) ↦ inr (ground (arith, seen), k.grounded t)
  ];
  grounded = λ e. k.grounded (h.grounded e);
  streaks = k.streaks;
}

module _ {ℓ} {F : Type ℓ} ⦃fl : Float F⦄ where
  -- An input without availability or reliable metrics, whose writes read the dwell clock back as it is.
  abbrev pub IsBlind : Option Time → Inputs F → Type ℓ
  IsBlind t i =
      ((i.known ≡ false) ⊎ (read_path_quality i.now i.read ≡ none)) × (Option.map i.stored t ≡ t)

  -- Such reconciles in a row.
  abbrev pub AreBlind : Option Time → List (Inputs F) → Type ℓ
  AreBlind t [] = Unit
  AreBlind t (i ∷ is) = IsBlind t i × AreBlind t is

  unfoldable pub reconcile_all : SliceObject → List (Inputs F) → World → World
  reconcile_all o [] w = w
  reconcile_all o (i ∷ is) w = reconcile_all o is (reconcile o i w)

  reconcile-IsStatic :
      (o : SliceObject) (i : Inputs F) (w : World)
      → IsBlind w.status.last_switchback_time i
      → IsStatic o (sees_pass_end i) w (reconcile o i w)
  reconcile-IsStatic o i w blind =
      let held = evaluate-IsHeld o i w blind.0 in
      let u = held-IsUncounted o i w held in
      let ev = evaluate_slice o i w in
      let streaks : (e : FlapStateEntry)
          → lookup o.key (reconcile o i w).flaps ≡ some e
          → (e.state.consecutive_degraded ≡ 0) × (e.state.recovery_observed_at ≡ 0) =
        λ e k. reset-clears o w.flaps e (ap (λ (m : FlapMap). lookup o.key m) (sym u.flaps) ∙ k) in
      elim u.status_cases [
        | inl e ↦ record {
          counter = u.total;
          count = ap (λ (s : SliceStatus). s.failover_count) e;
          announced = u.events;
          dwell = ap (λ (s : SliceStatus). s.last_switchback_time) e;
          not_entered = λ k. sym (ap (λ (s : SliceStatus). s.active_path_type) e) ∙ k;
          not_left = λ k. inl (ap (λ (s : SliceStatus). s.active_path_type) e ∙ k);
          grounded = λ k. ap (λ (s : SliceStatus). s.active_path_type) e ∙ k;
          streaks = streaks;
        }
        | inr e ↦
            let path = ap (λ (s : SliceStatus). s.active_path_type) e ∙ stored-path i w ev in
            record {
              counter = u.total;
              count =
                  ap (λ (s : SliceStatus). s.failover_count) e
                  ∙ stored-count i w ev held.no_failover;
              announced = u.events;
              dwell =
                  ap (λ (s : SliceStatus). s.last_switchback_time) e
                  ∙ (stored-dwell i w ev held.no_failover
                      ∙ (ap (Option.map i.stored) held.clock ∙ blind.1));
              not_entered = λ k. held.entered (sym path ∙ k);
              not_left = λ k. elim (held.left k) [
                | inl t ↦ inl (path ∙ t)
                | inr (seen, t) ↦ inr (seen, path ∙ t)
              ];
              grounded = λ k. path ∙ held.stays_grounded k;
              streaks = streaks;
            }
      ]

  blind-same : (t u : Option Time) (is : List (Inputs F)) → u ≡ t → AreBlind t is → AreBlind u is
  blind-same t u is e h = subst (λ (x : Option Time). AreBlind x is) (sym e) h

  run-IsStatic :
      (o : SliceObject) (i : Inputs F) (is : List (Inputs F)) (w : World)
      → IsBlind w.status.last_switchback_time i
      → AreBlind w.status.last_switchback_time is
      → IsStatic o (any sees_pass_end (i ∷ is)) w (reconcile_all o (i ∷ is) w)
  unfolding reconcile_all
  run-IsStatic o i [] w h hs =
      subst (λ (b : Bool). IsStatic o b w (reconcile o i w)) (ground arith)
        (reconcile-IsStatic o i w h)
  run-IsStatic o i (j ∷ is) w h hs =
      let v = reconcile o i w in
      let first = reconcile-IsStatic o i w h in
      let rest =
        blind-same w.status.last_switchback_time v.status.last_switchback_time (j ∷ is) first.dwell
          hs in
      IsStatic-more o (sees_pass_end i) (any sees_pass_end (j ∷ is)) w v _ first
        (run-IsStatic o j is v rest.0 rest.1)

  -- Over any number of reconciles in a row, at least one, in each of which the availability is unknown
  -- or the metrics are unreliable, no failover is counted or announced, the dwell clock stays, and the
  -- path does not come to be the satellite; it leaves the satellite only for terrestrial, where one of
  -- them sees its pass end, and it does not leave terrestrial. An entry of the slice in the anti-flap
  -- map is left with no confirmations and no recovery clock. The status writes may succeed or fail;
  -- the dwell clock is taken to read back from them as it is.
  pub outage-IsStatic :
      (o : SliceObject) (i : Inputs F) (is : List (Inputs F)) (w : World)
      → AreBlind w.status.last_switchback_time (i ∷ is)
      → IsStatic o (any sees_pass_end (i ∷ is)) w (reconcile_all o (i ∷ is) w)
  outage-IsStatic o i is w h = run-IsStatic o i is w h.0 h.1
