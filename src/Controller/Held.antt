-- ===== src/Controller/Held.antt =====
-- internal/controller/ntnslice_controller.go: one reconcile that sees no availability or no reliable
-- metrics.
use mathlib.Core.Option
use ntn_operators.Base.{
  ℕ, ◌+◌, ◌≡◌, ◌⊎◌, refl, ◌∙◌, ap, inl, inr, Bool, true, false, not, ◌&&◌, none, some, List, [],
  ◌∷◌, ◌++◌, arith, Bool-cases,
}
use ntn_operators.Float.{Float}
use ntn_operators.Slice.Path.{
  Decision, stay, switchback, PathType, satellite, terrestrial, failover, is_failover, normalize,
}
use ntn_operators.Slice.Evaluate.{evaluate_safe_hold}
use ntn_operators.Controller.FlapState.{name_key, reset_recovery_streak}
use ntn_operators.Controller.Reconcile.{
  SliceObject, SliceStatus, SliceEvent, failover_triggered, switched_back, World, Inputs,
  same_status, store_status, persist_status_if_changed, apply_decision, decision_event, commit_flap,
  Evaluated, evaluate_slice, read_path_quality, current_path, reconcile,
}

-- How many events announce a failover.
abbrev pub failovers : List SliceEvent → ℕ
failovers [] = 0
failovers (failover_triggered a b ∷ es) = failovers es + 1
failovers (switched_back a b ∷ es) = failovers es

failovers-append : (a b : List SliceEvent) → failovers (a ++ b) ≡ failovers a + failovers b
failovers-append [] b = omega arith
failovers-append (failover_triggered x y ∷ a) b = omega (arith, failovers-append a b)
failovers-append (switched_back x y ∷ a) b = omega (arith, failovers-append a b)

no_event :
    (d : Decision) (p q : PathType) → is_failover d ≡ false → failovers (decision_event d p q) ≡ 0
unfolding decision_event
no_event failover p q h = absurd (cc)
no_event stay p q h = refl
no_event switchback p q h = refl

-- The pass is known to have ended.
abbrev pub sees_pass_end {ℓ} : {F : Type ℓ} → Inputs F → Bool
sees_pass_end i = i.known && not i.available

module _ {ℓ} {F : Type ℓ} ⦃fl : Float F⦄ where
  -- What a blind evaluation gives.
  pub record IsHeld (o : SliceObject) (i : Inputs F) (w : World) (ev : Evaluated F) : Type ℓ where
    pub no_failover : is_failover ev.result.decision ≡ false
    pub clock : ev.last_switchback_time ≡ w.status.last_switchback_time
    pub reset : ev.flaps ≡ reset_recovery_streak o.key w.flaps
    pub pending : ev.pending_flap ≡ none
    pub entered : ev.result.target_path ≡ satellite → w.status.active_path_type ≡ satellite
    pub stays_grounded :
        w.status.active_path_type ≡ terrestrial → ev.result.target_path ≡ terrestrial
    pub left :
        w.status.active_path_type ≡ satellite
        → (ev.result.target_path ≡ satellite)
          ⊎ (sees_pass_end i ≡ true) × (ev.result.target_path ≡ terrestrial)

  pub evaluate-IsHeld :
      (o : SliceObject) (i : Inputs F) (w : World)
      → (i.known ≡ false) ⊎ (read_path_quality i.now i.read ≡ none)
      → IsHeld o i w (evaluate_slice o i w)
  unfolding evaluate_slice evaluate_safe_hold normalize
  evaluate-IsHeld o i w h = record {
    no_failover = ground arith;
    clock = ground arith;
    reset = ground arith;
    pending = ground arith;
    entered = λ e. ground (arith, e);
    stays_grounded = λ e. ground (arith, e);
    left = λ e. ground (arith, e);
  }

  persist-cases :
      (i : Inputs F) (old new : SliceStatus)
      → (persist_status_if_changed i old new ≡ none)
        ⊎ ((persist_status_if_changed i old new ≡ some old)
            ⊎ (persist_status_if_changed i old new ≡ some (store_status i.stored new)))
  unfolding persist_status_if_changed
  persist-cases i old new = elim (Bool-cases (same_status old new && not i.other_changes)) [
    | inl e ↦ inr (inl (rw (persist_status_if_changed, e)))
    | inr e ↦ elim (Bool-cases i.write_ok) [
      | inl b ↦ inr (inr (rw (persist_status_if_changed, e, b)))
      | inr b ↦ inl (rw (persist_status_if_changed, e, b))
    ]
  ]

  -- The status of a blind reconcile: that of before, or the decided one as it is stored.
  abbrev pub IsStored : Inputs F → World → Evaluated F → World → Type 0
  IsStored i w ev w' =
      (w'.status ≡ w.status)
      ⊎ (w'.status ≡ store_status i.stored (apply_decision i.now ev w.status))

  -- A reconcile whose decision is held, but for its status.
  pub record IsUncounted (o : SliceObject) (i : Inputs F) (w : World) (w' : World) : Type ℓ where
    pub status_cases : IsStored i w (evaluate_slice o i w) w'
    pub total : w'.failover_total ≡ w.failover_total
    pub events : failovers w'.events ≡ failovers w.events
    pub flaps : w'.flaps ≡ reset_recovery_streak o.key w.flaps

  pub held-IsUncounted :
      (o : SliceObject) (i : Inputs F) (w : World)
      → IsHeld o i w (evaluate_slice o i w)
      → IsUncounted o i w (reconcile o i w)
  unfolding reconcile commit_flap
  held-IsUncounted o i w h =
      let ev = evaluate_slice o i w in
      let p = current_path w.status.active_path_type in
      let es = decision_event ev.result.decision p ev.result.target_path in
      let quiet =
        failovers-append w.events es
        ∙ ap (λ (n : ℕ). failovers w.events + n)
            (no_event ev.result.decision p ev.result.target_path h.no_failover) in
      elim (persist-cases i w.status (apply_decision i.now ev w.status)) [
        | inl e ↦
            rw (reconcile, e)
              (record { status_cases = inl refl; total = refl; events = refl; flaps = h.reset })
        | inr (inl e) ↦
            rw (reconcile, e)
              (record {
                status_cases = inl refl;
                total = rw (h.no_failover) refl;
                events = omega (arith, quiet);
                flaps = rw (h.pending) (h.reset);
              })
        | inr (inr e) ↦
            rw (reconcile, e)
              (record {
                status_cases = inr refl;
                total = rw (h.no_failover) refl;
                events = omega (arith, quiet);
                flaps = rw (h.pending) (h.reset);
              })
      ]

  -- The fields of a decided status that was stored.
  pub stored-count :
      (i : Inputs F) (w : World) (ev : Evaluated F)
      → is_failover ev.result.decision ≡ false
      → (store_status i.stored (apply_decision i.now ev w.status)).failover_count
        ≡ w.status.failover_count
  unfolding store_status apply_decision
  stored-count i w ev h = rw (apply_decision, h) refl

  pub stored-path :
      (i : Inputs F) (w : World) (ev : Evaluated F)
      → (store_status i.stored (apply_decision i.now ev w.status)).active_path_type
        ≡ ev.result.target_path
  unfolding store_status apply_decision
  stored-path i w ev = elim (Bool-cases (is_failover ev.result.decision)) [
    | inl h ↦ rw (apply_decision, h) refl
    | inr h ↦ rw (apply_decision, h) refl
  ]

  pub stored-dwell :
      (i : Inputs F) (w : World) (ev : Evaluated F)
      → is_failover ev.result.decision ≡ false
      → (store_status i.stored (apply_decision i.now ev w.status)).last_switchback_time
        ≡ Option.map i.stored ev.last_switchback_time
  unfolding store_status apply_decision
  stored-dwell i w ev h = rw (apply_decision, h) refl
