-- ===== src/Controller/Durability.antt =====
-- What a reconcile of internal/controller/ntnslice_controller.go does to the durable status, the
-- failover counter, the events and the dwell clock, also where the status write fails.
use mathlib.Core.Bool.{false≢true}
use ntn_operators.Base.{◌+◌, ◌≡◌, ◌≢◌, inl, inr, true, false, Time, arith, Option-cases}
use ntn_operators.Float.{Float}
use ntn_operators.Slice.Path.{PathType, satellite}
use ntn_operators.Slice.Safety.{anti_flap-IsSound, safe_hold-IsSound}
use ntn_operators.Controller.Reconcile.{
  SliceObject, Observation, World, Inputs, same_path, same_status, persist_status_if_changed,
  apply_decision, evaluate_slice, evaluate_reliable, read_path_quality, current_path, reconcile,
}

same_path-satellite : (p : PathType) → same_path satellite p ≡ true → p ≡ satellite
unfolding same_path
same_path-satellite p h = ground arith

module _ {ℓ} {F : Type ℓ} ⦃fl : Float F⦄ where
  -- The failover counter moves exactly with status.failoverCount: over one reconcile both grow by the
  -- same amount, whatever it reads and whether or not the status write succeeds.
  pub reconcile-counts :
      (o : SliceObject) (i : Inputs F) (w : World)
      → (reconcile o i w).failover_total + w.status.failover_count
        ≡ w.failover_total + (reconcile o i w).status.failover_count
  unfolding reconcile persist_status_if_changed apply_decision same_status
  reconcile-counts o i w = ground arith

  reliable-target :
      (o : SliceObject) (v : Observation F) (now : Time) (w : World)
      → (evaluate_reliable o v false now w).result.target_path ≢ satellite
  unfolding evaluate_reliable
  reliable-target o v now w e = false≢true ((anti_flap-IsSound _ _ _ _ _ _ _ _ _ _).to_satellite e)

  evaluate-target :
      (o : SliceObject) (i : Inputs F) (w : World)
      → i.known ≡ true
      → i.available ≡ false
      → (evaluate_slice o i w).result.target_path ≢ satellite
  unfolding evaluate_slice
  evaluate-target o i w known gone = elim (Option-cases (read_path_quality i.now i.read)) [
    | inl none_read ↦
        rw (known, none_read, evaluate_slice, gone)
          (λ e. false≢true (
            (safe_hold-IsSound {F = F} (current_path w.status.active_path_type)
                false).0.to_satellite
              e))
    | inr (v, reliable) ↦ rw (known, reliable, evaluate_slice, gone) (reliable-target o v i.now w)
  ]

  -- Once a reconcile's status is durable, no path is left on a satellite whose pass is known to have
  -- ended: with the availability known and no pass active, the durable path is not the satellite,
  -- whether the metrics are reliable or not. The write may also be skipped for want of a change.
  pub reconcile-leaves_satellite :
      (o : SliceObject) (i : Inputs F) (w : World)
      → i.known ≡ true
      → i.available ≡ false
      → i.write_ok ≡ true
      → (reconcile o i w).status.active_path_type ≢ satellite
  unfolding reconcile persist_status_if_changed apply_decision same_status
  reconcile-leaves_satellite o i w known gone fine e = ground (
    arith,
    evaluate-target o i w known gone,
    same_path-satellite (evaluate_slice o i w).result.target_path,
  )
