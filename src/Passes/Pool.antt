-- ===== src/Passes/Pool.antt =====
-- pkg/ephemeris/pass_predictor.go: the worker pool of PredictPasses, as the interleaved steps of its
-- workers and of a cancellation. The results of the items are given by `predict`.
use ntn_operators.Base.{
  ℕ, ◌<◌, ◌≡◌, ◌⊎◌, Bool, true, false, ◌||◌, Option, none, some, List, [], ◌∷◌, ◌++◌, length,
}
use ntn_operators.Passes.{PassResult}

-- min(8, len(work))
abbrev pub max_workers : ℕ
max_workers = 8

-- workCh, the items that workers hold, allPasses, firstErr, ctx.Err().
pub record PoolState {ℓ} (W F : Type ℓ) : Type ℓ where
  pub queue : List W
  pub running : List W
  pub all_passes : List (PassResult F)
  pub failed : Bool
  pub cancelled : Bool

abbrev pub passes_of {ℓ} : {F : Type ℓ} → Option (List (PassResult F)) → List (PassResult F)
passes_of none = []
passes_of (some ps) = ps

abbrev pub is_error {ℓ} : {F : Type ℓ} → Option (List (PassResult F)) → Bool
is_error none = true
is_error (some ps) = false

module _ {ℓ} {W F : Type ℓ} (predict : W → Option (List (PassResult F))) where
  unfoldable pub start_pool : List W → PoolState W F
  start_pool work = record {
    queue = work;
    running = [];
    all_passes = [];
    failed = false;
    cancelled = false;
  }

  -- A worker receives an item and finds the context alive, or done; it appends the passes of its item
  -- under the lock; the context is cancelled.
  pub data PoolStep (s t : PoolState W F) : Type ℓ where
    receive :
        (w : W) (rest : List W)
        → s.queue ≡ w ∷ rest
        → s.cancelled ≡ false
        → length s.running < max_workers
        → t ≡ record s { queue = rest; running = w ∷ s.running }
        → PoolStep s t
    give_up :
        (w : W) (rest : List W)
        → s.queue ≡ w ∷ rest
        → s.cancelled ≡ true
        → t ≡ record s { queue = rest }
        → PoolStep s t
    deliver :
        (w : W) (before behind : List W)
        → s.running ≡ before ++ (w ∷ behind)
        → t ≡ record s {
          running = before ++ behind;
          all_passes = s.all_passes ++ passes_of (predict w);
          failed = s.failed || is_error (predict w);
        }
        → PoolStep s t
    cancel : t ≡ record s { cancelled = true } → PoolStep s t

  pub data Reach (s : PoolState W F) : PoolState W F → Type ℓ where
    here : Reach s s
    next : {t u : PoolState W F} → Reach s t → PoolStep t u → Reach s u

  -- wg.Wait() returns: no worker holds an item, and the channel is drained or the context done.
  abbrev pub IsFinished : PoolState W F → Type ℓ
  IsFinished s = (s.running ≡ []) × ((s.queue ≡ []) ⊎ (s.cancelled ≡ true))
