-- ===== src/Readers/Stale.antt =====
-- pkg/slice/metrics/stale.go: staleCache.Read.
use ntn_operators.Base.{ℕ, ◌+◌, Bool, true, none, some, List, Text, is_empty, Time, if◌then◌else◌}
use ntn_operators.Base.Dict.{lookup, insert}
use ntn_operators.Slice.Trigger.{Metrics}
use ntn_operators.Readers.{
  Sample, missing_uid, context_done, no_value, Outcome, got, failed, text_key,
}

pub record StaleEntry {ℓ} (F : Type ℓ) : Type ℓ where
  pub metrics : Metrics F
  pub fresh_at : Time
  pub observed_at : Time

-- The cache, and the counter ReaderStaleUsedTotal over all slices.
pub record CacheState {ℓ} (F : Type ℓ) : Type ℓ where
  pub cache : List (Text × StaleEntry F)
  pub stale_used : ℕ

module _ {ℓ} {F : Type ℓ} where
  abbrev pub entry_of : Sample F → Time → StaleEntry F
  entry_of s now = record { metrics = s.metrics; fresh_at = now; observed_at = s.observed_at }

  abbrev pub replay : StaleEntry F → Sample F
  replay e = record {
    metrics = e.metrics;
    stale = true;
    last_fresh_at = e.fresh_at;
    observed_at = e.observed_at;
  }

  -- The uid of the slice, what the inner reader gives, whether the parent context is done, the clock.
  unfoldable pub read_stale :
      Text → Outcome (Sample F) → Bool → Time → CacheState F → Outcome (Sample F) × CacheState F
  read_stale uid inner ctx_done now c =
      if is_empty uid then (failed missing_uid, c) else elim inner [
        | got s ↦ (
          got (record s { last_fresh_at = now }),
          record c { cache = insert uid (entry_of s now) c.cache },
        )
        | failed e ↦ if ctx_done then (failed context_done, c) else elim (lookup uid c.cache) [
          | none ↦ (failed (no_value e), c)
          | some entry ↦ (got (replay entry), record c { stale_used = c.stale_used + 1 })
        ]
      ]
