-- ===== src/Satellite/Cache.antt =====
-- internal/controller/satelliteephemeris_controller.go: the cache of fetched element sets, and when it
-- answers a reconcile without the source.
use text.Mathlib.Text.{◌==◌ as str_eq}
use ntn_operators.Base.{
  Bool, ◌&&◌, Option, none, some, List, [], Text, text_eq, Time, Duration, sub_time, ltb_ℤ, ltb,
  if◌then◌else◌,
}
use ntn_operators.Base.Dict.{lookup}
use ntn_operators.Controller.FlapState.{NamespacedName, name_key}
use ntn_operators.Satellite.{EphemerisSpec, EphemerisObject, Printer}
use ntn_operators.Satellite.Backoff.{CachedFetch}

abbrev pub OmmCache {ℓ} : (E F : Type ℓ) → Type ℓ
OmmCache E F = List (NamespacedName × CachedFetch E F)

module _ (print : Printer) where
  unfoldable pub fetch_input_key : EphemerisSpec → Text
  fetch_input_key spec = print.print_fetch_key spec.source_type spec.url

  unfoldable pub retry_input_key : EphemerisSpec → Duration → Text
  retry_input_key spec interval = elim spec.credentials [
    | none ↦ print.print_retry_key [] [] interval
    | some c ↦ print.print_retry_key c.name c.key interval
  ]

-- cacheServeWindow, cacheServeBackoff and cacheServeNone, with the entry that is served.
pub data CacheServe {ℓ} (E F : Type ℓ) : Type ℓ where
  serve_none : CacheServe E F
  serve_window serve_backoff : CachedFetch E F → CacheServe E F

module _ {ℓ} {E F : Type ℓ} (print : Printer) where
  unfoldable pub is_matching : EphemerisObject → CachedFetch E F → Bool
  is_matching o c = text_eq c.fetch_key (fetch_input_key print o.spec) && str_eq c.uid o.uid

  unfoldable pub matching_cache : EphemerisObject → OmmCache E F → Option (CachedFetch E F)
  unfolding is_matching
  matching_cache o cache = elim (lookup o.key cache) [
    | none ↦ none
    | some c ↦ if is_matching o c then some c else none
  ]

  unfoldable pub serve_entry : EphemerisObject → Time → Duration → CachedFetch E F → CacheServe E F
  serve_entry o now interval c =
      if ltb_ℤ (sub_time now c.result.fetched_at) interval
      then serve_window c
      else if ltb now c.next_fetch_attempt
          && text_eq c.retry_key (retry_input_key print o.spec interval)
      then serve_backoff c
      else serve_none

  unfoldable pub cache_serve : EphemerisObject → OmmCache E F → Time → Duration → CacheServe E F
  unfolding serve_entry
  cache_serve o cache now interval = elim (matching_cache o cache) [
    | none ↦ serve_none
    | some c ↦ serve_entry o now interval c
  ]
