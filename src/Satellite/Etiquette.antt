-- ===== src/Satellite/Etiquette.antt =====
-- internal/controller/satelliteephemeris_controller.go: the reconciles within the backoff of
-- a failed fetch that the cache covers.
use ntn_operators.Base.{
  ◌≡◌, refl, inl, inr, true, Option, none, some, List, [], ◌∷◌, all, ltb, ltb_ℤ, Duration, sub_time,
  add_time, text_eq_iff, arith, Bool-cases,
}
use ntn_operators.Base.Dict.{lookup, insert}
use ntn_operators.Controller.FlapState.{name_key}
use ntn_operators.Readers.Allowlist.{UrlLibrary}
use ntn_operators.Satellite.{EphemerisObject, EphemerisStatus, FetchError, MetaConditions, Printer}
use ntn_operators.Satellite.Cadence.{ClampWarn}
use ntn_operators.Satellite.Backoff.{
  CachedFetch, fetch_retry_delay, failures_after, apply_fetch_backoff,
}
use ntn_operators.Satellite.Cache.{
  retry_input_key, serve_none, serve_entry, matching_cache, cache_serve,
}
use ntn_operators.Satellite.Durable.{OmmCodec, restore_omm_cache}
use ntn_operators.Satellite.Failure.{World}
use ntn_operators.Satellite.Sources.{Fetcher, fetch_failed, public_http_source, fetcher_for_source}
use ntn_operators.Satellite.Acquire.{
  AcquireInputs, fall_back, obtain_omms, acquire_warm, restored_world, acquire_omms,
}
use ntn_operators.Satellite.Matching.{matching-eq-some, matching-insert, is_matching-fields}

-- One reconcile of a run: its inputs, the status that it drafts, and the pending warning.
pub record Visit {ℓ} (E F C : Type ℓ) : Type ℓ where
  pub inputs : AcquireInputs E F
  pub draft : EphemerisStatus C
  pub clamp : Option ClampWarn

module _ {ℓ} {E F : Type ℓ} (print : Printer) (o : EphemerisObject) (interval : Duration) where
  -- The entry that a failed fetch arms.
  abbrev armed : AcquireInputs E F → FetchError → CachedFetch E F → CachedFetch E F
  armed i err c =
      apply_fetch_backoff c err (retry_input_key print o.spec interval) interval i.failed_at

module _ {ℓ} {E F C : Type ℓ} ⦃meta : MetaConditions C⦄ (lib : UrlLibrary) (print : Printer)
    (codec : OmmCodec E F) (o : EphemerisObject) (interval : Duration) where
  unfoldable pub acquire_all : List (Visit E F C) → World E F C → World E F C
  acquire_all [] w = w
  acquire_all (v ∷ vs) w =
      acquire_all vs (acquire_omms lib print codec v.inputs o interval v.draft v.clamp w).1

  restored_warm :
      (i : AcquireInputs E F) (w : World E F C) (c : CachedFetch E F)
      → lookup o.key w.cache ≡ some c
      → restored_world lib print codec i o w ≡ w
  unfolding restored_world restore_omm_cache
  restored_warm i w c h = rw (restored_world, restore_omm_cache, h)

  -- Before the deadline of an entry, its reconcile leaves everything as it is.
  visit-quiet :
      (v : Visit E F C) (w : World E F C) (c : CachedFetch E F)
      → matching_cache print o w.cache ≡ some c
      → c.retry_key ≡ retry_input_key print o.spec interval
      → ltb v.inputs.now c.next_fetch_attempt ≡ true
      → (acquire_omms lib print codec v.inputs o interval v.draft v.clamp w).1 ≡ w
  unfolding acquire_omms acquire_warm cache_serve serve_entry
  visit-quiet v w c h k t =
      rw (acquire_omms, restored_warm v.inputs w c (matching-eq-some print o w.cache c h).0)
        (elim (Bool-cases (ltb_ℤ (sub_time v.inputs.now c.result.fetched_at) interval)) [
          | inl e ↦ rw (acquire_warm, cache_serve, h, serve_entry, e)
          | inr e ↦ rw (
            acquire_warm,
            cache_serve,
            h,
            serve_entry,
            e,
            t,
            (text_eq_iff c.retry_key (retry_input_key print o.spec interval)).1 k,
          )
        ])

  pub acquire_all-quiet :
      (vs : List (Visit E F C)) (w : World E F C) (c : CachedFetch E F)
      → matching_cache print o w.cache ≡ some c
      → c.retry_key ≡ retry_input_key print o.spec interval
      → all (λ (v : Visit E F C). ltb v.inputs.now c.next_fetch_attempt) vs ≡ true
      → acquire_all vs w ≡ w
  unfolding acquire_all
  acquire_all-quiet [] w c h k t = refl
  acquire_all-quiet (v ∷ vs) w c h k t =
      rw (visit-quiet v w c h k (ground (arith, t)))
        (acquire_all-quiet vs w c h k (ground (arith, t)))

  warm-arms :
      (i : AcquireInputs E F) (s : EphemerisStatus C) (clamp : Option ClampWarn) (w : World E F C)
      (c : CachedFetch E F) (fetcher : Fetcher) (err : FetchError)
      → matching_cache print o w.cache ≡ some c
      → cache_serve print o w.cache i.now interval ≡ serve_none
      → public_http_source lib i.upstream o.spec.url ≡ none
      → fetcher_for_source i.upstream o ≡ inr fetcher
      → i.upstream.fetch_from fetcher o.spec.url ≡ fetch_failed err
      → (acquire_warm lib print codec i o interval s clamp w).1
        ≡ record w { cache = insert o.key (armed print o interval i err c) w.cache }
  unfolding acquire_warm obtain_omms fall_back
  warm-arms i s clamp w c fetcher err h n p f e =
      rw (acquire_warm, n, f, obtain_omms, p, e, fall_back, h)

  failed_fetch-arms :
      (i : AcquireInputs E F) (s : EphemerisStatus C) (clamp : Option ClampWarn) (w : World E F C)
      (c : CachedFetch E F) (fetcher : Fetcher) (err : FetchError)
      → matching_cache print o w.cache ≡ some c
      → cache_serve print o w.cache i.now interval ≡ serve_none
      → public_http_source lib i.upstream o.spec.url ≡ none
      → fetcher_for_source i.upstream o ≡ inr fetcher
      → i.upstream.fetch_from fetcher o.spec.url ≡ fetch_failed err
      → (acquire_omms lib print codec i o interval s clamp w).1
        ≡ record w { cache = insert o.key (armed print o interval i err c) w.cache }
  unfolding acquire_omms
  failed_fetch-arms i s clamp w c fetcher err h n p f e =
      rw (acquire_omms, restored_warm i w c (matching-eq-some print o w.cache c h).0)
        (warm-arms i s clamp w c fetcher err h n p f e)

  -- After a fetch that failed while a matching entry was there, no reconcile with the same object and
  -- interval does anything to the caches, the status, the gauge or the events when it acquires its
  -- element sets, until the delay of the failure has passed since the failure: for every run of them,
  -- whatever the source and the Secrets would answer.
  pub failed_fetch-holds_back :
      (i : AcquireInputs E F) (s : EphemerisStatus C) (clamp : Option ClampWarn) (w : World E F C)
      (c : CachedFetch E F) (fetcher : Fetcher) (err : FetchError) (vs : List (Visit E F C))
      → matching_cache print o w.cache ≡ some c
      → cache_serve print o w.cache i.now interval ≡ serve_none
      → public_http_source lib i.upstream o.spec.url ≡ none
      → fetcher_for_source i.upstream o ≡ inr fetcher
      → i.upstream.fetch_from fetcher o.spec.url ≡ fetch_failed err
      → all
          (λ (v : Visit E F C). ltb v.inputs.now (
            add_time i.failed_at (
              fetch_retry_delay err interval
                (failures_after c err (retry_input_key print o.spec interval)))))
          vs
        ≡ true
      → let w' = (acquire_omms lib print codec i o interval s clamp w).1 in acquire_all vs w' ≡ w'
  unfolding apply_fetch_backoff
  failed_fetch-holds_back i s clamp w c fetcher err vs h n p f e t =
      rw (failed_fetch-arms i s clamp w c fetcher err h n p f e) (
        acquire_all-quiet vs
          (record w { cache = insert o.key (armed print o interval i err c) w.cache })
          (armed print o interval i err c)
          (matching-insert print o (armed print o interval i err c) w.cache (
            is_matching-fields print o c (armed print o interval i err c) refl refl
              (matching-eq-some print o w.cache c h).1))
          refl t)
