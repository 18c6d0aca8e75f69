-- ===== src/Satellite/Own.antt =====
-- internal/controller/satelliteephemeris_controller.go: whose the element sets are that
-- acquireOMMs hands out.
use ntn_operators.Base.{
  ◌≡◌, ◌⊎◌, refl, inl, inr, true, Option, some, ◌&&◌, is_empty, Duration, Bool-cases, Option-cases,
}
use ntn_operators.Base.Dict.{lookup, insert}
use ntn_operators.Controller.FlapState.{name_key}
use ntn_operators.Readers.Allowlist.{UrlLibrary}
use ntn_operators.Satellite.{
  EphemerisObject, EphemerisStatus, FetchError, MetaConditions, GpFetchResult, Printer,
}
use ntn_operators.Satellite.Cadence.{ClampWarn}
use ntn_operators.Satellite.Backoff.{CachedFetch, apply_fetch_backoff}
use ntn_operators.Satellite.Cache.{
  OmmCache, fetch_input_key, retry_input_key, is_matching, matching_cache,
}
use ntn_operators.Satellite.Matching.{
  is_matching_iff, matching-insert, matching-eq-some, cache_serve-cases, Fetched-cases, Sum-cases,
  is_matching-fields,
}
use ntn_operators.Satellite.Durable.{OmmCodec}
use ntn_operators.Satellite.Failure.{World}
use ntn_operators.Satellite.Sources.{Fetcher, public_http_source, fetcher_for_source}
use ntn_operators.Satellite.Acquire.{
  AcquireInputs, Acquired, early, usable, served, confirmed, store_fetch, accept_fetch, fall_back,
  obtain_omms, serve_without_fetcher, acquire_warm, restored_world, acquire_omms,
}

-- Element sets that a reconcile may use are those of a matching entry.
abbrev IsMatched {ℓ} :
    {E F : Type ℓ} → Printer → EphemerisObject → Acquired E F → OmmCache E F → Type ℓ
IsMatched print o (early outcome) m = Unit
IsMatched {E} {F} print o (usable out) m =
    (c : CachedFetch E F) × (matching_cache print o m ≡ some c) × (c.result ≡ out.result)

-- They are those of the entry under the name of the object, and the entry was fetched for an object of
-- this UID from the source of the spec.
abbrev pub IsOwn {ℓ} :
    {E F : Type ℓ} → Printer → EphemerisObject → Acquired E F → OmmCache E F → Type ℓ
IsOwn print o (early outcome) m = Unit
IsOwn {E} {F} print o (usable out) m =
    (c : CachedFetch E F) × (lookup o.key m ≡ some c)
    × (c.fetch_key ≡ print.print_fetch_key o.spec.source_type o.spec.url)
    × (c.uid ≡ o.uid)
    × (c.result ≡ out.result)

module _ {ℓ} {E F : Type ℓ} (print : Printer) where
  -- The entry that a fetch or a failure leaves is its own.
  insert-IsMatched :
      (o : EphemerisObject) (c : CachedFetch E F) (m : OmmCache E F)
      → is_matching print o c ≡ true
      → (d : CachedFetch E F) × (matching_cache print o (insert o.key c m) ≡ some d)
        × (d.result ≡ c.result)
  insert-IsMatched o c m h = (c, matching-insert print o c m h, refl)

  matched-IsOwn :
      (o : EphemerisObject) (a : Acquired E F) (m : OmmCache E F)
      → IsMatched print o a m
      → IsOwn print o a m
  unfolding fetch_input_key
  matched-IsOwn o (early outcome) m h = tt
  matched-IsOwn o (usable out) m (c, e, r) =
      let found = matching-eq-some print o m c e in
      let own = (is_matching_iff print o c).0 found.1 in (c, found.0, own.0, own.1, r)

module _ {ℓ} {E F C : Type ℓ} ⦃meta : MetaConditions C⦄ (lib : UrlLibrary) (print : Printer)
    (codec : OmmCodec E F) (i : AcquireInputs E F) (o : EphemerisObject) where
  -- A fetch is stored, or confirms the stored entry.
  pub accept_fetch-cases :
      (g : GpFetchResult E F) (w : World E F C)
      → (accept_fetch lib print codec i o g w
          ≡ (usable (served g), store_fetch lib print codec i o g w))
        ⊎ ((c : CachedFetch E F) × (matching_cache print o w.cache ≡ some c)
            × (accept_fetch lib print codec i o g w ≡ (
              usable (served (confirmed c g).result),
              record w { cache = insert o.key (confirmed c g) w.cache },
            )))
  unfolding accept_fetch
  accept_fetch-cases g w = elim (Bool-cases (g.not_modified && is_empty g.omms)) [
    | inr e ↦ inl (rw (accept_fetch, e))
    | inl e ↦ elim (Option-cases (matching_cache print o w.cache)) [
      | inl f ↦ inl (rw (accept_fetch, e, f))
      | inr (c, f) ↦ elim (Bool-cases (is_empty c.result.omms)) [
        | inl k ↦ inl (rw (accept_fetch, e, f, k))
        | inr k ↦ inr (c, f, rw (accept_fetch, e, f, k))
      ]
    ]
  ]

  accept-IsMatched :
      (g : GpFetchResult E F) (w : World E F C)
      → let r = accept_fetch lib print codec i o g w in IsMatched print o r.0 r.1.cache
  unfolding store_fetch confirmed
  accept-IsMatched g w = elim (accept_fetch-cases g w) [
    | inl e ↦ rw e (insert-IsMatched print o _ w.cache ((is_matching_iff print o _).1 (refl, refl)))
    | inr (c, f, e) ↦ rw e (
        insert-IsMatched print o (confirmed c g) w.cache (
          is_matching-fields print o c (confirmed c g) refl refl
            (matching-eq-some print o w.cache c f).1))
  ]

  fall_back-IsMatched :
      (interval : Duration) (err : FetchError) (s : EphemerisStatus C) (clamp : Option ClampWarn)
      (w : World E F C)
      → let r = fall_back lib print codec i o interval err s clamp w in
        IsMatched print o r.0 r.1.cache
  unfolding fall_back apply_fetch_backoff
  fall_back-IsMatched interval err s clamp w =
      elim (Option-cases (matching_cache print o w.cache)) [
        | inl e ↦ rw (fall_back, e) tt
        | inr (c, e) ↦
            rw (fall_back, e)
              (insert-IsMatched print o
                (apply_fetch_backoff c err (retry_input_key print o.spec interval) interval
                  i.failed_at)
                w.cache
                (is_matching-fields print o c
                  (apply_fetch_backoff c err (retry_input_key print o.spec interval) interval
                    i.failed_at)
                  refl refl (matching-eq-some print o w.cache c e).1))
      ]

  obtain-IsMatched :
      (fetcher : Fetcher) (interval : Duration) (s : EphemerisStatus C) (clamp : Option ClampWarn)
      (w : World E F C)
      → let r = obtain_omms lib print codec i o fetcher interval s clamp w in
        IsMatched print o r.0 r.1.cache
  unfolding obtain_omms
  obtain-IsMatched fetcher interval s clamp w =
      elim (Option-cases (public_http_source lib i.upstream o.spec.url)) [
        | inr (ip, e) ↦ rw (obtain_omms, e) tt
        | inl e ↦ elim (Fetched-cases (i.upstream.fetch_from fetcher o.spec.url)) [
          | inl (err, f) ↦ rw (obtain_omms, e, f) (fall_back-IsMatched interval err s clamp w)
          | inr (g, f) ↦ rw (obtain_omms, e, f) (accept-IsMatched g w)
        ]
      ]

  warm-IsMatched :
      (interval : Duration) (s : EphemerisStatus C) (clamp : Option ClampWarn) (w : World E F C)
      → let r = acquire_warm lib print codec i o interval s clamp w in
        IsMatched print o r.0 r.1.cache
  unfolding acquire_warm serve_without_fetcher
  warm-IsMatched interval s clamp w = elim (cache_serve-cases print o w.cache i.now interval) [
    | inr (c, f, inl e) ↦ rw (acquire_warm, e) (c, f, refl)
    | inr (c, f, inr e) ↦ rw (acquire_warm, e) (c, f, refl)
    | inl e ↦ elim (Sum-cases (fetcher_for_source i.upstream o)) [
      | inr (fetcher, f) ↦ rw (acquire_warm, e, f) (obtain-IsMatched fetcher interval s clamp w)
      | inl (err, f) ↦ elim (Option-cases (matching_cache print o w.cache)) [
        | inl k ↦ rw (acquire_warm, e, f, serve_without_fetcher, k) tt
        | inr (c, k) ↦ rw (acquire_warm, e, f, serve_without_fetcher, k) (c, k, refl)
      ]
    ]
  ]

  -- Whatever acquire_omms hands out is what the cache then holds under the name of the object, in an
  -- entry with the UID of the object and the key of its source: after a restore, a fetch, a 304, a
  -- failed fetch or a failed setup.
  pub acquire-IsOwn :
      (interval : Duration) (s : EphemerisStatus C) (clamp : Option ClampWarn) (w : World E F C)
      → let r = acquire_omms lib print codec i o interval s clamp w in IsOwn print o r.0 r.1.cache
  unfolding acquire_omms
  acquire-IsOwn interval s clamp w =
      let warm = restored_world lib print codec i o w in
      let r = acquire_warm lib print codec i o interval s clamp warm in
      matched-IsOwn print o r.0 r.1.cache (warm-IsMatched interval s clamp warm)
