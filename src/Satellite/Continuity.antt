-- ===== src/Satellite/Continuity.antt =====
-- internal/controller/satelliteephemeris_controller.go: acquireOMMs where the cache holds an
-- entry of the object.
use ntn_operators.Base.{
  ◌≡◌, ◌⊎◌, refl, ap, inl, inr, ◌&&◌, true, false, Option, none, some, is_empty, Duration,
  Bool-cases,
}
use ntn_operators.Readers.Allowlist.{UrlLibrary}
use ntn_operators.Satellite.{
  EphemerisObject, EphemerisStatus, MetaConditions, GpFetchResult, Printer,
}
use ntn_operators.Satellite.Cadence.{ClampWarn}
use ntn_operators.Satellite.Backoff.{CachedFetch, apply_fetch_backoff}
use ntn_operators.Satellite.Cache.{matching_cache}
use ntn_operators.Satellite.Durable.{OmmCodec}
use ntn_operators.Satellite.Failure.{World}
use ntn_operators.Satellite.Sources.{Fetcher, fetch_ok, public_http_source, fetcher_for_source}
use ntn_operators.Satellite.Acquire.{
  AcquireInputs, FetchOutcome, Acquired, usable, confirmed, accept_fetch, fall_back, obtain_omms,
  serve_without_fetcher, acquire_warm, restored_world, acquire_omms,
}
use ntn_operators.Satellite.Matching.{cache_serve-cases, Fetched-cases, Sum-cases}

-- The source has answered the fetcher of the object, and that answer is the result: it has a body, or
-- the entry holds no element sets.
pub record IsAnswer {ℓ} {E F : Type ℓ} (i : AcquireInputs E F) (o : EphemerisObject)
    (c : CachedFetch E F) (r : GpFetchResult E F) : Type ℓ where
  pub fetcher : Fetcher
  pub chosen : fetcher_for_source i.upstream o ≡ inr fetcher
  pub answered : i.upstream.fetch_from fetcher o.spec.url ≡ fetch_ok r
  pub with_body : ((r.not_modified && is_empty r.omms) ≡ false) ⊎ (is_empty c.result.omms ≡ true)

-- There is an outcome. Served on an error it is that of the entry; in any case its element sets are
-- those of the entry, or it is an answer of the source.
abbrev pub IsContinued {ℓ} :
    {E F : Type ℓ} → AcquireInputs E F → EphemerisObject → CachedFetch E F → Acquired E F → Type ℓ
IsContinued {E} {F} i o c a =
    (out : FetchOutcome E F) × (a ≡ usable out)
    × (out.served_cache_on_error ≡ true → out.result ≡ c.result)
    × ((out.result.omms ≡ c.result.omms) ⊎ IsAnswer i o c out.result)

same_entry {ℓ} :
    {E F : Type ℓ} (x : Option (CachedFetch E F)) (c d : CachedFetch E F)
    → x ≡ some c
    → x ≡ some d
    → d.result ≡ c.result
same_entry x c d p q = cc

module _ {ℓ} {E F C : Type ℓ} ⦃meta : MetaConditions C⦄ (lib : UrlLibrary) (print : Printer)
    (codec : OmmCodec E F) (i : AcquireInputs E F) (o : EphemerisObject) where
  accept-continues :
      (fetcher : Fetcher) (g : GpFetchResult E F) (w : World E F C) (c : CachedFetch E F)
      → matching_cache print o w.cache ≡ some c
      → fetcher_for_source i.upstream o ≡ inr fetcher
      → i.upstream.fetch_from fetcher o.spec.url ≡ fetch_ok g
      → IsContinued i o c (accept_fetch lib print codec i o g w).0
  unfolding accept_fetch confirmed
  accept-continues fetcher g w c h f e = elim (Bool-cases (g.not_modified && is_empty g.omms)) [
    | inr b ↦
        rw (accept_fetch, b)
          (
            _,
            refl,
            λ k. cc,
            inr (record { fetcher = fetcher; chosen = f; answered = e; with_body = inl b }),
          )
    | inl b ↦ elim (Bool-cases (is_empty c.result.omms)) [
      | inl m ↦
          rw (accept_fetch, b, h, m)
            (
              _,
              refl,
              λ k. cc,
              inr (record { fetcher = fetcher; chosen = f; answered = e; with_body = inr m }),
            )
      | inr m ↦ rw (accept_fetch, b, h, m) (_, refl, λ k. cc, inl refl)
    ]
  ]

  obtain-continues :
      (fetcher : Fetcher) (interval : Duration) (s : EphemerisStatus C) (clamp : Option ClampWarn)
      (w : World E F C) (c : CachedFetch E F)
      → matching_cache print o w.cache ≡ some c
      → public_http_source lib i.upstream o.spec.url ≡ none
      → fetcher_for_source i.upstream o ≡ inr fetcher
      → IsContinued i o c (obtain_omms lib print codec i o fetcher interval s clamp w).0
  unfolding obtain_omms fall_back apply_fetch_backoff
  obtain-continues fetcher interval s clamp w c h p q =
      elim (Fetched-cases (i.upstream.fetch_from fetcher o.spec.url)) [
        | inl (err, f) ↦ rw (obtain_omms, p, f, fall_back, h) (_, refl, λ e. refl, inl refl)
        | inr (g, f) ↦ rw (obtain_omms, p, f) (accept-continues fetcher g w c h q f)
      ]

  warm-continues :
      (interval : Duration) (s : EphemerisStatus C) (clamp : Option ClampWarn) (w : World E F C)
      (c : CachedFetch E F)
      → matching_cache print o w.cache ≡ some c
      → public_http_source lib i.upstream o.spec.url ≡ none
      → IsContinued i o c (acquire_warm lib print codec i o interval s clamp w).0
  unfolding acquire_warm serve_without_fetcher
  warm-continues interval s clamp w c h p =
      elim (cache_serve-cases print o w.cache i.now interval) [
        | inr (d, f, inl e) ↦
            rw (acquire_warm, e)
              (
                _,
                refl,
                λ k. cc,
                inl (ap (λ (r : GpFetchResult E F). r.omms) (same_entry _ c d h f)),
              )
        | inr (d, f, inr e) ↦
            rw (acquire_warm, e)
              (
                _,
                refl,
                λ k. same_entry _ c d h f,
                inl (ap (λ (r : GpFetchResult E F). r.omms) (same_entry _ c d h f)),
              )
        | inl e ↦ elim (Sum-cases (fetcher_for_source i.upstream o)) [
          | inr (fetcher, f) ↦
              rw (acquire_warm, e, f) (obtain-continues fetcher interval s clamp w c h p f)
          | inl (err, f) ↦
              rw (acquire_warm, e, f, serve_without_fetcher, h) (_, refl, λ k. refl, inl refl)
        ]
      ]

  -- With a matching entry in the cache, restored or not, and a source that is not cleartext http to
  -- a public address, acquire_omms has an outcome whatever the Secrets and the source answer; its
  -- element sets are those of the entry, or it is an answer of the source.
  pub acquire-IsContinued :
      (interval : Duration) (s : EphemerisStatus C) (clamp : Option ClampWarn) (w : World E F C)
      (c : CachedFetch E F)
      → matching_cache print o (restored_world lib print codec i o w).cache ≡ some c
      → public_http_source lib i.upstream o.spec.url ≡ none
      → IsContinued i o c (acquire_omms lib print codec i o interval s clamp w).0
  unfolding acquire_omms
  acquire-IsContinued interval s clamp w c =
      warm-continues interval s clamp (restored_world lib print codec i o w) c
