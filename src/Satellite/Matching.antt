-- ===== src/Satellite/Matching.antt =====
-- internal/controller/satelliteephemeris_controller.go: the entries of the cache that match an object,
-- and the answers of cacheServe, of a fetcher and of a setup by cases.
use text.Mathlib.TextEquality.{eq_iff}
use ntn_operators.Base.{
  ◌≡◌, ◌↔◌, ◌⊎◌, refl, ◌∙◌, inl, inr, true, some, ◌&&◌, Time, Duration, sub_time, ltb_ℤ, ltb,
  text_eq, text_eq_iff, arith, Bool-cases, Option-cases,
}
use ntn_operators.Base.Dict.{lookup, insert, lookup-insert}
use ntn_operators.Controller.FlapState.{NamespacedName, name_key, same_name_iff}
use ntn_operators.Satellite.{EphemerisObject, FetchError, GpFetchResult, Printer}
use ntn_operators.Satellite.Backoff.{CachedFetch}
use ntn_operators.Satellite.Cache.{
  OmmCache, fetch_input_key, retry_input_key, serve_none, serve_window, serve_backoff, is_matching,
  matching_cache, serve_entry, cache_serve,
}
use ntn_operators.Satellite.Sources.{Fetched, fetch_failed, fetch_ok}

module _ {ℓ} {E F : Type ℓ} (print : Printer) where
  -- An entry is for an object whose key and identity it carries.
  pub is_matching_iff :
      (o : EphemerisObject) (c : CachedFetch E F)
      → (is_matching print o c ≡ true)
        ↔ ((c.fetch_key ≡ fetch_input_key print o.spec) × (c.uid ≡ o.uid))
  unfolding is_matching
  is_matching_iff o c = (
    λ h. ground (arith, text_eq_iff c.fetch_key (fetch_input_key print o.spec), eq_iff c.uid o.uid),
    λ h. ground (arith, text_eq_iff c.fetch_key (fetch_input_key print o.spec), eq_iff c.uid o.uid),
  )

  pub lookup-insert_self :
      (k : NamespacedName) (c : CachedFetch E F) (m : OmmCache E F)
      → lookup k (insert k c m) ≡ some c
  lookup-insert_self k c m = rw (lookup-insert k k c m, (same_name_iff k k).1 refl)

  pub matching-insert :
      (o : EphemerisObject) (c : CachedFetch E F) (m : OmmCache E F)
      → is_matching print o c ≡ true
      → matching_cache print o (insert o.key c m) ≡ some c
  unfolding matching_cache
  matching-insert o c m h = rw (matching_cache, lookup-insert_self o.key c m, h)

  -- What matching_cache gives is in the cache, and matches.
  pub matching-eq-some :
      (o : EphemerisObject) (m : OmmCache E F) (c : CachedFetch E F)
      → matching_cache print o m ≡ some c
      → (lookup o.key m ≡ some c) × (is_matching print o c ≡ true)
  unfolding matching_cache
  matching-eq-some o m c h = elim (Option-cases (lookup o.key m)) [
    | inl e ↦ ground (arith, e)
    | inr (d, e) ↦ elim (Bool-cases (is_matching print o d)) [
      | inl t ↦ ground (arith, e)
      | inr t ↦ ground (arith, e)
    ]
  ]

  serve_entry-cases :
      (o : EphemerisObject) (now : Time) (interval : Duration) (c : CachedFetch E F)
      → (serve_entry print o now interval c ≡ serve_none)
        ⊎ ((serve_entry print o now interval c ≡ serve_window c)
            ⊎ (serve_entry print o now interval c ≡ serve_backoff c))
  unfolding serve_entry
  serve_entry-cases o now interval c =
      elim (Bool-cases (ltb_ℤ (sub_time now c.result.fetched_at) interval)) [
        | inl e ↦ inr (inl (rw (serve_entry, e)))
        | inr e ↦
            elim (Bool-cases (
              ltb now c.next_fetch_attempt
              && text_eq c.retry_key (retry_input_key print o.spec interval))) [
                | inl f ↦ inr (inr (rw (serve_entry, e, f)))
                | inr f ↦ inl (rw (serve_entry, e, f))
              ]
      ]

  -- What the cache serves is a matching entry.
  pub cache_serve-cases :
      (o : EphemerisObject) (m : OmmCache E F) (now : Time) (interval : Duration)
      → (cache_serve print o m now interval ≡ serve_none)
        ⊎ ((c : CachedFetch E F) × (matching_cache print o m ≡ some c)
            × ((cache_serve print o m now interval ≡ serve_window c)
                ⊎ (cache_serve print o m now interval ≡ serve_backoff c)))
  unfolding cache_serve
  cache_serve-cases o m now interval = elim (Option-cases (matching_cache print o m)) [
    | inl e ↦ inl (rw (cache_serve, e))
    | inr (c, e) ↦ elim (serve_entry-cases o now interval c) [
      | inl f ↦ inl (rw (cache_serve, e) f)
      | inr (inl f) ↦ inr (c, e, inl (rw (cache_serve, e) f))
      | inr (inr f) ↦ inr (c, e, inr (rw (cache_serve, e) f))
    ]
  ]

  -- An entry made of a matching one by other fields matches.
  pub is_matching-fields :
      (o : EphemerisObject) (c d : CachedFetch E F)
      → d.fetch_key ≡ c.fetch_key
      → d.uid ≡ c.uid
      → is_matching print o c ≡ true
      → is_matching print o d ≡ true
  is_matching-fields o c d k u h =
      let own = (is_matching_iff o c).0 h in (is_matching_iff o d).1 (k ∙ own.0, u ∙ own.1)

pub Fetched-cases {ℓ} :
    {E F : Type ℓ} (r : Fetched E F)
    → ((err : FetchError) × (r ≡ fetch_failed err)) ⊎ ((g : GpFetchResult E F) × (r ≡ fetch_ok g))
Fetched-cases (fetch_failed err) = inl (err, refl)
Fetched-cases (fetch_ok g) = inr (g, refl)

pub Sum-cases {ℓ} : {A B : Type ℓ} (s : A ⊎ B) → ((a : A) × (s ≡ inl a)) ⊎ ((b : B) × (s ≡ inr b))
Sum-cases (inl a) = inl (a, refl)
Sum-cases (inr b) = inr (b, refl)
