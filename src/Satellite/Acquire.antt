-- ===== src/Satellite/Acquire.antt =====
-- internal/controller/satelliteephemeris_controller.go: where the element sets of a reconcile come
-- from (acquireOMMs, obtainOMMs, fetcherForSource, publicHTTPSource).
use mathlib.Core.Option
use ntn_operators.Base.{
  Bool, true, false, ◌&&◌, Option, none, some, inl, inr, [], is_empty, String, Time, zero_time,
  Duration, if◌then◌else◌,
}
use ntn_operators.Base.Dict.{insert}
use ntn_operators.Controller.FlapState.{name_key}
use ntn_operators.Readers.{text_key}
use ntn_operators.Readers.Allowlist.{UrlLibrary}
use ntn_operators.Satellite.{
  EphemerisObject, EphemerisStatus, FetchError, SetupError, ServeError, of_fetch, of_setup,
  MetaConditions, GpFetchResult, Printer,
}
use ntn_operators.Satellite.Cadence.{ClampWarn}
use ntn_operators.Satellite.Backoff.{CachedFetch, apply_fetch_backoff}
use ntn_operators.Satellite.Cache.{
  fetch_input_key, retry_input_key, serve_none, serve_window, serve_backoff, matching_cache,
  cache_serve,
}
use ntn_operators.Satellite.Durable.{OmmCodec, ObjectAccess, persist_omm_cache, restore_omm_cache}
use ntn_operators.Satellite.Failure.{
  World, Outcome, StatusWrite, handle_insecure_url, handle_fetch_error, handle_setup_failure,
}
use ntn_operators.Satellite.Sources.{
  Fetcher, Upstream, fetch_failed, fetch_ok, fetcher_for_source, public_http_source,
}

-- The instants that r.now() gives at the start, and after a failed fetch; the two stores.
pub record AcquireInputs {ℓ} (E F : Type ℓ) : Type ℓ where
  pub upstream : Upstream E F
  pub now : Time
  pub failed_at : Time
  pub restore_access : ObjectAccess
  pub persist_access : ObjectAccess
  pub early_write : StatusWrite

-- ommFetchOutcome.
pub record FetchOutcome {ℓ} (E F : Type ℓ) : Type ℓ where
  pub result : GpFetchResult E F
  pub reused_cache : Bool
  pub served_cache_on_error : Bool
  pub cache_serve_err : Option ServeError
  pub serve_reason : String

pub data Acquired {ℓ} (E F : Type ℓ) : Type ℓ where
  early : Outcome → Acquired E F
  usable : FetchOutcome E F → Acquired E F

module _ {ℓ} {E F : Type ℓ} where
  abbrev pub served : GpFetchResult E F → FetchOutcome E F
  served r = record {
    result = r;
    reused_cache = false;
    served_cache_on_error = false;
    cache_serve_err = none;
    serve_reason = "";
  }

  abbrev pub served_on_error : GpFetchResult E F → Option ServeError → String → FetchOutcome E F
  served_on_error r e reason = record {
    result = r;
    reused_cache = false;
    served_cache_on_error = true;
    cache_serve_err = e;
    serve_reason = reason;
  }

  -- The answer 304 without a body, on an entry that holds element sets.
  unfoldable pub confirmed : CachedFetch E F → GpFetchResult E F → CachedFetch E F
  confirmed c result = record c {
    result = record (c.result) { fetched_at = result.fetched_at; not_modified = true };
    next_fetch_attempt = zero_time;
    last_fetch_err = none;
    fetch_failures = 0;
  }

module _ {ℓ} {E F C : Type ℓ} ⦃meta : MetaConditions C⦄ (lib : UrlLibrary) (print : Printer)
    (codec : OmmCodec E F) where
  unfoldable pub store_fetch :
      AcquireInputs E F → EphemerisObject → GpFetchResult E F → World E F C → World E F C
  store_fetch i o result w =
      let key = fetch_input_key print o.spec in
      record w {
        cache =
            insert o.key
              (record {
                result = result;
                fetch_key = key;
                uid = o.uid;
                next_fetch_attempt = zero_time;
                last_fetch_err = none;
                fetch_failures = 0;
                retry_key = [];
              })
              w.cache;
        cache_object = persist_omm_cache print codec i.persist_access o result key w.cache_object;
      }

  unfoldable pub accept_fetch :
      AcquireInputs E F
      → EphemerisObject
      → GpFetchResult E F
      → World E F C
      → Acquired E F × World E F C
  unfolding confirmed store_fetch
  accept_fetch i o result w =
      let stored : Acquired E F × World E F C =
        (usable (served result), store_fetch i o result w) in
      if result.not_modified && is_empty result.omms
      then elim (matching_cache print o w.cache) [
        | none ↦ stored
        | some c ↦ if is_empty c.result.omms then stored else (
          usable (served (confirmed c result).result),
          record w { cache = insert o.key (confirmed c result) w.cache },
        )
      ]
      else stored

  unfoldable pub fall_back :
      AcquireInputs E F
      → EphemerisObject
      → Duration
      → FetchError
      → EphemerisStatus C
      → Option ClampWarn
      → World E F C
      → Acquired E F × World E F C
  fall_back i o interval err s clamp w = elim (matching_cache print o w.cache) [
    | none ↦
        let (outcome, w') = handle_fetch_error i.early_write o err interval s clamp w in
        (early outcome, w')
    | some c ↦
        let armed =
          apply_fetch_backoff c err (retry_input_key print o.spec interval) interval i.failed_at in
        (
          usable (served_on_error armed.result (some (of_fetch err)) "FetchFailedServingCache"),
          record w { cache = insert o.key armed w.cache },
        )
  ]

  unfoldable pub obtain_omms :
      AcquireInputs E F
      → EphemerisObject
      → Fetcher
      → Duration
      → EphemerisStatus C
      → Option ClampWarn
      → World E F C
      → Acquired E F × World E F C
  unfolding accept_fetch fall_back
  obtain_omms i o fetcher interval s clamp w = elim (public_http_source lib i.upstream o.spec.url) [
    | some ip ↦
        let (outcome, w') = handle_insecure_url i.early_write o ip s clamp w in (early outcome, w')
    | none ↦ elim (i.upstream.fetch_from fetcher o.spec.url) [
      | fetch_failed err ↦ fall_back i o interval err s clamp w
      | fetch_ok result ↦ accept_fetch i o result w
    ]
  ]

  -- Setup failed: a matching entry of any age, or nothing.
  unfoldable pub serve_without_fetcher :
      AcquireInputs E F
      → EphemerisObject
      → SetupError
      → EphemerisStatus C
      → Option ClampWarn
      → World E F C
      → Acquired E F × World E F C
  serve_without_fetcher i o err s clamp w = elim (matching_cache print o w.cache) [
    | some c ↦ (
      usable (served_on_error c.result (some (of_setup err)) "FetcherSetupFailedServingCache"),
      w,
    )
    | none ↦
        let (outcome, w') = handle_setup_failure i.early_write o err s clamp w in
        (early outcome, w')
  ]

  unfoldable pub acquire_warm :
      AcquireInputs E F
      → EphemerisObject
      → Duration
      → EphemerisStatus C
      → Option ClampWarn
      → World E F C
      → Acquired E F × World E F C
  unfolding serve_without_fetcher obtain_omms
  acquire_warm i o interval s clamp w = elim (cache_serve print o w.cache i.now interval) [
    | serve_window c ↦ (usable (record (served c.result) { reused_cache = true }), w)
    | serve_backoff c ↦ (
      usable (
          served_on_error c.result (Option.map of_fetch c.last_fetch_err)
            "FetchFailedServingCache"),
      w,
    )
    | serve_none ↦ elim (fetcher_for_source i.upstream o) [
      | inl err ↦ serve_without_fetcher i o err s clamp w
      | inr fetcher ↦ obtain_omms i o fetcher interval s clamp w
    ]
  ]

  unfoldable pub restored_world : AcquireInputs E F → EphemerisObject → World E F C → World E F C
  restored_world i o w =
      let (cache, object) =
        restore_omm_cache print codec i.restore_access o w.cache w.cache_object w.legacy in
      record w { cache = cache; cache_object = object }

  unfoldable pub acquire_omms :
      AcquireInputs E F
      → EphemerisObject
      → Duration
      → EphemerisStatus C
      → Option ClampWarn
      → World E F C
      → Acquired E F × World E F C
  unfolding restored_world acquire_warm
  acquire_omms i o interval s clamp w = acquire_warm i o interval s clamp (restored_world i o w)
