-- ===== src/Satellite/Restart.antt =====
-- internal/controller/satelliteephemeris_ommcache_persist.go: a store after a fetch, and a restore by a
-- process with a cold cache.
use text.Mathlib.TextEquality.{eq_iff}
use ntn_operators.Base.{
  ◌≡◌, ◌⊎◌, inl, inr, refl, sym, ap, subst, Bool, true, false, not, ◌&&◌, Option, none, some, [],
  Text, text_eq, text_eq_iff, byte_length, is_empty, length, ltb, Duration, arith,
}
use ntn_operators.Base.Dict.{lookup}
use ntn_operators.Controller.FlapState.{name_key}
use ntn_operators.Readers.Allowlist.{UrlLibrary}
use ntn_operators.Satellite.{
  EphemerisObject, EphemerisStatus, MetaConditions, GpFetchResult, Printer,
}
use ntn_operators.Satellite.Cadence.{ClampWarn}
use ntn_operators.Satellite.Backoff.{CachedFetch}
use ntn_operators.Satellite.Cache.{fetch_input_key, is_matching, matching_cache}
use ntn_operators.Satellite.Durable.{
  CacheObject, OmmCodec, ObjectAccess, max_omm_cache_bytes, omm_cache_payload, stamp_omm_cache,
  write_omm_cache, persist_omm_cache, passes_gates, hydrated_entry, hydrate_from_cache_object,
  restore_omm_cache,
}
use ntn_operators.Satellite.Failure.{World}
use ntn_operators.Satellite.Sources.{Fetcher, fetch_ok, fetcher_for_source, public_http_source}
use ntn_operators.Satellite.Acquire.{
  AcquireInputs, FetchOutcome, usable, store_fetch, restored_world, acquire_omms,
}
use ntn_operators.Satellite.Matching.{matching-insert, is_matching_iff}
use ntn_operators.Satellite.Continuity.{IsAnswer, acquire-IsContinued}

-- Whether an object is written over.
abbrev pub is_replaced : Text → Option CacheObject → Bool
is_replaced digest none = true
is_replaced digest (some cm) = not (text_eq cm.digest digest && not (is_empty cm.omms_json))

-- The result is what the source has answered the fetcher of the object, and it has a body.
pub record IsFresh {ℓ} {E F : Type ℓ} (j : AcquireInputs E F) (o : EphemerisObject)
    (r : GpFetchResult E F) : Type ℓ where
  pub fetcher : Fetcher
  pub chosen : fetcher_for_source j.upstream o ≡ inr fetcher
  pub answered : j.upstream.fetch_from fetcher o.spec.url ≡ fetch_ok r
  pub with_body : (r.not_modified && is_empty r.omms) ≡ false

not-true : (b : Bool) → not b ≡ true → b ≡ false
not-true b h = ground arith

module _ {ℓ} {E F : Type ℓ} (print : Printer) (codec : OmmCodec E F) (o : EphemerisObject) where
  -- The payload of a fetch is one that the codec writes within the bound and reads back.
  pub record IsStorable (result : GpFetchResult E F) (json : Text) : Type ℓ where
    pub nonempty : is_empty (omm_cache_payload result o) ≡ false
    pub written : codec.marshal (omm_cache_payload result o) ≡ some json
    pub read_back : codec.parse_valid_omms json ≡ some (omm_cache_payload result o)
    pub with_text : is_empty json ≡ false
    pub within : ltb max_omm_cache_bytes (byte_length json) ≡ false
    pub dated : codec.parse_time (codec.format_time result.fetched_at) ≡ some result.fetched_at

  persist-stamps :
      (access : ObjectAccess) (result : GpFetchResult E F) (json : Text)
      (stored : Option CacheObject)
      → access.get_ok ≡ true
      → access.write_ok ≡ true
      → is_replaced (print.sha256_hex json) stored ≡ true
      → IsStorable result json
      → persist_omm_cache print codec access o result (fetch_input_key print o.spec) stored
        ≡ some (stamp_omm_cache print codec o (fetch_input_key print o.spec) json result)
  unfolding persist_omm_cache write_omm_cache
  persist-stamps access result json none g wr r h =
      rw (persist_omm_cache, h.nonempty, h.written, h.within, write_omm_cache, g, wr)
  persist-stamps access result json (some cm) g wr r h = rw (
    persist_omm_cache,
    h.nonempty,
    h.written,
    h.within,
    write_omm_cache,
    g,
    wr,
    not-true (text_eq cm.digest (print.sha256_hex json) && not (is_empty cm.omms_json)) r,
  )

  stamped-gates :
      (result : GpFetchResult E F) (json : Text)
      → is_empty json ≡ false
      → (let key = fetch_input_key print o.spec in
          passes_gates print codec o key (stamp_omm_cache print codec o key json result))
        ≡ true
  unfolding passes_gates stamp_omm_cache
  stamped-gates result json h = rw (
    passes_gates,
    stamp_omm_cache,
    h,
    (text_eq_iff (print.sha256_hex json) (print.sha256_hex json)).1 refl,
    (text_eq_iff (fetch_input_key print o.spec) (fetch_input_key print o.spec)).1 refl,
    (eq_iff o.uid o.uid).1 refl,
  )

  -- The entry that the stamped object gives.
  abbrev restored_entry : GpFetchResult E F → CachedFetch E F
  restored_entry result = record {
    result = record {
      omms = omm_cache_payload result o;
      satellite_count = length (omm_cache_payload result o);
      fetched_at = result.fetched_at;
      not_modified = false;
      etag = [];
      last_modified = [];
    };
    fetch_key = fetch_input_key print o.spec;
    uid = o.uid;
    next_fetch_attempt = 0;
    last_fetch_err = none;
    fetch_failures = 0;
    retry_key = [];
  }

  stamped-hydrates :
      (result : GpFetchResult E F) (json : Text)
      → IsStorable result json
      → (let key = fetch_input_key print o.spec in
          hydrated_entry print codec o key (stamp_omm_cache print codec o key json result))
        ≡ some (restored_entry result)
  unfolding hydrated_entry stamp_omm_cache
  stamped-hydrates result json h =
      rw (hydrated_entry, stamped-gates result json h.with_text, h.read_back, h.nonempty, h.dated)

answer-IsFresh {ℓ} :
    {E F : Type ℓ} (j : AcquireInputs E F) (o : EphemerisObject) (c : CachedFetch E F)
    (r : GpFetchResult E F)
    → is_empty c.result.omms ≡ false
    → IsAnswer j o c r
    → IsFresh j o r
answer-IsFresh j o c r m h = record {
  fetcher = h.fetcher;
  chosen = h.chosen;
  answered = h.answered;
  with_body = elim h.with_body [ inl b ↦ b | inr k ↦ absurd (cc) ];
}

module _ {ℓ} {E F C : Type ℓ} ⦃meta : MetaConditions C⦄ (lib : UrlLibrary) (print : Printer)
    (codec : OmmCodec E F) (o : EphemerisObject) where
  -- The process ends, and another starts.
  abbrev pub restart : World E F C → World E F C
  restart w = record w { cache = [] }

  cold-restores :
      (j : AcquireInputs E F) (w : World E F C) (cm : CacheObject) (c : CachedFetch E F)
      → j.restore_access.get_ok ≡ true
      → hydrated_entry print codec o (fetch_input_key print o.spec) cm ≡ some c
      → is_matching print o c ≡ true
      → matching_cache print o
          (restored_world lib print codec j o
            (record w { cache = []; cache_object = some cm })).cache
        ≡ some c
  unfolding restored_world restore_omm_cache hydrate_from_cache_object lookup
  cold-restores j w cm c rd h m =
      rw (restored_world, restore_omm_cache, rd, hydrate_from_cache_object, h)
        (matching-insert print o c [] m)

  stored-restores :
      (i j : AcquireInputs E F) (result : GpFetchResult E F) (json : Text) (w : World E F C)
      → i.persist_access.get_ok ≡ true
      → i.persist_access.write_ok ≡ true
      → j.restore_access.get_ok ≡ true
      → is_replaced (print.sha256_hex json) w.cache_object ≡ true
      → IsStorable print codec o result json
      → matching_cache print o
          (restored_world lib print codec j o
            (restart (store_fetch lib print codec i o result w))).cache
        ≡ some (restored_entry print codec o result)
  unfolding store_fetch
  stored-restores i j result json w g wr rd r h =
      subst
        (λ (object : Option CacheObject).
          matching_cache print o
            (restored_world lib print codec j o
              (record w { cache = []; cache_object = object })).cache
          ≡ some (restored_entry print codec o result))
        (sym (persist-stamps print codec o i.persist_access result json w.cache_object g wr r h))
        (cold-restores j w _ (restored_entry print codec o result) rd
          (stamped-hydrates print codec o result json h)
          ((is_matching_iff print o _).1 (refl, refl)))

  -- After a fetch whose payload, with at least one element set, was stored, a restart that can read the
  -- ConfigMap has an outcome whatever the Secrets and the source answer then, unless the source is
  -- cleartext http to a public address. Its element sets are the tracked ones of that fetch, capped, or
  -- it is what the source now answers, with a body. Served on an error they are those of that fetch,
  -- with the instant of that fetch.
  pub restart-continues :
      (i j : AcquireInputs E F) (result : GpFetchResult E F) (json : Text) (interval : Duration)
      (s : EphemerisStatus C) (clamp : Option ClampWarn) (w : World E F C)
      → i.persist_access.get_ok ≡ true
      → i.persist_access.write_ok ≡ true
      → j.restore_access.get_ok ≡ true
      → is_replaced (print.sha256_hex json) w.cache_object ≡ true
      → IsStorable print codec o result json
      → public_http_source lib j.upstream o.spec.url ≡ none
      → (out : FetchOutcome E F) × ((acquire_omms lib print codec j o interval s clamp
            (restart (store_fetch lib print codec i o result w))).0
          ≡ usable out)
        × (out.served_cache_on_error ≡ true
            → (out.result.omms ≡ omm_cache_payload result o)
              × (out.result.fetched_at ≡ result.fetched_at))
        × ((out.result.omms ≡ omm_cache_payload result o) ⊎ IsFresh j o out.result)
  restart-continues i j result json interval s clamp w g wr rd r h p =
      let (out, e, same, origin) =
        acquire-IsContinued lib print codec j o interval s clamp
          (restart (store_fetch lib print codec i o result w)) (restored_entry print codec o result)
          (stored-restores i j result json w g wr rd r h) p in
      (
        out,
        e,
        λ k. (
          ap (λ (x : GpFetchResult E F). x.omms) (same k),
          ap (λ (x : GpFetchResult E F). x.fetched_at) (same k),
        ),
        elim origin [
          | inl k ↦ inl k
          | inr k ↦
              inr (answer-IsFresh j o (restored_entry print codec o result) out.result h.nonempty k)
        ],
      )
