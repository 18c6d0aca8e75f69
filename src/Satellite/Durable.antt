-- ===== src/Satellite/Durable.antt =====
-- internal/controller/satelliteephemeris_ommcache_persist.go: the last good element sets in a
-- ConfigMap, written after a fetch and read back by a process whose cache is cold. The owner
-- references, the seeding of the fetcher's validators and the counters of the outcomes are left out.
use text.Mathlib.Text.{◌==◌ as str_eq}
use mathlib.Core.Option
use ntn_operators.Base.{
  ℕ, ◌*◌, Bool, false, not, ◌&&◌, Option, none, some, List, [], String, Text, text_eq, codes,
  byte_length, is_empty, length, take, ltb, Time, zero_time, if◌then◌else◌,
}
use ntn_operators.Base.Dict.{lookup, insert}
use ntn_operators.Controller.FlapState.{name_key}
use ntn_operators.Passes.{Omm}
use ntn_operators.Passes.Predict.{filter_omms}
use ntn_operators.Satellite.{EphemerisObject, GpFetchResult, Printer}
use ntn_operators.Satellite.Cadence.{max_propagated_states, norad_ids}
use ntn_operators.Satellite.Backoff.{CachedFetch}
use ntn_operators.Satellite.Cache.{OmmCache, fetch_input_key}

-- What the restore reads of a ConfigMap; a missing label, annotation or value is empty.
pub record CacheObject : Type 0 where
  pub label : Text
  pub omms_json : Text
  pub fetch_key : Text
  pub fetched_at : Text
  pub digest : Text
  pub uid : String
  pub etag : Text
  pub last_modified : Text

-- json.Marshal and ParseValidOMMs of element sets, and time.RFC3339Nano.
pub record OmmCodec {ℓ} (E F : Type ℓ) : Type ℓ where
  pub marshal : List (Omm E F) → Option Text
  pub parse_valid_omms : Text → Option (List (Omm E F))
  pub format_time : Time → Text
  pub parse_time : Text → Option Time

abbrev pub omm_cache_label_value : Text
omm_cache_label_value = codes "true"

abbrev pub max_omm_cache_bytes : ℕ
max_omm_cache_bytes = 900 * 1024

-- Whether the read and the write of the ConfigMap succeed.
pub record ObjectAccess : Type 0 where
  pub get_ok : Bool
  pub write_ok : Bool

module _ {ℓ} {E F : Type ℓ} where
  unfoldable pub omm_cache_payload : GpFetchResult E F → EphemerisObject → List (Omm E F)
  omm_cache_payload result o =
      take max_propagated_states (filter_omms result.omms (norad_ids o.spec))

module _ {ℓ} {E F : Type ℓ} (print : Printer) (codec : OmmCodec E F) where
  unfoldable pub stamp_omm_cache : EphemerisObject → Text → Text → GpFetchResult E F → CacheObject
  stamp_omm_cache o fetch_key json result = record {
    label = omm_cache_label_value;
    omms_json = json;
    fetch_key = fetch_key;
    fetched_at = codec.format_time result.fetched_at;
    digest = print.sha256_hex json;
    uid = o.uid;
    etag = result.etag;
    last_modified = result.last_modified;
  }

  unfoldable pub write_omm_cache :
      ObjectAccess
      → EphemerisObject
      → Text
      → Text
      → GpFetchResult E F
      → Option CacheObject
      → Option CacheObject
  unfolding stamp_omm_cache
  write_omm_cache access o fetch_key json result stored =
      let written =
        if access.write_ok then some (stamp_omm_cache o fetch_key json result) else stored in
      if not access.get_ok then stored else elim stored [
        | none ↦ written
        | some cm ↦
            if text_eq cm.digest (print.sha256_hex json) && not (is_empty cm.omms_json)
            then some cm
            else written
      ]

  unfoldable pub persist_omm_cache :
      ObjectAccess
      → EphemerisObject
      → GpFetchResult E F
      → Text
      → Option CacheObject
      → Option CacheObject
  unfolding omm_cache_payload write_omm_cache
  persist_omm_cache access o result fetch_key stored =
      let omms = omm_cache_payload result o in
      if is_empty omms then stored else elim (codec.marshal omms) [
        | none ↦ stored
        | some json ↦
            if ltb max_omm_cache_bytes (byte_length json)
            then stored
            else write_omm_cache access o fetch_key json result stored
      ]

  -- The gates of hydrateFromCacheObject.
  unfoldable pub passes_gates : EphemerisObject → Text → CacheObject → Bool
  passes_gates o fetch_key cm =
      text_eq cm.label omm_cache_label_value
      && not (is_empty cm.omms_json)
      && text_eq cm.digest (print.sha256_hex cm.omms_json)
      && str_eq cm.uid o.uid
      && text_eq cm.fetch_key fetch_key

  -- The entry that an object gives.
  unfoldable pub hydrated_entry : EphemerisObject → Text → CacheObject → Option (CachedFetch E F)
  unfolding passes_gates
  hydrated_entry o fetch_key cm =
      if not (passes_gates o fetch_key cm)
      then none
      else elim (codec.parse_valid_omms cm.omms_json) [
        | none ↦ none
        | some omms ↦
            if is_empty omms
            then none
            else some (record {
              result = record {
                omms = omms;
                satellite_count = length omms;
                fetched_at = Option.get_or (codec.parse_time cm.fetched_at) zero_time;
                not_modified = false;
                etag = [];
                last_modified = [];
              };
              fetch_key = fetch_key;
              uid = o.uid;
              next_fetch_attempt = zero_time;
              last_fetch_err = none;
              fetch_failures = 0;
              retry_key = [];
            })
      ]

  -- On what the read of an object gives; an error is like an absent object.
  unfoldable pub hydrate_from_cache_object :
      EphemerisObject → Text → Option CacheObject → Option (CachedFetch E F)
  unfolding hydrated_entry
  hydrate_from_cache_object o fetch_key none = none
  hydrate_from_cache_object o fetch_key (some cm) = hydrated_entry o fetch_key cm

  -- copyCacheForward: it creates, and leaves what is there.
  unfoldable pub copy_cache_forward :
      ObjectAccess → Option CacheObject → Option CacheObject → Option CacheObject
  copy_cache_forward access legacy stored = elim stored [
    | none ↦ if access.write_ok then legacy else none
    | some cm ↦ some cm
  ]

  -- The cache and the object under the present name. `legacy` is what the read of the old name gives.
  unfoldable pub restore_omm_cache :
      ObjectAccess
      → EphemerisObject
      → OmmCache E F
      → Option CacheObject
      → Option CacheObject
      → OmmCache E F × Option CacheObject
  unfolding copy_cache_forward
  restore_omm_cache access o cache stored legacy =
      let key = fetch_input_key print o.spec in
      elim (lookup o.key cache) [
        | some c ↦ (cache, stored)
        | none ↦ elim (hydrate_from_cache_object o key (if access.get_ok then stored else none)) [
          | some c ↦ (insert o.key c cache, stored)
          | none ↦ elim (hydrate_from_cache_object o key legacy) [
            | some c ↦ (insert o.key c cache, copy_cache_forward access legacy stored)
            | none ↦ (cache, stored)
          ]
        ]
      ]
