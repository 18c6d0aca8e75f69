-- ===== src/Tests/Satellite.antt =====
-- The theorems on the satellite ephemeris controller at concrete objects, and test runs.
use ntn_operators.Base.{
  ◌*◌, ◌≡◌, ◌⊎◌, refl, inr, Bool, true, false, none, some, [], ◌∷◌, codes, ℤ, pos, sub_time, ◌+◌,
  arith,
}
use ntn_operators.Base.Dict.{lookup}
use ntn_operators.Controller.Freshness.{hour}
use ntn_operators.Passes.Predict.{filter_omms}
use ntn_operators.Satellite.Cadence.{
  minute, effective_pass_horizon, effective_interval, clamp_refresh_interval,
}
use ntn_operators.Satellite.Backoff.{fetch_retry_delay, failures_after, apply_fetch_backoff}
use ntn_operators.Satellite.Cache.{
  fetch_input_key, retry_input_key, serve_none, is_matching, matching_cache, serve_entry,
  cache_serve,
}
use ntn_operators.Satellite.Durable.{omm_cache_payload, restore_omm_cache}
use ntn_operators.Satellite.Sources.{celes_trak, public_http_source, fetcher_for_source}
use ntn_operators.Satellite.Acquire.{
  FetchOutcome, usable, restored_world, acquire_omms, store_fetch,
}
use ntn_operators.Satellite.Canonical.{canonicalize_omms}
use ntn_operators.Satellite.Propagate.{propagate_all}
use ntn_operators.Satellite.Reconcile.{reconcile_object}
use ntn_operators.Satellite.Own.{IsOwn, acquire-IsOwn}
use ntn_operators.Satellite.Etiquette.{acquire_all, failed_fetch-holds_back}
use ntn_operators.Satellite.Ramp.{arm_all, arm_all-ramp}
use ntn_operators.Satellite.Restart.{IsStorable, IsFresh, restart, restart-continues}
use ntn_operators.Satellite.Attempts.{IsAscending}
use ntn_operators.Satellite.States.{IsSound, propagate_all-IsSound}
use ntn_operators.Satellite.Picks.{norads}
use ntn_operators.Satellite.Order.{IsSame, canonicalize-IsCanonical}
use ntn_operators.Satellite.Windows.{IsBacked, signature, reconcile-IsBacked}
use ntn_operators.Satellite.Continuity.{IsAnswer}
use ntn_operators.Satellite.Heartbeat.{IsBeating, reconcile-IsRenewed}
use ntn_operators.Tests.Whole.{whole}
use ntn_operators.Tests.Arranging.{omm_sorter}
use ntn_operators.Tests.Orbits.{
  blank, codec, codepoints, deps, entry, fetched_result, inputs, named_omm, object, outage, parse,
  print, sgp4, store, store_laws, timeout, urls, world,
}

interval_of_object : effective_interval object.spec.refresh_interval ≡ (pos (2 * hour), none)
unfolding effective_interval
interval_of_object = refl

horizon_of_object : effective_pass_horizon (pos 0) ≡ some (pos (24 * hour), false)
unfolding effective_pass_horizon
horizon_of_object = refl

found_entry : matching_cache print object world.cache ≡ some entry
unfolding matching_cache lookup is_matching fetch_input_key
found_entry = refl

restored_entry_found :
    matching_cache print object
      (restored_world urls print codec (outage (3 * hour)) object world).cache
    ≡ some entry
unfolding restored_world restore_omm_cache lookup matching_cache is_matching fetch_input_key
restored_entry_found = refl

expired : cache_serve print object world.cache (3 * hour) (pos (2 * hour)) ≡ serve_none
unfolding cache_serve serve_entry matching_cache lookup is_matching fetch_input_key retry_input_key
    sub_time
expired = refl

not_insecure : public_http_source urls (outage (3 * hour)).upstream object.spec.url ≡ none
unfolding public_http_source
not_insecure = refl

uses_celes_trak : fetcher_for_source (outage (3 * hour)).upstream object ≡ inr celes_trak
unfolding fetcher_for_source
uses_celes_trak = refl

acquire-IsOwn_example :
    let r =
      acquire_omms urls print codec (outage (3 * hour)) object (pos (2 * hour)) blank none world in
    IsOwn print object r.0 r.1.cache
acquire-IsOwn_example =
    acquire-IsOwn urls print codec (outage (3 * hour)) object (pos (2 * hour)) blank none world

failed_fetch-holds_back_example :
    let w' =
      (acquire_omms urls print codec
        (outage (3 * hour))
        object
        (pos (2 * hour))
        blank
        none
        world).1 in
    acquire_all urls print codec object
      (pos (2 * hour))
      (record { inputs = outage (3 * hour + 30); draft = blank; clamp = none } ∷ [])
      w'
    ≡ w'
unfolding fetch_retry_delay failures_after retry_input_key
failed_fetch-holds_back_example =
    failed_fetch-holds_back urls print codec object (pos (2 * hour)) (outage (3 * hour)) blank none
      world entry celes_trak timeout
      (record { inputs = outage (3 * hour + 30); draft = blank; clamp = none } ∷ []) found_entry
      expired not_insecure uses_celes_trak refl refl

-- The third failure in a row, four minutes.
arm_all-ramp_example :
    (apply_fetch_backoff
      (arm_all (codes "k") (pos (2 * hour)) ((timeout, 1) ∷ (timeout, 2) ∷ []) entry)
      timeout
      (codes "k")
      (pos (2 * hour))
      3).next_fetch_attempt
    ≡ 3 + 4 * minute
arm_all-ramp_example =
    arm_all-ramp entry (codes "k") (pos (2 * hour)) ((timeout, 1) ∷ (timeout, 2) ∷ []) timeout 3
      refl refl refl

payload_is_stored : IsStorable print codec object fetched_result (7 ∷ 5 ∷ [])
unfolding omm_cache_payload filter_omms
payload_is_stored = record {
  nonempty = refl;
  written = refl;
  read_back = refl;
  with_text = refl;
  within = refl;
  dated = refl;
}

restart-continues_example :
    (out : FetchOutcome Bool ℤ) × ((acquire_omms urls print codec
        (outage (3 * hour))
        object
        (pos (2 * hour))
        blank
        none
        (restart urls print codec object
          (store_fetch urls print codec (outage 10) object fetched_result world))).0
      ≡ usable out)
    × (out.served_cache_on_error ≡ true
        → (out.result.omms ≡ omm_cache_payload fetched_result object)
          × (out.result.fetched_at ≡ 10))
    × ((out.result.omms ≡ omm_cache_payload fetched_result object)
        ⊎ IsFresh (outage (3 * hour)) object out.result)
restart-continues_example =
    restart-continues urls print codec object (outage 10) (outage (3 * hour)) fetched_result
      (7 ∷ 5 ∷ []) (pos (2 * hour)) blank none world refl refl refl refl payload_is_stored
      not_insecure

propagate_all-IsSound_example :
    IsSound parse sgp4 codepoints
      (3 * hour)
      (3 * hour + 5 * minute)
      0
      (named_omm 5 ∷ named_omm 7 ∷ [])
      (propagate_all parse sgp4 codepoints
        (3 * hour)
        (3 * hour + 5 * minute)
        0
        (named_omm 5 ∷ named_omm 7 ∷ []))
propagate_all-IsSound_example =
    propagate_all-IsSound parse sgp4 codepoints (3 * hour) (3 * hour + 5 * minute) 0
      (named_omm 5 ∷ named_omm 7 ∷ []) (omega arith)

canonicalize-IsCanonical_example :
    (let out = canonicalize_omms parse omm_sorter (named_omm 7 ∷ named_omm 5 ∷ []) in
      IsAscending (norads out) × IsSame (norads out) (7 ∷ 5 ∷ []))
    × (IsSame (7 ∷ 5 ∷ []) (5 ∷ 7 ∷ [])
        → norads (canonicalize_omms parse omm_sorter (named_omm 7 ∷ named_omm 5 ∷ []))
          ≡ norads (canonicalize_omms parse omm_sorter (named_omm 5 ∷ named_omm 7 ∷ [])))
canonicalize-IsCanonical_example =
    canonicalize-IsCanonical parse omm_sorter (named_omm 7 ∷ named_omm 5 ∷ [])
      (named_omm 5 ∷ named_omm 7 ∷ [])

reconcile-IsBacked_example :
    let r = reconcile_object deps inputs object world in
    (r.1.status ≡ blank) ⊎ IsBacked (signature deps inputs) object r.1.status
reconcile-IsBacked_example = reconcile-IsBacked deps inputs object store_laws world

reconcile-IsRenewed_example :
    (out : FetchOutcome Bool ℤ) × ((out.result.omms ≡ entry.result.omms)
      ⊎ IsAnswer inputs.acquire object entry out.result)
    × IsBeating deps inputs object
        (clamp_refresh_interval object blank.conditions).0
        out
        (reconcile_object deps inputs object world)
reconcile-IsRenewed_example =
    reconcile-IsRenewed deps inputs object world entry restored_entry_found not_insecure refl
