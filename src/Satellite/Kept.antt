-- ===== src/Satellite/Kept.antt =====
-- internal/controller/satelliteephemeris_controller.go: what acquireOMMs does to the durable status.
use ntn_operators.Base.{
  ◌≡◌, ◌⊎◌, refl, inl, inr, false, Option, none, some, List, [], Duration, Bool-cases, Option-cases,
}
use ntn_operators.Egress.{Ip}
use ntn_operators.Readers.Allowlist.{UrlLibrary}
use ntn_operators.Satellite.{
  EphemerisObject, EphemerisStatus, FetchError, SetupError, passes_predicted, MetaConditions,
  MetaLaws, EphEvent, GpFetchResult, Printer,
}
use ntn_operators.Satellite.Cadence.{ClampWarn, invalidate_pass_prediction_status}
use ntn_operators.Satellite.Cache.{matching_cache}
use ntn_operators.Satellite.Durable.{OmmCodec}
use ntn_operators.Satellite.Failure.{
  World, Outcome, StatusWrite, store_eph_status, persist_eph_status, finish_failure,
  handle_insecure_url, handle_fetch_error, handle_setup_failure,
}
use ntn_operators.Satellite.Sources.{Fetcher, public_http_source, fetcher_for_source}
use ntn_operators.Satellite.Acquire.{
  AcquireInputs, FetchOutcome, Acquired, early, usable, store_fetch, accept_fetch, fall_back,
  obtain_omms, serve_without_fetcher, acquire_warm, restored_world, acquire_omms,
}
use ntn_operators.Satellite.Matching.{cache_serve-cases, Fetched-cases, Sum-cases}
use ntn_operators.Satellite.Own.{accept_fetch-cases}

module _ {ℓ} {C : Type ℓ} ⦃meta : MetaConditions C⦄ where
  -- A status without predictions, whose propagated states are those of another.
  pub record IsCleared (s t : EphemerisStatus C) : Type ℓ where
    pub no_condition : meta.find passes_predicted t.conditions ≡ none
    pub no_windows : t.next_pass_windows ≡ []
    pub no_time : t.last_pass_prediction_time ≡ none
    pub no_hash : t.last_pass_prediction_input_hash ≡ []
    pub same_states : t.propagated_states ≡ s.propagated_states
    pub same_input_hash : t.propagated_states_input_hash ≡ s.propagated_states_input_hash

-- An early end leaves the status as it was, or cleared; element sets are handed out without a write.
abbrev pub IsKept {ℓ} :
    {E F C : Type ℓ} ⦃meta : MetaConditions C⦄
    → EphemerisStatus C
    → EphemerisStatus C
    → Acquired E F × World E F C
    → Type ℓ
IsKept s draft (early outcome, w) = (w.status ≡ s) ⊎ IsCleared draft w.status
IsKept s draft (usable out, w) = w.status ≡ s

module _ {ℓ} {E F C : Type ℓ} ⦃meta : MetaConditions C⦄ where
  finish-IsCleared :
      MetaLaws meta
      → (io : StatusWrite) (s t : EphemerisStatus C) (clamp : Option ClampWarn)
        (events : List EphEvent) (outcome : Outcome) (w : World E F C)
      → t.propagated_states ≡ s.propagated_states
      → t.propagated_states_input_hash ≡ s.propagated_states_input_hash
      → let r = finish_failure io (invalidate_pass_prediction_status t) clamp events outcome w in
        (r.1.status ≡ w.status) ⊎ IsCleared s r.1.status
  unfolding finish_failure persist_eph_status store_eph_status invalidate_pass_prediction_status
  finish-IsCleared laws io s t clamp events outcome w p q = elim (Bool-cases io.write_ok) [
    | inr e ↦ inl (rw (finish_failure, persist_eph_status, e))
    | inl e ↦ inr (
        rw (finish_failure, persist_eph_status, e)
          (record {
            no_condition = laws.find-remove passes_predicted t.conditions;
            no_windows = refl;
            no_time = refl;
            no_hash = refl;
            same_states = p;
            same_input_hash = q;
          }))
  ]

module _ {ℓ} {E F C : Type ℓ} ⦃meta : MetaConditions C⦄ (laws : MetaLaws meta) (lib : UrlLibrary)
    (print : Printer) (codec : OmmCodec E F) (i : AcquireInputs E F) (o : EphemerisObject)
    (interval : Duration) (s : EphemerisStatus C) (clamp : Option ClampWarn) where
  accept-IsKept :
      (g : GpFetchResult E F) (w : World E F C)
      → IsKept w.status s (accept_fetch lib print codec i o g w)
  unfolding store_fetch
  accept-IsKept g w = elim (accept_fetch-cases lib print codec i o g w) [
    | inl e ↦ rw e refl
    | inr (c, f, e) ↦ rw e refl
  ]

  fall_back-IsKept :
      (err : FetchError) (w : World E F C)
      → IsKept w.status s (fall_back lib print codec i o interval err s clamp w)
  unfolding fall_back handle_fetch_error
  fall_back-IsKept err w = elim (Option-cases (matching_cache print o w.cache)) [
    | inr (c, e) ↦ rw (fall_back, e) refl
    | inl e ↦ rw (fall_back, e) (finish-IsCleared laws i.early_write s _ clamp _ _ w refl refl)
  ]

  insecure-IsKept :
      (ip : Ip) (w : World E F C)
      → let r = handle_insecure_url i.early_write o ip s clamp w in
        (r.1.status ≡ w.status) ⊎ IsCleared s r.1.status
  unfolding handle_insecure_url
  insecure-IsKept ip w = finish-IsCleared laws i.early_write s _ clamp _ _ w refl refl

  setup-IsKept :
      (err : SetupError) (w : World E F C)
      → IsKept w.status s (serve_without_fetcher lib print codec i o err s clamp w)
  unfolding serve_without_fetcher handle_setup_failure
  setup-IsKept err w = elim (Option-cases (matching_cache print o w.cache)) [
    | inr (c, e) ↦ rw (serve_without_fetcher, e) refl
    | inl e ↦
        rw (serve_without_fetcher, e)
          (finish-IsCleared laws i.early_write s _ clamp [] _ (record w { ready = some false }) refl
            refl)
  ]

  obtain-IsKept :
      (fetcher : Fetcher) (w : World E F C)
      → IsKept w.status s (obtain_omms lib print codec i o fetcher interval s clamp w)
  unfolding obtain_omms
  obtain-IsKept fetcher w = elim (Option-cases (public_http_source lib i.upstream o.spec.url)) [
    | inr (ip, e) ↦ rw (obtain_omms, e) (insecure-IsKept ip w)
    | inl e ↦ elim (Fetched-cases (i.upstream.fetch_from fetcher o.spec.url)) [
      | inl (err, f) ↦ rw (obtain_omms, e, f) (fall_back-IsKept err w)
      | inr (g, f) ↦ rw (obtain_omms, e, f) (accept-IsKept g w)
    ]
  ]

  warm-IsKept :
      (w : World E F C) → IsKept w.status s (acquire_warm lib print codec i o interval s clamp w)
  unfolding acquire_warm
  warm-IsKept w = elim (cache_serve-cases print o w.cache i.now interval) [
    | inr (c, f, inl e) ↦ rw (acquire_warm, e) refl
    | inr (c, f, inr e) ↦ rw (acquire_warm, e) refl
    | inl e ↦ elim (Sum-cases (fetcher_for_source i.upstream o)) [
      | inr (fetcher, f) ↦ rw (acquire_warm, e, f) (obtain-IsKept fetcher w)
      | inl (err, f) ↦ rw (acquire_warm, e, f) (setup-IsKept err w)
    ]
  ]

  pub acquire-IsKept :
      (w : World E F C) → IsKept w.status s (acquire_omms lib print codec i o interval s clamp w)
  unfolding acquire_omms restored_world
  acquire-IsKept w = warm-IsKept (restored_world lib print codec i o w)

module _ {ℓ} {E F C : Type ℓ} ⦃meta : MetaConditions C⦄ (s draft : EphemerisStatus C) where
  pub early-status :
      (r : Acquired E F × World E F C) (outcome : Outcome)
      → r.0 ≡ early outcome
      → IsKept s draft r
      → (r.1.status ≡ s) ⊎ IsCleared draft r.1.status
  early-status (early x, w) outcome e h = h
  early-status (usable x, w) outcome e h = absurd (cc)

  pub usable-status :
      (r : Acquired E F × World E F C) (out : FetchOutcome E F)
      → r.0 ≡ usable out
      → IsKept s draft r
      → r.1.status ≡ s
  usable-status (early x, w) out e h = absurd (cc)
  usable-status (usable x, w) out e h = h

-- Whether element sets were handed out.
pub Acquired-cases {ℓ} :
    {E F : Type ℓ} (a : Acquired E F)
    → ((outcome : Outcome) × (a ≡ early outcome)) ⊎ ((out : FetchOutcome E F) × (a ≡ usable out))
Acquired-cases (early outcome) = inl (outcome, refl)
Acquired-cases (usable out) = inr (out, refl)
