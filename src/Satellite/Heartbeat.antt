-- ===== src/Satellite/Heartbeat.antt =====
-- internal/controller/satelliteephemeris_controller.go: the states that write A of a
-- reconcile leaves for the push to the cells.
use ntn_operators.Base.{
  ◌-◌, ◌*◌, ◌≤◌, ◌≡◌, ◌⊎◌, refl, ◌∙◌, true, false, Option, none, some, List, ◌++◌, map, length,
  is_empty, Text, Time, Duration, negsuc, min_ℤ, add_time, arith,
}
use ntn_operators.Float.{Float}
use ntn_operators.Passes.{Omm}
use ntn_operators.Passes.Predict.{filter_omms}
use ntn_operators.Satellite.{EphemerisObject, EphemerisStatus, PropagatedState, MetaConditions}
use ntn_operators.Satellite.Cadence.{
  minute, ClampWarn, clamp_refresh_interval, propagation_epoch_lead, propagation_refresh_interval,
  max_propagated_states, norad_ids,
}
use ntn_operators.Satellite.Backoff.{CachedFetch}
use ntn_operators.Satellite.Cache.{matching_cache}
use ntn_operators.Satellite.Failure.{
  World, Outcome, failed, requeue_after, store_eph_status, persist_eph_status,
}
use ntn_operators.Satellite.Sources.{public_http_source}
use ntn_operators.Satellite.Acquire.{FetchOutcome, restored_world}
use ntn_operators.Satellite.Continuity.{IsAnswer, acquire-IsContinued}
use ntn_operators.Satellite.Canonical.{canonicalize_omms}
use ntn_operators.Satellite.Propagate.{propagate_states}
use ntn_operators.Satellite.Regime.{split_by_orbit_regime}
use ntn_operators.Satellite.Digests.{propagation_input_hash, pass_sweep_decision}
use ntn_operators.Satellite.Attempts.{Every, IsPushed, IsAscending}
use ntn_operators.Satellite.Capped.{states_of}
use ntn_operators.Satellite.States.{propagate_all-IsSound}
use ntn_operators.Satellite.Order.{canonical-IsAscending}
use ntn_operators.Satellite.Reconcile.{
  Deps, Inputs, prepare_passes, draft_heartbeat, publish, reconcile_object,
}
use ntn_operators.Satellite.Windows.{acquired_of}
use ntn_operators.Satellite.Sweeps.{
  SamePush, prepared-SamePush, IsInterrupted, sweep_if_due-EndsWith,
}

-- States for an epoch, each of another satellite, in ascending order, within the cap, under the digest
-- of the inputs they were propagated from. They are what `states` gives for the element sets, but for
-- those behind, of which there are some only where the cap is reached.
pub record IsRenewed {ℓ} {E F C : Type ℓ} (epoch : Time) (hash : Text)
    (states : List (Omm E F) → List PropagatedState) (omms : List (Omm E F)) (s : EphemerisStatus C)
    : Type ℓ where
  pub pushed : Every (IsPushed epoch) s.propagated_states
  pub capped : length s.propagated_states ≤ max_propagated_states
  pub ascending : IsAscending (map (λ (p : PropagatedState). p.norad_id) s.propagated_states)
  pub before : List (Omm E F)
  pub behind : List (Omm E F)
  pub split : omms ≡ before ++ behind
  pub recorded : s.propagated_states ≡ states before
  pub full : is_empty behind ≡ false → length s.propagated_states ≡ max_propagated_states
  pub hashed : s.propagated_states_input_hash ≡ hash

module _ {ℓ} {E F C : Type ℓ} (epoch : Time) (hash : Text)
    (states : List (Omm E F) → List PropagatedState) (omms : List (Omm E F)) where
  fields-IsRenewed :
      (s t : EphemerisStatus C)
      → SamePush s t
      → IsRenewed epoch hash states omms s
      → IsRenewed epoch hash states omms t
  fields-IsRenewed s t p h = record {
    pushed = rw (p.0) h.pushed;
    capped = rw (p.0) h.capped;
    ascending = rw (p.0) h.ascending;
    before = h.before;
    behind = h.behind;
    split = h.split;
    recorded = p.0 ∙ h.recorded;
    full = rw (p.0) h.full;
    hashed = p.1 ∙ h.hashed;
  }

-- The epoch and the digest of a heartbeat, and how it ends.
abbrev pub epoch_of {ℓ} : {E F : Type ℓ} → Inputs E F → Time
epoch_of i = add_time i.propagated_at propagation_epoch_lead

-- The instant that the epochs of the element sets are judged at.
abbrev pub judged_at {ℓ} : {E F : Type ℓ} → Inputs E F → Time
judged_at i = add_time (epoch_of i) (negsuc (5 * minute - 1))

module _ {ℓ} {Tle Eci E F : Type ℓ} (deps : Deps Tle Eci E F) where
  -- The element sets that are propagated, and what each of them gives.
  abbrev pub tracked : ⦃fl : Float F⦄ → EphemerisObject → FetchOutcome E F → List (Omm E F)
  tracked o out =
      canonicalize_omms deps.parse deps.sorter
        (filter_omms (split_by_orbit_regime deps.regime out.result.omms).0 (norad_ids o.spec))

  abbrev pub given_states : Inputs E F → List (Omm E F) → List PropagatedState
  given_states i = states_of deps.parse deps.sgp4 deps.codepoints (judged_at i) (epoch_of i)

module _ {ℓ} {Tle Eci E F C : Type ℓ} ⦃fl : Float F⦄ ⦃meta : MetaConditions C⦄
    (deps : Deps Tle Eci E F) (i : Inputs E F) (o : EphemerisObject) where
  draft-IsRenewed :
      (out : FetchOutcome E F) (s : EphemerisStatus C)
      → IsRenewed
          (epoch_of i)
          (propagation_input_hash deps.print o.spec)
          (given_states deps i)
          (tracked deps o out)
          (draft_heartbeat deps i o out s).0
  unfolding draft_heartbeat propagate_states
  draft-IsRenewed out s =
      let sound =
        propagate_all-IsSound deps.parse deps.sgp4 deps.codepoints (judged_at i) (epoch_of i) 0
          (tracked deps o out) (omega arith) in
      record {
        pushed = sound.counted.pushed;
        capped = omega (arith, sound.counted.capped);
        ascending = sound.counted.ascending (canonical-IsAscending deps.parse deps.sorter _);
        before = sound.stopped.before;
        behind = sound.stopped.behind;
        split = sound.stopped.split;
        recorded = sound.stopped.recorded;
        full = λ e. omega (arith, sound.stopped.full e);
        hashed = refl;
      }

  -- The result of a reconcile that could write its heartbeat.
  abbrev pub IsBeating : Duration → FetchOutcome E F → Outcome × World E F C → Type ℓ
  IsBeating interval out r =
      ((r.0 ≡ failed) × IsInterrupted deps i o out
        ⊎ (r.0 ≡ requeue_after (min_ℤ interval propagation_refresh_interval)))
      × IsRenewed (epoch_of i) (propagation_input_hash deps.print o.spec) (given_states deps i)
          (tracked deps o out) r.1.status
      × (r.1.ready ≡ some true)

  publish-IsBeating :
      (interval : Duration) (clamp : Option ClampWarn) (out : FetchOutcome E F)
      (s : EphemerisStatus C) (w : World E F C)
      → i.write_a.write_ok ≡ true
      → IsBeating interval out (publish deps i o interval clamp out s w)
  unfolding publish persist_eph_status store_eph_status
  publish-IsBeating interval clamp out s w b =
      let d = draft_heartbeat deps i o out s in
      let sig = pass_sweep_decision deps.print i.get_station o.spec d.0 i.acquire.now in
      let hash = propagation_input_hash deps.print o.spec in
      rw (publish, persist_eph_status, b)
        (let ends = sweep_if_due-EndsWith deps i o out sig _ _ in
          (
            ends.0,
            fields-IsRenewed (epoch_of i) hash (given_states deps i) (tracked deps o out)
                (store_eph_status i.write_a.stored (prepare_passes o sig.0 d.0)) _ ends.1
                (fields-IsRenewed (epoch_of i) hash (given_states deps i) (tracked deps o out) d.0
                  (store_eph_status i.write_a.stored (prepare_passes o sig.0 d.0))
                  (prepared-SamePush o sig.0 d.0) (draft-IsRenewed out s)),
            ends.2,
          ))

  -- With a matching entry in the cache, restored or not, a source that is not cleartext http to a
  -- public address, and a status that can be written, a reconcile renews the propagated states,
  -- whatever the Secrets, the source, the stations, the sweep and the second write do. They are what
  -- the tracked element sets of its outcome give that have a plausible epoch and can be propagated:
  -- all of them, or the first 128. The element sets are those of the entry, or of an answer of the
  -- source. The states are for five minutes after the propagation, of distinct satellites in ascending
  -- order, within the ranges of TS 38.331, under the digest of the present inputs; the gauge says
  -- ready; and the reconcile asks for the next one after the shorter of the clamped interval and three
  -- minutes, or returns an error, where the second write fails or the context stops the sweep.
  pub reconcile-IsRenewed :
      (w : World E F C) (c : CachedFetch E F)
      → matching_cache deps.print o
          (restored_world deps.urls deps.print deps.codec i.acquire o w).cache
        ≡ some c
      → public_http_source deps.urls i.acquire.upstream o.spec.url ≡ none
      → i.write_a.write_ok ≡ true
      → (out : FetchOutcome E F) × ((out.result.omms ≡ c.result.omms)
          ⊎ IsAnswer i.acquire o c out.result)
        × IsBeating
            (clamp_refresh_interval o w.status.conditions).0
            out
            (reconcile_object deps i o w)
  unfolding reconcile_object
  reconcile-IsRenewed w c h p b =
      let clamped = clamp_refresh_interval o w.status.conditions in
      let s = record (w.status) { conditions = clamped.1 } in
      let (out, e, same, origin) =
        acquire-IsContinued deps.urls deps.print deps.codec i.acquire o clamped.0 s clamped.2 w c h
          p in
      (
        out,
        origin,
        rw (reconcile_object, e)
            (publish-IsBeating clamped.0 clamped.2 out s (acquired_of deps i o w).1 b),
      )
