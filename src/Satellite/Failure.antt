-- ===== src/Satellite/Failure.antt =====
-- internal/controller/satelliteephemeris_controller.go: the status write, and the reconciles that end
-- without element sets, on the durable status, the caches, the readiness gauge and the events.
use mathlib.Core.Option
use ntn_operators.Base.{
  Bool, false, Option, none, some, List, [], ◌∷◌, ◌++◌, map, Time, Duration, pos, if◌then◌else◌,
}
use ntn_operators.Station.{condition_false}
use ntn_operators.Egress.{Ip}
use ntn_operators.Satellite.{
  EphemerisObject, EphemerisStatus, PassWindow, FetchError, SetupError, of_fetch, of_setup,
  gp_data_fetched, gp_data_parsed, of_error, insecure_source, nothing_to_parse, EphCondition,
  MetaConditions, condition_episode_changed, EphEvent,
}
use ntn_operators.Satellite.Cadence.{ClampWarn, minute, invalidate_pass_prediction_status}
use ntn_operators.Satellite.Backoff.{classify_fetch_error}
use ntn_operators.Satellite.Cache.{OmmCache}
use ntn_operators.Satellite.Durable.{CacheObject}

-- `ready` is the gauge gp_fetch_ready, and `legacy` the ConfigMap under its old name.
pub record World {ℓ} (E F C : Type ℓ) : Type ℓ where
  pub status : EphemerisStatus C
  pub cache : OmmCache E F
  pub cache_object : Option CacheObject
  pub legacy : Option CacheObject
  pub ready : Option Bool
  pub events : List EphEvent

-- ctrl.Result and the error: `failed` for an error.
pub data Outcome : Type 0 where
  failed : Outcome
  stopped : Outcome
  requeue_after : Duration → Outcome

-- Whether a status update succeeds, and what a metav1.Time reads back as.
pub record StatusWrite : Type 0 where
  pub write_ok : Bool
  pub stored : Time → Time

unfoldable pub store_window : (Time → Time) → PassWindow → PassWindow
store_window stored w = record w { aos = stored w.aos; los = stored w.los }

unfoldable pub store_eph_status {ℓ} :
    {C : Type ℓ} → (Time → Time) → EphemerisStatus C → EphemerisStatus C
unfolding store_window
store_eph_status stored s = record s {
  last_updated = Option.map stored s.last_updated;
  last_pass_prediction_time = Option.map stored s.last_pass_prediction_time;
  next_pass_windows = map (store_window stored) s.next_pass_windows;
}

unfoldable pub clamp_events : Option ClampWarn → List EphEvent
clamp_events none = []
clamp_events (some w) = record { reason = "RefreshIntervalClamped"; note = w.msg } ∷ []

module _ {ℓ} {E F C : Type ℓ} where
  -- `none` is the error. The warning is spent by the write.
  unfoldable pub persist_eph_status :
      StatusWrite → EphemerisStatus C → Option ClampWarn → World E F C → Option (World E F C)
  unfolding store_eph_status clamp_events
  persist_eph_status io draft clamp w =
      if io.write_ok
      then some (record w {
        status = store_eph_status io.stored draft;
        events = clamp_events clamp ++ w.events;
      })
      else none

  -- What follows the write in the three handlers: an event of a new episode, and the outcome.
  unfoldable pub finish_failure :
      StatusWrite
      → EphemerisStatus C
      → Option ClampWarn
      → List EphEvent
      → Outcome
      → World E F C
      → Outcome × World E F C
  unfolding persist_eph_status
  finish_failure io draft clamp events outcome w = elim (persist_eph_status io draft clamp w) [
    | none ↦ (failed, w)
    | some w' ↦ (outcome, record w' { events = events ++ w'.events })
  ]

abbrev pub when : Bool → EphEvent → List EphEvent
when b e = if b then e ∷ [] else []

module _ {ℓ} {E F C : Type ℓ} ⦃meta : MetaConditions C⦄ where
  unfoldable pub handle_insecure_url :
      StatusWrite
      → EphemerisObject
      → Ip
      → EphemerisStatus C
      → Option ClampWarn
      → World E F C
      → Outcome × World E F C
  unfolding finish_failure
  handle_insecure_url io o ip s clamp w =
      let insecure_episode =
        condition_episode_changed (meta.find gp_data_fetched s.conditions) condition_false
          "InsecureURL" o.generation in
      finish_failure io
        (invalidate_pass_prediction_status (record s {
          conditions =
              meta.set gp_data_fetched
                (record {
                  status = condition_false;
                  reason = "InsecureURL";
                  message = insecure_source ip;
                  observed_generation = o.generation;
                })
                s.conditions;
        }))
        clamp (when insecure_episode (record { reason = "InsecureURL"; note = insecure_source ip }))
        (requeue_after (pos minute)) w

  unfoldable pub handle_fetch_error :
      StatusWrite
      → EphemerisObject
      → FetchError
      → Duration
      → EphemerisStatus C
      → Option ClampWarn
      → World E F C
      → Outcome × World E F C
  unfolding finish_failure
  handle_fetch_error io o err interval s clamp w =
      let (reason, requeue) = classify_fetch_error err interval in
      let fetch_episode =
        condition_episode_changed (meta.find gp_data_fetched s.conditions) condition_false reason
          o.generation in
      let not_fetched : EphCondition = record {
        status = condition_false;
        reason = reason;
        message = of_error (of_fetch err);
        observed_generation = o.generation;
      } in
      finish_failure io
        (invalidate_pass_prediction_status (record s {
          conditions =
              meta.set gp_data_parsed (record not_fetched { message = nothing_to_parse })
                (meta.set gp_data_fetched not_fetched s.conditions);
        }))
        clamp (when fetch_episode (record { reason = reason; note = of_error (of_fetch err) }))
        (elim requeue [ none ↦ failed | some d ↦ requeue_after d ]) w

  unfoldable pub handle_setup_failure :
      StatusWrite
      → EphemerisObject
      → SetupError
      → EphemerisStatus C
      → Option ClampWarn
      → World E F C
      → Outcome × World E F C
  unfolding finish_failure
  handle_setup_failure io o err s clamp w =
      finish_failure io
        (invalidate_pass_prediction_status (record s {
          conditions =
              meta.set gp_data_fetched
                (record {
                  status = condition_false;
                  reason = "FetcherSetupFailed";
                  message = of_error (of_setup err);
                  observed_generation = o.generation;
                })
                s.conditions;
        }))
        clamp [] (requeue_after (pos minute)) (record w { ready = some false })
