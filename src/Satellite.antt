-- ===== src/Satellite.antt =====
-- api/v1alpha1/satelliteephemeris_types.go and the data of
-- internal/controller/satelliteephemeris_controller.go: what the satellite ephemeris controller reads
-- and writes. Where it prints a value into a text that it only stores, the message keeps the value.
use text.Mathlib.Text.{◌==◌ as str_eq}
use ntn_operators.Base.{
  ℕ, ◌==◌, ◌≡◌, ◌≢◌, Bool, true, false, not, ◌||◌, Option, none, some, List, String, Text, ℤ, Time,
  Duration,
}
use ntn_operators.Station.{ConditionStatus, condition_true, condition_false, condition_unknown}
use ntn_operators.Controller.FlapState.{NamespacedName}
use ntn_operators.Passes.{Omm}
use ntn_operators.Egress.{Ip}
pub mod Cadence
pub mod Backoff
pub mod Cache
pub mod Durable
pub mod Failure
pub mod Sources
pub mod Acquire
pub mod Matching
pub mod Own
pub mod Ramp
pub mod Continuity
pub mod Etiquette
pub mod Restart
pub mod Canonical
pub mod Propagate
pub mod Regime
pub mod Digests
pub mod Sweep
pub mod Reconcile
pub mod Kept
pub mod Windows
pub mod Attempts
pub mod Capped
pub mod States
pub mod Sweeps
pub mod Heartbeat
pub mod Picks
pub mod Order

pub record Credentials : Type 0 where
  pub name : Text
  pub key : Text

pub record PassPrediction : Type 0 where
  pub ground_stations : List Text
  pub min_elevation : Text
  pub horizon : Duration

-- SatelliteEphemerisSpec; `selector` is the list of the optional selector.
pub record EphemerisSpec : Type 0 where
  pub source_type : String
  pub url : Text
  pub refresh_interval : Duration
  pub credentials : Option Credentials
  pub selector : Option (List ℕ)
  pub pass_prediction : Option PassPrediction

-- The Kubernetes object of one reconcile, but for its status.
pub record EphemerisObject : Type 0 where
  pub key : NamespacedName
  pub uid : String
  pub generation : ℕ
  pub spec : EphemerisSpec

-- A failed fetch, by what errors.Is and errors.As tell of it: ErrRateLimited with the Retry-After of
-- a RateLimitError (or 0), ErrAuthFailed, ErrInvalidSourceURL, or none of these.
pub data FetchError : Type 0 where
  is_rate_limited : Duration → FetchError
  is_auth_failed : FetchError
  is_invalid_source_url : FetchError
  is_other : String → FetchError

-- The errors of fetcherForSource.
pub data SetupError : Type 0 where
  celestrak_not_configured spacetrack_not_configured credentials_required : SetupError
  credentials_unavailable : SetupError
  unsupported_source : String → SetupError

pub data ServeError : Type 0 where
  of_fetch : FetchError → ServeError
  of_setup : SetupError → ServeError

-- A predictionError, by the text that it wraps.
pub data PredictionDetail : Type 0 where
  station_not_found station_unreadable : Text → PredictionDetail
  invalid_latitude invalid_longitude invalid_altitude : Text → PredictionDetail
  invalid_min_elevation : PredictionDetail
  invalid_horizon : Duration → PredictionDetail
  not_computed : PredictionDetail

pub data ConditionType : Type 0 where
  gp_data_fetched gp_data_parsed refresh_interval_clamped passes_predicted : ConditionType
  unsupported_orbit_regime states_truncated ephemeris_epoch_stale : ConditionType
  source_epoch_rejected propagation_failed : ConditionType

-- A satellite in a summary, by its bounded name or its number.
pub data Label : Type 0 where
  named : Text → Label
  numbered : ℕ → Label

pub data Message : Type 0 where
  interval_clamped : Duration → Message
  interval_within : Message
  of_error : ServeError → Message
  insecure_source : Ip → Message
  nothing_to_parse using_cache json_parsed recomputing : Message
  serving_cache : Option ServeError → ℕ → Message
  repropagated : ℕ → Message
  unchanged : String → Message
  fetched : ℕ → String → Message
  of_prediction : PredictionDetail → Message
  computed_passes : ℕ → ℕ → Bool → Message
  all_near_earth within_cap epochs_fresh propagation_ok epochs_plausible : Message
  deep_space_sets : ℕ → List (Label × Text) → Bool → Message
  cap_exceeded : ℕ → ℕ → Message
  epochs_stale : ℕ → ℕ → Message
  epochs_rejected : ℕ → ℕ → ℕ → Message
  not_propagated : ℕ → ℕ → List ℕ → Bool → Message

pub record EphCondition : Type 0 where
  pub status : ConditionStatus
  pub reason : String
  pub message : Message
  pub observed_generation : ℕ

-- k8s.io/apimachinery/pkg/api/meta: SetStatusCondition with its result, FindStatusCondition,
-- RemoveStatusCondition.
pub record MetaConditions {ℓ} (C : Type ℓ) : Type ℓ where
  pub set : ConditionType → EphCondition → C → C
  pub changes : ConditionType → EphCondition → C → Bool
  pub find : ConditionType → C → Option EphCondition
  pub remove : ConditionType → C → C

-- Their documented behaviour.
pub record MetaLaws {ℓ} {C : Type ℓ} (ops : MetaConditions C) : Type ℓ where
  pub find-set :
      (t : ConditionType) (c : EphCondition) (cs : C) → ops.find t (ops.set t c cs) ≡ some c
  pub find-set_other :
      (t u : ConditionType) (c : EphCondition) (cs : C)
      → t ≢ u
      → ops.find t (ops.set u c cs) ≡ ops.find t cs
  pub find-remove : (t : ConditionType) (cs : C) → ops.find t (ops.remove t cs) ≡ none

unfoldable pub same_condition_status : ConditionStatus → ConditionStatus → Bool
same_condition_status condition_true condition_true = true
same_condition_status condition_false condition_false = true
same_condition_status condition_unknown condition_unknown = true
same_condition_status _ _ = false

-- meta.IsStatusConditionTrue, on the condition that is found.
abbrev pub is_condition_true : Option EphCondition → Bool
is_condition_true none = false
is_condition_true (some c) = same_condition_status c.status condition_true

-- events.go: conditionEpisodeChanged.
unfoldable pub condition_episode_changed : Option EphCondition → ConditionStatus → String → ℕ → Bool
unfolding same_condition_status
condition_episode_changed none new_status new_reason generation = true
condition_episode_changed (some old) new_status new_reason generation =
    not (same_condition_status old.status new_status)
    || not (str_eq old.reason new_reason)
    || not (old.observed_generation == generation)

pub record Ecef : Type 0 where
  pub pos_x : ℤ
  pub pos_y : ℤ
  pub pos_z : ℤ
  pub vel_x : ℤ
  pub vel_y : ℤ
  pub vel_z : ℤ

pub record PropagatedState : Type 0 where
  pub satellite : Text
  pub norad_id : ℕ
  pub epoch_unix_ms : ℤ
  pub source_epoch_unix_ms : ℤ
  pub ecef : Ecef

pub record PassWindow : Type 0 where
  pub satellite : Text
  pub norad_id : ℕ
  pub ground_station : Text
  pub aos : Time
  pub los : Time
  pub max_elevation : Text

pub record EphemerisStatus {ℓ} (C : Type ℓ) : Type ℓ where
  pub satellite_count : ℕ
  pub last_updated : Option Time
  pub propagated_states : List PropagatedState
  pub propagated_states_input_hash : Text
  pub truncated_satellite_count : ℕ
  pub next_pass_windows : List PassWindow
  pub last_pass_prediction_time : Option Time
  pub last_pass_prediction_input_hash : Text
  pub conditions : C

-- pkg/ephemeris/gp_fetcher.go: GPFetchResult.
pub record GpFetchResult {ℓ} (E F : Type ℓ) : Type ℓ where
  pub omms : List (Omm E F)
  pub satellite_count : ℕ
  pub fetched_at : Time
  pub not_modified : Bool
  pub etag : Text
  pub last_modified : Text

-- The arguments of the events: the reason and the note.
pub record EphEvent : Type 0 where
  pub reason : String
  pub note : Message

-- What passPredictionInputSignature writes for a station.
pub data StationMark : Type 0 where
  absent : StationMark
  present : String → ℕ → Bool → StationMark

-- What it hashes.
pub record PassInputs : Type 0 where
  pub min_elevation : Text
  pub horizon : Duration
  pub norad : List ℕ
  pub source_type : String
  pub url : Text
  pub stations : List (Text × StationMark)

-- fmt.Sprintf of the two keys and of the inputs that are hashed, and the hexadecimal SHA-256 of a text.
pub record Printer : Type 0 where
  pub print_fetch_key : String → Text → Text
  pub print_retry_key : Text → Text → Duration → Text
  pub print_propagation_inputs : String → Text → List ℕ → Text
  pub print_pass_inputs : PassInputs → Text
  pub sha256_hex : Text → Text
