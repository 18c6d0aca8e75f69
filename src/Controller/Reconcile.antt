-- ===== src/Controller/Reconcile.antt =====
-- internal/controller/ntnslice_controller.go: Reconcile from the metrics to the commit (Steps 2 to
-- 8), on the durable status, the anti-flap map, the failover counter and the events of one slice.
use text.Mathlib.Text.{◌==◌ as str_eq}
use mathlib.Core.Option
use ntn_operators.Base.{
  ℕ, ◌+◌, ◌*◌, ◌==◌, Bool, true, false, not, ◌&&◌, ◌||◌, Option, none, some, List, [], ◌∷◌, ◌++◌,
  String, Text, is_empty, Time, Duration, sub_time, ltb_ℤ, pos, if◌then◌else◌,
}
use ntn_operators.Float.{Float}
use ntn_operators.Slice.Trigger.{Metrics}
use ntn_operators.Slice.Path.{
  PathType, terrestrial, satellite, unavailable, unset, Decision, stay, failover, switchback, Cause,
  FailoverResult, is_failover,
}
use ntn_operators.Slice.Evaluate.{plain, evaluate_safe_hold}
use ntn_operators.Slice.AntiFlap.{AntiFlapConfig, AntiFlapState, evaluate_failover_with_anti_flap}
use ntn_operators.Controller.FlapState.{
  NamespacedName, FlapMap, load_flap_state, store_flap_state, reset_recovery_streak,
  seed_last_switchback, persist_last_switchback,
}

-- What the metrics reader gives: an error of its construction or of the read, or a value.
pub record Observation {ℓ} (F : Type ℓ) : Type ℓ where
  pub metrics : Metrics F
  pub stale : Bool
  pub last_fresh_at : Time
  pub observed_at : Time

pub data ReadResult {ℓ} (F : Type ℓ) : Type ℓ where
  reader_error read_error : ReadResult F
  value : Observation F → ReadResult F

-- The part of the spec that the decision reads. An absent ConfirmationSamples acts like zero.
pub record SliceSpec : Type 0 where
  pub triggers : List Text
  pub hysteresis_margin : Text
  pub switchback_delay : Duration
  pub confirmation_samples : Option ℕ
  pub min_terrestrial_dwell : Duration

pub record SliceStatus : Type 0 where
  pub active_path_type : PathType
  pub failover_count : ℕ
  pub last_failover : Option Time
  pub last_switchback_time : Option Time

-- The Kubernetes object of one reconcile, but for its status.
pub record SliceObject : Type 0 where
  pub key : NamespacedName
  pub uid : String
  pub generation : ℕ
  pub spec : SliceSpec

pub data SliceEvent : Type 0 where
  failover_triggered : PathType → PathType → SliceEvent
  switched_back : PathType → PathType → SliceEvent

pub record World : Type 0 where
  pub status : SliceStatus
  pub flaps : FlapMap
  pub failover_total : ℕ
  pub events : List SliceEvent

-- What a reconcile reads of its surroundings. `other_changes` says that a further field of the status
-- changed or an event is queued, `write_ok` that the status update succeeds, and `stored` is the
-- instant that a metav1.Time reads back as once it was written.
pub record Inputs {ℓ} (F : Type ℓ) : Type ℓ where
  pub read : ReadResult F
  pub available : Bool
  pub known : Bool
  pub now : Time
  pub other_changes : Bool
  pub write_ok : Bool
  pub stored : Time → Time

unfoldable pub same_path : PathType → PathType → Bool
same_path terrestrial terrestrial = true
same_path satellite satellite = true
same_path unavailable unavailable = true
same_path unset unset = true
same_path (PathType.other s) (PathType.other t) = str_eq s t
same_path _ _ = false

abbrev same_time : Option Time → Option Time → Bool
same_time none none = true
same_time (some t) (some u) = t == u
same_time _ _ = false

-- equality.Semantic.DeepEqual, on these fields.
unfoldable pub same_status : SliceStatus → SliceStatus → Bool
same_status a b =
    same_path a.active_path_type b.active_path_type
    && a.failover_count == b.failover_count
    && same_time a.last_failover b.last_failover
    && same_time a.last_switchback_time b.last_switchback_time

unfoldable pub store_status : (Time → Time) → SliceStatus → SliceStatus
store_status stored s = record s {
  last_failover = Option.map stored s.last_failover;
  last_switchback_time = Option.map stored s.last_switchback_time;
}

-- The durable status after persistStatusIfChanged, or `none` for its error.
unfoldable pub persist_status_if_changed {ℓ} :
    {F : Type ℓ} → Inputs F → SliceStatus → SliceStatus → Option SliceStatus
unfolding store_status
persist_status_if_changed i old new =
    if same_status old new && not i.other_changes
    then some old
    else if i.write_ok
    then some (store_status i.stored new)
    else none

abbrev pub metrics_max_staleness : ℕ
metrics_max_staleness = 90 * 1000000000

-- Step 2: the metrics and their source time, where they are reliable.
unfoldable pub read_path_quality {ℓ} : {F : Type ℓ} → Time → ReadResult F → Option (Observation F)
read_path_quality now reader_error = none
read_path_quality now read_error = none
read_path_quality now (value v) =
    if not v.stale
    then some v
    else if ltb_ℤ (pos metrics_max_staleness) (sub_time now v.last_fresh_at)
    then none
    else some v

unfoldable pub parse_margin {ℓ} : {F : Type ℓ} ⦃fl : Float F⦄ → Text → F
parse_margin ⦃fl⦄ s = if is_empty s then fl.zero_float else elim (fl.parse_float s) [
  | none ↦ fl.zero_float
  | some v ↦ if fl.is_nan v || fl.is_inf v || fl.lt v fl.zero_float then fl.zero_float else v
]

abbrev pub samples_or_zero : Option ℕ → ℕ
samples_or_zero none = 0
samples_or_zero (some n) = n

abbrev pub config_of : SliceSpec → AntiFlapConfig
config_of spec = record {
  confirmation_samples = samples_or_zero spec.confirmation_samples;
  min_terrestrial_dwell = spec.min_terrestrial_dwell;
}

abbrev pub current_path : PathType → PathType
current_path unset = terrestrial
current_path p = p

-- What Step 4 leaves: the result, the durable dwell clock, the map, and the state to commit.
pub record Evaluated {ℓ} (F : Type ℓ) : Type ℓ where
  pub result : FailoverResult F
  pub last_switchback_time : Option Time
  pub flaps : FlapMap
  pub pending_flap : Option AntiFlapState

-- The event of the decision, with the paths that it names.
unfoldable pub decision_event : Decision → PathType → PathType → List SliceEvent
decision_event stay from to = []
decision_event failover from to = failover_triggered from to ∷ []
decision_event switchback from to = switched_back from to ∷ []

unfoldable pub commit_flap : SliceObject → Option AntiFlapState → FlapMap → FlapMap
commit_flap o none m = m
commit_flap o (some st) m = store_flap_state o.key o.uid o.generation st m

-- Step 5, on the status.
unfoldable pub apply_decision {ℓ} : {F : Type ℓ} → Time → Evaluated F → SliceStatus → SliceStatus
apply_decision now ev s =
    let moved = record s {
      active_path_type = ev.result.target_path;
      last_switchback_time = ev.last_switchback_time;
    } in
    if is_failover ev.result.decision
    then record moved { failover_count = s.failover_count + 1; last_failover = some now }
    else moved

module _ {ℓ} {F : Type ℓ} ⦃fl : Float F⦄ where
  -- case qualityReliable.
  unfoldable pub evaluate_reliable : SliceObject → Observation F → Bool → Time → World → Evaluated F
  evaluate_reliable o v available now w =
      let (af, flaps) = load_flap_state o.key o.uid o.generation w.flaps in
      let (af', durable) = seed_last_switchback now af w.status.last_switchback_time in
      let (res, new_flap) =
        evaluate_failover_with_anti_flap (current_path w.status.active_path_type) o.spec.triggers
          v.metrics v.observed_at available o.spec.switchback_delay now
          (parse_margin o.spec.hysteresis_margin) (config_of o.spec) af' in
      record {
        result = res;
        last_switchback_time = persist_last_switchback new_flap.last_switchback now durable;
        flaps = flaps;
        pending_flap = some new_flap;
      }

  -- Step 4.
  unfoldable pub evaluate_slice : SliceObject → Inputs F → World → Evaluated F
  evaluate_slice o i w =
      if not i.known
      then record {
        result = plain stay Cause.availability_unknown (current_path w.status.active_path_type);
        last_switchback_time = w.status.last_switchback_time;
        flaps = reset_recovery_streak o.key w.flaps;
        pending_flap = none;
      }
      else elim (read_path_quality i.now i.read) [
        | some v ↦ evaluate_reliable o v i.available i.now w
        | none ↦ record {
          result = evaluate_safe_hold (current_path w.status.active_path_type) i.available;
          last_switchback_time = w.status.last_switchback_time;
          flaps = reset_recovery_streak o.key w.flaps;
          pending_flap = none;
        }
      ]

  -- Steps 5 to 8. An error of the status write returns: the map keeps its load or reset, nothing else.
  unfoldable pub reconcile : SliceObject → Inputs F → World → World
  reconcile o i w =
      let ev = evaluate_slice o i w in
      elim (persist_status_if_changed i w.status (apply_decision i.now ev w.status)) [
        | none ↦ record w { flaps = ev.flaps }
        | some status ↦ record {
          status = status;
          flaps = commit_flap o ev.pending_flap ev.flaps;
          failover_total =
              if is_failover ev.result.decision then w.failover_total + 1 else w.failover_total;
          events =
              w.events
              ++ decision_event ev.result.decision (current_path w.status.active_path_type)
                  ev.result.target_path;
        }
      ]
