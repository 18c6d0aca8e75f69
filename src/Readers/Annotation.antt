-- ===== src/Readers/Annotation.antt =====
-- pkg/slice/metrics/annotation.go. A nil map of annotations is an empty one: both have no value at any
-- key, which reads as an empty text.
use ntn_operators.Base.{
  true, false, ◌||◌, Option, none, some, List, [], Text, codes, is_empty, zero_time, if◌then◌else◌,
}
use ntn_operators.Base.Dict.{lookup}
use ntn_operators.Float.{Float}
use ntn_operators.Slice.Trigger.{Metrics}
use ntn_operators.Readers.{Sample, text_key}

abbrev pub annotation_rsrp : Text
annotation_rsrp = codes "ntn.operators.dev/simulated-rsrp"

abbrev pub annotation_latency : Text
annotation_latency = codes "ntn.operators.dev/simulated-latency"

abbrev pub annotation_packet_loss : Text
annotation_packet_loss = codes "ntn.operators.dev/simulated-packet-loss"

abbrev pub Annotations : Type 0
Annotations = List (Text × Text)

abbrev pub annotation : Text → Annotations → Text
annotation k m = elim (lookup k m) [ none ↦ [] | some v ↦ v ]

abbrev pub mark_missing {ℓ} : {F : Type ℓ} → Metrics F → Metrics F
mark_missing m = record m {
  rsrp_missing = true;
  latency_missing = true;
  packet_loss_missing = true;
}

module _ {ℓ} {F : Type ℓ} where
  -- A field that is set is present.
  abbrev pub set_rsrp : Option F → Metrics F → Metrics F
  set_rsrp none m = m
  set_rsrp (some v) m = record m { rsrp_dbm = v; rsrp_missing = false }

  abbrev pub set_latency : Option F → Metrics F → Metrics F
  set_latency none m = m
  set_latency (some v) m = record m { latency_ms = v; latency_missing = false }

  abbrev pub set_packet_loss : Option F → Metrics F → Metrics F
  set_packet_loss none m = m
  set_packet_loss (some v) m = record m { packet_loss_percent = v; packet_loss_missing = false }

module _ {ℓ} {F : Type ℓ} ⦃fl : Float F⦄ where
  unfoldable pub parse_finite : Text → Option F
  parse_finite s = if is_empty s then none else elim (fl.parse_float s) [
    | none ↦ none
    | some v ↦ if fl.is_nan v || fl.is_inf v then none else some v
  ]

  -- annotationReader.Read, with defaultMetrics as an argument.
  unfoldable pub read_annotations : Metrics F → Annotations → Sample F
  read_annotations defaults notes = record {
    metrics = set_packet_loss (parse_finite (annotation annotation_packet_loss notes)) (
        set_latency (parse_finite (annotation annotation_latency notes))
          (set_rsrp (parse_finite (annotation annotation_rsrp notes)) (mark_missing defaults)));
    stale = false;
    last_fresh_at = zero_time;
    observed_at = zero_time;
  }
