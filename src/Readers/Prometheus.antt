-- ===== src/Readers/Prometheus.antt =====
-- pkg/slice/metrics/prometheus.go: prometheusReader.Read and fetch. The counters of errors and the
-- duration histogram are left out; the reason of an error is its constructor.
use ntn_operators.Base.{
  ◌||◌, Bool, false, Option, none, some, List, [], ◌∷◌, length, Text, is_empty, Time, zero_time,
  after, if◌then◌else◌,
}
use ntn_operators.Float.{Float}
use ntn_operators.Slice.Trigger.{Metrics}
use ntn_operators.Readers.{
  Sample, context_done, query_error, empty_vector, non_finite, unsupported_type, ambiguous_vector,
  Outcome, got, failed,
}
use ntn_operators.Readers.Annotation.{mark_missing, set_rsrp, set_latency, set_packet_loss}

pub record Queries : Type 0 where
  pub rsrp_dbm : Text
  pub latency_ms : Text
  pub packet_loss_percent : Text

-- model.Value: a scalar, a vector of samples, or another type.
pub data Value {ℓ} (F : Type ℓ) : Type ℓ where
  scalar : F → Time → Value F
  vector : List (F × Time) → Value F
  other_value : Value F

pub data Field : Type 0 where
  rsrp latency packet_loss : Field

abbrev pub query_of : Queries → Field → Text
query_of q rsrp = q.rsrp_dbm
query_of q latency = q.latency_ms
query_of q packet_loss = q.packet_loss_percent

module _ {ℓ} {F : Type ℓ} where
  abbrev pub set_field : Field → F → Metrics F → Metrics F
  set_field rsrp v m = set_rsrp (some v) m
  set_field latency v m = set_latency (some v) m
  set_field packet_loss v m = set_packet_loss (some v) m

-- QueryClient.Query, for each of the three calls that a Read can make; `none` is its error, that of
-- its deadline among them.
abbrev pub Client {ℓ} : Type ℓ → Type ℓ
Client F = Field → Text → Option (Value F)

abbrev pub newest : Time → Time → Time
newest t observed_at = if after t observed_at then t else observed_at

module _ {ℓ} {F : Type ℓ} ⦃fl : Float F⦄ where
  abbrev pub finite_sample : F → Time → Outcome (F × Time)
  finite_sample f t = if fl.is_nan f || fl.is_inf f then failed non_finite else got (f, t)

  unfoldable pub fetch : Option (Value F) → Outcome (F × Time)
  fetch none = failed query_error
  fetch (some (scalar f t)) = finite_sample f t
  fetch (some (vector [])) = failed empty_vector
  fetch (some (vector ((f, t) ∷ []))) = finite_sample f t
  fetch (some (vector (p ∷ q ∷ ps))) = failed (ambiguous_vector (length (p ∷ q ∷ ps)))
  fetch (some other_value) = failed unsupported_type

  -- The loop over the fields: the metrics and the newest time so far.
  unfoldable pub read_fields :
      Client F → Queries → List Field → Metrics F → Time → Outcome (Metrics F × Time)
  read_fields client q [] m observed_at = got (m, observed_at)
  read_fields client q (f ∷ fs) m observed_at =
      if is_empty (query_of q f)
      then read_fields client q fs m observed_at
      else elim (fetch (client f (query_of q f))) [
        | failed e ↦ failed e
        | got (v, t) ↦ read_fields client q fs (set_field f v m) (newest t observed_at)
      ]

  -- prometheusReader.Read, with defaultMetrics as an argument.
  unfoldable pub read_prometheus : Client F → Queries → Metrics F → Bool → Outcome (Sample F)
  read_prometheus client q defaults ctx_done =
      if ctx_done
      then failed context_done
      else elim (read_fields client q (rsrp ∷ latency ∷ packet_loss ∷ []) (mark_missing defaults)
          zero_time) [
            | failed e ↦ failed e
            | got (m, t) ↦
                got (record {
                  metrics = m;
                  stale = false;
                  last_fresh_at = zero_time;
                  observed_at = t;
                })
          ]
