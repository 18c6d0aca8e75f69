-- ===== src/Slice/Trigger.antt =====
-- pkg/slice/failover.go: a parsed trigger, the path quality that it reads, and its evaluation.
use ntn_operators.Base.{Bool, false, Option, none, some, Text, codes, text_eq, if◌then◌else◌}
use ntn_operators.Float.{Float}

-- The metric names of a trigger; `other` is any text that is none of the six.
pub data Metric : Type 0 where
  rsrp terrestrial_rsrp latency terrestrial_latency packet_loss terrestrial_packet_loss : Metric
  other : Text → Metric

unfoldable pub metric_of : Text → Metric
metric_of s =
    if text_eq s (codes "rsrp")
    then rsrp
    else if text_eq s (codes "terrestrialRSRP")
    then terrestrial_rsrp
    else if text_eq s (codes "latency")
    then latency
    else if text_eq s (codes "terrestrialLatency")
    then terrestrial_latency
    else if text_eq s (codes "packetLoss")
    then packet_loss
    else if text_eq s (codes "terrestrialPacketLoss")
    then terrestrial_packet_loss
    else other s

-- `any_other` is any text that is none of the four.
pub data Operator : Type 0 where
  lt gt le ge : Operator
  any_other : Text → Operator

pub record Metrics {ℓ} (F : Type ℓ) : Type ℓ where
  pub rsrp_dbm : F
  pub latency_ms : F
  pub packet_loss_percent : F
  pub rsrp_missing : Bool
  pub latency_missing : Bool
  pub packet_loss_missing : Bool

pub record Trigger {ℓ} (F : Type ℓ) : Type ℓ where
  pub metric : Metric
  pub operator : Operator
  pub value : F

module _ {ℓ} {F : Type ℓ} where
  missing_of : Metric → Metrics F → Bool
  missing_of rsrp m = m.rsrp_missing
  missing_of terrestrial_rsrp m = m.rsrp_missing
  missing_of latency m = m.latency_missing
  missing_of terrestrial_latency m = m.latency_missing
  missing_of packet_loss m = m.packet_loss_missing
  missing_of terrestrial_packet_loss m = m.packet_loss_missing
  missing_of (other s) m = false

  unfoldable pub metric_missing : Trigger F → Metrics F → Bool
  unfolding missing_of
  metric_missing t m = missing_of t.metric m

  -- The field that a trigger reads, the first `switch` of both evaluations.
  unfoldable pub actual_of : Metric → Metrics F → Option F
  actual_of rsrp m = some m.rsrp_dbm
  actual_of terrestrial_rsrp m = some m.rsrp_dbm
  actual_of latency m = some m.latency_ms
  actual_of terrestrial_latency m = some m.latency_ms
  actual_of packet_loss m = some m.packet_loss_percent
  actual_of terrestrial_packet_loss m = some m.packet_loss_percent
  actual_of (other s) m = none

module _ {ℓ} {F : Type ℓ} ⦃fl : Float F⦄ where
  -- A recovery threshold below zero is raised to zero.
  unfoldable pub recovery_threshold : F → F → F
  recovery_threshold value margin =
      let r = fl.sub value margin in if fl.lt r fl.zero_float then fl.zero_float else r

  -- Go writes `a >= b` for `le b a`.
  unfoldable pub recovers : Operator → F → F → F → Bool
  unfolding recovery_threshold
  recovers lt actual value margin = fl.le (fl.add value margin) actual
  recovers le actual value margin = fl.le (fl.add value margin) actual
  recovers gt actual value margin = fl.le actual (recovery_threshold value margin)
  recovers ge actual value margin = fl.le actual (recovery_threshold value margin)
  recovers (any_other s) actual value margin = false

  unfoldable pub evaluate_recovery : Trigger F → Metrics F → F → Bool
  unfolding recovers actual_of
  evaluate_recovery t m margin = elim (actual_of t.metric m) [
    | none ↦ false
    | some actual ↦ recovers t.operator actual t.value margin
  ]

  unfoldable pub compares : Operator → F → F → Bool
  compares lt actual value = fl.lt actual value
  compares gt actual value = fl.lt value actual
  compares le actual value = fl.le actual value
  compares ge actual value = fl.le value actual
  compares (any_other s) actual value = false

  unfoldable pub evaluate : Trigger F → Metrics F → Bool
  unfolding compares actual_of
  evaluate t m = elim (actual_of t.metric m) [
    | none ↦ false
    | some actual ↦ compares t.operator actual t.value
  ]
