-- ===== src/Readers.antt =====
-- pkg/slice/metrics: what a metrics reader gives (reader.go) and its errors.
use ntn_operators.Base.{
  ℕ, ◌==◌, ◌≡◌, Bool, true, false, Option, none, some, List, [], ◌∷◌, Text, text_eq, text_eq_iff,
  Time,
}
use ntn_operators.Base.Dict.{Key}
use ntn_operators.Slice.Trigger.{Metrics}
pub mod Annotation
pub mod Prometheus
pub mod Stale
pub mod Allowlist
pub mod Clients
pub mod Provider
pub mod Outage
pub mod Configured
pub mod Served
pub mod Present

-- Result.
pub record Sample {ℓ} (F : Type ℓ) : Type ℓ where
  pub metrics : Metrics F
  pub stale : Bool
  pub last_fresh_at : Time
  pub observed_at : Time

-- The errors of the readers; `no_value` is the one of the stale cache, with its cause.
pub data ReadError : Type 0 where
  missing_uid context_done query_error empty_vector non_finite unsupported_type : ReadError
  ambiguous_vector : ℕ → ReadError
  no_value : ReadError → ReadError

-- errors.Is(err, ErrNoMetrics).
abbrev pub is_no_metrics : ReadError → Bool
is_no_metrics missing_uid = false
is_no_metrics context_done = false
is_no_metrics query_error = false
is_no_metrics empty_vector = true
is_no_metrics non_finite = true
is_no_metrics unsupported_type = true
is_no_metrics (ambiguous_vector n) = true
is_no_metrics (no_value e) = true

-- A value, or an error.
pub data Outcome {ℓ} (A : Type ℓ) : Type ℓ where
  got : A → Outcome A
  failed : ReadError → Outcome A

instance abbrev pub text_key : Key Text
text_key = record { same = text_eq; same_iff = text_eq_iff }
