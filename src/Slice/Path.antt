-- ===== src/Slice/Path.antt =====
-- pkg/slice/failover.go: paths, decisions, and the result of an evaluation.
use ntn_operators.Base.{ℕ, ℤ, Bool, true, false, Option, String}
use ntn_operators.Slice.TriggerSet.{ParseSuffix}

-- PathType is a string: `unset` is the empty one, `other` any further one.
pub data PathType : Type 0 where
  terrestrial satellite unavailable unset : PathType
  other : String → PathType

pub data Decision : Type 0 where
  stay failover switchback : Decision

-- The texts of FailoverResult.Reason, with the arguments of fmt.Sprintf.
pub data Cause {ℓ} (F : Type ℓ) : Type ℓ where
  pass_ended_degraded pass_ended_unconfirmed pass_ended_recovered : Cause F
  all_triggers_invalid : ℕ → Cause F
  terrestrial_healthy no_pass_available degraded_pass_available still_degraded : Cause F
  recovery_unconfirmed recovered_delay_elapsed : Cause F
  recovered_delay_remaining : ℤ → Cause F
  quality_unknown_using_pass initializing_unconfirmed initializing : Cause F
  terrestrial_unavailable both_degraded : Cause F
  in_dead_band : F → Cause F
  past_dead_band_delay_remaining : ℤ → Cause F
  past_dead_band_delay_elapsed : Cause F
  unconfirmed : ℕ → ℕ → Cause F
  within_min_dwell : ℤ → Cause F
  unreliable_pass_ended unreliable_holding availability_unknown : Cause F

pub record FailoverResult {ℓ} (F : Type ℓ) : Type ℓ where
  pub decision : Decision
  pub cause : Cause F
  pub suffix : Option ParseSuffix
  pub target_path : PathType

-- An unknown path is read as terrestrial.
unfoldable pub normalize : PathType → PathType
normalize satellite = satellite
normalize unavailable = unavailable
normalize _ = terrestrial

abbrev pub is_satellite : PathType → Bool
is_satellite satellite = true
is_satellite _ = false

abbrev pub is_terrestrial : PathType → Bool
is_terrestrial terrestrial = true
is_terrestrial _ = false

abbrev pub is_failover : Decision → Bool
is_failover failover = true
is_failover _ = false

abbrev pub is_switchback : Decision → Bool
is_switchback switchback = true
is_switchback _ = false
