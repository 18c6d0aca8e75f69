-- ===== src/Slice.antt =====
-- pkg/slice/failover.go, the failover engine: its parts, then the lemmas on them.
pub mod Trigger
pub mod Parse
pub mod TriggerSet
pub mod Path
pub mod Evaluate
pub mod AntiFlap
pub mod Safety
pub mod Agreement
pub mod Decisions
pub mod Runs
pub mod DeadBand
pub mod Syntax
