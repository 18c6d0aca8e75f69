-- ===== src/Controller.antt =====
-- internal/controller: the shared rules and the NTNSlice reconciler.
pub mod Freshness
pub mod Contact
pub mod FlapState
pub mod Reconcile
pub mod Durability
pub mod Isolation
pub mod Held
pub mod Outage
pub mod Clocks
