-- ===== src/Tests.antt =====
-- Concrete inputs for the theorems, and tests of the definitions.
pub mod Whole
pub mod Sorting
pub mod Engine
mod Syntax
mod Reconciler
mod Stations
mod Passes
mod Readers
mod Egress
mod Ocudu
pub mod Arranging
pub mod Orbits
mod Satellite
