-- ===== src/Maintenance.antt =====
-- crates/doover-core/src/maintenance.rs, by part.
pub mod Budget
pub mod Gc
pub mod Rounds
pub mod Floors
pub mod Knobs
mod Tests
