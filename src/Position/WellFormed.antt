-- ===== src/Position/WellFormed.antt =====
-- The invariant of the slot maps and the store.
pub mod Defs
pub mod Slots
pub mod Updates
pub mod Results
pub mod Sync
pub mod Reach
