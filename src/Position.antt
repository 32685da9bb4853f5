-- ===== src/Position.antt =====
-- market_maker/internal/trading/position/manager.go
pub mod State
pub mod Slots
pub mod Updates
pub mod Results
pub mod Sync
pub mod WellFormed
pub mod Samples
mod Tests
