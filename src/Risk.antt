-- ===== src/Risk.antt =====
-- market_maker/internal/risk
pub mod CircuitBreaker
pub mod Cleaner
pub mod Monitor
pub mod SymbolStats
pub mod Reconciler
