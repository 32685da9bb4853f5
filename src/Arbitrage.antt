-- ===== src/Arbitrage.antt =====
-- market_maker/internal/trading/arbitrage.
pub mod Legs
pub mod Strategy
