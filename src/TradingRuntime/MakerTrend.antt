-- ===== src/TradingRuntime/MakerTrend.antt =====
-- crates/okx-trading-runtime/src/strategies/okx_ema_atr_maker_trend: the strategy that buys with
-- post-only orders and protects what it holds with a take-profit order and a stop loss.
pub mod Indicators
pub mod Signal
pub mod Types
pub mod Action
pub mod Prices
pub mod Fills
pub mod Evidence
pub mod Inventory
pub mod Reconstruct
pub mod Protection
pub mod Refresh
pub mod StopLoss
pub mod Entry
pub mod Shutdown
pub mod Exits
pub mod Sound
pub mod AtMost
