-- ===== src/TradingRuntime.antt =====
-- crates/okx-trading-runtime: the parts of the runtime that keep state of their own.
pub mod TickFailure
pub mod Streams
pub mod HealthTracker
pub mod OrderId
pub mod Okx
pub mod MakerTrend
