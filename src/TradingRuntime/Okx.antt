-- ===== src/TradingRuntime/Okx.antt =====
-- crates/okx-trading-runtime/src/okx: what the exchange reports and what may be asked of it.
pub mod Errors
pub mod Numbers
pub mod Orders
pub mod Algo
pub mod Accounting
pub mod Instrument
pub mod Client
