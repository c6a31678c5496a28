-- ===== src/PublicProtocol.antt =====
-- okx-public-protocol/src/lib.rs: the validation of OKX public-market payloads.
pub mod Instrument
pub mod Error
pub mod Books
pub mod Trades
pub mod Archive
