-- ===== src/Examples.antt =====
-- The components at work on concrete inputs, with whole numbers for decimals.
pub mod Protocol
pub mod Replay
pub mod Live
pub mod Sides
pub mod Runtime
pub mod Trader
pub mod Strategy
pub mod OrderIds
pub mod Shutdown
use okx_rust_trading.Common.{ℕ, [], ◌∷◌}
use okx_rust_trading.Common.Int.{ℤ, pos}
use okx_rust_trading.PublicProtocol.Instrument.{OkxSpotInstrumentId}
use okx_rust_trading.PublicProtocol.Books.{OkxLevel2Level}

abbrev pub btc_usdt : OkxSpotInstrumentId
btc_usdt = record { as_str = b'B' ∷ b'T' ∷ b'C' ∷ b'-' ∷ b'U' ∷ b'S' ∷ b'D' ∷ b'T' ∷ [] }

abbrev pub level_at : ℕ → ℕ → ℕ → OkxLevel2Level ℤ
level_at price quantity count = record {
  price = pos price;
  quantity = pos quantity;
  order_count = count;
}
