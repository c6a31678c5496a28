-- ===== src/TradingRuntime/Okx/Client.antt =====
-- okx/client.rs, `trait OkxClient`: what the strategy calls, as an interface over a state of the
-- client, the exchange behind it and the clock. The implementations are REST and WebSocket clients;
-- the timestamp that `record_order_decision` takes is not kept.
use okx_rust_trading.Common.{Option, List, Result}
use okx_rust_trading.Common.Int.{ℤ}
use okx_rust_trading.Text.{Str}
use okx_rust_trading.TradingRuntime.Okx.Errors.{Error}
use okx_rust_trading.TradingRuntime.Okx.Orders.{OkxOrder, OkxFill, OrderSide, OrderKind}
use okx_rust_trading.TradingRuntime.Okx.Algo.{OkxAlgoOrder}
use okx_rust_trading.TradingRuntime.Okx.Instrument.{
  OkxTicker, OkxBalance, ValidatedQuoteUsdRate, ValidatedTradingInstrument,
}

-- A call, with the client after it; it may fail.
abbrev pub Call : Type 0 → Type 0 → Type 0
Call C A = C → Result A Error × C

pub record OkxOrderAmend : Type 0 where
  pub inst_id : Str
  pub side : OrderSide
  pub client_order_id : Str
  pub new_size : Option Str
  pub new_price : Option Str

-- The acknowledgement of an order is dropped by the strategy; of a trigger order it keeps the id.
pub record OkxClient (D C : Type 0) : Type 0 where
  pub ticker : Str → Call C OkxTicker
  pub fresh_quote_usd_rate : ValidatedTradingInstrument → Call C (ValidatedQuoteUsdRate D)
  pub balances : Call C (List OkxBalance)
  pub open_orders : Str → Call C (List OkxOrder)
  pub order_history : Str → Call C (List OkxOrder)
  pub order_fills : Str → Call C (List OkxFill)
  pub open_algo_orders : Str → Call C (List OkxAlgoOrder)
  pub algo_order_history : Str → Call C (List OkxAlgoOrder)
  pub place_order : Str → OrderSide → OrderKind → Str → Option Str → Str → Call C (Unit {0})
  pub cancel_order : Str → Str → Call C (Unit {0})
  pub amend_order : OkxOrderAmend → Call C (Unit {0})
  pub place_trigger_order : Str → OrderSide → Str → Str → Str → Call C Str
  pub cancel_algo_order : Str → Str → Call C (Unit {0})
  pub order : Str → Str → Call C (Option OkxOrder)
  -- `OffsetDateTime::now_utc().unix_timestamp_nanos()`
  pub now_nanos : C → ℤ × C
