-- ===== src/TradingRuntime/MakerTrend/Types.antt =====
-- strategies/okx_ema_atr_maker_trend.rs: the strategy's configuration and what it tracks.
use okx_rust_trading.Common.{ℕ, Bool, true, false, Option, none, some, List}
use okx_rust_trading.Common.Int.{ℤ}
use okx_rust_trading.Text.{Str}
use okx_rust_trading.TradingRuntime.Okx.Accounting.{Pair}
use okx_rust_trading.TradingRuntime.Okx.Instrument.{OkxInstrument, ValidatedTradingInstrument}
use okx_rust_trading.TradingRuntime.MakerTrend.Signal.{SignalState}

pub data StopLossPendingReason : Type 0 where
  local_threshold exit_reconciliation : StopLossPendingReason

unfoldable pub is_local_threshold : Option StopLossPendingReason → Bool
is_local_threshold (some StopLossPendingReason.local_threshold) = true
is_local_threshold _ = false

pub record TrackedOrder (D : Type 0) : Type 0 where
  pub client_order_id : Str
  pub last_fill_size : D
  pub last_average_fill_price : Option D
  pub last_accounted_base_change : D
  pub last_accounted_quote_change : D
  pub cancel_requested : Bool

pub record TrackedAlgoOrder (D : Type 0) : Type 0 where
  pub algo_id : Str
  pub client_order_id : Str
  pub size : D
  pub trigger_price : D
  pub cancel_requested : Bool

pub record OpenPosition (D : Type 0) : Type 0 where
  pub quantity : D
  pub average_price : D
  pub stop_loss_trigger : D

pub record TakeProfitOrderShape (D : Type 0) : Type 0 where
  pub size : D
  pub price : D

pub record ExchangeState (D : Type 0) : Type 0 where
  pub instrument : OkxInstrument
  pub last_bar_ts_ms : Option ℤ
  pub entry_order : Option (TrackedOrder D)
  pub take_profit_order : Option (TrackedOrder D)
  pub stop_loss_order : Option (TrackedAlgoOrder D)
  pub stop_loss_exit_order : Option (TrackedOrder D)
  pub position : Option (OpenPosition D)
  pub stop_loss_pending : Option StopLossPendingReason

pub record Runner (F D : Type 0) : Type 0 where
  pub instance_id : Str
  pub configured_strategy_tags : List Str
  pub instrument_id : Str
  pub validated_instrument : Option ValidatedTradingInstrument
  pub quantity : D
  pub operator_owned_base_balance : D
  pub max_entry_order_age_ms : ℕ
  pub max_quote_notional : Option D
  pub take_profit_atr_multiple : D
  pub stop_loss_atr_multiple : D
  pub entry_fee_cost_rate : Option D
  pub exit_fee_cost_rate : Option D
  pub signal : SignalState F D
  pub exchange : Option (ExchangeState D)

unfoldable pub pair_of : OkxInstrument → Pair
pair_of instrument = record { base = instrument.base_ccy; quote = instrument.quote_ccy }

module _ {D : Type 0} where
  -- `clear_position_state`, on the exchange's state.
  unfoldable pub cleared : ExchangeState D → ExchangeState D
  cleared s = record s {
    position = none;
    entry_order = none;
    take_profit_order = none;
    stop_loss_order = none;
    stop_loss_exit_order = none;
    stop_loss_pending = none;
  }
