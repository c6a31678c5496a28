-- ===== src/TradingRuntime/Okx/Errors.antt =====
-- The errors of okx/types.rs, okx/trading_instrument.rs and the strategy: one constructor for each
-- message, with the subject that the message names. The client's own errors are its texts.
use okx_rust_trading.Text.{Str}

-- What a record or a computed value is, in a message.
pub data Subject : Type 0 where
  order fill : Subject

-- The field that a message names.
pub data Field : Type 0 where
  order_acc_fill_sz order_avg_px order_sz fill_fill_sz fill_fill_px algo_order_trigger_px
        algo_order_sz order_px instrument_tick_sz instrument_lot_sz instrument_min_sz
        instrument_max_lmt_sz instrument_max_lmt_amt instrument_max_mkt_sz instrument_max_mkt_amt
        instrument_max_trigger_sz ticker_bid_px ticker_ask_px ticker_last balance_cash_bal fee_maker
        fee_taker order_c_time :
      Field
  fee rebate : Subject → Field

-- The computed values that the strategy checks.
pub data Measure : Type 0 where
  take_profit_size take_profit_quote_notional stop_size stop_market_size
        stop_market_size_usdt_notional entry_size entry_quote_notional :
      Measure

-- The orders whose cumulative fills are followed.
pub data Followed : Type 0 where
  entry_order take_profit_order stop_loss_market_exit : Followed

pub data Error : Type 0 where
  -- okx/types.rs
  not_a_decimal not_positive negative not_a_timestamp : Field → Error
  value_not_positive missing_average_price average_price_without_fill : Error
  currencies_missing currencies_equal undocumented_side wrong_accounting_direction : Subject → Error
  fee_currency_mismatch rebate_currency_mismatch : Subject → Error
  cash_balance_missing : Error
  not_spot round_trip_too_expensive maker_too_expensive taker_too_expensive : Error
  exceeds_maximum not_positive_measure reference_not_positive overflowed : Measure → Error
  not_usd not_usdt : Measure → Error
  -- okx/trading_instrument.rs
  no_usd_source wrong_usd_evidence : Error
  usd_limit_exceeded : Measure → Error
  -- strategies/okx_ema_atr_maker_trend
  exchange_not_initialized not_validated : Error
  fill_size_negative tracked_fill_size_negative fill_size_decreased : Followed → Error
  entry_base_delta_not_positive entry_cost_delta_not_positive entry_delta_price_not_positive : Error
  exit_base_delta_not_negative exit_proceeds_delta_not_positive : Error
  entry_age_not_positive created_in_the_future entry_age_exceeds_i64 : Error
  clock_exceeds_i64 : Error
  atr_not_initialized atr_not_normal atr_not_decimal : Error
  average_price_not_positive take_profit_price_not_positive stop_loss_trigger_not_positive : Error
  exit_fee_not_initialized exit_fee_out_of_range take_profit_below_cost : Error
  below_min_size : Measure → Error
  entry_fee_not_initialized entry_fee_out_of_range entry_price_not_positive
        entry_quantity_not_positive net_size_below_min_size entry_notional_overflowed
        entry_notional_exceeds_cap entry_offset_not_positive :
      Error
  operator_balance_negative balance_below_operator_balance : Error
  algo_not_live algo_not_sell algo_not_trigger historical_algo_not_sell : Error
  unexpected_fill_side fill_without_identity fill_without_accounting entry_cost_not_positive
        entry_average_not_positive entry_fill_without_price no_cost_basis balance_exceeds_fills
        fills_exceed_balance :
      Error
  round_trip_cost_out_of_range fee_cost_out_of_range : Error
  -- shutdown.rs
  entry_left_live take_profit_left_live stop_loss_left_live stop_loss_exit_left_live
        unprotected_stop_loss unprotected_take_profit pending_without_exit :
      Error
  -- What the client or the network reports.
  client_error : Str → Error
