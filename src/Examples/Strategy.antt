-- ===== src/Examples/Strategy.antt =====
-- What the strategy does on the events of a run.
use okx_rust_trading.Common.{ℕ, ◌≡◌, refl, true, some, [], ◌∷◌, ◌++◌, ok}
use okx_rust_trading.Common.Int.{ℤ, pos, ◌+ℤ◌, ◌-ℤ◌, ◌*ℤ◌}
use okx_rust_trading.Order.{◌≺◌, int_ord}
use okx_rust_trading.Text.{codes}
use okx_rust_trading.Decimal.{◌-◌}
use okx_rust_trading.Decimal.Integers.{int_decimal, int_decimal-IsLawful}
use okx_rust_trading.TradingRuntime.OrderId.{OrderPurpose, client_order_id, strategy_tag}
use okx_rust_trading.TradingRuntime.Okx.Orders.{OkxFill}
use okx_rust_trading.TradingRuntime.Okx.Accounting.{Pair}
use okx_rust_trading.TradingRuntime.MakerTrend.Indicators.{
  is_usable_bar, ema_update, ema_after_seed, atr_update, atr_after_seed, true_range,
  is_positive_normal,
}
use okx_rust_trading.TradingRuntime.MakerTrend.Signal.{
  update_from_bar, entry_price_from_bid, entry_allowed_without_offset, price_below, signal_of,
  update_indicators, with_offset, with_trend, is_sufficient, volatility_clears_fee_threshold,
  volatility_of_decimals, volatility_exceeds, entry_offset_distance, clamped_offset,
}
use okx_rust_trading.TradingRuntime.MakerTrend.Signal.Offsets.{
  IsOffsetOf, entry_price_from_bid-update_from_bar,
}
use okx_rust_trading.TradingRuntime.MakerTrend.Action.{
  World, ◌>>=◌, gets, if_some, choose, try_call, change_exchange,
}
use okx_rust_trading.TradingRuntime.MakerTrend.Protection.Tracking.{
  tracked_take_profit, mark_take_profit, change_if, mark_cancel,
}
use okx_rust_trading.TradingRuntime.MakerTrend.Action.Exchange.{OnExchange}
use okx_rust_trading.TradingRuntime.MakerTrend.Protection.{cancel_take_profit_order}
use okx_rust_trading.TradingRuntime.MakerTrend.Protection.Cancel.{cancel_take_profit_order_twice}
use okx_rust_trading.TradingRuntime.MakerTrend.Refresh.{refresh_take_profit_order}
use okx_rust_trading.TradingRuntime.MakerTrend.StopLoss.{refresh_stop_loss_order}
use okx_rust_trading.TradingRuntime.MakerTrend.StopLoss.Exit.{refresh_stop_loss_exit_order}
use okx_rust_trading.TradingRuntime.MakerTrend.Evidence.{strategy_fill_evidence}
use okx_rust_trading.TradingRuntime.MakerTrend.Evidence.Repeated.{strategy_fill_evidence_repeated}
use okx_rust_trading.TradingRuntime.MakerTrend.Entry.{
  refresh_tracked_orders, enforce_tick_exit_protection, evaluate_entry,
}
use okx_rust_trading.TradingRuntime.MakerTrend.Sound.{IsSound}
use okx_rust_trading.TradingRuntime.MakerTrend.Sound.Handlers.{event-IsSound}
use okx_rust_trading.TradingRuntime.MakerTrend.AtMost.{AtMost, exits-AtMost}
use okx_rust_trading.Examples.Trader.{
  int_float, int_from_float, counting_client, take_profit, holding, quiet, rising_bar, holder,
  holding-IsSound,
}

event-IsSound_example :
    OnExchange IsSound (refresh_tracked_orders holder).1
    × OnExchange IsSound (enforce_tick_exit_protection holder).1
    × OnExchange IsSound (evaluate_entry holder).1
event-IsSound_example = event-IsSound int_decimal-IsLawful holder holding-IsSound

exits-AtMost_example :
    OnExchange (AtMost (pos 5)) (refresh_take_profit_order holder).1
    × OnExchange (AtMost (pos 5)) (refresh_stop_loss_order holder).1
    × OnExchange (AtMost (pos 5)) (refresh_stop_loss_exit_order holder).1
    × OnExchange (AtMost (pos 5)) (enforce_tick_exit_protection holder).1
exits-AtMost_example = exits-AtMost int_decimal-IsLawful (pos 5) holder refl

-- The take-profit order's cancel is requested, and remembered.
abbrev cancelled : World ℤ ℤ ℕ
cancelled = record holder {
  runner = record holder.runner {
    exchange = some (record holding {
      take_profit_order = some (record take_profit { cancel_requested = true });
    });
  };
  client = 1;
}

cancels_once : cancel_take_profit_order holder ≡ (ok tt, cancelled)
unfolding cancel_take_profit_order ◌>>=◌ gets if_some tracked_take_profit choose try_call
    change_exchange mark_take_profit change_if mark_cancel
cancels_once = refl

cancel_take_profit_order_twice_example : cancel_take_profit_order cancelled ≡ (ok tt, cancelled)
cancel_take_profit_order_twice_example =
    cancel_take_profit_order_twice holder cancelled cancels_once

quiet_price :
    entry_price_from_bid (update_from_bar quiet rising_bar).0 (pos 399) ≡ ok (some (pos 379))
unfolding entry_price_from_bid price_below update_from_bar is_usable_bar signal_of update_indicators
    ema_update ema_after_seed atr_update atr_after_seed true_range with_offset with_trend
    entry_allowed_without_offset ◌+ℤ◌ ◌*ℤ◌ ◌-ℤ◌ is_sufficient volatility_clears_fee_threshold
    volatility_of_decimals volatility_exceeds is_positive_normal entry_offset_distance
    clamped_offset
quiet_price = refl

entry_price_from_bid-update_from_bar_example :
    (offset : ℤ) × (pos 379 ≡ pos 399 - offset)
    × (pos 0 ≺ pos 379)
    × IsOffsetOf quiet (pos 400) offset
    × (entry_allowed_without_offset (update_from_bar quiet rising_bar).0 ≡ true)
entry_price_from_bid-update_from_bar_example =
    entry_price_from_bid-update_from_bar quiet rising_bar (pos 399) (pos 379) quiet_price

abbrev fill : OkxFill
fill = record {
  inst_type = codes "SPOT";
  inst_id = codes "BTC-USDT";
  order_id = codes "1";
  client_order_id =
      (client_order_id (codes "trend-1") OrderPurpose.entry (pos 1_700_000_000_000_000_000) 9).0;
  bill_id = codes "11";
  trade_id = codes "12";
  side = codes "buy";
  fill_size = codes "2";
  fill_price = codes "100";
  fee = codes "0";
  fee_currency = codes "BTC";
  fee_rate = codes "0";
  execution_type = codes "M";
  fill_time_ms = codes "1700000000001";
  event_time_ms = codes "1700000000002";
}

abbrev btc_and_usdt : Pair
btc_and_usdt = record { base = codes "BTC"; quote = codes "USDT" }

strategy_fill_evidence_repeated_example :
    strategy_fill_evidence {D = ℤ} []
      ((fill ∷ []) ++ (fill ∷ []))
      (strategy_tag (codes "trend-1"))
      btc_and_usdt
    ≡ strategy_fill_evidence [] (fill ∷ []) (strategy_tag (codes "trend-1")) btc_and_usdt
strategy_fill_evidence_repeated_example =
    strategy_fill_evidence_repeated [] (fill ∷ []) (strategy_tag (codes "trend-1")) btc_and_usdt
