-- ===== src/Examples/Shutdown.antt =====
-- The end of the strategy, and its start.
use okx_rust_trading.TradingRuntime.Okx.Numbers.{parse_positive_decimal, parse_decimal}
use okx_rust_trading.TradingRuntime.MakerTrend.Prices.{
  distance, stop_loss_trigger, signal_atr_decimal,
}
use okx_rust_trading.Common.{ℕ, ◌≡◌, refl, false, none, some, [], ◌∷◌, ok}
use okx_rust_trading.Common.Int.{ℤ, pos, ◌+ℤ◌, ◌-ℤ◌, ◌*ℤ◌}
use okx_rust_trading.Order.{int_ord}
use okx_rust_trading.Text.{parse_i64, codes}
use okx_rust_trading.Decimal.Integers.{int_decimal, int_decimal-IsLawful, neg_ℤ}
use okx_rust_trading.TradingRuntime.OrderId.{OrderPurpose}
use okx_rust_trading.TradingRuntime.Okx.Instrument.{lot_size}
use okx_rust_trading.TradingRuntime.Okx.Orders.{OrderSide}
use okx_rust_trading.TradingRuntime.MakerTrend.Types.{cleared}
use okx_rust_trading.TradingRuntime.MakerTrend.Action.{
  World, ◌>>=◌, gets, if_some, choose, try_call, change_exchange, after, done, pure, exchange, asks,
  state_of, change_with, write_exchange, lift, when, clear_with, clear_position_state,
}
use okx_rust_trading.TradingRuntime.MakerTrend.Protection.Tracking.{
  tracked_take_profit, change_if, mark_cancel, tracked_entry, tracked_stop_loss,
  tracked_stop_loss_exit, with_stop_loss, mark_entry, with_entry,
}
use okx_rust_trading.TradingRuntime.MakerTrend.Action.Exchange.{OnExchange}
use okx_rust_trading.TradingRuntime.MakerTrend.Protection.{cancel_tracked_entry_order}
use okx_rust_trading.TradingRuntime.MakerTrend.Refresh.{
  refresh_take_profit_order, refresh_entry_order,
}
use okx_rust_trading.TradingRuntime.MakerTrend.StopLoss.{
  refresh_stop_loss_order, find, closed_stop_loss,
}
use okx_rust_trading.TradingRuntime.MakerTrend.StopLoss.Exit.{refresh_stop_loss_exit_order}
use okx_rust_trading.TradingRuntime.MakerTrend.Entry.{refresh_tracked_orders}
use okx_rust_trading.TradingRuntime.MakerTrend.Sound.{IsSound}
use okx_rust_trading.TradingRuntime.MakerTrend.AtMost.{AtMost}
use okx_rust_trading.Examples.Trader.{
  int_float, int_from_float, counting_client, take_profit, holding, holder, holding-IsSound,
}
use okx_rust_trading.TradingRuntime.MakerTrend.Types.{OpenPosition}
use okx_rust_trading.TradingRuntime.MakerTrend.Shutdown.{
  shutdown_initialized, reconcile_shutdown_position, cancel_shutdown_entry_order, ensure_not_live,
  regular_order_is_live, is_live_order, is_order, shutdown_without_position, drop_take_profit,
  drop_stop_loss, drop_stop_loss_exit,
}
use okx_rust_trading.TradingRuntime.MakerTrend.Shutdown.Settled.{
  IsSettled, shutdown_initialized-IsSettled,
}
use okx_rust_trading.TradingRuntime.MakerTrend.Shutdown.Steps.{shutdown_keeps}
use okx_rust_trading.TradingRuntime.MakerTrend.Inventory.{StrategyBalance}
use okx_rust_trading.TradingRuntime.MakerTrend.Evidence.{StrategyFillEvidence}
use okx_rust_trading.TradingRuntime.MakerTrend.Reconstruct.{
  final, reconstructed, reconstruct_position_from_evidence, finalize_reconstructed_position,
  strategy_net_filled_position, add_net, matches_side, weighed, strategy_entry_average_price,
  add_entries, with_entry_fill, is_entry_buy, status_of, average_of, with_average, position_at,
}
use okx_rust_trading.TradingRuntime.MakerTrend.Reconstruct.Agreed.{
  IsAccepted, finalize_reconstructed_position-IsAccepted,
}

-- An entry order and a stop loss are tracked, and nothing is held.
abbrev waiting : World ℤ ℤ ℕ
waiting = record holder {
  runner = record holder.runner {
    exchange = some (record holding {
      entry_order = some take_profit;
      take_profit_order = none;
      stop_loss_order = some (record {
        algo_id = codes "algo";
        client_order_id = codes "ROXSL";
        size = pos 5;
        trigger_price = pos 90;
        cancel_requested = false;
      });
      position = none;
    });
  };
}

abbrev shut : World ℤ ℤ ℕ
shut = record holder {
  runner = record holder.runner {
    exchange = some (record holding { take_profit_order = none; position = none });
  };
  client = 1;
}

shuts : shutdown_initialized waiting ≡ (ok tt, shut)
unfolding shutdown_initialized ◌>>=◌ after refresh_tracked_orders refresh_entry_order gets if_some
    tracked_entry try_call done pure refresh_take_profit_order tracked_take_profit
    refresh_stop_loss_order tracked_stop_loss find closed_stop_loss exchange asks state_of
    change_exchange change_with write_exchange with_stop_loss refresh_stop_loss_exit_order
    tracked_stop_loss_exit cancel_shutdown_entry_order cancel_tracked_entry_order choose mark_entry
    change_if mark_cancel ensure_not_live regular_order_is_live is_live_order lift when is_order
    with_entry reconcile_shutdown_position shutdown_without_position drop_take_profit drop_stop_loss
    drop_stop_loss_exit clear_position_state clear_with cleared
shuts = refl

shutdown_initialized-IsSettled_example : IsSettled shut
shutdown_initialized-IsSettled_example = shutdown_initialized-IsSettled waiting shut shuts

shutdown_keeps_example :
    OnExchange IsSound (shutdown_initialized holder).1
    × OnExchange (AtMost (pos 5)) (reconcile_shutdown_position holder).1
shutdown_keeps_example = shutdown_keeps int_decimal-IsLawful (pos 5) holder holding-IsSound refl

-- Five were bought at 100 each.
abbrev bought : StrategyFillEvidence ℤ
bought = record {
  purpose = OrderPurpose.entry;
  side = OrderSide.buy;
  accounting = some (record { base_change = pos 5; quote_change = neg_ℤ (pos 500) });
}

abbrev owned : StrategyBalance ℤ
owned = record { total = pos 5; tradeable_quantity = pos 5 }

abbrev warm : World ℤ ℤ ℕ
warm = record holder {
  runner = record holder.runner {
    signal = record holder.runner.signal { last_atr = some (pos 10) };
  };
}

abbrev resumed : OpenPosition ℤ
resumed = record { quantity = pos 5; average_price = pos 100; stop_loss_trigger = pos 90 }

resumes :
    reconstruct_position_from_evidence warm.runner owned (bought ∷ []) final
    ≡ ok (reconstructed resumed)
unfolding reconstruct_position_from_evidence strategy_net_filled_position add_net matches_side
    state_of lot_size parse_positive_decimal parse_decimal weighed strategy_entry_average_price
    add_entries with_entry_fill is_entry_buy status_of average_of with_average position_at distance
    stop_loss_trigger signal_atr_decimal ◌+ℤ◌ ◌*ℤ◌ ◌-ℤ◌ parse_i64
resumes = refl

resumed_accepted : finalize_reconstructed_position owned (reconstructed resumed) ≡ ok (some resumed)
unfolding finalize_reconstructed_position
resumed_accepted = refl

finalize_reconstructed_position-IsAccepted_example :
    IsAccepted warm.runner owned (bought ∷ []) (some resumed)
finalize_reconstructed_position-IsAccepted_example =
    finalize_reconstructed_position-IsAccepted warm.runner owned (bought ∷ []) final
      (reconstructed resumed) (some resumed) resumes resumed_accepted
