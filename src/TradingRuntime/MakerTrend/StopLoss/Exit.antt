-- ===== src/TradingRuntime/MakerTrend/StopLoss/Exit.antt =====
-- strategies/okx_ema_atr_maker_trend.rs: the market exit at the stop loss.
use okx_rust_trading.Common.{
  Bool, true, false, ◌&&◌, ◌||◌, not, Option, none, some, is_some, ensure,
}
use okx_rust_trading.Order.{Ord, lt?, le?}
use okx_rust_trading.Text.{Str}
use okx_rust_trading.Decimal.{Decimal}
use okx_rust_trading.TradingRuntime.OrderId.{OrderPurpose}
use okx_rust_trading.TradingRuntime.Okx.Errors
use okx_rust_trading.TradingRuntime.Okx.Errors.{Error, Measure, Followed}
use okx_rust_trading.TradingRuntime.Okx.Numbers.{quantize_decimal_down}
use okx_rust_trading.TradingRuntime.Okx.Orders.{
  OrderSide, OrderKind, OkxOrder, fill_size, is_live, is_terminal, is_terminal_without_fill,
}
use okx_rust_trading.TradingRuntime.Okx.Accounting.{cumulative_spot_accounting}
use okx_rust_trading.TradingRuntime.Okx.Instrument.{
  lot_size, min_size, last_decimal, ask_decimal, ensure_spot_market_sell_size,
}
use okx_rust_trading.TradingRuntime.Okx.Client.{OkxClient}
use okx_rust_trading.TradingRuntime.MakerTrend.Types.{
  StopLossPendingReason, ExchangeState, TrackedOrder, pair_of,
}
use okx_rust_trading.TradingRuntime.MakerTrend.Fills.{cumulative_fill_delta, exit_accounting_delta}
use okx_rust_trading.TradingRuntime.MakerTrend.Action.{
  Action, World, pure, lift, gets, ◌>>=◌, ◌>>◌, if_some, choose, done, when, try_call, exchange,
  change_exchange, clear_position_state, next_order_id,
}
use okx_rust_trading.TradingRuntime.MakerTrend.Protection.Tracking.{
  tracked_position, tracked_pending, tracked_take_profit, tracked_stop_loss_exit, with_take_profit,
  with_stop_loss_exit, with_position, with_pending, mark_take_profit, mark_stop_loss_exit,
  update_stop_loss_exit_tracking, new_tracked,
}
use okx_rust_trading.TradingRuntime.MakerTrend.Inventory.{reconcile_position_quantity_from_balance}
use okx_rust_trading.TradingRuntime.MakerTrend.Refresh.{apply_position_reducing_fill}
use okx_rust_trading.TradingRuntime.MakerTrend.StopLoss.{cancel_and_mark}

module _ {F D C : Type 0} ⦃o : Ord D⦄ ⦃d : Decimal D⦄ ⦃c : OkxClient D C⦄ where
  unfoldable pub missing_exit : Action (World F D C) (Unit {0})
  missing_exit = do
    change_exchange (with_stop_loss_exit none)
    reconciled ← reconcile_position_quantity_from_balance
    when (is_some reconciled)
        (change_exchange (with_pending (some StopLossPendingReason.exit_reconciliation)))

  unfoldable pub closed_exit : OkxOrder → Action (World F D C) (Unit {0})
  closed_exit order = do
    change_exchange (with_stop_loss_exit none)
    state ← exchange
    if_some state.position
        (λ _.
          when (is_terminal_without_fill order || is_terminal order)
            (change_exchange (with_pending (some StopLossPendingReason.exit_reconciliation))))
        clear_position_state

  unfoldable pub exit_reported : TrackedOrder D → OkxOrder → Action (World F D C) (Unit {0})
  exit_reported tracked order = do
    filled ← lift (fill_size order)
    delta ←
        lift (cumulative_fill_delta Followed.stop_loss_market_exit filled tracked.last_fill_size)
    state ← exchange
    accounting ← lift (cumulative_spot_accounting order (pair_of state.instrument))
    when (lt? d.zero delta) (do
      reduction ← lift (exit_accounting_delta accounting tracked)
      apply_position_reducing_fill reduction
      done)
    choose (is_live order)
        (change_exchange (update_stop_loss_exit_tracking tracked.client_order_id filled accounting))
        (closed_exit order)

  unfoldable pub refresh_stop_loss_exit_order : Action (World F D C) (Unit {0})
  refresh_stop_loss_exit_order = do
    runner ← gets (λ (w : World F D C). w.runner)
    if_some (tracked_stop_loss_exit runner)
        (λ tracked. do
          found ← try_call (c.order runner.instrument_id tracked.client_order_id)
          if_some found (exit_reported tracked) missing_exit)
        done

  unfoldable pub cancel_stop_loss_exit_order : Action (World F D C) (Unit {0})
  cancel_stop_loss_exit_order = do
    runner ← gets (λ (w : World F D C). w.runner)
    if_some (tracked_stop_loss_exit runner)
        (λ order. choose order.cancel_requested done (do
          try_call (c.cancel_order runner.instrument_id order.client_order_id)
          change_exchange (mark_stop_loss_exit order.client_order_id)))
        done

  -- A take-profit order that has closed; whether the exit goes on.
  unfoldable pub settle_closed_take_profit :
      Bool → TrackedOrder D → OkxOrder → Action (World F D C) Bool
  settle_closed_take_profit was_pending tracked order = do
    filled ← lift (fill_size order)
    delta ← lift (cumulative_fill_delta Followed.take_profit_order filled tracked.last_fill_size)
    when (lt? d.zero delta && not was_pending) (do
      state ← exchange
      accounting ← lift (cumulative_spot_accounting order (pair_of state.instrument))
      reduction ← lift (exit_accounting_delta accounting tracked)
      apply_position_reducing_fill reduction
      done)
    change_exchange (with_take_profit none)
    state ← exchange
    if_some state.position
        (λ position. change_exchange (with_position (some position)) >> pure true) (pure false)

  unfoldable pub settle_take_profit : Bool → Action (World F D C) Bool
  settle_take_profit was_pending = do
    runner ← gets (λ (w : World F D C). w.runner)
    if_some (tracked_take_profit runner)
        (λ tracked. do
          found ← try_call (c.order runner.instrument_id tracked.client_order_id)
          if_some found
              (λ order.
                choose (is_live order)
                  (do
                    when (not tracked.cancel_requested) (do
                      try_call (c.cancel_order runner.instrument_id tracked.client_order_id)
                      change_exchange (mark_take_profit tracked.client_order_id))
                    pure false)
                  (settle_closed_take_profit was_pending tracked order))
              (cancel_and_mark runner.instrument_id tracked.client_order_id >> pure false))
        (pure true)

  -- `market_reference_price`, asked for where it is not known yet.
  unfoldable pub reference_price : Str → Option D → Action (World F D C) D
  reference_price instrument_id known =
      if_some known pure (do ticker ← try_call (c.ticker instrument_id); lift (ask_decimal ticker))

  unfoldable pub market_exit : Option D → Action (World F D C) (Unit {0})
  market_exit reference = do
    state ← exchange
    if_some state.position
        (λ position. do
          runner ← gets (λ (w : World F D C). w.runner)
          lot ← lift (lot_size state.instrument)
          size ← lift (quantize_decimal_down position.quantity lot)
          smallest ← lift (min_size state.instrument)
          lift (ensure (le? smallest size) (Errors.below_min_size Measure.stop_size))
          price ← reference_price runner.instrument_id reference
          lift (
              ensure_spot_market_sell_size state.instrument size price Measure.stop_market_size
                Measure.stop_market_size_usdt_notional)
          id ← next_order_id OrderPurpose.stop_loss
          try_call (
              c.place_order runner.instrument_id OrderSide.sell OrderKind.market
                (d.to_normal_string size) none id)
          change_exchange (λ (s : ExchangeState D).
              with_stop_loss_exit (some (new_tracked id))
                (with_pending (some StopLossPendingReason.exit_reconciliation) s)))
        done

  -- Whether there still is a position to exit, by the balance if an exit was pending.
  unfoldable pub still_holds : Bool → Action (World F D C) Bool
  still_holds was_pending =
      choose was_pending
        (do reconciled ← reconcile_position_quantity_from_balance; pure (is_some reconciled))
        (pure true)

  unfoldable pub exit_unless_protected : Bool → Option D → Action (World F D C) (Unit {0})
  exit_unless_protected was_pending reference = do
    state ← exchange
    choose (is_some state.stop_loss_order) done (
        choose (is_some state.stop_loss_exit_order) done
          (do holds ← still_holds was_pending; when holds (market_exit reference)))

  unfoldable pub stop_out : Bool → Option D → Action (World F D C) (Unit {0})
  stop_out was_pending reference = do
    when (not was_pending)
        (change_exchange (with_pending (some StopLossPendingReason.local_threshold)))
    settled ← settle_take_profit was_pending
    when settled (exit_unless_protected was_pending reference)

  -- Without a pending exit the price decides.
  unfoldable pub evaluate_stop_loss : Action (World F D C) (Unit {0})
  evaluate_stop_loss = do
    runner ← gets (λ (w : World F D C). w.runner)
    if_some (tracked_position runner)
        (λ position. choose (is_some (tracked_pending runner)) (stop_out true none) (do
          ticker ← try_call (c.ticker runner.instrument_id)
          last ← lift (last_decimal ticker)
          ask ← lift (ask_decimal ticker)
          choose (lt? position.stop_loss_trigger last) done (stop_out false (some ask))))
        done
