-- ===== src/TradingRuntime/MakerTrend/Shutdown.antt =====
-- strategies/okx_ema_atr_maker_trend/shutdown.rs: what a shutdown reconciles once the runner is
-- initialized, and the checks that end it.
pub mod Settled
pub mod Steps
use okx_rust_trading.Common.{
  Bool, true, false, ◌||◌, Option, none, some, is_some, is_none, ok, ensure,
}
use okx_rust_trading.Order.{Ord}
use okx_rust_trading.Text.{Str, eq_str}
use okx_rust_trading.Decimal.{Decimal}
use okx_rust_trading.TradingRuntime.Okx.Errors
use okx_rust_trading.TradingRuntime.Okx.Errors.{Error}
use okx_rust_trading.TradingRuntime.Okx.Orders.{OkxOrder, is_live}
use okx_rust_trading.TradingRuntime.Okx.Client.{OkxClient}
use okx_rust_trading.TradingRuntime.MakerTrend.Indicators.{Float, FromFloat}
use okx_rust_trading.TradingRuntime.MakerTrend.Types.{ExchangeState, TrackedOrder}
use okx_rust_trading.TradingRuntime.MakerTrend.Action.{
  Action, World, pure, lift, gets, ◌>>=◌, ◌>>◌, if_some, choose, done, when, try_call, exchange,
  exchange_ok, change_exchange, clear_position_state,
}
use okx_rust_trading.TradingRuntime.MakerTrend.Protection.{
  cancel_tracked_entry_order, cancel_take_profit_order, cancel_stop_loss_order,
  ensure_take_profit_order, ensure_stop_loss_order,
}
use okx_rust_trading.TradingRuntime.MakerTrend.Protection.Tracking.{
  with_entry, with_take_profit, with_stop_loss_exit,
}
use okx_rust_trading.TradingRuntime.MakerTrend.Refresh.{
  refresh_entry_order, refresh_take_profit_order,
}
use okx_rust_trading.TradingRuntime.MakerTrend.Entry.{refresh_tracked_orders}
use okx_rust_trading.TradingRuntime.MakerTrend.StopLoss.{refresh_stop_loss_order}
use okx_rust_trading.TradingRuntime.MakerTrend.StopLoss.Exit.{
  refresh_stop_loss_exit_order, cancel_stop_loss_exit_order, evaluate_stop_loss,
}

unfoldable pub is_live_order : Option OkxOrder → Bool
is_live_order none = false
is_live_order (some order) = is_live order

module _ {D : Type 0} where
  unfoldable pub is_order : Str → Option (TrackedOrder D) → Bool
  is_order id none = false
  is_order id (some order) = eq_str order.client_order_id id

  unfoldable pub has_no_pending_exit : ExchangeState D → Bool
  has_no_pending_exit s =
      is_none s.position
      || is_none s.stop_loss_pending
      || is_some s.stop_loss_order
      || is_some s.stop_loss_exit_order

  unfoldable pub needs_no_exit : ExchangeState D → Bool
  needs_no_exit s =
      is_none s.position || is_some s.stop_loss_order || is_some s.stop_loss_exit_order

module _ {F D C : Type 0} where
  -- What must protect a position that stays open.
  unfoldable pub ensure_shutdown_protection : Action (World F D C) (Unit {0})
  ensure_shutdown_protection = do
    state ← exchange
    lift (
        ensure (is_some state.stop_loss_order || is_some state.stop_loss_exit_order)
          Errors.unprotected_stop_loss)
    lift (
        ensure (is_some state.take_profit_order || is_some state.stop_loss_exit_order)
          Errors.unprotected_take_profit)

module _ {F D C : Type 0} ⦃c : OkxClient D C⦄ where
  unfoldable pub regular_order_is_live : Str → Action (World F D C) Bool
  regular_order_is_live id = do
    runner ← gets (λ (w : World F D C). w.runner)
    found ← try_call (c.order runner.instrument_id id)
    pure (is_live_order found)

  -- `bail!` where the order still is live.
  unfoldable pub ensure_not_live : Str → Error → Action (World F D C) (Unit {0})
  ensure_not_live id e = do
    live ← regular_order_is_live id
    choose live (lift (ensure false e)) done

module _ {F D C : Type 0} ⦃o : Ord D⦄ ⦃d : Decimal D⦄ ⦃f : Float F⦄ ⦃x : FromFloat F D⦄
    ⦃c : OkxClient D C⦄ where
  unfoldable pub cancel_shutdown_entry_order : Action (World F D C) (Unit {0})
  cancel_shutdown_entry_order = do
    before ← exchange
    if_some before.entry_order
        (λ entry. do
          cancel_tracked_entry_order entry.client_order_id
          refresh_entry_order
          ensure_not_live entry.client_order_id Errors.entry_left_live
          after ← exchange
          choose (is_some after.position) done (
              when (is_order entry.client_order_id after.entry_order)
                (change_exchange (with_entry none))))
        done

  unfoldable pub drop_take_profit : Action (World F D C) (Unit {0})
  drop_take_profit = do
    state ← exchange
    if_some state.take_profit_order
        (λ order. do
          cancel_take_profit_order
          ensure_not_live order.client_order_id Errors.take_profit_left_live
          change_exchange (with_take_profit none))
        done

  unfoldable pub drop_stop_loss : Action (World F D C) (Unit {0})
  drop_stop_loss = do
    state ← exchange
    if_some state.stop_loss_order
        (λ order. do
          cancel_stop_loss_order
          refresh_stop_loss_order
          after ← exchange
          lift (ensure (is_none after.stop_loss_order) Errors.stop_loss_left_live))
        done

  unfoldable pub drop_stop_loss_exit : Action (World F D C) (Unit {0})
  drop_stop_loss_exit = do
    state ← exchange
    if_some state.stop_loss_exit_order
        (λ order. do
          cancel_stop_loss_exit_order
          ensure_not_live order.client_order_id Errors.stop_loss_exit_left_live
          change_exchange (with_stop_loss_exit none))
        done

  unfoldable pub shutdown_without_position : Action (World F D C) (Unit {0})
  shutdown_without_position = do
    drop_take_profit
    drop_stop_loss
    drop_stop_loss_exit
    clear_position_state

  -- A take-profit order that is live while a stop loss is pending ends the shutdown.
  unfoldable pub settle_pending_take_profit :
      Option (TrackedOrder D) → Action (World F D C) (Unit {0})
  settle_pending_take_profit order =
      if_some order
        (λ tracked. do
          live ← regular_order_is_live tracked.client_order_id
          choose live (cancel_take_profit_order >> lift (ensure false Errors.pending_without_exit))
              refresh_take_profit_order)
        done

  unfoldable pub reconcile_shutdown_pending_stop_loss : Action (World F D C) (Unit {0})
  reconcile_shutdown_pending_stop_loss = do
    known ← exchange_ok
    if_some known
        (λ before. choose (has_no_pending_exit before) done (do
          settle_pending_take_profit before.take_profit_order
          after ← exchange
          choose (needs_no_exit after) done evaluate_stop_loss))
        done

  unfoldable pub shutdown_with_position : Action (World F D C) (Unit {0})
  shutdown_with_position = do
    refresh_take_profit_order
    refresh_stop_loss_order
    refresh_stop_loss_exit_order
    evaluate_stop_loss
    reconcile_shutdown_pending_stop_loss
    state ← exchange
    choose (is_none state.position) shutdown_without_position
        (do ensure_take_profit_order; ensure_stop_loss_order; ensure_shutdown_protection)

  unfoldable pub reconcile_shutdown_position : Action (World F D C) (Unit {0})
  reconcile_shutdown_position = do
    state ← exchange
    choose (is_none state.position) shutdown_without_position shutdown_with_position

  -- `shutdown` of a runner that is initialized.
  unfoldable pub shutdown_initialized : Action (World F D C) (Unit {0})
  shutdown_initialized = do
    refresh_tracked_orders
    cancel_shutdown_entry_order
    reconcile_shutdown_position
