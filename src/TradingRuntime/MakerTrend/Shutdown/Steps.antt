-- ===== src/TradingRuntime/MakerTrend/Shutdown/Steps.antt =====
-- strategies/okx_ema_atr_maker_trend/shutdown.rs: what a shutdown leaves as it was.
use okx_rust_trading.Common.{Option}
use okx_rust_trading.Order.{Ord}
use okx_rust_trading.Text.{Str}
use okx_rust_trading.Decimal.{Decimal, IsLawful}
use okx_rust_trading.TradingRuntime.Okx.Errors.{Error}
use okx_rust_trading.TradingRuntime.Okx.Client.{OkxClient}
use okx_rust_trading.TradingRuntime.MakerTrend.Indicators.{Float, FromFloat}
use okx_rust_trading.TradingRuntime.MakerTrend.Types.{ExchangeState, TrackedOrder}
use okx_rust_trading.TradingRuntime.MakerTrend.Action.{World}
use okx_rust_trading.TradingRuntime.MakerTrend.Action.Keeps.{Keeps}
use okx_rust_trading.TradingRuntime.MakerTrend.Action.Exchange.{
  OnExchange, Keeps-change_exchange, Keeps-clear_position_state, exchange_rules,
}
use okx_rust_trading.TradingRuntime.MakerTrend.Exits.{IsStable}
use okx_rust_trading.TradingRuntime.MakerTrend.Exits.Protecting.{
  Keeps-cancel_tracked_entry_order, Keeps-cancel_take_profit_order, Keeps-cancel_stop_loss_order,
  Keeps-ensure_take_profit_order, Keeps-ensure_stop_loss_order,
}
use okx_rust_trading.TradingRuntime.MakerTrend.Exits.Following.{Keeps-refresh_take_profit_order}
use okx_rust_trading.TradingRuntime.MakerTrend.Exits.Exiting.{Keeps-refresh_stop_loss_order}
use okx_rust_trading.TradingRuntime.MakerTrend.Exits.MarketExit.{
  Keeps-cancel_stop_loss_exit_order, Keeps-refresh_stop_loss_exit_order, Keeps-evaluate_stop_loss,
}
use okx_rust_trading.TradingRuntime.MakerTrend.Sound.{IsSound}
use okx_rust_trading.TradingRuntime.MakerTrend.Sound.Stable.{stable-IsSound}
use okx_rust_trading.TradingRuntime.MakerTrend.Sound.Handlers.{
  Keeps-refresh_entry_order, refresh_tracked_orders-IsSound,
}
use okx_rust_trading.TradingRuntime.MakerTrend.AtMost.{AtMost, stable-AtMost}
use okx_rust_trading.TradingRuntime.MakerTrend.Shutdown.{
  regular_order_is_live, ensure_not_live, cancel_shutdown_entry_order, drop_take_profit,
  drop_stop_loss, drop_stop_loss_exit, shutdown_without_position, settle_pending_take_profit,
  reconcile_shutdown_pending_stop_loss, ensure_shutdown_protection, shutdown_with_position,
  reconcile_shutdown_position, shutdown_initialized,
}

module _ {F D C : Type 0} {P : ExchangeState D → Type 0} ⦃c : OkxClient D C⦄ where
  Keeps-ensure_not_live :
      (id : Str) (e : Error) → Keeps (OnExchange {F = F} {C = C} P) (ensure_not_live id e)
  unfolding ensure_not_live regular_order_is_live
  Keeps-ensure_not_live id e = search exchange_rules depth 30

  Keeps-regular_order_is_live :
      (id : Str) → Keeps (OnExchange {F = F} {C = C} P) (regular_order_is_live id)
  unfolding regular_order_is_live
  Keeps-regular_order_is_live id = search exchange_rules depth 30

module _ {F D C : Type 0} {P : ExchangeState D → Type 0} ⦃o : Ord D⦄ ⦃d : Decimal D⦄ ⦃f : Float F⦄
    ⦃x : FromFloat F D⦄ ⦃c : OkxClient D C⦄ (stable : IsStable D P) (laws : IsLawful D) where
  Keeps-drop_take_profit : Keeps (OnExchange {F = F} {C = C} P) drop_take_profit
  unfolding drop_take_profit
  Keeps-drop_take_profit =
      search
        (
          exchange_rules,
          Keeps-ensure_not_live,
          Keeps-cancel_take_profit_order stable,
          Keeps-change_exchange,
          stable.without_take_profit,
        )
        depth 30

  Keeps-drop_stop_loss : Keeps (OnExchange {F = F} {C = C} P) drop_stop_loss
  unfolding drop_stop_loss
  Keeps-drop_stop_loss =
      search
        (exchange_rules, Keeps-cancel_stop_loss_order stable, Keeps-refresh_stop_loss_order stable)
        depth 30

  Keeps-drop_stop_loss_exit : Keeps (OnExchange {F = F} {C = C} P) drop_stop_loss_exit
  unfolding drop_stop_loss_exit
  Keeps-drop_stop_loss_exit =
      search
        (
          exchange_rules,
          Keeps-ensure_not_live,
          Keeps-cancel_stop_loss_exit_order stable,
          Keeps-change_exchange,
          stable.without_exit,
        )
        depth 30

  Keeps-shutdown_without_position : Keeps (OnExchange {F = F} {C = C} P) shutdown_without_position
  unfolding shutdown_without_position
  Keeps-shutdown_without_position =
      search
        (
          exchange_rules, Keeps-drop_take_profit, Keeps-drop_stop_loss, Keeps-drop_stop_loss_exit,
          Keeps-clear_position_state, stable.emptied,
        )
        depth 30

  Keeps-settle_pending_take_profit :
      (order : Option (TrackedOrder D))
      → Keeps (OnExchange {F = F} {C = C} P) (settle_pending_take_profit order)
  unfolding settle_pending_take_profit
  Keeps-settle_pending_take_profit order =
      search
        (
          exchange_rules,
          Keeps-regular_order_is_live,
          Keeps-cancel_take_profit_order stable,
          Keeps-refresh_take_profit_order stable laws,
        )
        depth 30

  Keeps-reconcile_shutdown_pending_stop_loss :
      Keeps (OnExchange {F = F} {C = C} P) reconcile_shutdown_pending_stop_loss
  unfolding reconcile_shutdown_pending_stop_loss
  Keeps-reconcile_shutdown_pending_stop_loss =
      search
        (exchange_rules, Keeps-settle_pending_take_profit, Keeps-evaluate_stop_loss stable laws)
        depth 30

  Keeps-shutdown_with_position : Keeps (OnExchange {F = F} {C = C} P) shutdown_with_position
  unfolding shutdown_with_position ensure_shutdown_protection
  Keeps-shutdown_with_position =
      search
        (
          exchange_rules,
          Keeps-refresh_take_profit_order stable laws,
          Keeps-refresh_stop_loss_order stable,
          Keeps-refresh_stop_loss_exit_order stable laws,
          Keeps-evaluate_stop_loss stable laws,
          Keeps-reconcile_shutdown_pending_stop_loss,
          Keeps-shutdown_without_position,
          Keeps-ensure_take_profit_order stable,
          Keeps-ensure_stop_loss_order stable,
        )
        depth 40

  Keeps-reconcile_shutdown_position :
      Keeps (OnExchange {F = F} {C = C} P) reconcile_shutdown_position
  unfolding reconcile_shutdown_position
  Keeps-reconcile_shutdown_position =
      search (exchange_rules, Keeps-shutdown_without_position, Keeps-shutdown_with_position) depth
        30

module _ {F D C : Type 0} ⦃o : Ord D⦄ ⦃d : Decimal D⦄ ⦃f : Float F⦄ ⦃x : FromFloat F D⦄
    ⦃c : OkxClient D C⦄ (laws : IsLawful D) where
  Keeps-cancel_shutdown_entry_order :
      Keeps (OnExchange {F = F} {D = D} {C = C} IsSound) cancel_shutdown_entry_order
  unfolding cancel_shutdown_entry_order
  Keeps-cancel_shutdown_entry_order =
      search
        (
          exchange_rules,
          Keeps-cancel_tracked_entry_order stable-IsSound,
          Keeps-refresh_entry_order laws,
          Keeps-ensure_not_live,
          Keeps-change_exchange,
          stable-IsSound.without_entry,
        )
        depth 40

  shutdown_steps-IsSound : Keeps (OnExchange {F = F} {D = D} {C = C} IsSound) shutdown_initialized
  unfolding shutdown_initialized
  shutdown_steps-IsSound =
      search
        (
          exchange_rules,
          refresh_tracked_orders-IsSound laws,
          Keeps-cancel_shutdown_entry_order,
          Keeps-reconcile_shutdown_position stable-IsSound laws,
        )
        depth 40

  -- With lawful decimals, and whatever the exchange answers, the shutdown of an initialized runner
  -- keeps a sound state sound, also where it ends with an error, and its reconciliation of the
  -- position leaves no position of more than a bound that the position met before.
  pub shutdown_keeps :
      (quantity : D) (w : World F D C)
      → OnExchange IsSound w
      → OnExchange (AtMost quantity) w
      → OnExchange IsSound (shutdown_initialized w).1
        × OnExchange (AtMost quantity) (reconcile_shutdown_position w).1
  shutdown_keeps quantity w h k = (
    shutdown_steps-IsSound.holds w h,
    (Keeps-reconcile_shutdown_position (stable-AtMost laws quantity) laws).holds w k,
  )
