-- ===== src/TradingRuntime/MakerTrend/StopLoss.antt =====
-- strategies/okx_ema_atr_maker_trend.rs: following the stop loss and the market exit that replaces
-- it.
pub mod Exit
use okx_rust_trading.Common.{
  Bool, true, false, ◌&&◌, ◌||◌, not, Option, none, some, is_some, is_none, List, [], ◌∷◌, Result,
  ok, err, ensure, ◌>>=◌ as bind, ◌>>◌ as then_do, if◌then◌else◌,
}
use okx_rust_trading.Order.{Ord, lt?, le?}
use okx_rust_trading.Text.{Str, eq_str}
use okx_rust_trading.Decimal.{Decimal}
use okx_rust_trading.TradingRuntime.Okx.Errors
use okx_rust_trading.TradingRuntime.Okx.Errors.{Error}
use okx_rust_trading.TradingRuntime.Okx.Orders.{OrderSide, parsed_side, has_side}
use okx_rust_trading.TradingRuntime.Okx.Algo
use okx_rust_trading.TradingRuntime.Okx.Algo.{OkxAlgoOrder}
use okx_rust_trading.TradingRuntime.Okx.Instrument.{last_decimal}
use okx_rust_trading.TradingRuntime.Okx.Client.{OkxClient}
use okx_rust_trading.TradingRuntime.MakerTrend.Indicators.{Float, FromFloat}
use okx_rust_trading.TradingRuntime.MakerTrend.Types.{
  StopLossPendingReason, is_local_threshold, ExchangeState, TrackedOrder, TrackedAlgoOrder,
  OpenPosition,
}
use okx_rust_trading.TradingRuntime.MakerTrend.Action.{
  Action, World, pure, lift, gets, ◌>>=◌, ◌>>◌, if_some, choose, done, when, try_call, exchange,
  change_exchange, clear_position_state,
}
use okx_rust_trading.TradingRuntime.MakerTrend.Protection.{ensure_take_profit_order}
use okx_rust_trading.TradingRuntime.MakerTrend.Protection.Tracking.{
  tracked_take_profit, tracked_stop_loss, with_stop_loss, with_pending, mark_take_profit,
}
use okx_rust_trading.TradingRuntime.MakerTrend.Inventory.{reconcile_position_quantity_from_balance}

-- `iter().find(test)`
unfoldable pub find {ℓ} : {A : Type ℓ} → (A → Bool) → List A → Option A
find test [] = none
find test (x ∷ xs) = if test x then some x else find test xs

module _ {D : Type 0} ⦃o : Ord D⦄ ⦃d : Decimal D⦄ where
  unfoldable pub tracked_stop_loss_algo : OkxAlgoOrder → Bool → Result (TrackedAlgoOrder D) Error
  tracked_stop_loss_algo order cancel_requested =
      then_do (ensure (Algo.is_live order) Errors.algo_not_live) (
        then_do (ensure (has_side OrderSide.sell (parsed_side order.side)) Errors.algo_not_sell) (
          then_do (ensure (Algo.is_trigger_market_order order) Errors.algo_not_trigger) (
            bind (Algo.requested_size order) λ size. bind (Algo.trigger_price order) λ trigger.
              ok (record {
                algo_id = order.algo_id;
                client_order_id = order.client_order_id;
                size = size;
                trigger_price = trigger;
                cancel_requested = cancel_requested;
              }))))

  -- A local stop that waits for nothing else.
  unfoldable pub waits_on_threshold : ExchangeState D → Bool
  waits_on_threshold s =
      is_local_threshold s.stop_loss_pending
      && is_none s.stop_loss_exit_order
      && is_none s.take_profit_order

module _ {F D C : Type 0} ⦃o : Ord D⦄ ⦃d : Decimal D⦄ ⦃c : OkxClient D C⦄ where
  -- Whether the exchange took the request; its error is logged and dropped.
  unfoldable pub cancel_if_live : Str → Str → Action (World F D C) Bool
  cancel_if_live instrument_id id w =
      let (result, client) = c.cancel_order instrument_id id w.client in
      (ok (elim result [ ok _ ↦ true | err _ ↦ false ]), record w { client = client })

  unfoldable pub last_price : Str → Action (World F D C) D
  last_price instrument_id = do
    ticker ← try_call (c.ticker instrument_id)
    lift (last_decimal ticker)

  unfoldable pub cancel_and_mark : Str → Str → Action (World F D C) (Unit {0})
  cancel_and_mark instrument_id id = do
    cancelled ← cancel_if_live instrument_id id
    when cancelled (change_exchange (mark_take_profit id))

  unfoldable pub reconcile_triggered_stop_loss_order : Action (World F D C) (Unit {0})
  reconcile_triggered_stop_loss_order = do
    runner ← gets (λ (w : World F D C). w.runner)
    if_some (tracked_take_profit runner)
        (λ take_profit. cancel_and_mark runner.instrument_id take_profit.client_order_id) done
    reconciled ← reconcile_position_quantity_from_balance
    if_some reconciled
        (λ _. change_exchange (λ (s : ExchangeState D).
          with_pending (some StopLossPendingReason.exit_reconciliation) (with_stop_loss none s)))
        clear_position_state

  -- The stop loss is neither open nor known to be executed.
  unfoldable pub missing_stop_loss : Str → OpenPosition D → Action (World F D C) (Unit {0})
  missing_stop_loss instrument_id position = do
    state ← exchange
    last ← last_price instrument_id
    choose (is_some state.stop_loss_pending || le? last position.stop_loss_trigger)
        reconcile_triggered_stop_loss_order (change_exchange (with_stop_loss none))

  unfoldable pub historical_stop_loss :
      Str → OpenPosition D → OkxAlgoOrder → Action (World F D C) (Unit {0})
  historical_stop_loss instrument_id position historical = do
    lift (
        ensure (has_side OrderSide.sell (parsed_side historical.side))
          Errors.historical_algo_not_sell)
    choose (Algo.is_effective historical)
        (last_price instrument_id >> reconcile_triggered_stop_loss_order)
        (do
          when (Algo.is_terminal_without_execution historical)
              (change_exchange (with_stop_loss none))
          missing_stop_loss instrument_id position)

  unfoldable pub closed_stop_loss : Str → TrackedAlgoOrder D → Action (World F D C) (Unit {0})
  closed_stop_loss instrument_id tracked = do
    state ← exchange
    if_some state.position
        (λ position. do
          history ← try_call (c.algo_order_history instrument_id)
          if_some
              (find
                (λ (order : OkxAlgoOrder).
                  eq_str order.algo_id tracked.algo_id
                  || eq_str order.client_order_id tracked.client_order_id)
                history)
              (historical_stop_loss instrument_id position)
              (missing_stop_loss instrument_id position))
        (change_exchange (with_stop_loss none))

module _ {F D C : Type 0} ⦃o : Ord D⦄ ⦃d : Decimal D⦄ ⦃f : Float F⦄ ⦃x : FromFloat F D⦄
    ⦃c : OkxClient D C⦄ where
  unfoldable pub open_stop_loss :
      Str → TrackedAlgoOrder D → OkxAlgoOrder → Action (World F D C) (Unit {0})
  open_stop_loss instrument_id tracked order = do
    read ← lift (tracked_stop_loss_algo order tracked.cancel_requested)
    change_exchange (with_stop_loss (some read))
    state ← exchange
    if_some state.position
        (λ position. when (waits_on_threshold state) (do
          last ← last_price instrument_id
          when (lt? position.stop_loss_trigger last)
              (do change_exchange (with_pending none); ensure_take_profit_order)))
        done

  unfoldable pub refresh_stop_loss_order : Action (World F D C) (Unit {0})
  refresh_stop_loss_order = do
    runner ← gets (λ (w : World F D C). w.runner)
    if_some (tracked_stop_loss runner)
        (λ tracked. do
          open_orders ← try_call (c.open_algo_orders runner.instrument_id)
          if_some
              (find (λ (order : OkxAlgoOrder). eq_str order.algo_id tracked.algo_id) open_orders)
              (open_stop_loss runner.instrument_id tracked)
              (closed_stop_loss runner.instrument_id tracked))
        done
