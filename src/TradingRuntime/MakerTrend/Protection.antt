-- ===== src/TradingRuntime/MakerTrend/Protection.antt =====
-- strategies/okx_ema_atr_maker_trend.rs: placing, amending and cancelling the orders that protect a
-- position.
pub mod Tracking
pub mod Cancel
use okx_rust_trading.Common.{
  Bool, true, false, ◌&&◌, ◌||◌, not, Option, none, some, is_some, Result, ok, err, ok_or, ensure,
}
use okx_rust_trading.Order.{Ord, lt?, le?}
use okx_rust_trading.Text.{Str, eq_str}
use okx_rust_trading.Decimal.{Decimal}
use okx_rust_trading.TradingRuntime.OrderId.{OrderPurpose}
use okx_rust_trading.TradingRuntime.Okx.Errors
use okx_rust_trading.TradingRuntime.Okx.Errors.{Error, Measure}
use okx_rust_trading.TradingRuntime.Okx.Numbers.{quantize_decimal_down}
use okx_rust_trading.TradingRuntime.Okx.Orders.{OrderSide, OrderKind}
use okx_rust_trading.TradingRuntime.Okx.Instrument
use okx_rust_trading.TradingRuntime.Okx.Instrument.{
  OkxInstrument, ValidatedTradingInstrument, ValidatedQuoteUsdRate, min_size, lot_size, tick_size,
  max_limit_amount, ensure_limit_size, ensure_trigger_size,
}
use okx_rust_trading.TradingRuntime.Okx.Client.{OkxClient}
use okx_rust_trading.TradingRuntime.MakerTrend.Indicators.{Float, FromFloat}
use okx_rust_trading.TradingRuntime.MakerTrend.Types.{
  Runner, ExchangeState, TrackedOrder, TrackedAlgoOrder, OpenPosition, TakeProfitOrderShape,
}
use okx_rust_trading.TradingRuntime.MakerTrend.Prices.{
  take_profit_order_shape, stop_loss_order_matches_position,
}
use okx_rust_trading.TradingRuntime.MakerTrend.Action.{
  Action, World, lift, gets, ◌>>=◌, ◌>>◌, if_some, choose, done, when, try_call, exchange,
  exchange_ok, change_exchange, next_order_id,
}
use okx_rust_trading.TradingRuntime.MakerTrend.Protection.Tracking.{
  tracked_take_profit, tracked_stop_loss, with_entry, with_take_profit, with_stop_loss, new_tracked,
  mark_entry, mark_take_profit, mark_stop_loss, has_no_take_profit_room, has_no_stop_loss_room,
}

module _ {F D C : Type 0} ⦃o : Ord D⦄ ⦃d : Decimal D⦄ ⦃c : OkxClient D C⦄ where
  unfoldable pub ensure_quote_limit : D → Measure → Action (World F D C) (Unit {0})
  ensure_quote_limit amount measure = do
    runner ← gets (λ (w : World F D C). w.runner)
    validated ← lift (ok_or runner.validated_instrument Errors.not_validated)
    limit ← lift (max_limit_amount {D = D} validated.instrument)
    when (is_some limit) (do
      rate ← try_call (c.fresh_quote_usd_rate validated)
      lift (Instrument.ensure_limit_quote_amount validated amount rate measure))

  unfoldable pub cancel_tracked_entry_order : Str → Action (World F D C) (Unit {0})
  cancel_tracked_entry_order id = do
    state ← exchange
    if_some state.entry_order
        (λ entry. choose (not (eq_str entry.client_order_id id) || entry.cancel_requested) done (do
          runner ← gets (λ (w : World F D C). w.runner)
          try_call (c.cancel_order runner.instrument_id id)
          change_exchange (mark_entry id)))
        done

  unfoldable pub cancel_take_profit_order : Action (World F D C) (Unit {0})
  cancel_take_profit_order = do
    tracked ← gets (λ (w : World F D C). tracked_take_profit w.runner)
    if_some tracked
        (λ order. choose order.cancel_requested done (do
          runner ← gets (λ (w : World F D C). w.runner)
          try_call (c.cancel_order runner.instrument_id order.client_order_id)
          change_exchange (mark_take_profit order.client_order_id)))
        done

  unfoldable pub cancel_stop_loss_order : Action (World F D C) (Unit {0})
  cancel_stop_loss_order = do
    tracked ← gets (λ (w : World F D C). tracked_stop_loss w.runner)
    if_some tracked
        (λ order. choose order.cancel_requested done (do
          runner ← gets (λ (w : World F D C). w.runner)
          try_call (c.cancel_algo_order runner.instrument_id order.algo_id)
          change_exchange (mark_stop_loss order.algo_id)))
        done

  unfoldable pub place_stop_loss_order : OpenPosition D → Action (World F D C) (Unit {0})
  place_stop_loss_order position = do
    runner ← gets (λ (w : World F D C). w.runner)
    state ← exchange
    lot ← lift (lot_size state.instrument)
    size ← lift (quantize_decimal_down position.quantity lot)
    smallest ← lift (min_size state.instrument)
    lift (ensure (le? smallest size) (Errors.below_min_size Measure.stop_size))
    lift (ensure_trigger_size state.instrument size Measure.stop_size)
    tick ← lift (tick_size state.instrument)
    trigger ← lift (quantize_decimal_down position.stop_loss_trigger tick)
    id ← next_order_id OrderPurpose.stop_loss
    algo_id ← try_call (
        c.place_trigger_order runner.instrument_id OrderSide.sell (d.to_normal_string size)
          (d.to_normal_string trigger) id)
    change_exchange (
        with_stop_loss (
          some (record {
            algo_id = algo_id;
            client_order_id = id;
            size = size;
            trigger_price = trigger;
            cancel_requested = false;
          })))

  -- With no stop loss yet a new one; one that no longer fits is cancelled first.
  unfoldable pub renew_stop_loss :
      OkxInstrument → OpenPosition D → Option (TrackedAlgoOrder D) → Action (World F D C) (Unit {0})
  renew_stop_loss instrument position tracked =
      if_some tracked
        (λ order. choose order.cancel_requested done (do
          fits ← lift (stop_loss_order_matches_position instrument order position)
          choose fits done cancel_stop_loss_order))
        (place_stop_loss_order position)

  unfoldable pub ensure_stop_loss_order : Action (World F D C) (Unit {0})
  ensure_stop_loss_order = do
    current ← exchange_ok
    if_some current
        (λ state.
          if_some state.position
            (λ position.
              choose (has_no_stop_loss_room state) done
                (renew_stop_loss state.instrument position state.stop_loss_order))
            done)
        done

module _ {F D C : Type 0} ⦃o : Ord D⦄ ⦃d : Decimal D⦄ ⦃f : Float F⦄ ⦃x : FromFloat F D⦄
    ⦃c : OkxClient D C⦄ where
  -- The limits of a take-profit order of this shape.
  unfoldable pub ensure_take_profit_limits :
      OkxInstrument → TakeProfitOrderShape D → Action (World F D C) (Unit {0})
  ensure_take_profit_limits instrument target = do
    lift (ensure_limit_size instrument target.size Measure.take_profit_size)
    notional ← lift (
        ok_or (d.checked_mul target.size target.price)
          (Errors.overflowed Measure.take_profit_quote_notional))
    ensure_quote_limit notional Measure.take_profit_quote_notional

  unfoldable pub place_take_profit : D → D → Action (World F D C) (Unit {0})
  place_take_profit quantity average_price = do
    runner ← gets (λ (w : World F D C). w.runner)
    state ← exchange
    target ← lift (take_profit_order_shape runner state.instrument quantity average_price)
    smallest ← lift (min_size state.instrument)
    lift (ensure (le? smallest target.size) (Errors.below_min_size Measure.take_profit_size))
    ensure_take_profit_limits state.instrument target
    id ← next_order_id OrderPurpose.take_profit
    try_call (
        c.place_order runner.instrument_id OrderSide.sell OrderKind.limit
          (d.to_normal_string target.size) (some (d.to_normal_string target.price)) id)
    change_exchange (with_take_profit (some (new_tracked id)))

  unfoldable pub ensure_take_profit_order : Action (World F D C) (Unit {0})
  ensure_take_profit_order = do
    current ← exchange_ok
    if_some current
        (λ state.
          if_some state.position
            (λ position.
              choose (has_no_take_profit_room state) done
                (place_take_profit position.quantity position.average_price))
            done)
        done

  unfoldable pub amend_to_shape :
      ExchangeState D → OpenPosition D → TrackedOrder D → Action (World F D C) (Unit {0})
  amend_to_shape state position order = do
    runner ← gets (λ (w : World F D C). w.runner)
    target ←
        lift
          (take_profit_order_shape runner state.instrument position.quantity position.average_price)
    ensure_take_profit_limits state.instrument target
    try_call (
        c.amend_order (record {
          inst_id = runner.instrument_id;
          side = OrderSide.sell;
          client_order_id = order.client_order_id;
          new_size = some (d.to_normal_string target.size);
          new_price = some (d.to_normal_string target.price);
        }))

  -- An order that has fills is cancelled instead.
  unfoldable pub amend_take_profit_order : Action (World F D C) (Unit {0})
  amend_take_profit_order = do
    current ← exchange_ok
    if_some current
        (λ state.
          if_some state.position
            (λ position.
              if_some state.take_profit_order
                (λ order. choose order.cancel_requested done (
                  choose (lt? d.zero order.last_fill_size) cancel_take_profit_order
                    (amend_to_shape state position order)))
                done)
            done)
        done

  -- `ensure_position_protection`
  unfoldable pub ensure_position_protection : Action (World F D C) (Unit {0})
  ensure_position_protection = ensure_take_profit_order >> ensure_stop_loss_order
