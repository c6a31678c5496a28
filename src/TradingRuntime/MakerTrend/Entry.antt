-- ===== src/TradingRuntime/MakerTrend/Entry.antt =====
-- strategies/okx_ema_atr_maker_trend/entry_submission.rs: new entry orders; and of
-- okx_ema_atr_maker_trend.rs what runs them in order.
use okx_rust_trading.Common.{
  Bool, ◌&&◌, Option, none, some, is_none, Result, ok, ok_or, ensure, ◌>>=◌ as bind,
  ◌>>◌ as then_do,
}
use okx_rust_trading.Order.{Ord, lt?, le?}
use okx_rust_trading.Decimal.{Decimal, ◌+◌, ◌-◌, ◌*◌, ◌/◌, min}
use okx_rust_trading.TradingRuntime.OrderId.{OrderPurpose}
use okx_rust_trading.TradingRuntime.Okx.Errors
use okx_rust_trading.TradingRuntime.Okx.Errors.{Error, Measure}
use okx_rust_trading.TradingRuntime.Okx.Numbers.{quantize_decimal_down}
use okx_rust_trading.TradingRuntime.Okx.Orders.{OrderSide, OrderKind}
use okx_rust_trading.TradingRuntime.Okx.Instrument.{
  OkxInstrument, tick_size, lot_size, min_size, bid_decimal, ensure_limit_size,
}
use okx_rust_trading.TradingRuntime.Okx.Client.{OkxClient}
use okx_rust_trading.TradingRuntime.MakerTrend.Indicators.{Float, FromFloat}
use okx_rust_trading.TradingRuntime.MakerTrend.Signal.{entry_allowed, entry_price_from_bid}
use okx_rust_trading.TradingRuntime.MakerTrend.Types.{Runner, ExchangeState}
use okx_rust_trading.TradingRuntime.MakerTrend.Action.{
  Action, World, lift, gets, ◌>>=◌, ◌>>◌, if_some, done, when, try_call, exchange, change_exchange,
  next_order_id,
}
use okx_rust_trading.TradingRuntime.MakerTrend.Protection.{
  ensure_quote_limit, ensure_stop_loss_order, ensure_position_protection,
}
use okx_rust_trading.TradingRuntime.MakerTrend.Protection.Tracking.{with_entry, new_tracked}
use okx_rust_trading.TradingRuntime.MakerTrend.Refresh.{
  refresh_entry_order, refresh_take_profit_order,
}
use okx_rust_trading.TradingRuntime.MakerTrend.StopLoss.{refresh_stop_loss_order}
use okx_rust_trading.TradingRuntime.MakerTrend.StopLoss.Exit.{
  refresh_stop_loss_exit_order, evaluate_stop_loss,
}

module _ {D : Type 0} ⦃o : Ord D⦄ ⦃d : Decimal D⦄ where
  unfoldable pub capped_quantity : D → D → D → Option D → D
  capped_quantity quantity price rate none = quantity
  capped_quantity quantity price rate (some limit) = min quantity (limit / (price * (d.one + rate)))

  -- What the order costs with the fee, where it does not overflow.
  unfoldable pub cost_with_fee : D → D → D → Result D Error
  cost_with_fee size price rate =
      bind (ok_or (d.checked_mul size price) Errors.entry_notional_overflowed)
        λ value. ok_or (d.checked_mul value (d.one + rate)) Errors.entry_notional_overflowed

module _ {F D : Type 0} ⦃o : Ord D⦄ ⦃d : Decimal D⦄ where
  unfoldable pub entry_preconditions_met : Runner F D → ExchangeState D → Bool
  entry_preconditions_met runner s =
      entry_allowed runner.signal
      && is_none s.entry_order
      && is_none s.position
      && is_none s.take_profit_order
      && is_none s.stop_loss_exit_order
      && is_none s.stop_loss_pending

  unfoldable pub entry_quantity : Runner F D → D → Result D Error
  entry_quantity runner price =
      then_do (ensure (lt? d.zero price) Errors.entry_price_not_positive) (
        bind (ok_or runner.entry_fee_cost_rate Errors.entry_fee_not_initialized) λ rate.
          then_do (ensure (le? d.zero rate && lt? rate d.one) Errors.entry_fee_out_of_range) (
            let quantity = capped_quantity runner.quantity price rate runner.max_quote_notional in
            then_do (ensure (lt? d.zero quantity) Errors.entry_quantity_not_positive)
              (ok quantity)))

  unfoldable pub ensure_within_cap : Runner F D → D → D → Option D → Result (Unit {0}) Error
  ensure_within_cap runner size price none = ok tt
  ensure_within_cap runner size price (some limit) =
      bind (ok_or runner.entry_fee_cost_rate Errors.entry_fee_not_initialized) λ rate.
        bind (cost_with_fee size price rate)
          λ notional. ensure (le? notional limit) Errors.entry_notional_exceeds_cap

  unfoldable pub ensure_entry_notional_within_cap : Runner F D → D → D → Result (Unit {0}) Error
  ensure_entry_notional_within_cap runner size price =
      ensure_within_cap runner size price runner.max_quote_notional

  -- The size bought, of which enough remains after the fee to be protected.
  unfoldable pub entry_size : Runner F D → OkxInstrument → D → Result D Error
  entry_size runner instrument price = bind (entry_quantity runner price) λ quantity.
      bind (lot_size instrument) λ lot. bind (quantize_decimal_down quantity lot) λ size.
        bind (min_size instrument) λ smallest.
          then_do (ensure (le? smallest size) (Errors.below_min_size Measure.entry_size)) (
            bind (ok_or runner.entry_fee_cost_rate Errors.entry_fee_not_initialized) λ rate.
              bind (quantize_decimal_down (size * (d.one - rate)) lot) λ net.
                then_do (ensure (le? smallest net) Errors.net_size_below_min_size) (
                  then_do (ensure_limit_size instrument size Measure.entry_size)
                    (then_do (ensure_entry_notional_within_cap runner size price) (ok size))))

module _ {F D C : Type 0} ⦃o : Ord D⦄ ⦃d : Decimal D⦄ ⦃c : OkxClient D C⦄ where
  unfoldable pub submit_entry : D → Action (World F D C) (Unit {0})
  submit_entry raw_price = do
    runner ← gets (λ (w : World F D C). w.runner)
    state ← exchange
    tick ← lift (tick_size state.instrument)
    price ← lift (quantize_decimal_down raw_price tick)
    size ← lift (entry_size runner state.instrument price)
    notional ←
        lift (ok_or (d.checked_mul size price) (Errors.overflowed Measure.entry_quote_notional))
    ensure_quote_limit notional Measure.entry_quote_notional
    id ← next_order_id OrderPurpose.entry
    try_call (
        c.place_order runner.instrument_id OrderSide.buy OrderKind.post_only
          (d.to_normal_string size) (some (d.to_normal_string price)) id)
    change_exchange (with_entry (some (new_tracked id)))

  unfoldable pub evaluate_entry : Action (World F D C) (Unit {0})
  evaluate_entry = do
    state ← exchange
    runner ← gets (λ (w : World F D C). w.runner)
    when (entry_preconditions_met runner state) (do
      ticker ← try_call (c.ticker runner.instrument_id)
      bid ← lift (bid_decimal {D = D} ticker)
      price ← lift (entry_price_from_bid runner.signal bid)
      if_some price submit_entry done)

module _ {F D C : Type 0} ⦃o : Ord D⦄ ⦃d : Decimal D⦄ ⦃f : Float F⦄ ⦃x : FromFloat F D⦄
    ⦃c : OkxClient D C⦄ where
  unfoldable pub refresh_tracked_orders : Action (World F D C) (Unit {0})
  refresh_tracked_orders = do
    refresh_entry_order
    refresh_take_profit_order
    refresh_stop_loss_order
    refresh_stop_loss_exit_order

  unfoldable pub enforce_tick_exit_protection : Action (World F D C) (Unit {0})
  enforce_tick_exit_protection = do
    ensure_stop_loss_order
    evaluate_stop_loss
    ensure_position_protection
