-- ===== src/TradingRuntime/MakerTrend/Prices.antt =====
-- strategies/okx_ema_atr_maker_trend.rs: the prices and sizes of the protection of a position.
use okx_rust_trading.Common.{
  ◌≡◌, arith, Bool, false, ◌&&◌, not, Result, ok, ok_or, ensure, ◌>>=◌, ◌>>◌, if◌then◌else◌,
}
use okx_rust_trading.Order.{Ord, ◌≺◌, lt?, le?}
use okx_rust_trading.Text.{is_blank}
use okx_rust_trading.Decimal.{Decimal, ◌+◌, ◌-◌, ◌*◌, ◌/◌, max}
use okx_rust_trading.TradingRuntime.Okx.Errors
use okx_rust_trading.TradingRuntime.Okx.Errors.{Error, Field}
use okx_rust_trading.TradingRuntime.Okx.Numbers.{
  quantize_decimal_down, quantize_decimal_up, parse_decimal,
}
use okx_rust_trading.TradingRuntime.Okx.Orders.{OkxOrder, requested_size}
use okx_rust_trading.TradingRuntime.Okx.Instrument.{OkxInstrument, tick_size, lot_size}
use okx_rust_trading.TradingRuntime.MakerTrend.Indicators.{Float, FromFloat}
use okx_rust_trading.TradingRuntime.MakerTrend.Types.{
  Runner, OpenPosition, TrackedAlgoOrder, TakeProfitOrderShape,
}

module _ {D : Type 0} ⦃o : Ord D⦄ ⦃d : Decimal D⦄ where
  unfoldable pub half : D → D
  half value = value / d.from_u64 2

  unfoldable pub distance : D → D → D
  distance a b = if le? b a then a - b else b - a

  unfoldable pub decimal_within_half_step : D → D → D → Bool
  decimal_within_half_step value expected step = le? (distance value expected) (half step)

  unfoldable pub stop_loss_order_matches_position :
      OkxInstrument → TrackedAlgoOrder D → OpenPosition D → Result Bool Error
  stop_loss_order_matches_position instrument order position = do
    lot ← lot_size instrument
    tick ← tick_size instrument
    expected_size ← quantize_decimal_down position.quantity lot
    expected_trigger ← quantize_decimal_down position.stop_loss_trigger tick
    ok (
        decimal_within_half_step order.size expected_size lot
        && decimal_within_half_step order.trigger_price expected_trigger tick)

module _ {F D : Type 0} ⦃o : Ord D⦄ ⦃d : Decimal D⦄ where
  -- The exit fee's rate, which lies below one.
  unfoldable pub exit_fee : Runner F D → Result D Error
  exit_fee runner = do
    rate ← ok_or runner.exit_fee_cost_rate Errors.exit_fee_not_initialized
    ensure (le? d.zero rate && lt? rate d.one) Errors.exit_fee_out_of_range
    ok rate

  unfoldable pub ensure_take_profit_clears_exit_fee : Runner F D → D → D → Result (Unit {0}) Error
  ensure_take_profit_clears_exit_fee runner average_price price = do
    ensure (lt? d.zero average_price) Errors.average_price_not_positive
    ensure (lt? d.zero price) Errors.take_profit_price_not_positive
    rate ← exit_fee runner
    ensure (le? average_price (price * (d.one - rate))) Errors.take_profit_below_cost

module _ {F D : Type 0} ⦃o : Ord D⦄ ⦃d : Decimal D⦄ ⦃f : Float F⦄ ⦃x : FromFloat F D⦄ where
  unfoldable pub signal_atr_decimal : Runner F D → Result D Error
  signal_atr_decimal runner = do
    atr ← ok_or runner.signal.last_atr Errors.atr_not_initialized
    ensure (f.is_finite atr && f.less f.zero atr && f.is_normal atr) Errors.atr_not_normal
    ok_or (x.from_f64 atr) Errors.atr_not_decimal

  unfoldable pub take_profit_price : Runner F D → D → Result D Error
  take_profit_price runner average_price = do
    ensure (lt? d.zero average_price) Errors.average_price_not_positive
    atr ← signal_atr_decimal runner
    rate ← exit_fee runner
    let price =
        max (average_price + runner.take_profit_atr_multiple * atr) (average_price / (d.one - rate))
    ensure (lt? d.zero price) Errors.take_profit_price_not_positive
    ok price

  unfoldable pub stop_loss_trigger : Runner F D → D → Result D Error
  stop_loss_trigger runner average_price = do
    ensure (lt? d.zero average_price) Errors.average_price_not_positive
    atr ← signal_atr_decimal runner
    let trigger = average_price - runner.stop_loss_atr_multiple * atr
    ensure (lt? d.zero trigger) Errors.stop_loss_trigger_not_positive
    ok trigger

  pub stop_loss_trigger_pos :
      (runner : Runner F D) (price trigger : D)
      → stop_loss_trigger runner price ≡ ok trigger
      → (d.zero ≺ price) × (d.zero ≺ trigger)
  unfolding stop_loss_trigger
  stop_loss_trigger_pos runner price trigger h = ground arith

  unfoldable pub take_profit_order_shape :
      Runner F D → OkxInstrument → D → D → Result (TakeProfitOrderShape D) Error
  take_profit_order_shape runner instrument quantity average_price = do
    target ← take_profit_price runner average_price
    tick ← tick_size instrument
    price ← quantize_decimal_up target tick
    ensure_take_profit_clears_exit_fee runner average_price price
    lot ← lot_size instrument
    size ← quantize_decimal_down quantity lot
    ok (record { size = size; price = price })

  -- The price of a live take-profit order against the price wanted.
  unfoldable pub price_matches : Runner F D → OkxOrder → D → D → D → Result Bool Error
  price_matches runner order average_price expected tick =
      if is_blank order.price then ok false else (do
        price ← parse_decimal Field.order_px order.price
        ensure_take_profit_clears_exit_fee runner average_price price
        ok (decimal_within_half_step price expected tick))

  unfoldable pub take_profit_order_matches_position :
      Runner F D → OkxInstrument → OkxOrder → OpenPosition D → Result Bool Error
  take_profit_order_matches_position runner instrument order position = do
    lot ← lot_size instrument
    tick ← tick_size instrument
    expected ← take_profit_order_shape runner instrument position.quantity position.average_price
    requested ← requested_size order
    if not (decimal_within_half_step requested expected.size lot)
        then ok false
        else price_matches runner order position.average_price expected.price tick
