-- ===== src/TradingRuntime/MakerTrend/Fills.antt =====
-- strategies/okx_ema_atr_maker_trend.rs: what an order's cumulative fills add to what was known.
use Prim.Native.Nat as Native
use okx_rust_trading.Common.{
  ℕ, suc, Bool, Option, none, some, Result, ok, ensure, ◌>>=◌, ◌>>◌, ltb, leb, if◌then◌else◌,
}
use okx_rust_trading.Common.Int.{ℤ, pos, negsuc, leb_ℤ, ◌-ℤ◌}
use okx_rust_trading.Order.{Ord, lt?, le?}
use okx_rust_trading.Decimal.{Decimal, ◌+◌, ◌-◌, ◌*◌, ◌/◌}
use okx_rust_trading.TradingRuntime.Okx.Errors
use okx_rust_trading.TradingRuntime.Okx.Errors.{Error, Followed}
use okx_rust_trading.TradingRuntime.Okx.Accounting.{OkxSpotFillAccounting}
use okx_rust_trading.TradingRuntime.MakerTrend.Indicators.{Float, FromFloat}
use okx_rust_trading.TradingRuntime.MakerTrend.Types.{Runner, TrackedOrder, OpenPosition}
use okx_rust_trading.TradingRuntime.MakerTrend.Prices.{stop_loss_trigger}

-- A subtraction in i64 of a time that is not later; the age as an i64.
unfoldable pub entry_order_is_expired : ℤ → ℤ → ℕ → Result Bool Error
entry_order_is_expired created_at_ms now_ms max_age_ms = do
  ensure (ltb 0 max_age_ms) Errors.entry_age_not_positive
  ensure (leb_ℤ created_at_ms now_ms) Errors.created_in_the_future
  ensure (leb max_age_ms 9223372036854775807) Errors.entry_age_exceeds_i64
  ok (leb_ℤ (pos max_age_ms) (now_ms -ℤ created_at_ms))

-- `unix_time_ms` of a clock reading; the division cuts off towards zero.
unfoldable pub unix_time_ms : ℤ → Result ℤ Error
unix_time_ms (pos nanos) =
    ensure (leb (Native.◌/◌ nanos 1_000_000) 9223372036854775807) Errors.clock_exceeds_i64
    >> ok (pos (Native.◌/◌ nanos 1_000_000))
unix_time_ms (negsuc nanos) =
    ensure (leb (Native.◌/◌ (suc nanos) 1_000_000) 9223372036854775808) Errors.clock_exceeds_i64
    >> ok (pos 0 -ℤ pos (Native.◌/◌ (suc nanos) 1_000_000))

module _ {D : Type 0} ⦃o : Ord D⦄ ⦃d : Decimal D⦄ where
  unfoldable pub cumulative_fill_delta : Followed → D → D → Result D Error
  cumulative_fill_delta order fill_size last_fill_size = do
    ensure (le? d.zero fill_size) (Errors.fill_size_negative order)
    ensure (le? d.zero last_fill_size) (Errors.tracked_fill_size_negative order)
    ensure (le? last_fill_size fill_size) (Errors.fill_size_decreased order)
    ok (fill_size - last_fill_size)

  -- The base bought since the last report, and what it cost.
  unfoldable pub entry_accounting_delta :
      OkxSpotFillAccounting D → TrackedOrder D → Result (D × D) Error
  entry_accounting_delta accounting tracked = do
    let base_delta = accounting.base_change - tracked.last_accounted_base_change
    let spent = d.neg accounting.quote_change - d.neg tracked.last_accounted_quote_change
    ensure (lt? d.zero base_delta) Errors.entry_base_delta_not_positive
    ensure (lt? d.zero spent) Errors.entry_cost_delta_not_positive
    ensure (lt? d.zero (spent / base_delta)) Errors.entry_delta_price_not_positive
    ok (base_delta, spent / base_delta)

  -- The base sold since the last report.
  unfoldable pub exit_accounting_delta : OkxSpotFillAccounting D → TrackedOrder D → Result D Error
  exit_accounting_delta accounting tracked = do
    let base_delta = accounting.base_change - tracked.last_accounted_base_change
    ensure (lt? base_delta d.zero) Errors.exit_base_delta_not_negative
    ensure (lt? d.zero (accounting.quote_change - tracked.last_accounted_quote_change))
        Errors.exit_proceeds_delta_not_positive
    ok (d.neg base_delta)

  -- `checked_sub(delta).filter(positive).unwrap_or(0)`
  unfoldable pub remaining_of : Option D → D
  remaining_of none = d.zero
  remaining_of (some remaining) = if lt? d.zero remaining then remaining else d.zero

  unfoldable pub reduced : D → OpenPosition D → OpenPosition D
  reduced fill_delta position = record position {
    quantity = remaining_of (d.checked_sub position.quantity fill_delta);
  }

  -- What is left of a position, nothing if it falls below the instrument's minimum.
  unfoldable pub kept : D → OpenPosition D → Option (OpenPosition D)
  kept min_size position = if lt? position.quantity min_size then none else some position

  -- The average of the position and the fill, by their quantities.
  unfoldable pub averaged : OpenPosition D → D → D → D
  averaged position quantity price =
      (position.average_price * position.quantity + price * quantity)
      / (position.quantity + quantity)

module _ {F D : Type 0} ⦃o : Ord D⦄ ⦃d : Decimal D⦄ ⦃f : Float F⦄ ⦃x : FromFloat F D⦄ where
  unfoldable pub next_open_position :
      Runner F D → Option (OpenPosition D) → D → D → Result (OpenPosition D) Error
  next_open_position runner none quantity price = do
    trigger ← stop_loss_trigger runner price
    ok (record { quantity = quantity; average_price = price; stop_loss_trigger = trigger })
  next_open_position runner (some position) quantity price = do
    trigger ← stop_loss_trigger runner (averaged position quantity price)
    ok (record {
      quantity = position.quantity + quantity;
      average_price = averaged position quantity price;
      stop_loss_trigger = trigger;
    })
