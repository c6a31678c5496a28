-- ===== src/TradingRuntime/MakerTrend/Sound/Opening.antt =====
-- strategies/okx_ema_atr_maker_trend.rs: a position that an entry opens is open, and an entry that is
-- tracked keeps the state sound.
use okx_rust_trading.Common.{◌≡◌, subst, Bool, true, Option, none, some, ok, arith, >>=-eq-ok}
use okx_rust_trading.Order.{Ord, ◌≺◌, le?, lt_of_lt_of_le}
use okx_rust_trading.Text.{Str}
use okx_rust_trading.Decimal.{Decimal, IsLawful}
use okx_rust_trading.TradingRuntime.Okx.Accounting.{OkxSpotFillAccounting}
use okx_rust_trading.TradingRuntime.MakerTrend.Indicators.{Float, FromFloat}
use okx_rust_trading.TradingRuntime.MakerTrend.Types.{
  ExchangeState, Runner, TrackedOrder, OpenPosition,
}
use okx_rust_trading.TradingRuntime.MakerTrend.Prices.{stop_loss_trigger, stop_loss_trigger_pos}
use okx_rust_trading.TradingRuntime.MakerTrend.Fills.{
  entry_accounting_delta, next_open_position, averaged,
}
use okx_rust_trading.TradingRuntime.MakerTrend.Action.Exchange.{OfSome}
use okx_rust_trading.TradingRuntime.MakerTrend.Protection.Tracking.{
  with_entry, update_entry_tracking, new_tracked, accounted,
}
use okx_rust_trading.TradingRuntime.MakerTrend.Sound.{IsOpen, IsSound}
use okx_rust_trading.TradingRuntime.MakerTrend.Sound.Stable.{HasFills-change_if, le?_self}

module _ {D : Type 0} ⦃o : Ord D⦄ ⦃d : Decimal D⦄ where
  pub entry_accounting_delta_pos :
      (accounting : OkxSpotFillAccounting D) (tracked : TrackedOrder D) (fill : D × D)
      → entry_accounting_delta accounting tracked ≡ ok fill
      → d.zero ≺ fill.0
  unfolding entry_accounting_delta
  entry_accounting_delta_pos accounting tracked (base, price) h = ground arith

  pub entry_tracked-IsSound :
      (id : Str) (filled : D) (price : Option D) (accounting : OkxSpotFillAccounting D)
      (cancel_requested : Bool) (s : ExchangeState D)
      → le? d.zero filled ≡ true
      → IsSound s
      → IsSound (update_entry_tracking id filled price accounting cancel_requested s)
  unfolding update_entry_tracking accounted
  entry_tracked-IsSound id filled price accounting cancel_requested s nonneg h = record {
    entry_fills = HasFills-change_if id _ s.entry_order (λ t k. nonneg) h.entry_fills;
    take_profit_fills = h.take_profit_fills;
    exit_fills = h.exit_fills;
    opened = h.opened;
    exit_pending = h.exit_pending;
  }

  pub entry_placed-IsSound :
      (id : Str) (s : ExchangeState D) → IsSound s → IsSound (with_entry (some (new_tracked id)) s)
  unfolding with_entry new_tracked
  entry_placed-IsSound id s h = record {
    entry_fills = le?_self d.zero;
    take_profit_fills = h.take_profit_fills;
    exit_fills = h.exit_fills;
    opened = h.opened;
    exit_pending = h.exit_pending;
  }

module _ {F D : Type 0} ⦃o : Ord D⦄ ⦃d : Decimal D⦄ ⦃f : Float F⦄ ⦃x : FromFloat F D⦄ where
  pub next_open_position-IsOpen :
      (laws : IsLawful D) (runner : Runner F D) (held : Option (OpenPosition D))
      (quantity price : D) (position : OpenPosition D)
      → OfSome IsOpen held
      → d.zero ≺ quantity
      → next_open_position runner held quantity price ≡ ok position
      → IsOpen position
  unfolding next_open_position
  next_open_position-IsOpen laws runner none quantity price position h p e =
      let (trigger, found, made) = >>=-eq-ok (stop_loss_trigger runner price) _ e in
      let (priced, triggered) = stop_loss_trigger_pos runner price trigger found in
      subst IsOpen (cc)
        (record { quantity_pos = p; average_price_pos = priced; trigger_pos = triggered })
  next_open_position-IsOpen laws runner (some held) quantity price position h p e =
      let average = averaged held quantity price in
      let (trigger, found, made) = >>=-eq-ok (stop_loss_trigger runner average) _ e in
      let (priced, triggered) = stop_loss_trigger_pos runner average trigger found in
      subst IsOpen (cc) (record {
        quantity_pos =
            lt_of_lt_of_le d.zero held.quantity (d.add held.quantity quantity) h.quantity_pos
              (laws.le_add held.quantity quantity (ground arith));
        average_price_pos = priced;
        trigger_pos = triggered;
      })
