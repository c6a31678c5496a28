-- ===== src/TradingRuntime/MakerTrend/Sound.antt =====
-- strategies/okx_ema_atr_maker_trend.rs: what is always true of the state that the strategy tracks.
pub mod Stable
pub mod Opening
pub mod Handlers
use okx_rust_trading.Common.{◌≡◌, true, ◌||◌, is_some, is_none}
use okx_rust_trading.Order.{Ord, ◌≺◌, le?}
use okx_rust_trading.Decimal.{Decimal}
use okx_rust_trading.TradingRuntime.MakerTrend.Types.{ExchangeState, TrackedOrder, OpenPosition}
use okx_rust_trading.TradingRuntime.MakerTrend.Action.Exchange.{OfSome}

module _ {D : Type 0} ⦃o : Ord D⦄ ⦃d : Decimal D⦄ where
  -- The fills that are remembered of an order are not negative.
  abbrev pub HasFills : TrackedOrder D → Type 0
  HasFills order = le? d.zero order.last_fill_size ≡ true

  pub record IsOpen (position : OpenPosition D) : Type 0 where
    pub quantity_pos : d.zero ≺ position.quantity
    pub average_price_pos : d.zero ≺ position.average_price
    pub trigger_pos : d.zero ≺ position.stop_loss_trigger

  pub record IsSound (s : ExchangeState D) : Type 0 where
    pub entry_fills : OfSome HasFills s.entry_order
    pub take_profit_fills : OfSome HasFills s.take_profit_order
    pub exit_fills : OfSome HasFills s.stop_loss_exit_order
    pub opened : OfSome IsOpen s.position
    -- A market exit is pending as long as its order is tracked.
    pub exit_pending : (is_none s.stop_loss_exit_order || is_some s.stop_loss_pending) ≡ true
