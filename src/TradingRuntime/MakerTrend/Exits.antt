-- ===== src/TradingRuntime/MakerTrend/Exits.antt =====
-- What a property of the exchange's state needs for the methods that protect and exit a position to
-- keep it: the writes that these methods make. The proofs in the modules below serve every such
-- property.
pub mod Protecting
pub mod Following
pub mod Exiting
pub mod MarketExit
use okx_rust_trading.Common.{◌≡◌, Bool, false, Option, none, some, is_some, ok}
use okx_rust_trading.Order.{Ord, ◌≺◌, le?, lt?}
use okx_rust_trading.Text.{Str}
use okx_rust_trading.Decimal.{Decimal, min}
use okx_rust_trading.TradingRuntime.Okx.Accounting.{OkxSpotFillAccounting}
use okx_rust_trading.TradingRuntime.MakerTrend.Types.{
  ExchangeState, TrackedOrder, TrackedAlgoOrder, OpenPosition, StopLossPendingReason, cleared,
}
use okx_rust_trading.TradingRuntime.MakerTrend.Fills.{kept, reduced}
use okx_rust_trading.TradingRuntime.MakerTrend.Protection.Tracking.{
  with_entry, with_take_profit, with_stop_loss, with_stop_loss_exit, with_position, with_pending,
  mark_entry, mark_take_profit, mark_stop_loss, mark_stop_loss_exit, update_take_profit_tracking,
  update_stop_loss_exit_tracking, new_tracked,
}

pub record IsStable (D : Type 0) ⦃o : Ord D⦄ ⦃d : Decimal D⦄ (P : ExchangeState D → Type 0)
    : Type 0 where
  pub without_entry : (s : ExchangeState D) → P s → P (with_entry none s)
  pub entry_marked : (id : Str) (s : ExchangeState D) → P s → P (mark_entry id s)
  pub take_profit_placed :
      (id : Str) (s : ExchangeState D) → P s → P (with_take_profit (some (new_tracked id)) s)
  pub without_take_profit : (s : ExchangeState D) → P s → P (with_take_profit none s)
  pub take_profit_marked : (id : Str) (s : ExchangeState D) → P s → P (mark_take_profit id s)
  pub take_profit_accounted :
      (id : Str) (filled : D) (accounting : OkxSpotFillAccounting D) (s : ExchangeState D)
      → le? d.zero filled ≡ Bool.true
      → P s
      → P (update_take_profit_tracking id filled accounting s)
  pub stop_loss_written :
      (order : Option (TrackedAlgoOrder D)) (s : ExchangeState D) → P s → P (with_stop_loss order s)
  pub stop_loss_marked : (id : Str) (s : ExchangeState D) → P s → P (mark_stop_loss id s)
  pub exit_accounted :
      (id : Str) (filled : D) (accounting : OkxSpotFillAccounting D) (s : ExchangeState D)
      → le? d.zero filled ≡ Bool.true
      → P s
      → P (update_stop_loss_exit_tracking id filled accounting s)
  pub without_exit : (s : ExchangeState D) → P s → P (with_stop_loss_exit none s)
  pub exit_marked : (id : Str) (s : ExchangeState D) → P s → P (mark_stop_loss_exit id s)
  pub made_pending :
      (reason : StopLossPendingReason) (s : ExchangeState D)
      → P s
      → P (with_pending (some reason) s)
  pub recovered :
      (s : ExchangeState D) → is_some s.stop_loss_exit_order ≡ false → P s → P (with_pending none s)
  pub exit_placed :
      (id : Str) (reason : StopLossPendingReason) (s : ExchangeState D)
      → P s
      → P (with_stop_loss_exit (some (new_tracked id)) (with_pending (some reason) s))
  pub emptied : (s : ExchangeState D) → P s → P (cleared s)
  -- A position is written back as it was read, smaller or not at all.
  pub rewritten :
      (s t : ExchangeState D) (position : OpenPosition D)
      → s.position ≡ some position
      → P s
      → P t
      → P (with_position (some position) t)
  pub sold :
      (s t : ExchangeState D) (position : OpenPosition D) (delta smallest : D)
      → s.position ≡ some position
      → d.zero ≺ delta
      → d.zero ≺ smallest
      → P s
      → P t
      → P (with_position (kept smallest (reduced delta position)) t)
  pub limited :
      (s t : ExchangeState D) (position : OpenPosition D) (quantity : D)
      → s.position ≡ some position
      → le? (min quantity position.quantity) d.zero ≡ false
      → P s
      → P t
      → P (with_position (some (record position { quantity = min quantity position.quantity })) t)
