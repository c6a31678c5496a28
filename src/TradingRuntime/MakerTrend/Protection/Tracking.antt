-- ===== src/TradingRuntime/MakerTrend/Protection/Tracking.antt =====
-- strategies/okx_ema_atr_maker_trend.rs: what a method writes to the orders that it tracks.
use okx_rust_trading.Common.{Bool, true, false, ◌||◌, Option, none, some, is_some, if◌then◌else◌}
use okx_rust_trading.Common.Options.{◌>>=◌}
use okx_rust_trading.Text.{Str, eq_str}
use okx_rust_trading.Decimal.{Decimal}
use okx_rust_trading.TradingRuntime.Okx.Accounting.{OkxSpotFillAccounting}
use okx_rust_trading.TradingRuntime.MakerTrend.Types.{
  Runner, ExchangeState, TrackedOrder, TrackedAlgoOrder, OpenPosition, StopLossPendingReason,
}

module _ {F D : Type 0} where
  -- `self.exchange().ok().and_then(|state| state.….clone())`
  unfoldable pub tracked_entry : Runner F D → Option (TrackedOrder D)
  tracked_entry runner = do state ← runner.exchange; state.entry_order

  unfoldable pub tracked_take_profit : Runner F D → Option (TrackedOrder D)
  tracked_take_profit runner = do state ← runner.exchange; state.take_profit_order

  unfoldable pub tracked_stop_loss : Runner F D → Option (TrackedAlgoOrder D)
  tracked_stop_loss runner = do state ← runner.exchange; state.stop_loss_order

  unfoldable pub tracked_stop_loss_exit : Runner F D → Option (TrackedOrder D)
  tracked_stop_loss_exit runner = do state ← runner.exchange; state.stop_loss_exit_order

  unfoldable pub tracked_position : Runner F D → Option (OpenPosition D)
  tracked_position runner = do state ← runner.exchange; state.position

  unfoldable pub tracked_pending : Runner F D → Option StopLossPendingReason
  tracked_pending runner = do state ← runner.exchange; state.stop_loss_pending

module _ {D : Type 0} where
  unfoldable pub with_entry : Option (TrackedOrder D) → ExchangeState D → ExchangeState D
  with_entry order s = record s { entry_order = order }

  unfoldable pub with_take_profit : Option (TrackedOrder D) → ExchangeState D → ExchangeState D
  with_take_profit order s = record s { take_profit_order = order }

  unfoldable pub with_stop_loss : Option (TrackedAlgoOrder D) → ExchangeState D → ExchangeState D
  with_stop_loss order s = record s { stop_loss_order = order }

  unfoldable pub with_stop_loss_exit : Option (TrackedOrder D) → ExchangeState D → ExchangeState D
  with_stop_loss_exit order s = record s { stop_loss_exit_order = order }

  unfoldable pub with_position : Option (OpenPosition D) → ExchangeState D → ExchangeState D
  with_position position s = record s { position = position }

  unfoldable pub with_pending : Option StopLossPendingReason → ExchangeState D → ExchangeState D
  with_pending reason s = record s { stop_loss_pending = reason }

  -- `if let Some(order) = ….as_mut() && order.client_order_id == id { … }`
  unfoldable pub change_if :
      Str → (TrackedOrder D → TrackedOrder D) → Option (TrackedOrder D) → Option (TrackedOrder D)
  change_if id change none = none
  change_if id change (some order) =
      if eq_str order.client_order_id id then some (change order) else some order

  unfoldable pub change_algo_if :
      Str
      → (TrackedAlgoOrder D → TrackedAlgoOrder D)
      → Option (TrackedAlgoOrder D)
      → Option (TrackedAlgoOrder D)
  change_algo_if id change none = none
  change_algo_if id change (some order) =
      if eq_str order.algo_id id then some (change order) else some order

  unfoldable pub mark_cancel : TrackedOrder D → TrackedOrder D
  mark_cancel order = record order { cancel_requested = true }

  unfoldable pub mark_entry : Str → ExchangeState D → ExchangeState D
  mark_entry id s = record s { entry_order = change_if id mark_cancel s.entry_order }

  unfoldable pub mark_take_profit : Str → ExchangeState D → ExchangeState D
  mark_take_profit id s = record s {
    take_profit_order = change_if id mark_cancel s.take_profit_order;
  }

  unfoldable pub mark_stop_loss_exit : Str → ExchangeState D → ExchangeState D
  mark_stop_loss_exit id s = record s {
    stop_loss_exit_order = change_if id mark_cancel s.stop_loss_exit_order;
  }

  unfoldable pub mark_stop_loss : Str → ExchangeState D → ExchangeState D
  mark_stop_loss id s = record s {
    stop_loss_order =
        change_algo_if id (λ order. record order { cancel_requested = true }) s.stop_loss_order;
  }

  unfoldable pub accounted : D → OkxSpotFillAccounting D → TrackedOrder D → TrackedOrder D
  accounted fill_size accounting order = record order {
    last_fill_size = fill_size;
    last_accounted_base_change = accounting.base_change;
    last_accounted_quote_change = accounting.quote_change;
  }

  unfoldable pub update_entry_tracking :
      Str → D → Option D → OkxSpotFillAccounting D → Bool → ExchangeState D → ExchangeState D
  update_entry_tracking id fill_size average_price accounting cancel_requested s = record s {
    entry_order =
        change_if id
          (λ order. record (accounted fill_size accounting order) {
            last_average_fill_price = average_price;
            cancel_requested = cancel_requested;
          })
          s.entry_order;
  }

  unfoldable pub update_take_profit_tracking :
      Str → D → OkxSpotFillAccounting D → ExchangeState D → ExchangeState D
  update_take_profit_tracking id fill_size accounting s = record s {
    take_profit_order = change_if id (accounted fill_size accounting) s.take_profit_order;
  }

  unfoldable pub update_stop_loss_exit_tracking :
      Str → D → OkxSpotFillAccounting D → ExchangeState D → ExchangeState D
  update_stop_loss_exit_tracking id fill_size accounting s = record s {
    stop_loss_exit_order = change_if id (accounted fill_size accounting) s.stop_loss_exit_order;
  }

  unfoldable pub has_no_take_profit_room : ExchangeState D → Bool
  has_no_take_profit_room s =
      is_some s.take_profit_order || is_some s.stop_loss_exit_order || is_some s.stop_loss_pending

  unfoldable pub has_no_stop_loss_room : ExchangeState D → Bool
  has_no_stop_loss_room s = is_some s.stop_loss_pending || is_some s.stop_loss_exit_order

module _ {D : Type 0} ⦃d : Decimal D⦄ where
  -- An order just submitted.
  unfoldable pub new_tracked : Str → TrackedOrder D
  new_tracked id = record {
    client_order_id = id;
    last_fill_size = d.zero;
    last_average_fill_price = none;
    last_accounted_base_change = d.zero;
    last_accounted_quote_change = d.zero;
    cancel_requested = false;
  }
