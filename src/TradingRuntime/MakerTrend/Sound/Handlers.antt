-- ===== src/TradingRuntime/MakerTrend/Sound/Handlers.antt =====
-- strategies/okx_ema_atr_maker_trend.rs and entry_submission.rs: what runs on an event keeps the
-- tracked state sound.
use okx_rust_trading.Common.{◌≡◌, Bool, true, Option, is_some}
use okx_rust_trading.Order.{Ord, le?}
use okx_rust_trading.Decimal.{Decimal, IsLawful}
use okx_rust_trading.TradingRuntime.Okx.Orders.{OkxOrder, fill_size}
use okx_rust_trading.TradingRuntime.Okx.Client.{OkxClient}
use okx_rust_trading.TradingRuntime.MakerTrend.Indicators.{Float, FromFloat}
use okx_rust_trading.TradingRuntime.MakerTrend.Types.{ExchangeState, TrackedOrder, OpenPosition}
use okx_rust_trading.TradingRuntime.MakerTrend.Fills.{entry_accounting_delta, next_open_position}
use okx_rust_trading.TradingRuntime.MakerTrend.Action.{World}
use okx_rust_trading.TradingRuntime.MakerTrend.Action.Keeps.{
  Keeps, Keeps-bind, Keeps-bind_lift, Keeps-lift, Keeps-gets,
}
use okx_rust_trading.TradingRuntime.MakerTrend.Action.Exchange.{
  OnExchange, Keeps-change_exchange, Keeps-bind_exchange, exchange_rules,
}
use okx_rust_trading.TradingRuntime.MakerTrend.Refresh.{
  keep_or_cancel_entry, close_entry, open_position, take_entry_fill, entry_reported,
  refresh_entry_order,
}
use okx_rust_trading.TradingRuntime.MakerTrend.Entry.{
  submit_entry, evaluate_entry, refresh_tracked_orders, enforce_tick_exit_protection,
}
use okx_rust_trading.TradingRuntime.MakerTrend.Exits.Protecting.{
  Keeps-ensure_quote_limit, Keeps-cancel_tracked_entry_order, Keeps-ensure_stop_loss_order,
  Keeps-ensure_take_profit_order, Keeps-ensure_position_protection,
}
use okx_rust_trading.TradingRuntime.MakerTrend.Exits.Following.{
  Keeps-refresh_take_profit_order, fill_size_nonneg,
}
use okx_rust_trading.TradingRuntime.MakerTrend.Exits.Exiting.{Keeps-refresh_stop_loss_order}
use okx_rust_trading.TradingRuntime.MakerTrend.Exits.MarketExit.{
  Keeps-refresh_stop_loss_exit_order, Keeps-evaluate_stop_loss,
}
use okx_rust_trading.TradingRuntime.MakerTrend.Sound.{IsOpen, IsSound}
use okx_rust_trading.TradingRuntime.MakerTrend.Sound.Stable.{stable-IsSound, rewritten-IsSound}
use okx_rust_trading.TradingRuntime.MakerTrend.Sound.Opening.{
  entry_accounting_delta_pos, entry_tracked-IsSound, entry_placed-IsSound,
  next_open_position-IsOpen,
}

module _ {F D C : Type 0} ⦃o : Ord D⦄ ⦃d : Decimal D⦄ ⦃c : OkxClient D C⦄ where
  Keeps-keep_or_cancel_entry :
      (tracked : TrackedOrder D) (order : OkxOrder) (filled : D)
      → Keeps
          (OnExchange {F = F} {D = D} {C = C} IsSound)
          (keep_or_cancel_entry tracked order filled)
  unfolding keep_or_cancel_entry
  Keeps-keep_or_cancel_entry tracked order filled =
      search (exchange_rules, Keeps-cancel_tracked_entry_order stable-IsSound) depth 30

  Keeps-close_entry :
      (order : OkxOrder) (filled : D)
      → Keeps (OnExchange {F = F} {D = D} {C = C} IsSound) (close_entry order filled)
  unfolding close_entry
  Keeps-close_entry order filled =
      search (exchange_rules, Keeps-change_exchange, stable-IsSound.without_entry) depth 30

  Keeps-submit_entry :
      (price : D) → Keeps (OnExchange {F = F} {D = D} {C = C} IsSound) (submit_entry price)
  unfolding submit_entry
  Keeps-submit_entry price =
      search
        (
          exchange_rules,
          Keeps-ensure_quote_limit stable-IsSound,
          Keeps-change_exchange,
          entry_placed-IsSound,
        )
        depth 40

  pub Keeps-evaluate_entry : Keeps (OnExchange {F = F} {D = D} {C = C} IsSound) evaluate_entry
  unfolding evaluate_entry
  Keeps-evaluate_entry = search (exchange_rules, Keeps-submit_entry) depth 30

module _ {F D C : Type 0} ⦃o : Ord D⦄ ⦃d : Decimal D⦄ ⦃f : Float F⦄ ⦃x : FromFloat F D⦄
    ⦃c : OkxClient D C⦄ (laws : IsLawful D) where
  Keeps-open_position :
      (had_position : Bool) (position : OpenPosition D)
      → IsOpen position
      → Keeps (OnExchange {F = F} {D = D} {C = C} IsSound) (open_position had_position position)
  unfolding open_position
  Keeps-open_position had_position position opened =
      search
        (
          exchange_rules,
          Keeps-change_exchange,
          λ (s : ExchangeState D). rewritten-IsSound s position opened,
          Keeps-ensure_stop_loss_order stable-IsSound,
          Keeps-refresh_take_profit_order stable-IsSound laws,
          Keeps-ensure_take_profit_order stable-IsSound,
        )
        depth 30

  Keeps-take_entry_fill :
      (tracked : TrackedOrder D) (order : OkxOrder) (filled : D) (average_price : Option D)
      → le? d.zero filled ≡ true
      → Keeps
          (OnExchange {F = F} {D = D} {C = C} IsSound)
          (take_entry_fill tracked order filled average_price)
  unfolding take_entry_fill
  Keeps-take_entry_fill tracked order filled average_price nonneg = Keeps-bind_exchange _ λ s h.
      Keeps-bind _ _ (Keeps-lift _) λ accounting.
        Keeps-bind_lift (entry_accounting_delta accounting tracked) _ λ fill bought.
          Keeps-bind _ _ (Keeps-gets _) λ runner.
            Keeps-bind_lift (next_open_position runner s.position fill.0 fill.1) _ λ position made.
              Keeps-bind _ _
                (Keeps-change_exchange _ (λ t k.
                  entry_tracked-IsSound tracked.client_order_id filled average_price accounting
                    tracked.cancel_requested t nonneg k))
                λ _. Keeps-open_position (is_some s.position) position (
                  next_open_position-IsOpen laws runner s.position fill.0 fill.1 position h.opened
                    (entry_accounting_delta_pos accounting tracked fill bought) made)

  Keeps-entry_reported :
      (tracked : TrackedOrder D) (order : OkxOrder)
      → Keeps (OnExchange {F = F} {D = D} {C = C} IsSound) (entry_reported tracked order)
  unfolding entry_reported
  Keeps-entry_reported tracked order = Keeps-bind_lift (fill_size order) _ λ filled e.
      let nonneg = fill_size_nonneg order filled e in
      search
        (
          exchange_rules,
          λ (price : Option D). Keeps-take_entry_fill tracked order filled price nonneg,
          Keeps-keep_or_cancel_entry,
          Keeps-close_entry,
        )
        depth 30

  pub Keeps-refresh_entry_order :
      Keeps (OnExchange {F = F} {D = D} {C = C} IsSound) refresh_entry_order
  unfolding refresh_entry_order
  Keeps-refresh_entry_order = search (exchange_rules, Keeps-entry_reported) depth 30

  pub refresh_tracked_orders-IsSound :
      Keeps (OnExchange {F = F} {D = D} {C = C} IsSound) refresh_tracked_orders
  unfolding refresh_tracked_orders
  refresh_tracked_orders-IsSound =
      search
        (
          exchange_rules,
          Keeps-refresh_entry_order,
          Keeps-refresh_take_profit_order stable-IsSound laws,
          Keeps-refresh_stop_loss_order stable-IsSound,
          Keeps-refresh_stop_loss_exit_order stable-IsSound laws,
        )
        depth 30

  enforce_tick_exit_protection-IsSound :
      Keeps (OnExchange {F = F} {D = D} {C = C} IsSound) enforce_tick_exit_protection
  unfolding enforce_tick_exit_protection
  enforce_tick_exit_protection-IsSound =
      search
        (
          exchange_rules,
          Keeps-ensure_stop_loss_order stable-IsSound,
          Keeps-evaluate_stop_loss stable-IsSound laws,
          Keeps-ensure_position_protection stable-IsSound,
        )
        depth 30

  -- With lawful decimals, and whatever the exchange answers, each of the three steps of an event
  -- keeps a sound state sound, also where it ends with an error: tracked fill sizes are not
  -- negative, an open position has a positive quantity, average price and stop-loss trigger, and a
  -- stop-loss market exit is tracked only while a stop loss is pending.
  pub event-IsSound :
      (w : World F D C)
      → OnExchange IsSound w
      → OnExchange IsSound (refresh_tracked_orders w).1
        × OnExchange IsSound (enforce_tick_exit_protection w).1
        × OnExchange IsSound (evaluate_entry w).1
  event-IsSound w h = (
    refresh_tracked_orders-IsSound.holds w h,
    enforce_tick_exit_protection-IsSound.holds w h,
    Keeps-evaluate_entry.holds w h,
  )
