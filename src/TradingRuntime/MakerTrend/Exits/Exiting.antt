-- ===== src/TradingRuntime/MakerTrend/Exits/Exiting.antt =====
-- strategies/okx_ema_atr_maker_trend.rs: the methods that follow the stop loss keep a stable
-- property.
use okx_rust_trading.Common.{◌≡◌, sym, subst, Bool, true, false, Option, none, some, is_some, arith}
use okx_rust_trading.Order.{Ord, lt?}
use okx_rust_trading.Text.{Str}
use okx_rust_trading.Decimal.{Decimal}
use okx_rust_trading.TradingRuntime.Okx.Algo.{OkxAlgoOrder}
use okx_rust_trading.TradingRuntime.Okx.Client.{OkxClient}
use okx_rust_trading.TradingRuntime.MakerTrend.Indicators.{Float, FromFloat}
use okx_rust_trading.TradingRuntime.MakerTrend.Types.{ExchangeState, TrackedAlgoOrder, OpenPosition}
use okx_rust_trading.TradingRuntime.MakerTrend.Action.{when, change_exchange, ◌>>=◌, ◌>>◌}
use okx_rust_trading.TradingRuntime.MakerTrend.Action.Keeps.{Keeps, Keeps-bind, Keeps-lift}
use okx_rust_trading.TradingRuntime.MakerTrend.Action.Exchange.{
  OnExchange, Keeps-change_exchange, Keeps-clear_position_state, exchange_rules,
}
use okx_rust_trading.TradingRuntime.MakerTrend.Action.Leads.{
  Leads, Leads-bind, Leads-bind_first, Leads-when, Leads-done, Leads-change_exchange,
  Keeps-bind_exchange_at, Leads-if_some, OnExchange-mono,
}
use okx_rust_trading.TradingRuntime.MakerTrend.Protection.Tracking.{with_pending}
use okx_rust_trading.TradingRuntime.MakerTrend.Protection.{ensure_take_profit_order}
use okx_rust_trading.TradingRuntime.MakerTrend.StopLoss.{
  cancel_if_live, last_price, cancel_and_mark, reconcile_triggered_stop_loss_order,
  missing_stop_loss, historical_stop_loss, closed_stop_loss, open_stop_loss,
  refresh_stop_loss_order, waits_on_threshold,
}
use okx_rust_trading.TradingRuntime.MakerTrend.StopLoss.Exit.{reference_price}
use okx_rust_trading.TradingRuntime.MakerTrend.Exits.{IsStable}
use okx_rust_trading.TradingRuntime.MakerTrend.Exits.Protecting.{
  Keeps-ensure_take_profit_order, Keeps-reconcile_position_quantity_from_balance,
}

module _ {F D C : Type 0} {P : ExchangeState D → Type 0} ⦃o : Ord D⦄ ⦃d : Decimal D⦄
    ⦃c : OkxClient D C⦄ where
  Keeps-cancel_if_live :
      (instrument_id id : Str)
      → Keeps (OnExchange {F = F} {C = C} P) (cancel_if_live instrument_id id)
  unfolding cancel_if_live
  Keeps-cancel_if_live instrument_id id = record { holds = λ w h. h }

  Keeps-last_price :
      (instrument_id : Str) → Keeps (OnExchange {F = F} {C = C} P) (last_price instrument_id)
  unfolding last_price
  Keeps-last_price instrument_id = search exchange_rules depth 30

  pub Keeps-reference_price :
      (instrument_id : Str) (known : Option D)
      → Keeps (OnExchange {F = F} {C = C} P) (reference_price instrument_id known)
  unfolding reference_price
  Keeps-reference_price instrument_id known = search exchange_rules depth 30

module _ {F D C : Type 0} {P : ExchangeState D → Type 0} ⦃o : Ord D⦄ ⦃d : Decimal D⦄
    ⦃c : OkxClient D C⦄ (stable : IsStable D P) where
  pub Keeps-cancel_and_mark :
      (instrument_id id : Str)
      → Keeps (OnExchange {F = F} {C = C} P) (cancel_and_mark instrument_id id)
  unfolding cancel_and_mark
  Keeps-cancel_and_mark instrument_id id =
      search
        (exchange_rules, Keeps-cancel_if_live, Keeps-change_exchange, stable.take_profit_marked)
        depth 30

  Keeps-reconcile_triggered_stop_loss_order :
      Keeps (OnExchange {F = F} {C = C} P) reconcile_triggered_stop_loss_order
  unfolding reconcile_triggered_stop_loss_order
  Keeps-reconcile_triggered_stop_loss_order =
      search
        (
          exchange_rules,
          Keeps-cancel_and_mark,
          Keeps-reconcile_position_quantity_from_balance stable,
          Keeps-change_exchange,
          Keeps-clear_position_state,
          stable.stop_loss_written,
          stable.made_pending,
          stable.emptied,
        )
        depth 30

  Keeps-missing_stop_loss :
      (instrument_id : Str) (position : OpenPosition D)
      → Keeps (OnExchange {F = F} {C = C} P) (missing_stop_loss instrument_id position)
  unfolding missing_stop_loss
  Keeps-missing_stop_loss instrument_id position =
      search
        (
          exchange_rules, Keeps-last_price, Keeps-reconcile_triggered_stop_loss_order,
          Keeps-change_exchange, stable.stop_loss_written,
        )
        depth 30

  Keeps-closed_stop_loss :
      (instrument_id : Str) (tracked : TrackedAlgoOrder D)
      → Keeps (OnExchange {F = F} {C = C} P) (closed_stop_loss instrument_id tracked)
  unfolding closed_stop_loss historical_stop_loss
  Keeps-closed_stop_loss instrument_id tracked =
      search
        (
          exchange_rules, Keeps-last_price, Keeps-missing_stop_loss,
          Keeps-reconcile_triggered_stop_loss_order, Keeps-change_exchange,
          stable.stop_loss_written,
        )
        depth 30

-- A local stop that waits on the price has no market exit.
no_exit_of_waits :
    {D : Type 0} ⦃o : Ord D⦄ ⦃d : Decimal D⦄ (s : ExchangeState D)
    → waits_on_threshold s ≡ true
    → is_some s.stop_loss_exit_order ≡ false
unfolding waits_on_threshold
no_exit_of_waits s h = ground arith

module _ {F D C : Type 0} {P : ExchangeState D → Type 0} ⦃o : Ord D⦄ ⦃d : Decimal D⦄ ⦃f : Float F⦄
    ⦃x : FromFloat F D⦄ ⦃c : OkxClient D C⦄ (stable : IsStable D P) where
  -- The pending stop is dropped in the state in which there was no exit order.
  Leads-recover :
      (s : ExchangeState D) (test : D → Bool) (instrument_id : Str)
      → is_some s.stop_loss_exit_order ≡ false
      → P s
      → Leads (OnExchange {F = F} {C = C} (λ t. t ≡ s)) (OnExchange P) (do
        last ← last_price instrument_id
        when (test last) (do change_exchange (with_pending none); ensure_take_profit_order))
  Leads-recover s test instrument_id no_exit h =
      Leads-bind _ _ (Keeps-last_price instrument_id) (OnExchange-mono (λ t e. subst P (sym e) h))
        λ last.
          Leads-when (test last) _
            (λ _.
              Leads-bind_first _ _
                (Leads-change_exchange (with_pending none) (λ t e.
                  subst (λ u. P (with_pending none u)) (sym e) (stable.recovered s no_exit h)))
                (λ _. Keeps-ensure_take_profit_order stable))
            (λ t e. subst P (sym e) h)

  Leads-waiting :
      (s : ExchangeState D) (test : D → Bool) (instrument_id : Str)
      → P s
      → Leads (OnExchange {F = F} {C = C} (λ t. t ≡ s)) (OnExchange P) (
          when (waits_on_threshold s) (do
            last ← last_price instrument_id
            when (test last) (do change_exchange (with_pending none); ensure_take_profit_order)))
  Leads-waiting s test instrument_id h =
      Leads-when (waits_on_threshold s) _
        (λ waits. Leads-recover s test instrument_id (no_exit_of_waits s waits) h)
        (λ t e. subst P (sym e) h)

  Keeps-open_stop_loss :
      (instrument_id : Str) (tracked : TrackedAlgoOrder D) (order : OkxAlgoOrder)
      → Keeps (OnExchange {F = F} {C = C} P) (open_stop_loss instrument_id tracked order)
  unfolding open_stop_loss
  Keeps-open_stop_loss instrument_id tracked order = Keeps-bind _ _ (Keeps-lift _) λ read.
      Keeps-bind _ _ (Keeps-change_exchange _ (stable.stop_loss_written (some read))) λ _.
        Keeps-bind_exchange_at _ λ s h.
          Leads-if_some s.position _ _
            (λ position.
              Leads-waiting s (λ last. lt? position.stop_loss_trigger last) instrument_id h)
            (Leads-done (λ t e. subst P (sym e) h))

  pub Keeps-refresh_stop_loss_order : Keeps (OnExchange {F = F} {C = C} P) refresh_stop_loss_order
  unfolding refresh_stop_loss_order
  Keeps-refresh_stop_loss_order =
      search (exchange_rules, Keeps-open_stop_loss, Keeps-closed_stop_loss stable) depth 30
