-- ===== src/TradingRuntime/MakerTrend/Exits/MarketExit.antt =====
-- strategies/okx_ema_atr_maker_trend.rs: the methods that exit a position at the stop loss keep a
-- stable property.
use okx_rust_trading.Common.{◌≡◌, Bool, true, false, Option}
use okx_rust_trading.Order.{Ord, le?}
use okx_rust_trading.Text.{Str}
use okx_rust_trading.Decimal.{Decimal, IsLawful}
use okx_rust_trading.TradingRuntime.Okx.Accounting.{OkxSpotFillAccounting}
use okx_rust_trading.TradingRuntime.Okx.Orders.{OkxOrder, fill_size}
use okx_rust_trading.TradingRuntime.Okx.Client.{OkxClient}
use okx_rust_trading.TradingRuntime.MakerTrend.Types.{ExchangeState, TrackedOrder}
use okx_rust_trading.TradingRuntime.MakerTrend.Action.{lift, done, change_exchange, ◌>>=◌, ◌>>◌}
use okx_rust_trading.TradingRuntime.MakerTrend.Action.Keeps.{
  Keeps, Keeps-bind, Keeps-bind_lift, Keeps-if_some, Keeps-pure, Keeps-lift,
}
use okx_rust_trading.TradingRuntime.MakerTrend.Action.Exchange.{
  OnExchange, Keeps-change_exchange, Keeps-clear_position_state, Keeps-bind_exchange,
  exchange_rules, Keeps-done,
}
use okx_rust_trading.TradingRuntime.MakerTrend.Fills.{exit_accounting_delta}
use okx_rust_trading.TradingRuntime.MakerTrend.Protection.Tracking.{update_stop_loss_exit_tracking}
use okx_rust_trading.TradingRuntime.MakerTrend.Refresh.{apply_position_reducing_fill}
use okx_rust_trading.TradingRuntime.MakerTrend.StopLoss.Exit.{
  missing_exit, closed_exit, exit_reported, refresh_stop_loss_exit_order,
  cancel_stop_loss_exit_order, settle_closed_take_profit, settle_take_profit, market_exit,
  still_holds, exit_unless_protected, stop_out, evaluate_stop_loss,
}
use okx_rust_trading.TradingRuntime.MakerTrend.Exits.{IsStable}
use okx_rust_trading.TradingRuntime.MakerTrend.Exits.Protecting.{
  Keeps-reconcile_position_quantity_from_balance,
}
use okx_rust_trading.TradingRuntime.MakerTrend.Exits.Following.{
  Keeps-apply_position_reducing_fill, fill_size_nonneg, exit_accounting_delta_pos,
}
use okx_rust_trading.TradingRuntime.MakerTrend.Exits.Exiting.{
  Keeps-cancel_and_mark, Keeps-reference_price,
}

module _ {F D C : Type 0} {P : ExchangeState D → Type 0} ⦃o : Ord D⦄ ⦃d : Decimal D⦄
    ⦃c : OkxClient D C⦄ (stable : IsStable D P) where
  Keeps-refresh_after_exit : Keeps (OnExchange {F = F} {C = C} P) missing_exit
  unfolding missing_exit
  Keeps-refresh_after_exit =
      search
        (
          exchange_rules,
          Keeps-reconcile_position_quantity_from_balance stable,
          Keeps-change_exchange,
          stable.without_exit,
          stable.made_pending,
        )
        depth 30

  Keeps-closed_exit : (order : OkxOrder) → Keeps (OnExchange {F = F} {C = C} P) (closed_exit order)
  unfolding closed_exit
  Keeps-closed_exit order =
      search
        (
          exchange_rules, Keeps-change_exchange, Keeps-clear_position_state, stable.without_exit,
          stable.made_pending, stable.emptied,
        )
        depth 30

  pub Keeps-cancel_stop_loss_exit_order :
      Keeps (OnExchange {F = F} {C = C} P) cancel_stop_loss_exit_order
  unfolding cancel_stop_loss_exit_order
  Keeps-cancel_stop_loss_exit_order =
      search (exchange_rules, Keeps-change_exchange, stable.exit_marked) depth 30

  Keeps-market_exit :
      (reference : Option D) → Keeps (OnExchange {F = F} {C = C} P) (market_exit reference)
  unfolding market_exit
  Keeps-market_exit reference =
      search (exchange_rules, Keeps-reference_price, Keeps-change_exchange, stable.exit_placed)
        depth 40

  Keeps-exit_unless_protected :
      (was_pending : Bool) (reference : Option D)
      → Keeps (OnExchange {F = F} {C = C} P) (exit_unless_protected was_pending reference)
  unfolding exit_unless_protected still_holds
  Keeps-exit_unless_protected was_pending reference =
      search
        (exchange_rules, Keeps-reconcile_position_quantity_from_balance stable, Keeps-market_exit)
        depth 30

module _ {F D C : Type 0} {P : ExchangeState D → Type 0} ⦃o : Ord D⦄ ⦃d : Decimal D⦄
    ⦃c : OkxClient D C⦄ (stable : IsStable D P) (laws : IsLawful D) where
  -- The fill since the last report reduces the position.
  Keeps-reduce :
      (tracked : TrackedOrder D) (accounting : OkxSpotFillAccounting D)
      → Keeps (OnExchange {F = F} {C = C} P) (do
        reduction ← lift (exit_accounting_delta accounting tracked)
        apply_position_reducing_fill reduction
        done)
  Keeps-reduce tracked accounting =
      Keeps-bind_lift (exit_accounting_delta accounting tracked) _ λ reduction e.
        Keeps-bind _ _
          (Keeps-apply_position_reducing_fill stable reduction
            (exit_accounting_delta_pos laws accounting tracked reduction e))
          (λ _. Keeps-done)

  Keeps-update_stop_loss_exit_tracking :
      (id : Str) (filled : D) (accounting : OkxSpotFillAccounting D)
      → le? d.zero filled ≡ true
      → Keeps
          (OnExchange {F = F} {C = C} P)
          (change_exchange (update_stop_loss_exit_tracking id filled accounting))
  Keeps-update_stop_loss_exit_tracking id filled accounting nonneg =
      Keeps-change_exchange _ (λ t k. stable.exit_accounted id filled accounting t nonneg k)

  Keeps-exit_reported :
      (tracked : TrackedOrder D) (order : OkxOrder)
      → Keeps (OnExchange {F = F} {C = C} P) (exit_reported tracked order)
  unfolding exit_reported
  Keeps-exit_reported tracked order = Keeps-bind_lift (fill_size order) _ λ filled e.
      let nonneg = fill_size_nonneg order filled e in
      search
        (
          exchange_rules,
          Keeps-reduce,
          λ (accounting : OkxSpotFillAccounting D).
              Keeps-update_stop_loss_exit_tracking tracked.client_order_id filled accounting nonneg,
          Keeps-closed_exit stable,
        )
        depth 30

  pub Keeps-refresh_stop_loss_exit_order :
      Keeps (OnExchange {F = F} {C = C} P) refresh_stop_loss_exit_order
  unfolding refresh_stop_loss_exit_order
  Keeps-refresh_stop_loss_exit_order =
      search (exchange_rules, Keeps-exit_reported, Keeps-refresh_after_exit stable) depth 30

  Keeps-settle_closed_take_profit :
      (was_pending : Bool) (tracked : TrackedOrder D) (order : OkxOrder)
      → Keeps (OnExchange {F = F} {C = C} P) (settle_closed_take_profit was_pending tracked order)
  unfolding settle_closed_take_profit
  Keeps-settle_closed_take_profit was_pending tracked order =
      Keeps-bind_lift (fill_size order) _ λ filled e. Keeps-bind _ _ (Keeps-lift _) λ delta.
        Keeps-bind _ _ (search (exchange_rules, Keeps-reduce) depth 30) λ _.
          Keeps-bind _ _ (Keeps-change_exchange _ stable.without_take_profit) λ _.
            Keeps-bind_exchange _ λ s h.
              Keeps-if_some s.position _ _
                (λ position held.
                  Keeps-bind _ _
                    (Keeps-change_exchange _ (λ t k. stable.rewritten s t position held h k))
                    (λ _. Keeps-pure true))
                (Keeps-pure false)

  Keeps-settle_take_profit :
      (was_pending : Bool) → Keeps (OnExchange {F = F} {C = C} P) (settle_take_profit was_pending)
  unfolding settle_take_profit
  Keeps-settle_take_profit was_pending =
      search
        (
          exchange_rules,
          Keeps-settle_closed_take_profit,
          Keeps-cancel_and_mark stable,
          Keeps-change_exchange,
          stable.take_profit_marked,
        )
        depth 30

  Keeps-stop_out :
      (was_pending : Bool) (reference : Option D)
      → Keeps (OnExchange {F = F} {C = C} P) (stop_out was_pending reference)
  unfolding stop_out
  Keeps-stop_out was_pending reference =
      search
        (
          exchange_rules,
          Keeps-settle_take_profit,
          Keeps-exit_unless_protected stable,
          Keeps-change_exchange,
          stable.made_pending,
        )
        depth 30

  pub Keeps-evaluate_stop_loss : Keeps (OnExchange {F = F} {C = C} P) evaluate_stop_loss
  unfolding evaluate_stop_loss
  Keeps-evaluate_stop_loss = search (exchange_rules, Keeps-stop_out) depth 30
