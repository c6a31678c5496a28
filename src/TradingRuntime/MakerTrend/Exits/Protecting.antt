-- ===== src/TradingRuntime/MakerTrend/Exits/Protecting.antt =====
-- strategies/okx_ema_atr_maker_trend.rs: the methods that place, amend and cancel the protection of
-- a position, and measure it by the balance, keep a stable property.
use okx_rust_trading.Common.{◌≡◌, Option, none, some, Bool-cases, inl, inr}
use okx_rust_trading.Order.{Ord, le?}
use okx_rust_trading.Text.{Str}
use okx_rust_trading.Decimal.{Decimal, min}
use okx_rust_trading.TradingRuntime.Okx.Errors.{Measure}
use okx_rust_trading.TradingRuntime.Okx.Instrument.{OkxInstrument}
use okx_rust_trading.TradingRuntime.Okx.Client.{OkxClient}
use okx_rust_trading.TradingRuntime.MakerTrend.Indicators.{Float, FromFloat}
use okx_rust_trading.TradingRuntime.MakerTrend.Types.{
  ExchangeState, TrackedOrder, TrackedAlgoOrder, OpenPosition, TakeProfitOrderShape,
}
use okx_rust_trading.TradingRuntime.MakerTrend.Action.{choose}
use okx_rust_trading.TradingRuntime.MakerTrend.Action.Keeps.{
  Keeps, Keeps-bind, Keeps-if_some, Keeps-pure, Keeps-asks,
}
use okx_rust_trading.TradingRuntime.MakerTrend.Action.Exchange.{
  OnExchange, Keeps-change_exchange, Keeps-clear_position_state, Keeps-bind_exchange,
  exchange_rules, Keeps-try_call,
}
use okx_rust_trading.TradingRuntime.MakerTrend.Protection.{
  ensure_quote_limit, cancel_tracked_entry_order, cancel_take_profit_order, cancel_stop_loss_order,
  place_stop_loss_order, renew_stop_loss, ensure_stop_loss_order, ensure_take_profit_limits,
  place_take_profit, ensure_take_profit_order, amend_to_shape, amend_take_profit_order,
  ensure_position_protection,
}
use okx_rust_trading.TradingRuntime.MakerTrend.Inventory.{
  limit_position, reconcile_position_quantity_from_balance,
}
use okx_rust_trading.TradingRuntime.MakerTrend.Exits.{IsStable}

module _ {F D C : Type 0} {P : ExchangeState D → Type 0} ⦃o : Ord D⦄ ⦃d : Decimal D⦄
    ⦃c : OkxClient D C⦄ (stable : IsStable D P) where
  pub Keeps-ensure_quote_limit :
      (amount : D) (measure : Measure)
      → Keeps (OnExchange {F = F} {C = C} P) (ensure_quote_limit amount measure)
  unfolding ensure_quote_limit
  Keeps-ensure_quote_limit amount measure = search exchange_rules depth 30

  pub Keeps-cancel_tracked_entry_order :
      (id : Str) → Keeps (OnExchange {F = F} {C = C} P) (cancel_tracked_entry_order id)
  unfolding cancel_tracked_entry_order
  Keeps-cancel_tracked_entry_order id =
      search (exchange_rules, Keeps-change_exchange, stable.entry_marked) depth 30

  pub Keeps-cancel_take_profit_order : Keeps (OnExchange {F = F} {C = C} P) cancel_take_profit_order
  unfolding cancel_take_profit_order
  Keeps-cancel_take_profit_order =
      search (exchange_rules, Keeps-change_exchange, stable.take_profit_marked) depth 30

  pub Keeps-cancel_stop_loss_order : Keeps (OnExchange {F = F} {C = C} P) cancel_stop_loss_order
  unfolding cancel_stop_loss_order
  Keeps-cancel_stop_loss_order =
      search (exchange_rules, Keeps-change_exchange, stable.stop_loss_marked) depth 30

  Keeps-place_stop_loss_order :
      (position : OpenPosition D)
      → Keeps (OnExchange {F = F} {C = C} P) (place_stop_loss_order position)
  unfolding place_stop_loss_order
  Keeps-place_stop_loss_order position =
      search (exchange_rules, Keeps-change_exchange, stable.stop_loss_written) depth 30

  Keeps-renew_stop_loss :
      (instrument : OkxInstrument) (position : OpenPosition D)
      (tracked : Option (TrackedAlgoOrder D))
      → Keeps (OnExchange {F = F} {C = C} P) (renew_stop_loss instrument position tracked)
  unfolding renew_stop_loss
  Keeps-renew_stop_loss instrument position tracked =
      search (exchange_rules, Keeps-place_stop_loss_order, Keeps-cancel_stop_loss_order) depth 30

  pub Keeps-ensure_stop_loss_order : Keeps (OnExchange {F = F} {C = C} P) ensure_stop_loss_order
  unfolding ensure_stop_loss_order
  Keeps-ensure_stop_loss_order = search (exchange_rules, Keeps-renew_stop_loss) depth 30

  -- Where the balance sets the quantity, it is the position's that was read.
  Keeps-limit_position :
      (s : ExchangeState D) (position : OpenPosition D) (quantity : D)
      → s.position ≡ some position
      → P s
      → Keeps
          (OnExchange {F = F} {C = C} P)
          (limit_position position (min quantity position.quantity))
  unfolding limit_position choose
  Keeps-limit_position s position quantity e h =
      elim (Bool-cases (le? (min quantity position.quantity) d.zero)) [
        | inl nothing ↦
            rw nothing
              (search (exchange_rules, Keeps-clear_position_state, stable.emptied) depth 30)
        | inr something ↦ rw something (
            Keeps-bind _ _
              (Keeps-change_exchange _
                (λ t k. stable.limited s t position quantity e something h k))
              (λ _. Keeps-pure _))
      ]

  pub Keeps-reconcile_position_quantity_from_balance :
      Keeps (OnExchange {F = F} {C = C} P) reconcile_position_quantity_from_balance
  unfolding reconcile_position_quantity_from_balance
  Keeps-reconcile_position_quantity_from_balance = Keeps-bind_exchange _ λ s h.
      Keeps-if_some s.position _ _
        (λ position e. Keeps-bind _ _ (Keeps-try_call c.balances) λ balances.
          Keeps-bind _ _ (Keeps-asks _)
            λ balance. Keeps-limit_position s position balance.tradeable_quantity e h)
        (Keeps-pure none)

module _ {F D C : Type 0} {P : ExchangeState D → Type 0} ⦃o : Ord D⦄ ⦃d : Decimal D⦄ ⦃f : Float F⦄
    ⦃x : FromFloat F D⦄ ⦃c : OkxClient D C⦄ (stable : IsStable D P) where
  Keeps-ensure_take_profit_limits :
      (instrument : OkxInstrument) (target : TakeProfitOrderShape D)
      → Keeps (OnExchange {F = F} {C = C} P) (ensure_take_profit_limits instrument target)
  unfolding ensure_take_profit_limits
  Keeps-ensure_take_profit_limits instrument target =
      search (exchange_rules, Keeps-ensure_quote_limit stable) depth 30

  Keeps-place_take_profit :
      (quantity price : D) → Keeps (OnExchange {F = F} {C = C} P) (place_take_profit quantity price)
  unfolding place_take_profit
  Keeps-place_take_profit quantity price =
      search
        (
          exchange_rules, Keeps-ensure_take_profit_limits, Keeps-change_exchange,
          stable.take_profit_placed,
        )
        depth 40

  pub Keeps-ensure_take_profit_order : Keeps (OnExchange {F = F} {C = C} P) ensure_take_profit_order
  unfolding ensure_take_profit_order
  Keeps-ensure_take_profit_order = search (exchange_rules, Keeps-place_take_profit) depth 30

  Keeps-amend_to_shape :
      (state : ExchangeState D) (position : OpenPosition D) (order : TrackedOrder D)
      → Keeps (OnExchange {F = F} {C = C} P) (amend_to_shape state position order)
  unfolding amend_to_shape
  Keeps-amend_to_shape state position order =
      search (exchange_rules, Keeps-ensure_take_profit_limits) depth 30

  pub Keeps-amend_take_profit_order : Keeps (OnExchange {F = F} {C = C} P) amend_take_profit_order
  unfolding amend_take_profit_order
  Keeps-amend_take_profit_order =
      search (exchange_rules, Keeps-amend_to_shape, Keeps-cancel_take_profit_order stable) depth 30

  pub Keeps-ensure_position_protection :
      Keeps (OnExchange {F = F} {C = C} P) ensure_position_protection
  unfolding ensure_position_protection
  Keeps-ensure_position_protection =
      search (exchange_rules, Keeps-ensure_take_profit_order, Keeps-ensure_stop_loss_order stable)
        depth 30
