-- ===== src/TradingRuntime/MakerTrend/Exits/Following.antt =====
-- strategies/okx_ema_atr_maker_trend.rs: the methods that follow the take-profit order and the stop
-- loss keep a stable property.
use okx_rust_trading.Common.{◌≡◌, true, false, ok, arith}
use okx_rust_trading.Order.{Ord, ◌≺◌, le?}
use okx_rust_trading.Text.{Str}
use okx_rust_trading.Decimal.{Decimal, IsLawful}
use okx_rust_trading.TradingRuntime.Okx.Numbers.{parse_positive_decimal, parse_non_negative_decimal}
use okx_rust_trading.TradingRuntime.Okx.Orders.{OkxOrder, fill_size}
use okx_rust_trading.TradingRuntime.Okx.Accounting.{OkxSpotFillAccounting}
use okx_rust_trading.TradingRuntime.Okx.Instrument.{OkxInstrument, min_size}
use okx_rust_trading.TradingRuntime.Okx.Client.{OkxClient}
use okx_rust_trading.TradingRuntime.MakerTrend.Indicators.{Float, FromFloat}
use okx_rust_trading.TradingRuntime.MakerTrend.Types.{ExchangeState, TrackedOrder}
use okx_rust_trading.TradingRuntime.MakerTrend.Fills.{exit_accounting_delta}
use okx_rust_trading.TradingRuntime.MakerTrend.Action.{change_exchange}
use okx_rust_trading.TradingRuntime.MakerTrend.Action.Keeps.{
  Keeps, Keeps-bind, Keeps-bind_lift, Keeps-if_some, Keeps-pure,
}
use okx_rust_trading.TradingRuntime.MakerTrend.Action.Exchange.{
  OnExchange, Keeps-change_exchange, Keeps-clear_position_state, Keeps-bind_exchange,
  exchange_rules,
}
use okx_rust_trading.TradingRuntime.MakerTrend.Refresh.{
  apply_position_reducing_fill, take_exit_fill, live_take_profit, closed_take_profit,
  take_profit_reported, missing_take_profit, refresh_take_profit_order,
}
use okx_rust_trading.TradingRuntime.MakerTrend.Protection.Tracking.{update_take_profit_tracking}
use okx_rust_trading.TradingRuntime.MakerTrend.Exits.{IsStable}
use okx_rust_trading.TradingRuntime.MakerTrend.Exits.Protecting.{
  Keeps-cancel_take_profit_order, Keeps-cancel_stop_loss_order, Keeps-ensure_stop_loss_order,
  Keeps-ensure_take_profit_order, Keeps-amend_take_profit_order,
}

module _ {D : Type 0} ⦃o : Ord D⦄ ⦃d : Decimal D⦄ where
  pub fill_size_nonneg :
      (order : OkxOrder) (filled : D) → fill_size order ≡ ok filled → le? d.zero filled ≡ true
  unfolding fill_size parse_non_negative_decimal
  fill_size_nonneg order filled h = ground arith

  pub min_size_pos :
      (instrument : OkxInstrument) (size : D) → min_size instrument ≡ ok size → d.zero ≺ size
  unfolding min_size parse_positive_decimal
  min_size_pos instrument size h = ground arith

  pub exit_accounting_delta_pos :
      (laws : IsLawful D) (accounting : OkxSpotFillAccounting D) (tracked : TrackedOrder D)
      (reduction : D)
      → exit_accounting_delta accounting tracked ≡ ok reduction
      → d.zero ≺ reduction
  unfolding exit_accounting_delta
  exit_accounting_delta_pos laws accounting tracked reduction h =
      ground (arith, laws.neg_pos (d.sub accounting.base_change tracked.last_accounted_base_change))

module _ {F D C : Type 0} {P : ExchangeState D → Type 0} ⦃o : Ord D⦄ ⦃d : Decimal D⦄
    ⦃c : OkxClient D C⦄ (stable : IsStable D P) where
  pub Keeps-apply_position_reducing_fill :
      (reduction : D)
      → d.zero ≺ reduction
      → Keeps (OnExchange {F = F} {C = C} P) (apply_position_reducing_fill reduction)
  unfolding apply_position_reducing_fill
  Keeps-apply_position_reducing_fill reduction positive = Keeps-bind_exchange _ λ s h.
      Keeps-bind_lift (min_size s.instrument) _ λ smallest e.
        Keeps-if_some s.position _ _
          (λ position held.
            Keeps-bind _ _
              (Keeps-change_exchange _ (λ t k.
                stable.sold s t position reduction smallest held positive
                  (min_size_pos s.instrument smallest e) h k))
              (λ _. Keeps-pure true))
          (Keeps-pure false)

module _ {F D C : Type 0} {P : ExchangeState D → Type 0} ⦃o : Ord D⦄ ⦃d : Decimal D⦄ ⦃f : Float F⦄
    ⦃x : FromFloat F D⦄ ⦃c : OkxClient D C⦄ (stable : IsStable D P) (laws : IsLawful D) where
  Keeps-update_take_profit_tracking :
      (id : Str) (filled : D) (accounting : OkxSpotFillAccounting D)
      → le? d.zero filled ≡ true
      → Keeps
          (OnExchange {F = F} {C = C} P)
          (change_exchange (update_take_profit_tracking id filled accounting))
  Keeps-update_take_profit_tracking id filled accounting nonneg =
      Keeps-change_exchange _ (λ t k. stable.take_profit_accounted id filled accounting t nonneg k)

  Keeps-take_exit_fill :
      (tracked : TrackedOrder D) (accounting : OkxSpotFillAccounting D) (filled : D)
      → le? d.zero filled ≡ true
      → Keeps (OnExchange {F = F} {C = C} P) (take_exit_fill tracked accounting filled)
  unfolding take_exit_fill
  Keeps-take_exit_fill tracked accounting filled nonneg =
      Keeps-bind_lift (exit_accounting_delta accounting tracked) _ λ reduction e.
        Keeps-bind _ _
          (Keeps-apply_position_reducing_fill stable reduction
            (exit_accounting_delta_pos laws accounting tracked reduction e))
          λ changed.
            Keeps-bind _ _
              (Keeps-update_take_profit_tracking tracked.client_order_id filled accounting nonneg)
              λ _.
                search
                  (
                    exchange_rules,
                    Keeps-cancel_stop_loss_order stable,
                    Keeps-ensure_stop_loss_order stable,
                  )
                  depth 30

  Keeps-live_take_profit :
      (tracked : TrackedOrder D) (order : OkxOrder) (filled : D)
      (accounting : OkxSpotFillAccounting D)
      → le? d.zero filled ≡ true
      → Keeps (OnExchange {F = F} {C = C} P) (live_take_profit tracked order filled accounting)
  unfolding live_take_profit
  Keeps-live_take_profit tracked order filled accounting nonneg =
      search
        (
          exchange_rules,
          Keeps-update_take_profit_tracking,
          Keeps-amend_take_profit_order stable,
          Keeps-cancel_take_profit_order stable,
        )
        depth 30

  Keeps-closed_take_profit :
      (order : OkxOrder) (delta : D)
      → Keeps (OnExchange {F = F} {C = C} P) (closed_take_profit order delta)
  unfolding closed_take_profit
  Keeps-closed_take_profit order delta =
      search
        (
          exchange_rules,
          Keeps-change_exchange,
          Keeps-clear_position_state,
          stable.without_take_profit,
          stable.emptied,
          Keeps-ensure_take_profit_order stable,
          Keeps-ensure_stop_loss_order stable,
          Keeps-cancel_stop_loss_order stable,
        )
        depth 30

  Keeps-take_profit_reported :
      (tracked : TrackedOrder D) (order : OkxOrder)
      → Keeps (OnExchange {F = F} {C = C} P) (take_profit_reported tracked order)
  unfolding take_profit_reported
  Keeps-take_profit_reported tracked order = Keeps-bind_lift (fill_size order) _ λ filled e.
      let nonneg = fill_size_nonneg order filled e in
      search
        (
          exchange_rules,
          λ (accounting : OkxSpotFillAccounting D).
              Keeps-take_exit_fill tracked accounting filled nonneg,
          λ (accounting : OkxSpotFillAccounting D).
              Keeps-live_take_profit tracked order filled accounting nonneg,
          Keeps-closed_take_profit,
        )
        depth 30

  pub Keeps-refresh_take_profit_order :
      Keeps (OnExchange {F = F} {C = C} P) refresh_take_profit_order
  unfolding refresh_take_profit_order missing_take_profit
  Keeps-refresh_take_profit_order =
      search
        (
          exchange_rules,
          Keeps-take_profit_reported,
          Keeps-change_exchange,
          stable.without_take_profit,
          Keeps-ensure_take_profit_order stable,
        )
        depth 30
