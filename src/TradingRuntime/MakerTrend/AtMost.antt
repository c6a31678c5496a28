-- ===== src/TradingRuntime/MakerTrend/AtMost.antt =====
-- strategies/okx_ema_atr_maker_trend.rs: the methods that protect and exit a position never enlarge
-- it.
use okx_rust_trading.Common.{
  ◌≡◌, subst, true, false, Option, none, some, arith, Bool-cases, inl, inr,
}
use okx_rust_trading.Order.{Ord, ◌≺◌, le?, lt?, le?_trans}
use okx_rust_trading.Decimal.{Decimal, IsLawful, min}
use okx_rust_trading.TradingRuntime.Okx.Client.{OkxClient}
use okx_rust_trading.TradingRuntime.MakerTrend.Indicators.{Float, FromFloat}
use okx_rust_trading.TradingRuntime.MakerTrend.Types.{ExchangeState, OpenPosition, cleared}
use okx_rust_trading.TradingRuntime.MakerTrend.Fills.{kept, reduced, remaining_of}
use okx_rust_trading.TradingRuntime.MakerTrend.Action.{World}
use okx_rust_trading.TradingRuntime.MakerTrend.Action.Keeps.{Keeps}
use okx_rust_trading.TradingRuntime.MakerTrend.Action.Exchange.{OfSome, OnExchange, exchange_rules}
use okx_rust_trading.TradingRuntime.MakerTrend.Protection.Tracking.{
  with_entry, with_take_profit, with_stop_loss, with_stop_loss_exit, with_position, with_pending,
  mark_entry, mark_take_profit, mark_stop_loss, mark_stop_loss_exit, update_take_profit_tracking,
  update_stop_loss_exit_tracking,
}
use okx_rust_trading.TradingRuntime.MakerTrend.Refresh.{refresh_take_profit_order}
use okx_rust_trading.TradingRuntime.MakerTrend.StopLoss.{refresh_stop_loss_order}
use okx_rust_trading.TradingRuntime.MakerTrend.StopLoss.Exit.{refresh_stop_loss_exit_order}
use okx_rust_trading.TradingRuntime.MakerTrend.Entry.{enforce_tick_exit_protection}
use okx_rust_trading.TradingRuntime.MakerTrend.Exits.{IsStable}
use okx_rust_trading.TradingRuntime.MakerTrend.Exits.Protecting.{
  Keeps-ensure_stop_loss_order, Keeps-ensure_position_protection,
}
use okx_rust_trading.TradingRuntime.MakerTrend.Exits.Following.{Keeps-refresh_take_profit_order}
use okx_rust_trading.TradingRuntime.MakerTrend.Exits.Exiting.{Keeps-refresh_stop_loss_order}
use okx_rust_trading.TradingRuntime.MakerTrend.Exits.MarketExit.{
  Keeps-refresh_stop_loss_exit_order, Keeps-evaluate_stop_loss,
}

module _ {D : Type 0} ⦃o : Ord D⦄ ⦃d : Decimal D⦄ where
  -- What the strategy holds, if anything, is no more than `quantity`.
  abbrev pub AtMost : D → ExchangeState D → Type 0
  AtMost quantity s =
      OfSome (λ (position : OpenPosition D). le? position.quantity quantity ≡ true) s.position

  min-le_right : (a b : D) → le? (min a b) b ≡ true
  min-le_right a b = ground (arith, o.cmp_flip a b, o.cmp_self b)

  -- A remainder that is not below a positive size was computed.
  remaining_of_found :
      (rest : Option D) (smallest : D)
      → d.zero ≺ smallest
      → lt? (remaining_of rest) smallest ≡ false
      → rest ≡ some (remaining_of rest)
  unfolding remaining_of
  remaining_of_found none smallest q big = ground arith
  remaining_of_found (some r) smallest q big = ground arith

  reduced-le :
      (laws : IsLawful D) (position : OpenPosition D) (delta smallest : D)
      → d.zero ≺ delta
      → d.zero ≺ smallest
      → lt? (reduced delta position).quantity smallest ≡ false
      → le? (reduced delta position).quantity position.quantity ≡ true
  unfolding reduced
  reduced-le laws position delta smallest p q big =
      laws.checked_sub_le position.quantity delta
        (remaining_of (d.checked_sub position.quantity delta))
        (remaining_of_found (d.checked_sub position.quantity delta) smallest q big) (ground arith)

  sold-AtMost :
      (laws : IsLawful D) (quantity : D) (position : OpenPosition D) (delta smallest : D)
      → d.zero ≺ delta
      → d.zero ≺ smallest
      → le? position.quantity quantity ≡ true
      → OfSome
          (λ (p : OpenPosition D). le? p.quantity quantity ≡ true)
          (kept smallest (reduced delta position))
  unfolding kept
  sold-AtMost laws quantity position delta smallest p q h =
      elim (Bool-cases (lt? (reduced delta position).quantity smallest)) [
        | inl small ↦ rw small tt
        | inr big ↦ rw big (
            le?_trans (reduced delta position).quantity position.quantity quantity
              (reduced-le laws position delta smallest p q big) h)
      ]

  held-AtMost :
      (quantity : D) (s : ExchangeState D) (position : OpenPosition D)
      → s.position ≡ some position
      → AtMost quantity s
      → le? position.quantity quantity ≡ true
  held-AtMost quantity s position e h =
      let held = subst (OfSome (λ (p : OpenPosition D). le? p.quantity quantity ≡ true)) e h in held

  pub stable-AtMost : (laws : IsLawful D) (quantity : D) → IsStable D (AtMost quantity)
  unfolding with_entry with_take_profit with_stop_loss with_stop_loss_exit with_pending
      with_position mark_entry mark_take_profit mark_stop_loss mark_stop_loss_exit
      update_take_profit_tracking update_stop_loss_exit_tracking cleared
  stable-AtMost laws quantity = record {
    without_entry = λ s h. h;
    entry_marked = λ id s h. h;
    take_profit_placed = λ id s h. h;
    without_take_profit = λ s h. h;
    take_profit_marked = λ id s h. h;
    take_profit_accounted = λ id filled accounting s nonneg h. h;
    stop_loss_written = λ order s h. h;
    stop_loss_marked = λ id s h. h;
    exit_accounted = λ id filled accounting s nonneg h. h;
    without_exit = λ s h. h;
    exit_marked = λ id s h. h;
    made_pending = λ reason s h. h;
    recovered = λ s no_exit h. h;
    exit_placed = λ id reason s h. h;
    emptied = λ s h. tt;
    rewritten = λ s t position e h k. held-AtMost quantity s position e h;
    sold = λ s t position delta smallest e p q h k.
        sold-AtMost laws quantity position delta smallest p q (held-AtMost quantity s position e h);
    limited = λ s t position amount e p h k.
        le?_trans (min amount position.quantity) position.quantity quantity
          (min-le_right amount position.quantity) (held-AtMost quantity s position e h);
  }

module _ {F D C : Type 0} ⦃o : Ord D⦄ ⦃d : Decimal D⦄ ⦃f : Float F⦄ ⦃x : FromFloat F D⦄
    ⦃c : OkxClient D C⦄ (laws : IsLawful D) where
  refresh_take_profit_order-AtMost :
      (quantity : D)
      → Keeps (OnExchange {F = F} {C = C} (AtMost quantity)) refresh_take_profit_order
  refresh_take_profit_order-AtMost quantity =
      Keeps-refresh_take_profit_order (stable-AtMost laws quantity) laws

  refresh_stop_loss_order-AtMost :
      (quantity : D) → Keeps (OnExchange {F = F} {C = C} (AtMost quantity)) refresh_stop_loss_order
  refresh_stop_loss_order-AtMost quantity =
      Keeps-refresh_stop_loss_order (stable-AtMost laws quantity)

  refresh_stop_loss_exit_order-AtMost :
      (quantity : D)
      → Keeps (OnExchange {F = F} {C = C} (AtMost quantity)) refresh_stop_loss_exit_order
  refresh_stop_loss_exit_order-AtMost quantity =
      Keeps-refresh_stop_loss_exit_order (stable-AtMost laws quantity) laws

  enforce_tick_exit_protection-AtMost :
      (quantity : D)
      → Keeps (OnExchange {F = F} {C = C} (AtMost quantity)) enforce_tick_exit_protection
  unfolding enforce_tick_exit_protection
  enforce_tick_exit_protection-AtMost quantity =
      let stable = stable-AtMost laws quantity in
      search
        (
          exchange_rules,
          Keeps-ensure_stop_loss_order stable,
          Keeps-evaluate_stop_loss stable laws,
          Keeps-ensure_position_protection stable,
        )
        depth 30

  -- With lawful decimals, and whatever the exchange answers, the handlers of the exit orders and
  -- the protection of a tick never leave a position of more than a bound that the position met
  -- before.
  pub exits-AtMost :
      (quantity : D) (w : World F D C)
      → OnExchange (AtMost quantity) w
      → OnExchange (AtMost quantity) (refresh_take_profit_order w).1
        × OnExchange (AtMost quantity) (refresh_stop_loss_order w).1
        × OnExchange (AtMost quantity) (refresh_stop_loss_exit_order w).1
        × OnExchange (AtMost quantity) (enforce_tick_exit_protection w).1
  exits-AtMost quantity w h = (
    (refresh_take_profit_order-AtMost quantity).holds w h,
    (refresh_stop_loss_order-AtMost quantity).holds w h,
    (refresh_stop_loss_exit_order-AtMost quantity).holds w h,
    (enforce_tick_exit_protection-AtMost quantity).holds w h,
  )
