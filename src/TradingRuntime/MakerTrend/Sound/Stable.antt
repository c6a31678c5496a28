-- ===== src/TradingRuntime/MakerTrend/Sound/Stable.antt =====
-- strategies/okx_ema_atr_maker_trend.rs: soundness is kept by every write of the methods that
-- protect and exit a position.
use okx_rust_trading.Common.{
  ◌≡◌, refl, subst, true, false, Option, none, some, is_none, arith, Bool-cases, inl, inr,
}
use okx_rust_trading.Order.{Ord, ◌≺◌, le?, lt?, lt_of_lt_of_le}
use okx_rust_trading.Text.{Str, eq_str}
use okx_rust_trading.Decimal.{Decimal, min}
use okx_rust_trading.TradingRuntime.MakerTrend.Types.{
  ExchangeState, TrackedOrder, OpenPosition, cleared,
}
use okx_rust_trading.TradingRuntime.MakerTrend.Fills.{kept, reduced}
use okx_rust_trading.TradingRuntime.MakerTrend.Action.Exchange.{OfSome}
use okx_rust_trading.TradingRuntime.MakerTrend.Protection.Tracking.{
  change_if, mark_cancel, accounted, mark_entry, mark_take_profit, mark_stop_loss,
  mark_stop_loss_exit, with_entry, with_take_profit, with_stop_loss, with_stop_loss_exit,
  with_position, with_pending, update_take_profit_tracking, update_stop_loss_exit_tracking,
  new_tracked,
}
use okx_rust_trading.TradingRuntime.MakerTrend.Exits.{IsStable}
use okx_rust_trading.TradingRuntime.MakerTrend.Sound.{HasFills, IsOpen, IsSound}

module _ {D : Type 0} where
  is_none-change_if :
      (id : Str) (change : TrackedOrder D → TrackedOrder D) (o : Option (TrackedOrder D))
      → is_none (change_if id change o) ≡ is_none o
  unfolding change_if
  is_none-change_if id change none = refl
  is_none-change_if id change (some order) = ground arith

module _ {D : Type 0} ⦃o : Ord D⦄ ⦃d : Decimal D⦄ where
  pub HasFills-change_if :
      (id : Str) (change : TrackedOrder D → TrackedOrder D) (tracked : Option (TrackedOrder D))
      → ((order : TrackedOrder D) → HasFills order → HasFills (change order))
      → OfSome HasFills tracked
      → OfSome HasFills (change_if id change tracked)
  unfolding change_if
  HasFills-change_if id change none k h = h
  HasFills-change_if id change (some order) k h =
      elim (Bool-cases (eq_str order.client_order_id id)) [
        | inl same ↦ rw same (k order h)
        | inr other ↦ rw other h
      ]

  pub le?_self : (a : D) → le? a a ≡ true
  le?_self a = ground (arith, o.cmp_self a)

  kept-IsOpen :
      (position : OpenPosition D) (smallest : D)
      → d.zero ≺ smallest
      → d.zero ≺ position.average_price
      → d.zero ≺ position.stop_loss_trigger
      → OfSome IsOpen (kept smallest position)
  unfolding kept
  kept-IsOpen position smallest h a t = elim (Bool-cases (lt? position.quantity smallest)) [
    | inl small ↦ rw small tt
    | inr large ↦ rw large (record {
      quantity_pos =
          lt_of_lt_of_le d.zero smallest position.quantity h
            (ground (arith, o.cmp_flip position.quantity smallest));
      average_price_pos = a;
      trigger_pos = t;
    })
  ]

  held-IsOpen :
      (s : ExchangeState D) (position : OpenPosition D)
      → s.position ≡ some position
      → IsSound s
      → IsOpen position
  held-IsOpen s position e h = let held = subst (OfSome IsOpen) e h.opened in held

  sold-IsSound :
      (s t : ExchangeState D) (position : OpenPosition D) (delta smallest : D)
      → s.position ≡ some position
      → d.zero ≺ delta
      → d.zero ≺ smallest
      → IsSound s
      → IsSound t
      → IsSound (with_position (kept smallest (reduced delta position)) t)
  unfolding with_position reduced
  sold-IsSound s t position delta smallest e p q h k =
      let held = held-IsOpen s position e h in
      record {
        entry_fills = k.entry_fills;
        take_profit_fills = k.take_profit_fills;
        exit_fills = k.exit_fills;
        opened =
            kept-IsOpen (reduced delta position) smallest q held.average_price_pos held.trigger_pos;
        exit_pending = k.exit_pending;
      }

  pub rewritten-IsSound :
      (t : ExchangeState D) (position : OpenPosition D)
      → IsOpen position
      → IsSound t
      → IsSound (with_position (some position) t)
  unfolding with_position
  rewritten-IsSound t position h k = record {
    entry_fills = k.entry_fills;
    take_profit_fills = k.take_profit_fills;
    exit_fills = k.exit_fills;
    opened = h;
    exit_pending = k.exit_pending;
  }

  limited-IsSound :
      (s t : ExchangeState D) (position : OpenPosition D) (quantity : D)
      → s.position ≡ some position
      → le? (min quantity position.quantity) d.zero ≡ false
      → IsSound s
      → IsSound t
      → IsSound
          (with_position (some (record position { quantity = min quantity position.quantity })) t)
  limited-IsSound s t position quantity e p h k =
      let held = held-IsOpen s position e h in
      rewritten-IsSound t (record position { quantity = min quantity position.quantity })
        (record {
          quantity_pos = ground (arith, o.cmp_flip (min quantity position.quantity) d.zero);
          average_price_pos = held.average_price_pos;
          trigger_pos = held.trigger_pos;
        })
        k

  -- One field is written at a time; the others are carried over.
  pub stable-IsSound : IsStable D IsSound
  unfolding with_entry with_take_profit with_stop_loss with_stop_loss_exit with_pending mark_entry
      mark_take_profit mark_stop_loss mark_stop_loss_exit update_take_profit_tracking
      update_stop_loss_exit_tracking accounted mark_cancel cleared new_tracked
  stable-IsSound = record {
    without_entry = λ s h. record {
      entry_fills = tt;
      take_profit_fills = h.take_profit_fills;
      exit_fills = h.exit_fills;
      opened = h.opened;
      exit_pending = h.exit_pending;
    };
    entry_marked = λ id s h. record {
      entry_fills = HasFills-change_if id mark_cancel s.entry_order (λ t k. k) h.entry_fills;
      take_profit_fills = h.take_profit_fills;
      exit_fills = h.exit_fills;
      opened = h.opened;
      exit_pending = h.exit_pending;
    };
    take_profit_placed = λ id s h. record {
      entry_fills = h.entry_fills;
      take_profit_fills = le?_self d.zero;
      exit_fills = h.exit_fills;
      opened = h.opened;
      exit_pending = h.exit_pending;
    };
    without_take_profit = λ s h. record {
      entry_fills = h.entry_fills;
      take_profit_fills = tt;
      exit_fills = h.exit_fills;
      opened = h.opened;
      exit_pending = h.exit_pending;
    };
    take_profit_marked = λ id s h. record {
      entry_fills = h.entry_fills;
      take_profit_fills =
          HasFills-change_if id mark_cancel s.take_profit_order (λ t k. k) h.take_profit_fills;
      exit_fills = h.exit_fills;
      opened = h.opened;
      exit_pending = h.exit_pending;
    };
    take_profit_accounted = λ id filled accounting s nonneg h. record {
      entry_fills = h.entry_fills;
      take_profit_fills =
          HasFills-change_if id (accounted filled accounting) s.take_profit_order (λ t k. nonneg)
            h.take_profit_fills;
      exit_fills = h.exit_fills;
      opened = h.opened;
      exit_pending = h.exit_pending;
    };
    stop_loss_written = λ order s h. record {
      entry_fills = h.entry_fills;
      take_profit_fills = h.take_profit_fills;
      exit_fills = h.exit_fills;
      opened = h.opened;
      exit_pending = h.exit_pending;
    };
    stop_loss_marked = λ id s h. record {
      entry_fills = h.entry_fills;
      take_profit_fills = h.take_profit_fills;
      exit_fills = h.exit_fills;
      opened = h.opened;
      exit_pending = h.exit_pending;
    };
    exit_accounted = λ id filled accounting s nonneg h. record {
      entry_fills = h.entry_fills;
      take_profit_fills = h.take_profit_fills;
      exit_fills =
          HasFills-change_if id (accounted filled accounting) s.stop_loss_exit_order (λ t k. nonneg)
            h.exit_fills;
      opened = h.opened;
      exit_pending =
          rw (is_none-change_if id (accounted filled accounting) s.stop_loss_exit_order)
            h.exit_pending;
    };
    without_exit = λ s h. record {
      entry_fills = h.entry_fills;
      take_profit_fills = h.take_profit_fills;
      exit_fills = tt;
      opened = h.opened;
      exit_pending = refl;
    };
    exit_marked = λ id s h. record {
      entry_fills = h.entry_fills;
      take_profit_fills = h.take_profit_fills;
      exit_fills = HasFills-change_if id mark_cancel s.stop_loss_exit_order (λ t k. k) h.exit_fills;
      opened = h.opened;
      exit_pending = rw (is_none-change_if id mark_cancel s.stop_loss_exit_order) h.exit_pending;
    };
    made_pending = λ reason s h. record {
      entry_fills = h.entry_fills;
      take_profit_fills = h.take_profit_fills;
      exit_fills = h.exit_fills;
      opened = h.opened;
      exit_pending = ground arith;
    };
    recovered = λ s no_exit h. record {
      entry_fills = h.entry_fills;
      take_profit_fills = h.take_profit_fills;
      exit_fills = h.exit_fills;
      opened = h.opened;
      exit_pending = ground arith;
    };
    exit_placed = λ id reason s h. record {
      entry_fills = h.entry_fills;
      take_profit_fills = h.take_profit_fills;
      exit_fills = le?_self d.zero;
      opened = h.opened;
      exit_pending = refl;
    };
    emptied = λ s h. record {
      entry_fills = tt;
      take_profit_fills = tt;
      exit_fills = tt;
      opened = tt;
      exit_pending = refl;
    };
    rewritten = λ s t position e h k. rewritten-IsSound t position (held-IsOpen s position e h) k;
    sold = sold-IsSound;
    limited = limited-IsSound;
  }
