-- ===== src/TradingRuntime/MakerTrend/Refresh.antt =====
-- strategies/okx_ema_atr_maker_trend.rs: following the entry order and the take-profit order.
use okx_rust_trading.Common.{Bool, true, false, ◌||◌, not, Option, none, some, is_some}
use okx_rust_trading.Order.{Ord, lt?}
use okx_rust_trading.Decimal.{Decimal}
use okx_rust_trading.TradingRuntime.Okx.Errors.{Followed}
use okx_rust_trading.TradingRuntime.Okx.Orders.{
  OkxOrder, fill_size, average_fill_price, is_live, is_terminal, is_terminal_without_fill,
  created_at_ms,
}
use okx_rust_trading.TradingRuntime.Okx.Accounting.{
  OkxSpotFillAccounting, cumulative_spot_accounting,
}
use okx_rust_trading.TradingRuntime.Okx.Instrument.{min_size}
use okx_rust_trading.TradingRuntime.Okx.Client.{OkxClient}
use okx_rust_trading.TradingRuntime.MakerTrend.Indicators.{Float, FromFloat}
use okx_rust_trading.TradingRuntime.MakerTrend.Signal.{entry_allowed}
use okx_rust_trading.TradingRuntime.MakerTrend.Types.{TrackedOrder, OpenPosition, pair_of}
use okx_rust_trading.TradingRuntime.MakerTrend.Prices.{take_profit_order_matches_position}
use okx_rust_trading.TradingRuntime.MakerTrend.Fills.{
  cumulative_fill_delta, entry_accounting_delta, exit_accounting_delta, next_open_position, reduced,
  kept, entry_order_is_expired, unix_time_ms,
}
use okx_rust_trading.TradingRuntime.MakerTrend.Action.{
  Action, World, pure, lift, gets, ◌>>=◌, ◌>>◌, if_some, choose, done, when, try_call, exchange,
  change_exchange, clear_position_state, now,
}
use okx_rust_trading.TradingRuntime.MakerTrend.Protection.{
  cancel_tracked_entry_order, cancel_take_profit_order, cancel_stop_loss_order,
  ensure_stop_loss_order, ensure_take_profit_order, amend_take_profit_order,
}
use okx_rust_trading.TradingRuntime.MakerTrend.Protection.Tracking.{
  tracked_entry, tracked_take_profit, with_entry, with_take_profit, with_position,
  update_entry_tracking, update_take_profit_tracking,
}

module _ {F D C : Type 0} ⦃o : Ord D⦄ ⦃d : Decimal D⦄ ⦃c : OkxClient D C⦄ where
  -- Whether there was a position to reduce.
  unfoldable pub apply_position_reducing_fill : D → Action (World F D C) Bool
  apply_position_reducing_fill fill_delta = do
    state ← exchange
    smallest ← lift (min_size state.instrument)
    if_some state.position
        (λ position.
          change_exchange (with_position (kept smallest (reduced fill_delta position)))
          >> pure true)
        (pure false)

  unfoldable pub keep_or_cancel_entry :
      TrackedOrder D → OkxOrder → D → Action (World F D C) (Unit {0})
  keep_or_cancel_entry tracked order filled = do
    created ← lift (created_at_ms order)
    nanos ← now
    ms ← lift (unix_time_ms nanos)
    runner ← gets (λ (w : World F D C). w.runner)
    expired ← lift (entry_order_is_expired created ms runner.max_entry_order_age_ms)
    when (lt? d.zero filled || not (entry_allowed runner.signal) || expired)
        (cancel_tracked_entry_order tracked.client_order_id)

  unfoldable pub close_entry : OkxOrder → D → Action (World F D C) (Unit {0})
  close_entry order filled = choose (lt? d.zero filled) (change_exchange (with_entry none)) (
      choose (is_terminal_without_fill order) (change_exchange (with_entry none))
        (when (is_terminal order) (change_exchange (with_entry none))))

module _ {F D C : Type 0} ⦃o : Ord D⦄ ⦃d : Decimal D⦄ ⦃f : Float F⦄ ⦃x : FromFloat F D⦄
    ⦃c : OkxClient D C⦄ where
  -- The part of the position that the order sold since it was last read.
  unfoldable pub take_exit_fill :
      TrackedOrder D → OkxSpotFillAccounting D → D → Action (World F D C) (Unit {0})
  take_exit_fill tracked accounting filled = do
    reduction ← lift (exit_accounting_delta accounting tracked)
    changed ← apply_position_reducing_fill reduction
    change_exchange (update_take_profit_tracking tracked.client_order_id filled accounting)
    when changed (cancel_stop_loss_order >> ensure_stop_loss_order)

  unfoldable pub live_take_profit :
      TrackedOrder D → OkxOrder → D → OkxSpotFillAccounting D → Action (World F D C) (Unit {0})
  live_take_profit tracked order filled accounting =
      choose tracked.cancel_requested
        (change_exchange (update_take_profit_tracking tracked.client_order_id filled accounting))
        (do
          state ← exchange
          if_some state.position
              (λ position. do
                runner ← gets (λ (w : World F D C). w.runner)
                fits ←
                    lift (take_profit_order_matches_position runner state.instrument order position)
                choose fits
                    (change_exchange
                      (update_take_profit_tracking tracked.client_order_id filled accounting))
                    amend_take_profit_order)
              cancel_take_profit_order)

  unfoldable pub closed_take_profit : OkxOrder → D → Action (World F D C) (Unit {0})
  closed_take_profit order delta = do
    when (is_terminal order) (change_exchange (with_take_profit none))
    state ← exchange
    if_some state.position
        (λ _.
          when (is_terminal_without_fill order || lt? d.zero delta)
            (ensure_take_profit_order >> ensure_stop_loss_order))
        (cancel_stop_loss_order >> clear_position_state)

  unfoldable pub take_profit_reported : TrackedOrder D → OkxOrder → Action (World F D C) (Unit {0})
  take_profit_reported tracked order = do
    filled ← lift (fill_size order)
    delta ← lift (cumulative_fill_delta Followed.take_profit_order filled tracked.last_fill_size)
    state ← exchange
    accounting ← lift (cumulative_spot_accounting order (pair_of state.instrument))
    when (lt? d.zero delta) (take_exit_fill tracked accounting filled)
    choose (is_live order) (live_take_profit tracked order filled accounting)
        (closed_take_profit order delta)

  unfoldable pub missing_take_profit : Action (World F D C) (Unit {0})
  missing_take_profit = do
    change_exchange (with_take_profit none)
    state ← exchange
    when (is_some state.position) ensure_take_profit_order

  unfoldable pub refresh_take_profit_order : Action (World F D C) (Unit {0})
  refresh_take_profit_order = do
    runner ← gets (λ (w : World F D C). w.runner)
    if_some (tracked_take_profit runner)
        (λ tracked. do
          found ← try_call (c.order runner.instrument_id tracked.client_order_id)
          if_some found (take_profit_reported tracked) missing_take_profit)
        done

  unfoldable pub open_position : Bool → OpenPosition D → Action (World F D C) (Unit {0})
  open_position had_position position = do
    change_exchange (with_position (some position))
    ensure_stop_loss_order
    when had_position refresh_take_profit_order
    ensure_take_profit_order

  unfoldable pub take_entry_fill :
      TrackedOrder D → OkxOrder → D → Option D → Action (World F D C) (Unit {0})
  take_entry_fill tracked order filled average_price = do
    state ← exchange
    accounting ← lift (cumulative_spot_accounting order (pair_of state.instrument))
    fill ← lift (entry_accounting_delta accounting tracked)
    runner ← gets (λ (w : World F D C). w.runner)
    position ← lift (next_open_position runner state.position fill.0 fill.1)
    change_exchange (
        update_entry_tracking tracked.client_order_id filled average_price accounting
          tracked.cancel_requested)
    open_position (is_some state.position) position

  unfoldable pub entry_reported : TrackedOrder D → OkxOrder → Action (World F D C) (Unit {0})
  entry_reported tracked order = do
    filled ← lift (fill_size order)
    delta ← lift (cumulative_fill_delta Followed.entry_order filled tracked.last_fill_size)
    average_price ← lift (average_fill_price order)
    when (lt? d.zero delta) (take_entry_fill tracked order filled average_price)
    choose (is_live order) (keep_or_cancel_entry tracked order filled) (close_entry order filled)

  unfoldable pub refresh_entry_order : Action (World F D C) (Unit {0})
  refresh_entry_order = do
    runner ← gets (λ (w : World F D C). w.runner)
    if_some (tracked_entry runner)
        (λ tracked. do
          found ← try_call (c.order runner.instrument_id tracked.client_order_id)
          if_some found (entry_reported tracked) done)
        done
