-- ===== src/TradingRuntime/MakerTrend/Protection/Cancel.antt =====
-- strategies/okx_ema_atr_maker_trend.rs: a cancel that the exchange took is not requested again.
use okx_rust_trading.Common.{◌≡◌, ok, arith}
use okx_rust_trading.Order.{Ord}
use okx_rust_trading.Text.{eq_str_self}
use okx_rust_trading.Decimal.{Decimal}
use okx_rust_trading.TradingRuntime.Okx.Client.{OkxClient}
use okx_rust_trading.TradingRuntime.MakerTrend.Action.{
  World, pure, gets, after, ◌>>=◌, if_some, choose, done, try_call, change_exchange, change_with,
  write_exchange,
}
use okx_rust_trading.TradingRuntime.MakerTrend.Protection.{cancel_take_profit_order}
use okx_rust_trading.TradingRuntime.MakerTrend.Protection.Tracking.{
  tracked_take_profit, mark_take_profit, change_if, mark_cancel,
}

module _ {F D C : Type 0} ⦃o : Ord D⦄ ⦃d : Decimal D⦄ ⦃c : OkxClient D C⦄ where
  -- After a cancel of the take-profit order that succeeded, a second one succeeds and changes
  -- nothing: it asks nothing of the exchange.
  pub cancel_take_profit_order_twice :
      (w reached : World F D C)
      → cancel_take_profit_order w ≡ (ok tt, reached)
      → cancel_take_profit_order reached ≡ (ok tt, reached)
  unfolding cancel_take_profit_order ◌>>=◌ gets after if_some tracked_take_profit choose done pure
      try_call change_exchange change_with write_exchange mark_take_profit change_if mark_cancel
  cancel_take_profit_order_twice w reached h = grind (arith, eq_str_self)
