-- ===== src/TradingRuntime/Okx/Algo.antt =====
-- okx/types.rs: trigger orders as the exchange reports them, field by field texts.
use okx_rust_trading.Common.{Bool, ◌&&◌, ◌||◌, Result}
use okx_rust_trading.Order.{Ord}
use okx_rust_trading.Text.{Str, eq_str, codes}
use okx_rust_trading.Decimal.{Decimal}
use okx_rust_trading.TradingRuntime.Okx.Errors.{Error, Field}
use okx_rust_trading.TradingRuntime.Okx.Numbers.{parse_positive_decimal}

pub record OkxAlgoOrder : Type 0 where
  pub inst_type : Str
  pub inst_id : Str
  pub td_mode : Str
  pub algo_id : Str
  pub client_order_id : Str
  pub side : Str
  pub order_type : Str
  pub trigger_price : Str
  pub order_price : Str
  pub state : Str
  pub sz : Str
  pub created_at_ms : Str
  pub updated_at_ms : Str

unfoldable pub is_live : OkxAlgoOrder → Bool
is_live order = eq_str order.state (codes "live") || eq_str order.state (codes "pause")

unfoldable pub is_effective : OkxAlgoOrder → Bool
is_effective order = eq_str order.state (codes "effective")

unfoldable pub is_terminal_without_execution : OkxAlgoOrder → Bool
is_terminal_without_execution order =
    eq_str order.state (codes "canceled") || eq_str order.state (codes "order_failed")

unfoldable pub is_trigger_market_order : OkxAlgoOrder → Bool
is_trigger_market_order order =
    eq_str order.order_type (codes "trigger") && eq_str order.order_price (codes "-1")

module _ {D : Type 0} ⦃o : Ord D⦄ ⦃d : Decimal D⦄ where
  unfoldable pub trigger_price : OkxAlgoOrder → Result D Error
  trigger_price order = parse_positive_decimal Field.algo_order_trigger_px order.trigger_price

  unfoldable pub requested_size : OkxAlgoOrder → Result D Error
  requested_size order = parse_positive_decimal Field.algo_order_sz order.sz
