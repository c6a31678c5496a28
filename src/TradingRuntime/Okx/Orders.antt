-- ===== src/TradingRuntime/Okx/Orders.antt =====
-- okx/types.rs: orders, fills and algo orders as the exchange reports them, field by field texts.
use okx_rust_trading.Common.{
  Bool, true, false, ◌&&◌, ◌||◌, not, Option, none, some, [], ◌∷◌, ◌++◌, Result, ok, ensure, ◌>>=◌,
  ◌>>◌, if◌then◌else◌,
}
use okx_rust_trading.Common.Int.{ℤ}
use okx_rust_trading.Order.{Ord, eq?}
use okx_rust_trading.Text.{Str, eq_str, codes, is_blank}
use okx_rust_trading.Decimal.{Decimal}
use okx_rust_trading.TradingRuntime.Okx.Errors
use okx_rust_trading.TradingRuntime.Okx.Errors.{Error, Field}
use okx_rust_trading.TradingRuntime.Okx.Numbers.{
  parse_positive_decimal, parse_non_negative_decimal, parse_timestamp_ms,
}

pub data OrderSide : Type 0 where
  buy sell : OrderSide

pub data OrderKind : Type 0 where
  limit market post_only : OrderKind

unfoldable pub eq_side : OrderSide → OrderSide → Bool
eq_side OrderSide.buy OrderSide.buy = true
eq_side OrderSide.sell OrderSide.sell = true
eq_side _ _ = false

unfoldable pub parsed_side : Str → Option OrderSide
parsed_side side =
    if eq_str side (codes "buy")
    then some OrderSide.buy
    else if eq_str side (codes "sell")
    then some OrderSide.sell
    else none

unfoldable pub parsed_kind : Str → Option OrderKind
parsed_kind order_type =
    if eq_str order_type (codes "limit")
    then some OrderKind.limit
    else if eq_str order_type (codes "market")
    then some OrderKind.market
    else if eq_str order_type (codes "post_only")
    then some OrderKind.post_only
    else none

-- `parsed_side() == Some(side)`
unfoldable pub has_side : OrderSide → Option OrderSide → Bool
unfolding eq_side
has_side side none = false
has_side side (some other) = eq_side side other

pub record OkxOrder : Type 0 where
  pub inst_type : Str
  pub inst_id : Str
  pub order_id : Str
  pub client_order_id : Str
  pub side : Str
  pub order_type : Str
  pub price : Str
  pub state : Str
  pub average_price : Str
  pub accumulated_fill_size : Str
  pub fee : Str
  pub fee_currency : Str
  pub rebate : Str
  pub rebate_currency : Str
  pub sz : Str
  pub created_at_ms : Str
  pub updated_at_ms : Str

unfoldable pub is_terminal_without_fill : OkxOrder → Bool
is_terminal_without_fill order =
    eq_str order.state (codes "canceled") || eq_str order.state (codes "mmp_canceled")

unfoldable pub is_filled : OkxOrder → Bool
is_filled order = eq_str order.state (codes "filled")

unfoldable pub is_live : OkxOrder → Bool
is_live order = eq_str order.state (codes "live") || eq_str order.state (codes "partially_filled")

unfoldable pub is_terminal : OkxOrder → Bool
is_terminal order =
    eq_str order.state (codes "filled")
    || eq_str order.state (codes "canceled")
    || eq_str order.state (codes "mmp_canceled")

unfoldable pub created_at_ms : OkxOrder → Result ℤ Error
created_at_ms order = parse_timestamp_ms Field.order_c_time order.created_at_ms

module _ {D : Type 0} ⦃o : Ord D⦄ ⦃d : Decimal D⦄ where
  unfoldable pub fill_size : OkxOrder → Result D Error
  fill_size order = parse_non_negative_decimal Field.order_acc_fill_sz order.accumulated_fill_size

  unfoldable pub requested_size : OkxOrder → Result D Error
  requested_size order = parse_positive_decimal Field.order_sz order.sz

  -- An average of zero stands for none, of an order with no fill only.
  unfoldable pub price_unless_zero : OkxOrder → D → Result (Option D) Error
  price_unless_zero order average_price =
      if eq? average_price d.zero
      then (do
        filled ← fill_size order
        ensure (eq? filled d.zero) Errors.average_price_without_fill
        ok none)
      else ok (some average_price)

  unfoldable pub average_fill_price : OkxOrder → Result (Option D) Error
  average_fill_price order =
      if is_blank order.average_price
      then ok none
      else parse_non_negative_decimal Field.order_avg_px order.average_price
        >>= (λ average_price. price_unless_zero order average_price)

pub record OkxFill : Type 0 where
  pub inst_type : Str
  pub inst_id : Str
  pub order_id : Str
  pub client_order_id : Str
  pub bill_id : Str
  pub trade_id : Str
  pub side : Str
  pub fill_size : Str
  pub fill_price : Str
  pub fee : Str
  pub fee_currency : Str
  pub fee_rate : Str
  pub execution_type : Str
  pub fill_time_ms : Str
  pub event_time_ms : Str

unfoldable pub preferred_fill_time_ms : OkxFill → Str
preferred_fill_time_ms fill =
    if is_blank fill.fill_time_ms then fill.event_time_ms else fill.fill_time_ms

unfoldable pub dedupe_key : OkxFill → Str
dedupe_key fill =
    if not (is_blank fill.bill_id)
    then fill.bill_id
    else if not (is_blank fill.trade_id)
    then fill.trade_id
    else if is_blank fill.order_id
        && is_blank fill.client_order_id
        && is_blank fill.side
        && is_blank (preferred_fill_time_ms fill)
        && is_blank fill.fill_size
    then []
    else fill.order_id
      ++ b':' ∷ fill.client_order_id
      ++ b':' ∷ fill.side
      ++ b':' ∷ preferred_fill_time_ms fill
      ++ b':' ∷ fill.fill_size
