-- ===== src/Examples/OrderIds.antt =====
-- Client order ids of a few strategies.
use okx_rust_trading.Common.{◌≡◌, ◌↔◌, ◌≤◌, ◌%◌, true, some, length}
use okx_rust_trading.Common.Int.{pos}
use okx_rust_trading.Order.{int_ord}
use okx_rust_trading.Text.{Str, codes, all, is_ascii_alphanumeric}
use okx_rust_trading.Decimal.Integers.{int_decimal}
use okx_rust_trading.TradingRuntime.OrderId.{
  OrderPurpose, client_order_id, strategy_tag, parse_strategy_client_order_id, valid_strategy_tag,
  unix_ms, okx_client_order_id_max_len,
}
use okx_rust_trading.TradingRuntime.OrderId.Parser.{HasForm, parse_strategy_client_order_id_iff}
use okx_rust_trading.TradingRuntime.OrderId.RoundTrip.{
  parse_strategy_client_order_id-client_order_id, client_order_id_fits,
}
use okx_rust_trading.TradingRuntime.OrderId.Distinct.{client_order_id_eq_iff}

parse_strategy_client_order_id-client_order_id_example :
    parse_strategy_client_order_id
      (client_order_id (codes "trend-1") OrderPurpose.stop_loss (pos 1_700_000_000_000_000_000) 9).0
      (strategy_tag (codes "trend-1"))
    ≡ some OrderPurpose.stop_loss
parse_strategy_client_order_id-client_order_id_example =
    parse_strategy_client_order_id-client_order_id (codes "trend-1") OrderPurpose.stop_loss
      (pos 1_700_000_000_000_000_000) 9

client_order_id_fits_example :
    (length (client_order_id (codes "t") OrderPurpose.entry (pos 0) 9).0
      ≤ okx_client_order_id_max_len)
    × (all is_ascii_alphanumeric (client_order_id (codes "t") OrderPurpose.entry (pos 0) 9).0
        ≡ true)
client_order_id_fits_example = client_order_id_fits (codes "t") OrderPurpose.entry (pos 0) 9

parse_strategy_client_order_id_iff_example :
    (parse_strategy_client_order_id (codes "ROXTREN0ABCDEFB12345") (codes "TREN0ABCDEF")
      ≡ some OrderPurpose.entry)
    ↔ ((valid_strategy_tag (codes "TREN0ABCDEF") ≡ true)
        × ((suffix : Str) × HasForm
              (codes "TREN0ABCDEF")
              17
              OrderPurpose.entry
              (codes "ROXTREN0ABCDEFB12345")
              suffix))
parse_strategy_client_order_id_iff_example =
    parse_strategy_client_order_id_iff (codes "ROXTREN0ABCDEFB12345") (codes "TREN0ABCDEF")
      OrderPurpose.entry

client_order_id_eq_iff_example :
    ((client_order_id (codes "t") OrderPurpose.entry (pos 7) 9).0
      ≡ (client_order_id (codes "t") OrderPurpose.entry (pos 8) 10_009).0)
    ↔ ((OrderPurpose.entry ≡ OrderPurpose.entry)
        × (unix_ms (pos 7) ≡ unix_ms (pos 8))
        × (9 % 10_000 ≡ 10_009 % 10_000))
client_order_id_eq_iff_example =
    client_order_id_eq_iff (codes "t") OrderPurpose.entry OrderPurpose.entry (pos 7) (pos 8) 9
      10_009
