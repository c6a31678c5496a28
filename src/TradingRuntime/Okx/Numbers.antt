-- ===== src/TradingRuntime/Okx/Numbers.antt =====
-- okx/types.rs: reading and quantizing the exchange's numbers.
use okx_rust_trading.Common.{
  Option, none, some, Result, ok, ok_or, ensure, ◌>>=◌, ◌>>◌, if◌then◌else◌,
}
use okx_rust_trading.Common.Int.{ℤ, pos, ltb_ℤ}
use okx_rust_trading.Order.{Ord, lt?, le?}
use okx_rust_trading.Text.{Str, is_blank, parse_i64}
use okx_rust_trading.Decimal.{Decimal, ◌*◌, ◌/◌}
use okx_rust_trading.TradingRuntime.Okx.Errors.{
  Error, Field, Measure, not_a_decimal, not_positive, negative, not_a_timestamp, value_not_positive,
  exceeds_maximum,
}

unfoldable pub parse_timestamp_ms : Field → Str → Result ℤ Error
parse_timestamp_ms field value = do
  timestamp ← ok_or (parse_i64 value) (not_a_timestamp field)
  ensure (ltb_ℤ (pos 0) timestamp) (not_positive field)
  ok timestamp

module _ {D : Type 0} ⦃o : Ord D⦄ ⦃d : Decimal D⦄ where
  unfoldable pub parse_decimal : Field → Str → Result D Error
  parse_decimal field value = ok_or (d.from_str value) (not_a_decimal field)

  unfoldable pub parse_positive_decimal : Field → Str → Result D Error
  parse_positive_decimal field value = do
    parsed ← parse_decimal field value
    ensure (lt? d.zero parsed) (not_positive field)
    ok parsed

  unfoldable pub parse_non_negative_decimal : Field → Str → Result D Error
  parse_non_negative_decimal field value = do
    parsed ← parse_decimal field value
    ensure (le? d.zero parsed) (negative field)
    ok parsed

  unfoldable pub parse_optional_positive_decimal : Field → Str → Result (Option D) Error
  parse_optional_positive_decimal field value =
      if is_blank value then ok none else parse_positive_decimal field value >>= (λ n. ok (some n))

  unfoldable pub quantize_decimal_down : D → D → Result D Error
  quantize_decimal_down value step =
      ensure (lt? d.zero value) value_not_positive >> ok (d.floor (value / step) * step)

  unfoldable pub quantize_decimal_up : D → D → Result D Error
  quantize_decimal_up value step =
      ensure (lt? d.zero value) value_not_positive >> ok (d.ceil (value / step) * step)

  unfoldable pub ensure_max_size : Measure → D → Option D → Result (Unit {0}) Error
  ensure_max_size measure size none = ok tt
  ensure_max_size measure size (some max_size) =
      ensure (le? size max_size) (exceeds_maximum measure)
