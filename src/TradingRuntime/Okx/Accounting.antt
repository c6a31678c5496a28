-- ===== src/TradingRuntime/Okx/Accounting.antt =====
-- okx/types.rs: what a SPOT fill changes in the base and the quote currency, fees and rebates
-- included.
use okx_rust_trading.Common.{
  Bool, ◌&&◌, ◌||◌, not, Option, some, Result, ok, ok_or, ensure, ◌>>=◌, ◌>>◌, if◌then◌else◌,
}
use okx_rust_trading.Order.{Ord, lt?, eq?}
use okx_rust_trading.Text.{Str, eq_str, is_blank}
use okx_rust_trading.Decimal.{Decimal, ◌+◌, ◌*◌}
use okx_rust_trading.TradingRuntime.Okx.Errors
use okx_rust_trading.TradingRuntime.Okx.Errors.{Error, Field, Subject}
use okx_rust_trading.TradingRuntime.Okx.Numbers.{
  parse_decimal, parse_positive_decimal, parse_non_negative_decimal,
}
use okx_rust_trading.TradingRuntime.Okx.Orders.{
  OrderSide, OkxOrder, OkxFill, parsed_side, fill_size, average_fill_price,
}

pub record OkxSpotFillAccounting (D : Type 0) : Type 0 where
  pub base_change : D
  pub quote_change : D

-- The two currencies of the instrument.
pub record Pair : Type 0 where
  pub base : Str
  pub quote : Str

module _ {D : Type 0} ⦃o : Ord D⦄ ⦃d : Decimal D⦄ where
  unfoldable pub default_accounting : OkxSpotFillAccounting D
  default_accounting = record { base_change = d.zero; quote_change = d.zero }

  -- Before fees: what is bought is received, what is sold is spent.
  unfoldable pub gross : OrderSide → D → D → OkxSpotFillAccounting D
  gross OrderSide.buy size notional = record { base_change = size; quote_change = d.neg notional }
  gross OrderSide.sell size notional = record { base_change = d.neg size; quote_change = notional }

  unfoldable pub apply_spot_currency_adjustment :
      Error → OkxSpotFillAccounting D → D → Str → Pair → Result (OkxSpotFillAccounting D) Error
  apply_spot_currency_adjustment mismatch accounting amount currency pair =
      ensure (eq_str currency pair.base || eq_str currency pair.quote) mismatch
      >> (if eq_str currency pair.base
          then ok (record accounting { base_change = accounting.base_change + amount })
          else ok (record accounting { quote_change = accounting.quote_change + amount }))

  unfoldable pub has_direction : OrderSide → OkxSpotFillAccounting D → Bool
  has_direction OrderSide.buy accounting =
      lt? d.zero accounting.base_change && lt? accounting.quote_change d.zero
  has_direction OrderSide.sell accounting =
      lt? accounting.base_change d.zero && lt? d.zero accounting.quote_change

  unfoldable pub ensure_spot_accounting_direction :
      Subject → Option OrderSide → OkxSpotFillAccounting D → Result (Unit {0}) Error
  ensure_spot_accounting_direction subject side accounting = do
    known ← ok_or side (Errors.undocumented_side subject)
    ensure (has_direction known accounting) (Errors.wrong_accounting_direction subject)

  unfoldable pub spot_fill_accounting :
      Subject → Option OrderSide → D → D → Str → Str → Pair → Result (OkxSpotFillAccounting D) Error
  spot_fill_accounting subject side size price fee fee_currency pair = do
    ensure (not (is_blank pair.base) && not (is_blank pair.quote))
        (Errors.currencies_missing subject)
    ensure (not (eq_str pair.base pair.quote)) (Errors.currencies_equal subject)
    known ← ok_or side (Errors.undocumented_side subject)
    fee_amount ← parse_decimal (Field.fee subject) fee
    accounting ←
        apply_spot_currency_adjustment (Errors.fee_currency_mismatch subject)
          (gross known size (size * price)) fee_amount fee_currency pair
    ensure_spot_accounting_direction subject (some known) accounting
    ok accounting

  unfoldable pub rebate_amount : Subject → Str → Result D Error
  rebate_amount subject rebate =
      if is_blank rebate
      then ok d.zero
      else parse_non_negative_decimal (Field.rebate subject) rebate

  unfoldable pub apply_spot_rebate :
      Subject → OkxSpotFillAccounting D → Str → Str → Pair → Result (OkxSpotFillAccounting D) Error
  apply_spot_rebate subject accounting rebate rebate_currency pair = do
    amount ← rebate_amount subject rebate
    if eq? amount d.zero && is_blank rebate_currency
        then ok accounting
        else apply_spot_currency_adjustment (Errors.rebate_currency_mismatch subject) accounting
            amount rebate_currency pair

  unfoldable pub filled_accounting : OkxOrder → D → Pair → Result (OkxSpotFillAccounting D) Error
  filled_accounting order filled pair = do
    average ← average_fill_price order
    price ← ok_or average Errors.missing_average_price
    accounting ←
        spot_fill_accounting Subject.order (parsed_side order.side) filled price order.fee
          order.fee_currency pair
    adjusted ← apply_spot_rebate Subject.order accounting order.rebate order.rebate_currency pair
    ensure_spot_accounting_direction Subject.order (parsed_side order.side) adjusted
    ok adjusted

  unfoldable pub cumulative_spot_accounting :
      OkxOrder → Pair → Result (OkxSpotFillAccounting D) Error
  cumulative_spot_accounting order pair = do
    filled ← fill_size order
    if eq? filled d.zero then ok default_accounting else filled_accounting order filled pair

  unfoldable pub spot_accounting : OkxFill → Pair → Result (OkxSpotFillAccounting D) Error
  spot_accounting fill pair = do
    size ← parse_positive_decimal Field.fill_fill_sz fill.fill_size
    price ← parse_positive_decimal Field.fill_fill_px fill.fill_price
    spot_fill_accounting Subject.fill (parsed_side fill.side) size price fill.fee fill.fee_currency
        pair
