-- ===== src/TradingRuntime/Okx/Instrument.antt =====
-- okx/types.rs, the instrument with its limits, the ticker and the balances; and of
-- okx/trading_instrument.rs the check of a quote amount against a limit in US dollars.
use okx_rust_trading.Common.{
  ℕ, Bool, true, false, ◌&&◌, not, Option, none, some, List, Result, ok, ok_or, ensure, ◌>>=◌, ◌>>◌,
}
use okx_rust_trading.Order.{Ord, lt?, le?}
use okx_rust_trading.Text.{Str, eq_str, codes, is_blank}
use okx_rust_trading.Decimal.{Decimal}
use okx_rust_trading.TradingRuntime.Okx.Errors
use okx_rust_trading.TradingRuntime.Okx.Errors.{Error, Field, Measure}
use okx_rust_trading.TradingRuntime.Okx.Numbers.{
  parse_positive_decimal, parse_non_negative_decimal, parse_optional_positive_decimal,
  ensure_max_size,
}

pub record OkxInstrument : Type 0 where
  pub inst_type : Str
  pub inst_id : Str
  pub group_id : Str
  pub inst_id_code : Option ℕ
  pub state : Str
  pub base_ccy : Str
  pub quote_ccy : Str
  pub trade_quote_currencies : List Str
  pub tick_size : Str
  pub lot_size : Str
  pub min_size : Str
  pub max_limit_size : Str
  pub max_limit_amount : Str
  pub max_market_size : Str
  pub max_market_amount : Str
  pub max_trigger_size : Str
  pub initial_price_limit_pct : Str
  pub float_price_limit_pct : Str
  pub maximum_price_limit_pct : Str

pub record OkxTicker : Type 0 where
  pub inst_type : Str
  pub inst_id : Str
  pub bid_px : Str
  pub ask_px : Str
  pub last : Str

pub record OkxBalanceDetail : Type 0 where
  pub ccy : Str
  pub available_balance : Str
  pub cash_balance : Str
  pub frozen_balance : Str

pub record OkxBalance : Type 0 where
  pub details : List OkxBalanceDetail

pub data ValidatedQuoteUsdSource : Type 0 where
  identity : ValidatedQuoteUsdSource
  index : Str → ValidatedQuoteUsdSource

unfoldable pub eq_source : ValidatedQuoteUsdSource → ValidatedQuoteUsdSource → Bool
eq_source ValidatedQuoteUsdSource.identity ValidatedQuoteUsdSource.identity = true
eq_source (ValidatedQuoteUsdSource.index a) (ValidatedQuoteUsdSource.index b) = eq_str a b
eq_source _ _ = false

-- The time stamp of the evidence is not kept: nothing here reads it.
pub record ValidatedQuoteUsdRate (D : Type 0) : Type 0 where
  pub quote_ccy : Str
  pub source : ValidatedQuoteUsdSource
  pub usd_per_quote : D

-- The fields that an order's checks read.
pub record ValidatedTradingInstrument : Type 0 where
  pub instrument : OkxInstrument
  pub quote_usd_source : Option ValidatedQuoteUsdSource

module _ {D : Type 0} ⦃o : Ord D⦄ ⦃d : Decimal D⦄ where
  unfoldable pub tick_size : OkxInstrument → Result D Error
  tick_size instrument = parse_positive_decimal Field.instrument_tick_sz instrument.tick_size

  unfoldable pub lot_size : OkxInstrument → Result D Error
  lot_size instrument = parse_positive_decimal Field.instrument_lot_sz instrument.lot_size

  unfoldable pub min_size : OkxInstrument → Result D Error
  min_size instrument = parse_positive_decimal Field.instrument_min_sz instrument.min_size

  unfoldable pub max_limit_size : OkxInstrument → Result (Option D) Error
  max_limit_size instrument =
      parse_optional_positive_decimal Field.instrument_max_lmt_sz instrument.max_limit_size

  unfoldable pub max_limit_amount : OkxInstrument → Result (Option D) Error
  max_limit_amount instrument =
      parse_optional_positive_decimal Field.instrument_max_lmt_amt instrument.max_limit_amount

  unfoldable pub max_market_size_usdt : OkxInstrument → Result (Option D) Error
  max_market_size_usdt instrument =
      parse_optional_positive_decimal Field.instrument_max_mkt_sz instrument.max_market_size

  unfoldable pub max_trigger_size : OkxInstrument → Result (Option D) Error
  max_trigger_size instrument =
      parse_optional_positive_decimal Field.instrument_max_trigger_sz instrument.max_trigger_size

  unfoldable pub ensure_limit_size : OkxInstrument → D → Measure → Result (Unit {0}) Error
  ensure_limit_size instrument size measure =
      max_limit_size instrument >>= (λ (maximum : Option D). ensure_max_size measure size maximum)

  unfoldable pub ensure_trigger_size : OkxInstrument → D → Measure → Result (Unit {0}) Error
  ensure_trigger_size instrument size measure =
      max_trigger_size instrument >>= (λ (maximum : Option D). ensure_max_size measure size maximum)

  -- The notional in USDT against the limit, where there is one.
  unfoldable pub ensure_usdt_notional :
      OkxInstrument → D → D → Measure → Measure → Option D → Result (Unit {0}) Error
  ensure_usdt_notional instrument size price measure notional none = ok tt
  ensure_usdt_notional instrument size price measure notional (some maximum) = do
    ensure (eq_str instrument.quote_ccy (codes "USDT")) (Errors.not_usdt measure)
    usdt ← ok_or (d.checked_mul size price) (Errors.overflowed measure)
    ensure_max_size notional usdt (some maximum)

  unfoldable pub ensure_spot_market_sell_size :
      OkxInstrument → D → D → Measure → Measure → Result (Unit {0}) Error
  ensure_spot_market_sell_size instrument size price measure notional = do
    ensure (eq_str instrument.inst_type (codes "SPOT")) Errors.not_spot
    ensure (lt? d.zero size) (Errors.not_positive_measure measure)
    ensure (lt? d.zero price) (Errors.reference_not_positive measure)
    maximum ← max_market_size_usdt instrument
    ensure_usdt_notional instrument size price measure notional maximum

  unfoldable pub bid_decimal : OkxTicker → Result D Error
  bid_decimal ticker = parse_positive_decimal Field.ticker_bid_px ticker.bid_px

  unfoldable pub ask_decimal : OkxTicker → Result D Error
  ask_decimal ticker = parse_positive_decimal Field.ticker_ask_px ticker.ask_px

  unfoldable pub last_decimal : OkxTicker → Result D Error
  last_decimal ticker = parse_positive_decimal Field.ticker_last ticker.last

  unfoldable pub detail_total : OkxBalanceDetail → Result D Error
  detail_total detail =
      ensure (not (is_blank detail.cash_balance)) Errors.cash_balance_missing
      >> parse_non_negative_decimal Field.balance_cash_bal detail.cash_balance

  unfoldable pub ensure_quote_amount_within_usd_limit :
      ValidatedTradingInstrument
      → D
      → ValidatedQuoteUsdRate D
      → Option D
      → Measure
      → Result (Unit {0}) Error
  ensure_quote_amount_within_usd_limit validated amount rate none measure = ok tt
  ensure_quote_amount_within_usd_limit validated amount rate (some maximum) measure = do
    ensure (lt? d.zero amount) (Errors.not_positive_measure measure)
    expected ← ok_or validated.quote_usd_source Errors.no_usd_source
    ensure (eq_str rate.quote_ccy validated.instrument.quote_ccy && eq_source rate.source expected)
        Errors.wrong_usd_evidence
    usd_amount ← ok_or (d.checked_mul amount rate.usd_per_quote) (Errors.overflowed measure)
    ensure (le? usd_amount maximum) (Errors.usd_limit_exceeded measure)

  -- `ValidatedTradingInstrument::ensure_limit_quote_amount`
  unfoldable pub ensure_limit_quote_amount :
      ValidatedTradingInstrument → D → ValidatedQuoteUsdRate D → Measure → Result (Unit {0}) Error
  ensure_limit_quote_amount validated amount rate measure =
      max_limit_amount validated.instrument >>= (λ (maximum : Option D).
        ensure_quote_amount_within_usd_limit validated amount rate maximum measure)
