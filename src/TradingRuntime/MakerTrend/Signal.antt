-- ===== src/TradingRuntime/MakerTrend/Signal.antt =====
-- strategies/okx_ema_atr_maker_trend/signal.rs: the signal, from the bars and the fees.
pub mod Offsets
use okx_rust_trading.Common.{
  ℕ, Bool, true, false, ◌&&◌, ◌||◌, not, Option, none, some, is_some, Result, ok, ensure, ◌>>◌,
  if◌then◌else◌,
}
use okx_rust_trading.Common.Options.{◌>>=◌}
use okx_rust_trading.Order.{Ord, lt?, le?}
use okx_rust_trading.Decimal.{Decimal, ◌-◌, ◌*◌, ◌/◌, max, min}
use okx_rust_trading.TradingRuntime.Okx.Errors
use okx_rust_trading.TradingRuntime.Okx.Errors.{Error}
use okx_rust_trading.TradingRuntime.MakerTrend.Indicators.{
  Float, FromFloat, MarketBar, Ema, Atr, ema_new, ema_update, atr_new, atr_update,
  is_positive_normal, is_usable_bar,
}

pub record SignalState (F D : Type 0) : Type 0 where
  pub entry_offset_atr_multiple : D
  pub min_entry_offset_bps : D
  pub max_entry_offset_bps : D
  pub ema_fast : Ema F
  pub ema_slow : Ema F
  pub atr : Atr F
  pub round_trip_cost_rate : Option D
  pub macro_trend_bullish : Bool
  pub is_volatility_sufficient : Bool
  pub current_atr_offset : Option D
  pub last_close : Option F
  pub last_atr : Option F

module _ {F D : Type 0} where
  unfoldable pub clear_macro_signal : SignalState F D → SignalState F D
  clear_macro_signal s = record s {
    macro_trend_bullish = false;
    is_volatility_sufficient = false;
    current_atr_offset = none;
  }

  unfoldable pub ready : SignalState F D → Bool
  ready s = is_some s.last_close && is_some s.last_atr

  unfoldable pub entry_allowed_without_offset : SignalState F D → Bool
  entry_allowed_without_offset s = s.macro_trend_bullish && s.is_volatility_sufficient

  unfoldable pub entry_allowed : SignalState F D → Bool
  entry_allowed s = entry_allowed_without_offset s && is_some s.current_atr_offset

module _ {D : Type 0} ⦃o : Ord D⦄ ⦃d : Decimal D⦄ where
  unfoldable pub clamped_offset : D → D → D → Option D
  clamped_offset raw floor_offset ceiling_offset =
      if le? floor_offset d.zero || lt? ceiling_offset floor_offset
      then none
      else some (min (max raw floor_offset) ceiling_offset)

  -- `Decimal::new(25, 1)` is 25 / 10.
  unfoldable pub volatility_exceeds : D → D → D → Bool
  volatility_exceeds close atr cost_rate =
      if lt? cost_rate d.zero || le? d.one cost_rate
      then false
      else le? (d.from_u64 25 / d.from_u64 10 * cost_rate) (atr / close)

  unfoldable pub volatility_of_decimals : Option D → Option D → D → Bool
  volatility_of_decimals none atr cost_rate = false
  volatility_of_decimals (some close) none cost_rate = false
  volatility_of_decimals (some close) (some atr) cost_rate = volatility_exceeds close atr cost_rate

  unfoldable pub price_below : D → Option D → Result (Option D) Error
  price_below bid none = ok none
  price_below bid (some offset) =
      ensure (lt? d.zero offset) Errors.entry_offset_not_positive
      >> ok (if lt? d.zero (bid - offset) then some (bid - offset) else none)

module _ {F D : Type 0} ⦃o : Ord D⦄ ⦃d : Decimal D⦄ ⦃f : Float F⦄ ⦃x : FromFloat F D⦄ where
  unfoldable pub entry_offset_distance : F → F → D → D → D → Option D
  entry_offset_distance close atr multiple min_bps max_bps =
      if not (is_positive_normal close && is_positive_normal atr) then none else (do
        close' ← x.from_f64 close
        atr' ← x.from_f64 atr
        clamped_offset (atr' * multiple) (close' * min_bps / d.from_u64 10_000)
            (close' * max_bps / d.from_u64 10_000))

  unfoldable pub volatility_clears_fee_threshold : F → F → D → Bool
  volatility_clears_fee_threshold close atr cost_rate =
      if not (is_positive_normal close && is_positive_normal atr)
      then false
      else volatility_of_decimals (x.from_f64 close) (x.from_f64 atr) cost_rate

  unfoldable pub new : ℕ → ℕ → ℕ → D → D → D → SignalState F D
  new fast_ema_period slow_ema_period atr_period multiple min_bps max_bps = record {
    entry_offset_atr_multiple = multiple;
    min_entry_offset_bps = min_bps;
    max_entry_offset_bps = max_bps;
    ema_fast = ema_new fast_ema_period;
    ema_slow = ema_new slow_ema_period;
    atr = atr_new atr_period;
    round_trip_cost_rate = none;
    macro_trend_bullish = false;
    is_volatility_sufficient = false;
    current_atr_offset = none;
    last_close = none;
    last_atr = none;
  }

  -- The three indicators take the bar.
  unfoldable pub update_indicators : SignalState F D → MarketBar F → SignalState F D
  update_indicators s bar = record s {
    ema_fast = ema_update s.ema_fast bar.close;
    ema_slow = ema_update s.ema_slow bar.close;
    atr = atr_update s.atr bar.high bar.low bar.close;
  }

  unfoldable pub is_sufficient : Option D → F → F → Bool
  is_sufficient none close atr = false
  is_sufficient (some cost_rate) close atr = volatility_clears_fee_threshold close atr cost_rate

  unfoldable pub with_trend : SignalState F D → F → F → F → F → SignalState F D
  with_trend s close fast slow atr = record s {
    last_close = some close;
    last_atr = some atr;
    macro_trend_bullish = f.less slow fast && f.less slow close;
    is_volatility_sufficient = is_sufficient s.round_trip_cost_rate close atr;
  }

  unfoldable pub with_offset : SignalState F D → F → F → SignalState F D
  with_offset s close atr = record s {
    current_atr_offset =
        if entry_allowed_without_offset s
        then entry_offset_distance close atr s.entry_offset_atr_multiple s.min_entry_offset_bps
            s.max_entry_offset_bps
        else none;
  }

  unfoldable pub signal_of :
      SignalState F D → F → Option F → Option F → Option F → SignalState F D × Bool
  signal_of s close none slow atr = (clear_macro_signal s, false)
  signal_of s close (some fast) none atr = (clear_macro_signal s, false)
  signal_of s close (some fast) (some slow) none = (clear_macro_signal s, false)
  signal_of s close (some fast) (some slow) (some atr) =
      (with_offset (with_trend s close fast slow atr) close atr, true)

  unfoldable pub update_from_bar : SignalState F D → MarketBar F → SignalState F D × Bool
  update_from_bar s bar =
      if not (is_usable_bar bar)
      then (clear_macro_signal s, false)
      else (let updated = update_indicators s bar in
          signal_of updated bar.close updated.ema_fast.value updated.ema_slow.value
            updated.atr.value)

module _ {F D : Type 0} ⦃o : Ord D⦄ ⦃d : Decimal D⦄ where
  unfoldable pub set_round_trip_cost_rate : SignalState F D → D → Result (SignalState F D) Error
  set_round_trip_cost_rate s cost_rate =
      ensure (le? d.zero cost_rate && lt? cost_rate d.one) Errors.round_trip_cost_out_of_range
      >> ok (record s { round_trip_cost_rate = some cost_rate })

  unfoldable pub entry_price_from_bid : SignalState F D → D → Result (Option D) Error
  entry_price_from_bid s bid = price_below bid s.current_atr_offset
