-- ===== src/Examples/Trader.antt =====
-- A strategy on whole numbers for decimals and floats, with an exchange that answers every call.
use okx_rust_trading.Common.{ℕ, refl, true, false, none, some, [], ◌∷◌, ok, err, suc, if◌then◌else◌}
use okx_rust_trading.Common.Int.{ℤ, pos, ltb_ℤ, leb_ℤ, ◌+ℤ◌, ◌-ℤ◌, ◌*ℤ◌}
use okx_rust_trading.Order.{int_ord}
use okx_rust_trading.Text.{codes}
use okx_rust_trading.Decimal.{max}
use okx_rust_trading.Decimal.Integers.{div_ℤ, int_decimal}
use okx_rust_trading.TradingRuntime.Okx.Errors.{client_error}
use okx_rust_trading.TradingRuntime.Okx.Instrument.{OkxInstrument}
use okx_rust_trading.TradingRuntime.Okx.Client.{OkxClient}
use okx_rust_trading.TradingRuntime.MakerTrend.Indicators.{Float, FromFloat, MarketBar}
use okx_rust_trading.TradingRuntime.MakerTrend.Signal.{SignalState}
use okx_rust_trading.TradingRuntime.MakerTrend.Types.{ExchangeState, TrackedOrder}
use okx_rust_trading.TradingRuntime.MakerTrend.Action.{World}
use okx_rust_trading.TradingRuntime.MakerTrend.Action.Exchange.{OnExchange}
use okx_rust_trading.TradingRuntime.MakerTrend.Sound.{IsSound}

instance abbrev pub int_float : Float ℤ
int_float = record {
  zero = pos 0;
  one = pos 1;
  two = pos 2;
  from_usize = pos;
  plus = ◌+ℤ◌;
  minus = ◌-ℤ◌;
  times = ◌*ℤ◌;
  over = div_ℤ;
  max = max;
  abs = λ a. if ltb_ℤ a (pos 0) then pos 0 -ℤ a else a;
  less = ltb_ℤ;
  less_eq = leb_ℤ;
  is_finite = λ a. true;
  is_normal = λ a. true;
}

instance abbrev pub int_from_float : FromFloat ℤ ℤ
int_from_float = record { from_f64 = some }

-- The exchange counts the requests that change it. It knows no orders, and it refuses new ones.
instance abbrev pub counting_client : OkxClient ℤ ℕ
counting_client = record {
  ticker = λ id n. (
    ok (record {
      inst_type = codes "SPOT";
      inst_id = id;
      bid_px = codes "100";
      ask_px = codes "101";
      last = codes "100";
    }),
    n,
  );
  fresh_quote_usd_rate = λ validated n. (err (client_error (codes "no rate")), n);
  balances = λ n. (ok [], n);
  open_orders = λ id n. (ok [], n);
  order_history = λ id n. (ok [], n);
  order_fills = λ id n. (ok [], n);
  open_algo_orders = λ id n. (ok [], n);
  algo_order_history = λ id n. (ok [], n);
  place_order = λ id side kind size price order n. (err (client_error (codes "refused")), n);
  cancel_order = λ id order n. (ok tt, suc n);
  amend_order = λ request n. (ok tt, suc n);
  place_trigger_order = λ id side size trigger order n. (ok (codes "algo"), suc n);
  cancel_algo_order = λ id algo n. (ok tt, suc n);
  order = λ id order n. (ok none, n);
  now_nanos = λ n. (pos 1_700_000_000_000_000_000, n);
}

abbrev pub btc_usdt : OkxInstrument
btc_usdt = record {
  inst_type = codes "SPOT";
  inst_id = codes "BTC-USDT";
  group_id = codes "1";
  inst_id_code = none;
  state = codes "live";
  base_ccy = codes "BTC";
  quote_ccy = codes "USDT";
  trade_quote_currencies = codes "USDT" ∷ [];
  tick_size = codes "1";
  lot_size = codes "1";
  min_size = codes "1";
  max_limit_size = [];
  max_limit_amount = [];
  max_market_size = [];
  max_market_amount = [];
  max_trigger_size = [];
  initial_price_limit_pct = [];
  float_price_limit_pct = [];
  maximum_price_limit_pct = [];
}

abbrev pub take_profit : TrackedOrder ℤ
take_profit = record {
  client_order_id = codes "ROXTP";
  last_fill_size = pos 0;
  last_average_fill_price = none;
  last_accounted_base_change = pos 0;
  last_accounted_quote_change = pos 0;
  cancel_requested = false;
}

abbrev pub holding : ExchangeState ℤ
holding = record {
  instrument = btc_usdt;
  last_bar_ts_ms = none;
  entry_order = none;
  take_profit_order = some take_profit;
  stop_loss_order = none;
  stop_loss_exit_order = none;
  position =
      some (record { quantity = pos 5; average_price = pos 100; stop_loss_trigger = pos 90 });
  stop_loss_pending = none;
}

-- Averages of one bar and a range of one bar, with a cost of nothing.
abbrev pub quiet : SignalState ℤ ℤ
quiet = record {
  entry_offset_atr_multiple = pos 1;
  min_entry_offset_bps = pos 100;
  max_entry_offset_bps = pos 1000;
  ema_fast = record {
    period = 5;
    multiplier = pos 1;
    samples = 7;
    seed_sum = pos 0;
    value = some (pos 300);
  };
  ema_slow = record {
    period = 9;
    multiplier = pos 0;
    samples = 9;
    seed_sum = pos 0;
    value = some (pos 150);
  };
  atr = record {
    period = 2;
    samples = 4;
    seed_sum = pos 0;
    value = some (pos 20);
    previous_close = some (pos 395);
  };
  round_trip_cost_rate = some (pos 0);
  macro_trend_bullish = false;
  is_volatility_sufficient = false;
  current_atr_offset = none;
  last_close = none;
  last_atr = none;
}

abbrev pub rising_bar : MarketBar ℤ
rising_bar = record {
  ts_ms = pos 1;
  open_price = pos 395;
  high = pos 410;
  low = pos 390;
  close = pos 400;
  confirm = true;
}

abbrev pub holder : World ℤ ℤ ℕ
holder = record {
  runner = record {
    instance_id = codes "trend-1";
    configured_strategy_tags = [];
    instrument_id = codes "BTC-USDT";
    validated_instrument = none;
    quantity = pos 5;
    operator_owned_base_balance = pos 0;
    max_entry_order_age_ms = 60_000;
    max_quote_notional = none;
    take_profit_atr_multiple = pos 2;
    stop_loss_atr_multiple = pos 1;
    entry_fee_cost_rate = some (pos 0);
    exit_fee_cost_rate = some (pos 0);
    signal = quiet;
    exchange = some holding;
  };
  client = 0;
  order_id_sequence = 1;
}

pub holding-IsSound : OnExchange IsSound holder
holding-IsSound = record {
  entry_fills = tt;
  take_profit_fills = refl;
  exit_fills = tt;
  opened = record { quantity_pos = refl; average_price_pos = refl; trigger_pos = refl };
  exit_pending = refl;
}
