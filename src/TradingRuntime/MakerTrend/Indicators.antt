-- ===== src/TradingRuntime/MakerTrend/Indicators.antt =====
-- strategies/okx_ema_atr_maker_trend/signal.rs: the moving averages and the range. `f64` is a
-- parameter: the type with the operations that the program uses, in the order in which it uses them.
use Prim.Native.Nat.{◌+◌}
use okx_rust_trading.Common.{ℕ, Bool, ◌&&◌, not, Option, none, some, ltb, ◌==◌, if◌then◌else◌}
use okx_rust_trading.Common.Int.{ℤ}

-- IEEE 754 double precision.
pub record Float (F : Type 0) : Type 0 where
  pub zero : F
  pub one : F
  pub two : F
  pub from_usize : ℕ → F
  pub plus : F → F → F
  pub minus : F → F → F
  pub times : F → F → F
  pub over : F → F → F
  pub max : F → F → F
  pub abs : F → F
  pub less : F → F → Bool
  pub less_eq : F → F → Bool
  pub is_finite : F → Bool
  pub is_normal : F → Bool

-- `Decimal::from_f64`.
pub record FromFloat (F D : Type 0) : Type 0 where
  pub from_f64 : F → Option D

pub record MarketBar (F : Type 0) : Type 0 where
  pub ts_ms : ℤ
  pub open_price : F
  pub high : F
  pub low : F
  pub close : F
  pub confirm : Bool

pub record Ema (F : Type 0) : Type 0 where
  pub period : ℕ
  pub multiplier : F
  pub samples : ℕ
  pub seed_sum : F
  pub value : Option F

pub record Atr (F : Type 0) : Type 0 where
  pub period : ℕ
  pub samples : ℕ
  pub seed_sum : F
  pub value : Option F
  pub previous_close : Option F

module _ {F : Type 0} ⦃f : Float F⦄ where
  unfoldable pub ema_new : ℕ → Ema F
  ema_new period = record {
    period = period;
    multiplier = f.over f.two (f.plus (f.from_usize period) f.one);
    samples = 0;
    seed_sum = f.zero;
    value = none;
  }

  unfoldable pub ema_after_seed : Ema F → F → Option F → Ema F
  ema_after_seed e close none = e
  ema_after_seed e close (some previous) = record e {
    value = some (f.plus (f.times (f.minus close previous) e.multiplier) previous);
  }

  unfoldable pub ema_update : Ema F → F → Ema F
  ema_update e close =
      let sampled = record e { samples = e.samples + 1 } in
      let seeded = record sampled { seed_sum = f.plus e.seed_sum close } in
      if ltb sampled.samples e.period
      then seeded
      else if sampled.samples == e.period
      then record seeded { value = some (f.over seeded.seed_sum (f.from_usize e.period)) }
      else ema_after_seed sampled close e.value

  unfoldable pub atr_new : ℕ → Atr F
  atr_new period = record {
    period = period;
    samples = 0;
    seed_sum = f.zero;
    value = none;
    previous_close = none;
  }

  unfoldable pub true_range : F → F → Option F → F
  true_range high low none = f.minus high low
  true_range high low (some previous_close) =
      f.max (f.max (f.minus high low) (f.abs (f.minus high previous_close)))
        (f.abs (f.minus low previous_close))

  unfoldable pub atr_after_seed : Atr F → F → Option F → Atr F
  atr_after_seed a range none = a
  atr_after_seed a range (some previous) = record a {
    value = some (
        f.over (f.plus (f.times previous (f.minus (f.from_usize a.period) f.one)) range)
          (f.from_usize a.period));
  }

  unfoldable pub atr_update : Atr F → F → F → F → Atr F
  atr_update a high low close =
      let range = true_range high low a.previous_close in
      let sampled = record a { samples = a.samples + 1; previous_close = some close } in
      let seeded = record sampled { seed_sum = f.plus a.seed_sum range } in
      if ltb sampled.samples a.period
      then seeded
      else if sampled.samples == a.period
      then record seeded { value = some (f.over seeded.seed_sum (f.from_usize a.period)) }
      else atr_after_seed sampled range a.value

  -- A price that can cross into `Decimal`.
  unfoldable pub is_positive_normal : F → Bool
  is_positive_normal a = f.is_finite a && not (f.less_eq a f.zero) && f.is_normal a

  unfoldable pub is_usable_bar : MarketBar F → Bool
  is_usable_bar bar =
      f.is_finite bar.close
      && not (f.less_eq bar.close f.zero)
      && f.is_finite bar.high
      && f.is_finite bar.low
      && not (f.less bar.high bar.low)
