-- ===== src/TradingRuntime/MakerTrend/Signal/Offsets.antt =====
-- strategies/okx_ema_atr_maker_trend/signal.rs: the offset of an entry below the bid.
use okx_rust_trading.Common.{
  ◌≡◌, refl, true, ◌&&◌, Option, none, some, arith, Bool-cases, inl, inr, ok,
}
use okx_rust_trading.Common.Options.{>>=-eq-some}
use okx_rust_trading.Order.{Ord, ◌≺◌, le?}
use okx_rust_trading.Decimal.{Decimal, ◌-◌, ◌*◌, ◌/◌}
use okx_rust_trading.TradingRuntime.MakerTrend.Indicators.{
  Float, FromFloat, MarketBar, is_positive_normal, is_usable_bar,
}
use okx_rust_trading.TradingRuntime.MakerTrend.Signal.{
  SignalState, clamped_offset, entry_offset_distance, update_from_bar, signal_of, with_offset,
  with_trend, update_indicators, clear_macro_signal, entry_allowed_without_offset,
  entry_price_from_bid, price_below,
}

module _ {D : Type 0} ⦃o : Ord D⦄ ⦃d : Decimal D⦄ where
  -- An offset between two bounds, the lower of them positive.
  pub record IsBetween (low high offset : D) : Type 0 where
    pub low_pos : d.zero ≺ low
    pub above : le? low offset ≡ true
    pub below : le? offset high ≡ true

  clamped_offset-IsBetween :
      (raw low high offset : D)
      → clamped_offset raw low high ≡ some offset
      → IsBetween low high offset
  unfolding clamped_offset
  clamped_offset-IsBetween raw low high offset h = record {
    low_pos = ground (arith, o.cmp_flip low d.zero);
    above = ground (arith, o.cmp_flip raw low, o.cmp_flip high low, o.cmp_self low);
    below =
        ground
          (arith, o.cmp_flip high raw, o.cmp_flip high low, o.cmp_self high, o.cmp_flip raw low);
  }

  price_below-inv :
      (bid price : D) (offset : Option D)
      → price_below bid offset ≡ ok (some price)
      → (found : D) × (offset ≡ some found) × (price ≡ bid - found) × (d.zero ≺ price)
  unfolding price_below
  price_below-inv bid price none h = cc
  price_below-inv bid price (some found) h = (found, refl, ground arith, ground arith)

module _ {F D : Type 0} ⦃o : Ord D⦄ ⦃d : Decimal D⦄ ⦃f : Float F⦄ ⦃x : FromFloat F D⦄ where
  -- The offset lies between the configured shares of the close.
  pub record IsOffsetOf (s : SignalState F D) (close : F) (offset : D) : Type 0 where
    pub close_price : D
    pub converted : x.from_f64 close ≡ some close_price
    pub between :
        IsBetween
          (close_price * s.min_entry_offset_bps / d.from_u64 10_000)
          (close_price * s.max_entry_offset_bps / d.from_u64 10_000)
          offset

  entry_offset_distance-IsOffsetOf :
      (s : SignalState F D) (close atr : F) (offset : D)
      → entry_offset_distance close atr s.entry_offset_atr_multiple s.min_entry_offset_bps
          s.max_entry_offset_bps
        ≡ some offset
      → IsOffsetOf s close offset
  unfolding entry_offset_distance
  entry_offset_distance-IsOffsetOf s close atr offset h =
      elim (Bool-cases (is_positive_normal close && is_positive_normal atr)) [
        | inl normal ↦
            let after_test = rw normal at h in
            let (price, converted, h1) = >>=-eq-some (x.from_f64 close) _ after_test in
            let (range, _, h2) = >>=-eq-some (x.from_f64 atr) _ h1 in
            record {
              close_price = price;
              converted = converted;
              between = clamped_offset-IsBetween _ _ _ offset h2;
            }
        | inr odd ↦ let after_test = rw odd at h in cc after_test
      ]

  signal_of-offset :
      (s : SignalState F D) (close : F) (fast slow atr : Option F) (offset : D)
      → (signal_of s close fast slow atr).0.current_atr_offset ≡ some offset
      → IsOffsetOf s close offset
        × (entry_allowed_without_offset (signal_of s close fast slow atr).0 ≡ true)
  unfolding signal_of clear_macro_signal with_offset with_trend entry_allowed_without_offset
  signal_of-offset s close none slow atr offset h = cc
  signal_of-offset s close (some fast) none atr offset h = cc
  signal_of-offset s close (some fast) (some slow) none offset h = cc
  signal_of-offset s close (some fast) (some slow) (some atr) offset h =
      let trend = with_trend s close fast slow atr in
      elim (Bool-cases (entry_allowed_without_offset trend)) [
        | inl allowed ↦
            let after_test = rw allowed at h in
            (entry_offset_distance-IsOffsetOf s close atr offset after_test, allowed)
        | inr refused ↦ let after_test = rw refused at h in cc after_test
      ]

  updated-offset :
      (s : SignalState F D) (bar : MarketBar F) (offset : D)
      → (update_from_bar s bar).0.current_atr_offset ≡ some offset
      → IsOffsetOf s bar.close offset
        × (entry_allowed_without_offset (update_from_bar s bar).0 ≡ true)
  unfolding update_from_bar
  updated-offset s bar offset h = elim (Bool-cases (is_usable_bar bar)) [
    | inl usable ↦ rw usable (
        let updated = update_indicators s bar in
        let (found, allowed) =
          signal_of-offset updated bar.close updated.ema_fast.value updated.ema_slow.value
            updated.atr.value offset (rw usable at h) in
        (
          unfold update_indicators in
              record {
                close_price = found.close_price;
                converted = found.converted;
                between = found.between;
              },
          allowed,
        ))
    | inr unusable ↦
        let after_test = rw unusable at h in absurd (unfold clear_macro_signal in cc after_test)
  ]

  -- When a bar leads to an entry price below a bid, the price is positive and is the bid less an
  -- offset that lies between the configured least and greatest share of the bar's close, and the
  -- trend and the volatility allow an entry.
  pub entry_price_from_bid-update_from_bar :
      (s : SignalState F D) (bar : MarketBar F) (bid price : D)
      → entry_price_from_bid (update_from_bar s bar).0 bid ≡ ok (some price)
      → (offset : D) × (price ≡ bid - offset)
        × (d.zero ≺ price)
        × IsOffsetOf s bar.close offset
        × (entry_allowed_without_offset (update_from_bar s bar).0 ≡ true)
  unfolding entry_price_from_bid
  entry_price_from_bid-update_from_bar s bar bid price h =
      let (offset, found, below, positive) =
        price_below-inv bid price (update_from_bar s bar).0.current_atr_offset h in
      let (of_close, allowed) = updated-offset s bar offset found in
      (offset, below, positive, of_close, allowed)
