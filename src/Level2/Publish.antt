-- ===== src/Level2/Publish.antt =====
-- okx-market-model/src/level2.rs: `calculate_features`, and the snapshot that it makes.
use okx_rust_trading.Common.{Option, none, some, length, if◌then◌else◌, Result, ok, err}
use okx_rust_trading.Order.{Ord, le?}
use okx_rust_trading.BTreeMap.{first_key_value, last_key_value}
use okx_rust_trading.Decimal.{Decimal, ◌+◌, ◌-◌, ◌*◌, ◌/◌}
use okx_rust_trading.Level2.Types.{
  BookLevel, Instant, OkxLevel2Book, OkxLevel2BookError, OkxLevel2FeatureSnapshot, OkxLevel2Update,
  empty_side, okx_level2_max_depth, zero_denominator,
}
use okx_rust_trading.Level2.Features.{
  depth_slope, depth_to_move, distance_weighted_imbalance, imbalance, liquidity_vacuum,
  near_book_depth, notional_imbalance,
}
use okx_rust_trading.Level2.Features.Rolling.{rolling_features}

module _ {D : Type 0} ⦃o : Ord D⦄ ⦃d : Decimal D⦄ where
  -- The snapshot of the features of a book with these ends, and the book with its new point.
  unfoldable pub feature_snapshot :
      OkxLevel2Book D
      → OkxLevel2Update D
      → Instant
      → Instant
      → D × BookLevel D
      → D × BookLevel D
      → OkxLevel2Book D × OkxLevel2FeatureSnapshot D
  feature_snapshot book update book_applied_at features_ready_at bid ask =
      let best_bid = bid.0 in
      let best_ask = ask.0 in
      let spread = best_ask - best_bid in
      let mid = (best_ask + best_bid) / d.two in
      let top_quantity = bid.1.quantity + ask.1.quantity in
      let classic_microprice =
        (best_ask * bid.1.quantity + best_bid * ask.1.quantity) / top_quantity in
      let imbalance_l10 = imbalance book.bids book.asks 10 in
      let weighted = distance_weighted_imbalance book.bids book.asks in
      let multi_level_microprice = mid + spread * weighted / d.two in
      let rolling = rolling_features book.points mid imbalance_l10 update.received_at in
      (
        record book { points = rolling.0 },
        record {
          instrument_id = book.instrument_id;
          epoch = book.epoch;
          generation = book.generation;
          sequence_id = update.payload.sequence_id;
          exchange_ts_ms = update.payload.ts;
          received_at = update.received_at;
          parsed_at = update.parsed_at;
          book_applied_at = book_applied_at;
          features_ready_at = features_ready_at;
          bid_level_count = length book.bids;
          ask_level_count = length book.asks;
          best_bid = best_bid;
          best_ask = best_ask;
          mid = mid;
          spread = spread;
          classic_microprice = classic_microprice;
          multi_level_microprice = multi_level_microprice;
          microprice_displacement = multi_level_microprice - mid;
          imbalance_l1 = imbalance book.bids book.asks 1;
          imbalance_l3 = imbalance book.bids book.asks 3;
          imbalance_l5 = imbalance book.bids book.asks 5;
          imbalance_l10 = imbalance_l10;
          imbalance_l25 = imbalance book.bids book.asks 25;
          imbalance_l50 = imbalance book.bids book.asks 50;
          imbalance_l100 = imbalance book.bids book.asks 100;
          imbalance_l200 = imbalance book.bids book.asks 200;
          imbalance_l400 = imbalance book.bids book.asks 400;
          distance_weighted_imbalance = weighted;
          notional_imbalance = notional_imbalance book.bids book.asks okx_level2_max_depth;
          near_book_depth = near_book_depth book.bids book.asks 10;
          depth_move_1bps = depth_to_move book.bids book.asks mid 1;
          depth_move_2bps = depth_to_move book.bids book.asks mid 2;
          depth_move_5bps = depth_to_move book.bids book.asks mid 5;
          depth_move_10bps = depth_to_move book.bids book.asks mid 10;
          depth_slope = depth_slope book.bids book.asks mid 10;
          liquidity_vacuum = liquidity_vacuum book.bids book.asks;
          imbalance_velocity_per_second = rolling.1;
          imbalance_persistence = rolling.2;
          short_horizon_book_volatility_bps = rolling.3;
        },
      )

  -- The guards of `calculate_features`: both ends, and a positive quantity on top.
  abbrev top_of :
      Option (D × BookLevel D)
      → Option (D × BookLevel D)
      → Result ((D × BookLevel D) × (D × BookLevel D)) (OkxLevel2BookError D)
  top_of none ask = err empty_side
  top_of (some bid) none = err empty_side
  top_of (some bid) (some ask) =
      if le? (bid.1.quantity + ask.1.quantity) d.zero then err zero_denominator else ok (bid, ask)

  unfoldable pub calculate_features :
      OkxLevel2Book D
      → OkxLevel2Update D
      → Instant
      → Instant
      → OkxLevel2Book D × Result (OkxLevel2FeatureSnapshot D) (OkxLevel2BookError D)
  calculate_features book update book_applied_at features_ready_at =
      elim (top_of (last_key_value book.bids) (first_key_value book.asks)) [
        | err error ↦ (book, err error)
        | ok top ↦
            let (book', snapshot) =
              feature_snapshot book update book_applied_at features_ready_at top.0 top.1 in
            (book', ok snapshot)
      ]
