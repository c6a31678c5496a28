-- ===== src/Level2/Features.antt =====
-- okx-market-model/src/level2.rs: the features of the sides of a book.
pub mod Rolling
pub mod Bounds
use okx_rust_trading.Common.{
  ℕ, zero, suc, Bool, true, false, not, Option, none, some, List, [], ◌∷◌, map, foldl, reverse,
  take, take_while, get_elem?, if◌then◌else◌, unwrap_or,
}
use Prim.Native.Nat.{◌-◌ as monus}
use okx_rust_trading.Common.Int.{ℤ, pos, negsuc}
use okx_rust_trading.Order.{Ord, lt?, le?}
use okx_rust_trading.BTreeMap.{BTreeMap, first_key_value, last_key_value}
use okx_rust_trading.Decimal.{Decimal, ◌+◌, ◌-◌, ◌*◌, ◌/◌, sum, min, clamp}
use okx_rust_trading.Level2.Types.{
  BookLevel, Side, OkxNearBookDepth, OkxDepthMove, OkxDepthSlope, okx_level2_max_depth,
  basis_points_per_unit,
}
use okx_rust_trading.Level2.Sides.{price_of}

abbrev or_else {ℓ} : {A : Type ℓ} → Option A → Option A → Option A
or_else none b = b
or_else (some a) b = some a

module _ {D : Type 0} ⦃d : Decimal D⦄ where
  -- The quantities, and the notionals, of the first levels of a side from its best price.
  unfoldable pub quantities : ℕ → Side D → List D
  quantities levels side = map (λ (e : D × BookLevel D). e.1.quantity) (take levels side)

  unfoldable pub notionals : ℕ → Side D → List D
  notionals levels side = map (λ (e : D × BookLevel D). e.0 * e.1.quantity) (take levels side)

  -- `enumerate` from an index, each quantity over its rank.
  unfoldable pub ranked : ℕ → Side D → List D
  ranked index [] = []
  ranked index ((price, level) ∷ side) =
      (level.quantity / d.from_u64 (suc index)) ∷ ranked (suc index) side

  add_level : D × D → D × BookLevel D → D × D
  add_level (quantity, notional) (price, level) =
      (quantity + level.quantity, notional + price * level.quantity)

  unfoldable pub side_depth : Side D → D × D
  unfolding add_level
  side_depth levels = foldl add_level (d.zero, d.zero) levels

  unfoldable pub near_book_depth : Side D → Side D → ℕ → OkxNearBookDepth D
  near_book_depth bids asks levels =
      let bid = side_depth (take levels (reverse bids)) in
      let ask = side_depth (take levels asks) in
      record {
        bid_quantity_l10 = bid.0;
        ask_quantity_l10 = ask.0;
        bid_notional_l10 = bid.1;
        ask_notional_l10 = ask.1;
      }

module _ {D : Type 0} ⦃o : Ord D⦄ ⦃d : Decimal D⦄ where
  unfoldable pub signed_ratio : D → D → D
  signed_ratio bid ask =
      let total = bid + ask in if le? total d.zero then d.zero else (bid - ask) / total

  unfoldable pub positive_ratio : D → D → D
  positive_ratio numerator denominator =
      if le? numerator d.zero
      then d.zero
      else if le? denominator d.zero
      then d.zero
      else numerator / denominator

  unfoldable pub imbalance : Side D → Side D → ℕ → D
  imbalance bids asks levels =
      signed_ratio (sum (quantities levels (reverse bids))) (sum (quantities levels asks))

  unfoldable pub distance_weighted_imbalance : Side D → Side D → D
  distance_weighted_imbalance bids asks =
      signed_ratio (sum (ranked 0 (take okx_level2_max_depth (reverse bids))))
        (sum (ranked 0 (take okx_level2_max_depth asks)))

  unfoldable pub notional_imbalance : Side D → Side D → ℕ → D
  notional_imbalance bids asks levels =
      signed_ratio (sum (notionals levels (reverse bids))) (sum (notionals levels asks))

  unfoldable pub depth_to_move : Side D → Side D → D → ℕ → OkxDepthMove D
  depth_to_move bids asks mid basis_points =
      let fraction = d.from_u64 basis_points / d.from_u64 basis_points_per_unit in
      let bid_floor = mid * (d.one - fraction) in
      let ask_ceiling = mid * (d.one + fraction) in
      let bid =
        side_depth (take_while (λ (e : D × BookLevel D). le? bid_floor e.0) (reverse bids)) in
      let ask = side_depth (take_while (λ (e : D × BookLevel D). le? e.0 ask_ceiling) asks) in
      record {
        bid_quantity = bid.0;
        ask_quantity = ask.0;
        bid_notional = bid.1;
        ask_notional = ask.1;
      }

  -- `levels.saturating_sub(1)` is the index of the last level that counts.
  unfoldable pub depth_slope : Side D → Side D → D → ℕ → OkxDepthSlope D
  depth_slope bids asks mid levels =
      let bid_quantity = sum (quantities levels (reverse bids)) in
      let ask_quantity = sum (quantities levels asks) in
      let bid_edge =
        unwrap_or
          (price_of (or_else (get_elem? (reverse bids) (monus levels 1)) (first_key_value bids)))
          mid in
      let ask_edge =
        unwrap_or (price_of (or_else (get_elem? asks (monus levels 1)) (last_key_value asks)))
          mid in
      let scale = d.from_u64 basis_points_per_unit in
      record {
        bid_bps_per_base_unit = positive_ratio ((mid - bid_edge) * scale) (mid * bid_quantity);
        ask_bps_per_base_unit = positive_ratio ((ask_edge - mid) * scale) (mid * ask_quantity);
      }

  unfoldable pub liquidity_vacuum : Side D → Side D → D
  liquidity_vacuum bids asks =
      let near_bid = sum (notionals 5 (reverse bids)) in
      let near_ask = sum (notionals 5 asks) in
      let deep_bid = sum (notionals 50 (reverse bids)) in
      let deep_ask = sum (notionals 50 asks) in
      let near_share = min (positive_ratio near_bid deep_bid) (positive_ratio near_ask deep_ask) in
      clamp (d.one - near_share) d.zero d.one

  -- An i8: 1, -1 or 0.
  unfoldable pub decimal_sign : D → ℤ
  decimal_sign value =
      if lt? d.zero value then pos 1 else if lt? value d.zero then negsuc 0 else pos 0

  unfoldable pub absolute_return_bps : D → D → D
  absolute_return_bps previous current =
      if le? previous d.zero
      then d.zero
      else d.abs (current - previous) / previous * d.from_u64 basis_points_per_unit
