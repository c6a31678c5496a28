-- ===== src/Examples/Sides.antt =====
-- The sides of a live book and their features at work on whole numbers.
use okx_rust_trading.Common.{◌≡◌, ◌↔◌, refl, true, List, [], ◌∷◌, map, ok, drop, take, length}
use Prim.Native.Nat.{◌-◌}
use okx_rust_trading.Common.Int.{ℤ, pos}
use okx_rust_trading.Order.{int_ord}
use okx_rust_trading.BTreeMap.{get, insert, remove}
use okx_rust_trading.Decimal.Integers.{int_decimal, int_decimal-IsLawful}
use okx_rust_trading.PublicProtocol.Books.{OkxLevel2Level, OkxLevel2Action, reject_duplicates_from}
use okx_rust_trading.PublicProtocol.Books.Levels.{Distinct, reject_duplicates_iff}
use okx_rust_trading.Level2.Publish.{feature_snapshot}
use okx_rust_trading.Level2.{new}
use okx_rust_trading.Level2.Types.{
  BookSide, OkxLevel2Book, OkxLevel2Update, Side, okx_level2_max_depth,
}
use okx_rust_trading.Level2.Sides.{
  level_of, apply_from, apply_side, build_from, build_snapshot_side, trim_to_depth,
}
use okx_rust_trading.Level2.Sides.Laws.{live_levels, to_list, get-build_snapshot_side}
use okx_rust_trading.Level2.Sides.Increments.{find_update, updated, get-apply_side}
use okx_rust_trading.Level2.Sides.Trim.{trim_to_depth_lem}
use okx_rust_trading.Level2.Features.Bounds.{IsInRange, feature_snapshot-IsInRange}
use okx_rust_trading.Examples.{btc_usdt, level_at}

abbrev two_levels : List (OkxLevel2Level ℤ)
two_levels = level_at 101 2 1 ∷ level_at 103 0 0 ∷ level_at 102 4 2 ∷ []

abbrev two_asks : Side ℤ
two_asks =
    (pos 101, record { quantity = pos 2; order_count = 1 })
    ∷ (pos 102, record { quantity = pos 4; order_count = 2 })
    ∷ []

abbrev one_bid : Side ℤ
one_bid = (pos 100, record { quantity = pos 3; order_count = 1 }) ∷ []

built : build_snapshot_side two_levels ≡ ok two_asks
unfolding build_snapshot_side build_from get insert
built = refl

get-build_snapshot_side_example :
    to_list (get (pos 102) two_asks) ≡ map level_of (live_levels (pos 102) two_levels)
get-build_snapshot_side_example = get-build_snapshot_side (pos 102) two_levels two_asks built

abbrev changes : List (OkxLevel2Level ℤ)
changes = level_at 101 0 0 ∷ level_at 104 6 1 ∷ []

changes_taken : (apply_side two_asks changes).1 ≡ ok tt
unfolding apply_side apply_from get insert remove
changes_taken = refl

get-apply_side_example :
    get (pos 101) (apply_side two_asks changes).0
    ≡ updated (find_update (pos 101) changes) (get (pos 101) two_asks)
get-apply_side_example =
    get-apply_side (pos 101) changes two_asks ((refl, tt), (tt, tt)) changes_taken

trim_to_depth_lem_example :
    (trim_to_depth two_asks BookSide.bid ≡ drop (length two_asks - okx_level2_max_depth) two_asks)
    × (trim_to_depth two_asks BookSide.ask ≡ take okx_level2_max_depth two_asks)
trim_to_depth_lem_example = trim_to_depth_lem two_asks ((refl, tt), (tt, tt))

reject_duplicates_iff_example : (reject_duplicates_from [] two_levels ≡ ok tt) ↔ Distinct two_levels
reject_duplicates_iff_example = reject_duplicates_iff two_levels

abbrev sided_book : OkxLevel2Book ℤ
sided_book = record (new btc_usdt) { bids = one_bid; asks = two_asks; valid = true }

abbrev an_update : OkxLevel2Update ℤ
an_update = record {
  instrument_id = btc_usdt;
  action = OkxLevel2Action.update;
  payload = record {
    asks = [];
    bids = [];
    ts = pos 1000;
    sequence_id = pos 8;
    previous_sequence_id = pos 7;
  };
  received_at = 1000;
  parsed_at = 2000;
}

feature_snapshot-IsInRange_example :
    IsInRange int_decimal-IsLawful
      (feature_snapshot sided_book an_update 3000 4000
        (pos 100, record { quantity = pos 3; order_count = 1 })
        (pos 101, record { quantity = pos 2; order_count = 1 })).1
feature_snapshot-IsInRange_example =
    feature_snapshot-IsInRange int_decimal-IsLawful sided_book an_update 3000 4000
      (pos 100, record { quantity = pos 3; order_count = 1 })
      (pos 101, record { quantity = pos 2; order_count = 1 }) ((refl, refl), tt)
      ((refl, refl), ((refl, refl), tt))
