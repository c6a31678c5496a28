-- ===== src/Level2/Sides.antt =====
-- okx-market-model/src/level2.rs: building, updating, trimming and checking the sides of a book.
pub mod Laws
pub mod Increments
pub mod Trim
use okx_rust_trading.Common.{
  ℕ, zero, suc, Bool, true, false, Option, none, some, List, [], ◌∷◌, ltb, length, if◌then◌else◌,
  is_some, is_none, Result, ok, err, ◌>>=◌, ok_or,
}
use okx_rust_trading.Order.{Ord, le?, eq?}
use okx_rust_trading.BTreeMap.{BTreeMap, get, insert, remove, first_key_value, last_key_value}
use okx_rust_trading.Decimal.{Decimal}
use okx_rust_trading.PublicProtocol.Books.{OkxLevel2Level}
use okx_rust_trading.Level2.Types.{
  Side, BookLevel, OkxLevel2BookError, duplicate_price, unknown_removal, empty_side, crossed_book,
  BookSide, bid, ask, okx_level2_max_depth,
}

module _ {D : Type 0} where
  abbrev pub level_of : OkxLevel2Level D → BookLevel D
  level_of u = record { quantity = u.quantity; order_count = u.order_count }

  abbrev pub price_of : Option (D × BookLevel D) → Option D
  price_of none = none
  price_of (some (price, level)) = some price

module _ {D : Type 0} ⦃o : Ord D⦄ where
  -- `validate_book`: both sides have a best price, the bid below the ask.
  unfoldable pub validate_book : Side D → Side D → Result (Unit {0}) (OkxLevel2BookError D)
  validate_book bids asks = do
    best_bid ← ok_or (price_of (last_key_value bids)) empty_side
    best_ask ← ok_or (price_of (first_key_value asks)) empty_side
    if le? best_ask best_bid then err (crossed_book best_bid best_ask) else ok tt

  -- The price that one round of `trim_to_depth` removes: the worst of the side.
  abbrev pub worst_price : BookSide → Side D → Option D
  worst_price bid side = price_of (first_key_value side)
  worst_price ask side = price_of (last_key_value side)

  -- The loop of `trim_to_depth`, on fuel: the length of the side is enough, since a round removes a
  -- level.
  unfoldable pub trim_loop : ℕ → Side D → BookSide → Side D
  trim_loop zero side book_side = side
  trim_loop (suc fuel) side book_side = elim (ltb okx_level2_max_depth (length side)) [
    | false ↦ side
    | true ↦ elim (worst_price book_side side) [
      | none ↦ side
      | some price ↦ trim_loop fuel (remove price side) book_side
    ]
  ]

  unfoldable pub trim_to_depth : Side D → BookSide → Side D
  unfolding trim_loop
  trim_to_depth side book_side = trim_loop (length side) side book_side

  module _ ⦃d : Decimal D⦄ where
    -- The loop of `build_snapshot_side`, which inserts before it looks at what was there.
    unfoldable pub build_from :
        Side D → List (OkxLevel2Level D) → Result (Side D) (OkxLevel2BookError D)
    build_from side [] = ok side
    build_from side (u ∷ updates) =
        let skip = build_from side updates in
        let rest = build_from (insert u.price (level_of u) side) updates in
        if eq? u.quantity d.zero
        then skip
        else if is_some (get u.price side)
        then err (duplicate_price u.price)
        else rest

    unfoldable pub build_snapshot_side :
        List (OkxLevel2Level D) → Result (Side D) (OkxLevel2BookError D)
    unfolding build_from
    build_snapshot_side updates = build_from [] updates

    -- The loop of `apply_side`, over the set of the prices seen: the side as it is left, and the
    -- verdict.
    unfoldable pub apply_from :
        BTreeMap D (Unit {0})
        → List (OkxLevel2Level D)
        → Side D
        → Side D × Result (Unit {0}) (OkxLevel2BookError D)
    apply_from seen [] side = (side, ok tt)
    apply_from seen (u ∷ updates) side =
        let removed = apply_from (insert u.price tt seen) updates (remove u.price side) in
        let stored =
          apply_from (insert u.price tt seen) updates (insert u.price (level_of u) side) in
        if is_some (get u.price seen)
        then (side, err (duplicate_price u.price))
        else if eq? u.quantity d.zero
        then if is_none (get u.price side) then (side, err (unknown_removal u.price)) else removed
        else stored

    unfoldable pub apply_side :
        Side D → List (OkxLevel2Level D) → Side D × Result (Unit {0}) (OkxLevel2BookError D)
    unfolding apply_from
    apply_side side updates = apply_from [] updates side
