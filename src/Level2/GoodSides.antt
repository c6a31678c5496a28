-- ===== src/Level2/GoodSides.antt =====
-- okx-market-model/src/level2.rs: the sides that an update may put into a book.
use okx_rust_trading.Common.{
  ◌≤◌, ◌≡◌, some, arith, length, All, All-take, All-drop, ok, inl, inr, Option-cases,
}
use okx_rust_trading.Order.{Ord, ◌≺◌}
use okx_rust_trading.BTreeMap.{first_key_value, last_key_value}
use okx_rust_trading.BTreeMap.Order.{IsSorted, take-IsSorted, drop-IsSorted}
use okx_rust_trading.Decimal.{Decimal}
use okx_rust_trading.PublicProtocol.Books.{OkxLevel2Data}
use okx_rust_trading.PublicProtocol.Books.Levels.{IsLevel}
use okx_rust_trading.Level2.Types.{Side, BookLevel, BookSide, OkxLevel2Book, okx_level2_max_depth}
use okx_rust_trading.Level2.Sides.{apply_side, build_snapshot_side, trim_to_depth, validate_book}
use okx_rust_trading.Level2.Sides.Laws.{
  IsLive, build_snapshot_side-IsSorted, build_snapshot_side-IsLive, length-build_snapshot_side,
}
use okx_rust_trading.Level2.Sides.Increments.{apply_side-IsSorted, apply_side-IsLive}
use okx_rust_trading.Level2.Sides.Trim.{trim_to_depth_lem, trim_to_depth_bounded}
use okx_rust_trading.Level2.{snapshot_sides, increment_sides}

module _ {D : Type 0} ⦃o : Ord D⦄ where
  -- Both sides have an end, and the bid lies below the ask.
  pub record HasEnds (bids asks : Side D) (bid ask : D × BookLevel D) : Type 0 where
    pub last : last_key_value bids ≡ some bid
    pub first : first_key_value asks ≡ some ask
    pub uncrossed : bid.0 ≺ ask.0

  pub record IsGood (sides : Side D × Side D) : Type 0 where
    pub bids_sorted : IsSorted sides.0
    pub asks_sorted : IsSorted sides.1
    pub bids_bounded : length sides.0 ≤ okx_level2_max_depth
    pub asks_bounded : length sides.1 ≤ okx_level2_max_depth
    pub bid : D × BookLevel D
    pub ask : D × BookLevel D
    pub ends : HasEnds sides.0 sides.1 bid ask

  pub validate_book-HasEnds :
      (bids asks : Side D)
      → validate_book bids asks ≡ ok tt
      → (e : D × BookLevel D) × (f : D × BookLevel D) × HasEnds bids asks e f
  unfolding validate_book
  validate_book-HasEnds bids asks h = elim (Option-cases (last_key_value bids)) [
    | inl no_bid ↦ absurd (ground arith)
    | inr (e, last) ↦ elim (Option-cases (first_key_value asks)) [
      | inl no_ask ↦ absurd (ground arith)
      | inr (f, first) ↦ (
        e,
        f,
        record { last = last; first = first; uncrossed = ground (arith, o.cmp_flip f.0 e.0) },
      )
    ]
  ]

  pub trim-IsSorted :
      (side : Side D) (b : BookSide) → IsSorted side → IsSorted (trim_to_depth side b)
  trim-IsSorted side BookSide.bid s = rw ((trim_to_depth_lem side s).0) (drop-IsSorted _ side s)
  trim-IsSorted side BookSide.ask s =
      rw ((trim_to_depth_lem side s).1) (take-IsSorted okx_level2_max_depth side s)

  -- Trimming keeps a property of the entries.
  pub trim-All {κ} :
      (P : D × BookLevel D → Type κ) (side : Side D) (b : BookSide)
      → IsSorted side
      → All P side
      → All P (trim_to_depth side b)
  trim-All P side BookSide.bid s a = rw ((trim_to_depth_lem side s).0) (All-drop P _ side a)
  trim-All P side BookSide.ask s a =
      rw ((trim_to_depth_lem side s).1) (All-take P okx_level2_max_depth side a)

  module _ ⦃d : Decimal D⦄ where
    abbrev pub AllLive : Side D × Side D → Type 0
    AllLive sides = All IsLive sides.0 × All IsLive sides.1

    -- The levels of an update are those that the protocol accepts.
    abbrev pub HasLevels : OkxLevel2Data D → Type 0
    HasLevels payload = All IsLevel payload.bids × All IsLevel payload.asks

    pub snapshot_stages :
        (payload : OkxLevel2Data D) (sides : Side D × Side D)
        → snapshot_sides payload ≡ ok sides
        → (length payload.asks ≤ okx_level2_max_depth)
          × (length payload.bids ≤ okx_level2_max_depth)
          × (build_snapshot_side payload.bids ≡ ok sides.0)
          × (build_snapshot_side payload.asks ≡ ok sides.1)
          × (validate_book sides.0 sides.1 ≡ ok tt)
    unfolding snapshot_sides
    snapshot_stages payload sides h = ground arith

    pub snapshot_sides-IsGood :
        (payload : OkxLevel2Data D) (sides : Side D × Side D)
        → snapshot_sides payload ≡ ok sides
        → IsGood sides
    snapshot_sides-IsGood payload sides h =
        let (few_asks, few_bids, built_bids, built_asks, checked) =
          snapshot_stages payload sides h in
        let (bid, ask, ends) = validate_book-HasEnds sides.0 sides.1 checked in
        record {
          bids_sorted = build_snapshot_side-IsSorted payload.bids sides.0 built_bids;
          asks_sorted = build_snapshot_side-IsSorted payload.asks sides.1 built_asks;
          bids_bounded =
              omega (arith, length-build_snapshot_side payload.bids sides.0 built_bids, few_bids);
          asks_bounded =
              omega (arith, length-build_snapshot_side payload.asks sides.1 built_asks, few_asks);
          bid = bid;
          ask = ask;
          ends = ends;
        }

    pub snapshot_sides-AllLive :
        (payload : OkxLevel2Data D) (sides : Side D × Side D)
        → HasLevels payload
        → snapshot_sides payload ≡ ok sides
        → AllLive sides
    snapshot_sides-AllLive payload sides ls h =
        let (few_asks, few_bids, built_bids, built_asks, checked) =
          snapshot_stages payload sides h in
        (
          build_snapshot_side-IsLive payload.bids sides.0 ls.0 built_bids,
          build_snapshot_side-IsLive payload.asks sides.1 ls.1 built_asks,
        )

    pub increment_stages :
        (book : OkxLevel2Book D) (payload : OkxLevel2Data D) (sides : Side D × Side D)
        → increment_sides book payload ≡ ok sides
        → ((apply_side book.bids payload.bids).1 ≡ ok tt)
          × ((apply_side book.asks payload.asks).1 ≡ ok tt)
          × (sides.0 ≡ trim_to_depth (apply_side book.bids payload.bids).0 BookSide.bid)
          × (sides.1 ≡ trim_to_depth (apply_side book.asks payload.asks).0 BookSide.ask)
          × (validate_book sides.0 sides.1 ≡ ok tt)
    unfolding increment_sides
    increment_stages book payload sides h = ground arith

    pub increment_sides-IsGood :
        (book : OkxLevel2Book D) (payload : OkxLevel2Data D) (sides : Side D × Side D)
        → IsSorted book.bids
        → IsSorted book.asks
        → increment_sides book payload ≡ ok sides
        → IsGood sides
    increment_sides-IsGood book payload sides sb sa h =
        let (_, _, bids, asks, checked) = increment_stages book payload sides h in
        let (bid, ask, ends) = validate_book-HasEnds sides.0 sides.1 checked in
        let updated_bids = apply_side-IsSorted book.bids payload.bids sb in
        let updated_asks = apply_side-IsSorted book.asks payload.asks sa in
        record {
          bids_sorted = rw bids (trim-IsSorted _ BookSide.bid updated_bids);
          asks_sorted = rw asks (trim-IsSorted _ BookSide.ask updated_asks);
          bids_bounded = rw bids (trim_to_depth_bounded _ BookSide.bid updated_bids);
          asks_bounded = rw asks (trim_to_depth_bounded _ BookSide.ask updated_asks);
          bid = bid;
          ask = ask;
          ends = ends;
        }

    pub increment_sides-AllLive :
        (book : OkxLevel2Book D) (payload : OkxLevel2Data D) (sides : Side D × Side D)
        → IsSorted book.bids
        → IsSorted book.asks
        → HasLevels payload
        → AllLive (book.bids, book.asks)
        → increment_sides book payload ≡ ok sides
        → AllLive sides
    increment_sides-AllLive book payload sides sb sa ls a h =
        let (_, _, bids, asks, checked) = increment_stages book payload sides h in
        (
          rw bids (
              trim-All IsLive _ BookSide.bid (apply_side-IsSorted book.bids payload.bids sb)
                (apply_side-IsLive book.bids payload.bids ls.0 a.0)),
          rw asks (
              trim-All IsLive _ BookSide.ask (apply_side-IsSorted book.asks payload.asks sa)
                (apply_side-IsLive book.asks payload.asks ls.1 a.1)),
        )
