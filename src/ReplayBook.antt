-- ===== src/ReplayBook.antt =====
-- okx-market-model/src/replay_book.rs: the order book that replays an archive. The counters of an
-- outcome are bounded by the length of the event, and are left unbounded here.
pub mod Types
pub mod Levels
pub mod Trust
pub mod Runs
pub mod Outcomes
pub mod Foreign
pub mod Queries
use okx_rust_trading.Common.{
  ℕ, suc, ◌+◌, Bool, true, false, not, ◌&&◌, ◌||◌, Option, none, some, List, [], ◌∷◌, ltb, length,
  if◌then◌else◌, is_some, is_none, is_empty, from_bool, Result, ok, err,
}
use okx_rust_trading.Common.Int.{ℤ}
use okx_rust_trading.Order.{Ord, lt?, le?, eq?}
use okx_rust_trading.BTreeMap.{BTreeMap, get, insert, remove, first_key_value, last_key_value}
use okx_rust_trading.Decimal.{Decimal}
use okx_rust_trading.PublicProtocol.Instrument.{OkxSpotInstrumentId, eq_instrument}
use Types.{
  BookAction, LevelUpdate, SequencedBookEventView, HistoricalBookEventView, BookLevel, OrderBook,
  ApplyOutcome, OkxReplayBookError, default_outcome, snapshot, update, instrument_mismatch,
}

-- The conditions of `finish_apply` under which the outcome ends the trust.
abbrev pub is_faulty : ApplyOutcome → Bool
is_faulty outcome =
    ltb 0 outcome.invalid_levels
    || ltb 0 outcome.duplicate_levels
    || ltb 0 outcome.non_monotonic_snapshot_sides
    || ltb 0 outcome.update_before_snapshot
    || ltb 0 outcome.depth_overflow

module _ {D : Type 0} where
  unfoldable pub new : OkxSpotInstrumentId → OrderBook D
  new instrument_id = record {
    instrument_id = instrument_id;
    bids = [];
    asks = [];
    trusted = false;
    has_snapshot = false;
    sequence_epoch = none;
    sequence_id = none;
  }

  unfoldable pub reset : OrderBook D → OrderBook D
  reset book = record book {
    bids = [];
    asks = [];
    trusted = false;
    has_snapshot = false;
    sequence_epoch = none;
    sequence_id = none;
  }

  unfoldable pub mark_untrusted : OrderBook D → OrderBook D
  mark_untrusted book = record book { trusted = false }

  unfoldable pub ensure_instrument :
      OrderBook D → OkxSpotInstrumentId → Result (Unit {0}) OkxReplayBookError
  ensure_instrument book received =
      if eq_instrument received book.instrument_id
      then ok tt
      else err (instrument_mismatch book.instrument_id received)

module _ {D : Type 0} ⦃o : Ord D⦄ where
  -- `windows(2).all(...)`.
  unfoldable pub strictly_increasing : List (LevelUpdate D) → Bool
  strictly_increasing [] = true
  strictly_increasing (a ∷ []) = true
  strictly_increasing (a ∷ b ∷ levels) = lt? a.price b.price && strictly_increasing (b ∷ levels)

  unfoldable pub strictly_decreasing : List (LevelUpdate D) → Bool
  strictly_decreasing [] = true
  strictly_decreasing (a ∷ []) = true
  strictly_decreasing (a ∷ b ∷ levels) = lt? b.price a.price && strictly_decreasing (b ∷ levels)

  module _ ⦃d : Decimal D⦄ where
    -- One update of a side, if its price is new to `seen`.
    unfoldable pub apply_level :
        Bool
        → LevelUpdate D
        → BTreeMap D (BookLevel D)
        → ApplyOutcome
        → BTreeMap D (BookLevel D) × ApplyOutcome
    apply_level duplicate u side outcome =
        if duplicate
        then (side, record outcome { duplicate_levels = suc outcome.duplicate_levels })
        else if le? u.price d.zero || lt? u.quantity d.zero
        then (side, record outcome { invalid_levels = suc outcome.invalid_levels })
        else if eq? u.quantity d.zero
        then (
          remove u.price side,
          record outcome {
            unknown_removals = outcome.unknown_removals + from_bool (is_none (get u.price side));
          },
        )
        else (
          insert u.price (record { quantity = u.quantity; order_count = u.order_count }) side,
          outcome,
        )

    -- The loop of `apply_side`, over the set of the prices seen.
    unfoldable pub apply_side_from :
        BTreeMap D (Unit {0})
        → List (LevelUpdate D)
        → BTreeMap D (BookLevel D)
        → ApplyOutcome
        → BTreeMap D (BookLevel D) × ApplyOutcome
    apply_side_from seen [] side outcome = (side, outcome)
    apply_side_from seen (u ∷ updates) side outcome =
        let (side', outcome') = apply_level (is_some (get u.price seen)) u side outcome in
        apply_side_from (insert u.price tt seen) updates side' outcome'

    unfoldable pub apply_side :
        BTreeMap D (BookLevel D)
        → List (LevelUpdate D)
        → ApplyOutcome
        → BTreeMap D (BookLevel D) × ApplyOutcome
    apply_side side updates outcome = apply_side_from [] updates side outcome

    -- The head of `apply_levels`: what a snapshot clears, and what an early update costs.
    unfoldable pub begin_levels :
        OrderBook D
        → BookAction
        → List (LevelUpdate D)
        → List (LevelUpdate D)
        → OrderBook D × ApplyOutcome
    unfolding strictly_increasing strictly_decreasing
    begin_levels book snapshot asks bids = (
      record book { bids = []; asks = []; trusted = true; has_snapshot = true },
      record default_outcome {
        non_monotonic_snapshot_sides =
            from_bool (not (strictly_increasing asks)) + from_bool (not (strictly_decreasing bids));
      },
    )
    begin_levels book update asks bids =
        if not book.has_snapshot
        then (
          record book { trusted = false },
          record default_outcome { update_before_snapshot = 1 },
        )
        else (book, default_outcome)

    unfoldable pub apply_levels :
        OrderBook D
        → BookAction
        → List (LevelUpdate D)
        → List (LevelUpdate D)
        → OrderBook D × ApplyOutcome
    apply_levels book action asks bids =
        let (started, outcome) = begin_levels book action asks bids in
        let (asks', outcome') = apply_side started.asks asks outcome in
        let (bids', outcome'') = apply_side started.bids bids outcome' in
        (record started { asks = asks'; bids = bids' }, outcome'')

    -- Both sides have a best price, and the bid is not below the ask.
    abbrev pub crosses : Option (D × BookLevel D) → Option (D × BookLevel D) → Bool
    crosses none ask = false
    crosses (some (bid, b)) none = false
    crosses (some (bid, b)) (some (ask, a)) = le? ask bid

    abbrev pub is_crossed : OrderBook D → Bool
    is_crossed book = crosses (last_key_value book.bids) (first_key_value book.asks)

    count_depth : OrderBook D → ApplyOutcome → ApplyOutcome
    count_depth book outcome =
        if ltb 400 (length book.bids) || ltb 400 (length book.asks)
        then record outcome { depth_overflow = suc outcome.depth_overflow }
        else outcome

    check_faults : OrderBook D → ApplyOutcome → OrderBook D
    check_faults book outcome = if is_faulty outcome then record book { trusted = false } else book

    check_sides : OrderBook D → ApplyOutcome → OrderBook D × ApplyOutcome
    unfolding first_key_value last_key_value
    check_sides book outcome =
        if is_empty book.bids || is_empty book.asks
        then (
          record book { trusted = false },
          record outcome { empty_sides = suc outcome.empty_sides },
        )
        else if is_crossed book
        then (record book { trusted = false }, record outcome { crossed = suc outcome.crossed })
        else (book, outcome)

    unfoldable pub finish_apply : OrderBook D → ApplyOutcome → OrderBook D × ApplyOutcome
    unfolding count_depth check_faults check_sides
    finish_apply book outcome =
        let outcome' = count_depth book outcome in check_sides (check_faults book outcome') outcome'

    -- What `apply` and `apply_historical` share once the instrument is checked: the levels, the
    -- identity of the sequence, the checks.
    unfoldable pub apply_checked :
        OrderBook D
        → BookAction
        → List (LevelUpdate D)
        → List (LevelUpdate D)
        → Option ℕ
        → Option ℤ
        → OrderBook D × Result ApplyOutcome OkxReplayBookError
    apply_checked book action asks bids epoch id =
        let (book', outcome) = apply_levels book action asks bids in
        let (book'', outcome') =
          finish_apply (record book' { sequence_epoch = epoch; sequence_id = id }) outcome in
        (book'', ok outcome')

    unfoldable pub apply :
        OrderBook D
        → SequencedBookEventView D
        → OrderBook D × Result ApplyOutcome OkxReplayBookError
    apply book event = elim (ensure_instrument book event.instrument_id) [
      | err error ↦ (book, err error)
      | ok _ ↦
          apply_checked book event.action event.asks event.bids (some event.sequence_epoch)
            (some event.sequence_id)
    ]

    unfoldable pub apply_historical :
        OrderBook D
        → HistoricalBookEventView D
        → OrderBook D × Result ApplyOutcome OkxReplayBookError
    apply_historical book event = elim (ensure_instrument book event.instrument_id) [
      | err error ↦ (book, err error)
      | ok _ ↦
          apply_checked book event.action event.asks event.bids (some event.research_epoch) none
    ]
