-- ===== src/Level2.antt =====
-- okx-market-model/src/level2.rs: the live Level-2 book. Its operations return the book as they
-- leave it, with the outcome. The clock of the consumer is a function from the number of a call to
-- the instant that the call observes.
pub mod Types
pub mod Sides
pub mod Features
pub mod Publish
pub mod Cases
pub mod GoodSides
pub mod Invariant
pub mod Outcomes
pub mod Acceptance
pub mod Thick
use okx_rust_trading.Common.{
  ℕ, suc, Bool, true, false, not, ◌&&◌, ◌||◌, Option, none, some, List, [], ◌∷◌, ltb, length,
  is_empty, if◌then◌else◌, saturating_add, Result, ok, err, ◌>>=◌, ◌>>◌,
}
use okx_rust_trading.Common.Int.{ℤ, leb_ℤ, beq_ℤ}
use okx_rust_trading.Order.{Ord, lt?, le?}
use okx_rust_trading.BTreeMap.{first_key_value, last_key_value}
use okx_rust_trading.Decimal.{Decimal, ◌+◌, ◌-◌, ◌*◌, ◌/◌}
use okx_rust_trading.PublicProtocol.Instrument.{OkxSpotInstrumentId, eq_instrument}
use okx_rust_trading.PublicProtocol.Books.{OkxLevel2Action, OkxLevel2Data}
use Types.{
  BookLevel, BookSide, Instant, OkxLevel2ApplyOutcome, OkxLevel2Book, OkxLevel2BookError,
  OkxLevel2FeatureSnapshot, OkxLevel2Update, Side, crossed_book, depth_overflow, empty_side,
  features, heartbeat, instrument_mismatch, okx_level2_max_depth, regressing_sequence, sequence_gap,
  update_before_snapshot, zero_denominator,
}
use Sides.{apply_side, build_snapshot_side, trim_to_depth, validate_book}
use Features.{
  depth_slope, depth_to_move, distance_weighted_imbalance, imbalance, liquidity_vacuum,
  near_book_depth, notional_imbalance,
}
use Features.Rolling.{rolling_features}
use Publish.{calculate_features}

module _ {D : Type 0} where
  unfoldable pub new : OkxSpotInstrumentId → OkxLevel2Book D
  new instrument_id = record {
    instrument_id = instrument_id;
    bids = [];
    asks = [];
    valid = false;
    epoch = 0;
    generation = 0;
    sequence_id = none;
    features = none;
    points = [];
  }

  unfoldable pub invalidate : OkxLevel2Book D → OkxLevel2Book D
  invalidate book = record book {
    bids = [];
    asks = [];
    valid = false;
    sequence_id = none;
    features = none;
    points = [];
  }

  -- The method `features`: none of an invalid book.
  unfoldable pub current_features : OkxLevel2Book D → Option (OkxLevel2FeatureSnapshot D)
  current_features book = if book.valid then book.features else none

-- What an application of an update answers.
abbrev pub Answer : Type 0 → Type 0
Answer D = Result (OkxLevel2ApplyOutcome D) (OkxLevel2BookError D)

module _ {D : Type 0} ⦃o : Ord D⦄ ⦃d : Decimal D⦄ where
  -- `finish_features` with the handling of its error, which both callers share: the clock is
  -- observed once before the features and once behind them.
  unfoldable pub finish_features :
      OkxLevel2Book D → OkxLevel2Update D → (ℕ → Instant) → OkxLevel2Book D × Answer D
  finish_features book update observe_now =
      let (book', result) = calculate_features book update (observe_now 0) (observe_now 1) in
      elim result [
        | err error ↦ (invalidate book', err error)
        | ok snapshot ↦ (record book' { features = some snapshot }, ok (features snapshot))
      ]

  -- The sides of a snapshot, checked before the book is touched.
  unfoldable pub snapshot_sides : OkxLevel2Data D → Result (Side D × Side D) (OkxLevel2BookError D)
  snapshot_sides payload =
      if ltb okx_level2_max_depth (length payload.asks)
        || ltb okx_level2_max_depth (length payload.bids)
      then err depth_overflow
      else (do
        bids ← build_snapshot_side payload.bids
        asks ← build_snapshot_side payload.asks
        validate_book bids asks
        ok (bids, asks))

  unfoldable pub apply_snapshot :
      OkxLevel2Book D → OkxLevel2Update D → (ℕ → Instant) → OkxLevel2Book D × Answer D
  apply_snapshot book update observe_now = elim (snapshot_sides update.payload) [
    | err error ↦ (invalidate book, err error)
    | ok sides ↦
        finish_features
          (record book {
            bids = sides.0;
            asks = sides.1;
            valid = true;
            epoch = saturating_add book.epoch 1;
            generation = saturating_add book.generation 1;
            sequence_id = some update.payload.sequence_id;
            points = [];
          })
          update observe_now
  ]

  -- The changes of an increment that follows on: each side updated, cut to the depth, checked.
  unfoldable pub increment_sides :
      OkxLevel2Book D → OkxLevel2Data D → Result (Side D × Side D) (OkxLevel2BookError D)
  increment_sides book payload =
      let (updated_bids, bids_verdict) = apply_side book.bids payload.bids in
      let (updated_asks, asks_verdict) = apply_side book.asks payload.asks in
      let bids = trim_to_depth updated_bids BookSide.bid in
      let asks = trim_to_depth updated_asks BookSide.ask in
      (do bids_verdict; asks_verdict; validate_book bids asks; ok (bids, asks))

  -- An increment whose sequence follows on.
  unfoldable pub advance :
      OkxLevel2Book D → OkxLevel2Update D → (ℕ → Instant) → OkxLevel2Book D × Answer D
  advance book update observe_now = elim (increment_sides book update.payload) [
    | err error ↦ (invalidate book, err error)
    | ok sides ↦
        finish_features
          (record book {
            bids = sides.0;
            asks = sides.1;
            generation = saturating_add book.generation 1;
            sequence_id = some update.payload.sequence_id;
          })
          update observe_now
  ]

  -- An increment of a valid book at a sequence id.
  unfoldable pub apply_at :
      OkxLevel2Book D → ℤ → OkxLevel2Update D → (ℕ → Instant) → OkxLevel2Book D × Answer D
  apply_at book current update observe_now =
      let payload = update.payload in
      if is_empty payload.asks
        && is_empty payload.bids
        && beq_ℤ payload.sequence_id current
        && beq_ℤ payload.previous_sequence_id current
      then (book, ok heartbeat)
      else if not (beq_ℤ payload.previous_sequence_id current)
      then (
        invalidate book,
        err (sequence_gap current payload.previous_sequence_id payload.sequence_id),
      )
      else if leb_ℤ payload.sequence_id current
      then (invalidate book, err (regressing_sequence current payload.sequence_id))
      else advance book update observe_now

  unfoldable pub apply_increment :
      OkxLevel2Book D → OkxLevel2Update D → (ℕ → Instant) → OkxLevel2Book D × Answer D
  apply_increment book update observe_now =
      if not book.valid then (book, err update_before_snapshot) else elim book.sequence_id [
        | none ↦ (book, err update_before_snapshot)
        | some current ↦ apply_at book current update observe_now
      ]

  abbrev pub dispatch :
      OkxLevel2Action
      → OkxLevel2Book D
      → OkxLevel2Update D
      → (ℕ → Instant)
      → OkxLevel2Book D × Answer D
  dispatch OkxLevel2Action.snapshot book update observe_now = apply_snapshot book update observe_now
  dispatch OkxLevel2Action.update book update observe_now = apply_increment book update observe_now

  unfoldable pub apply_with_clock :
      OkxLevel2Book D → OkxLevel2Update D → (ℕ → Instant) → OkxLevel2Book D × Answer D
  apply_with_clock book update observe_now =
      if not (eq_instrument update.instrument_id book.instrument_id)
      then (book, err (instrument_mismatch book.instrument_id update.instrument_id))
      else dispatch update.action book update observe_now

  -- `apply` observes the instant of parsing each time.
  unfoldable pub apply : OkxLevel2Book D → OkxLevel2Update D → OkxLevel2Book D × Answer D
  apply book update = apply_with_clock book update (λ _. update.parsed_at)
