-- ===== src/ReplayBook/Types.antt =====
-- okx-market-model/src/replay_book.rs: the data of the replayed book. The counters of an outcome are
-- bounded by the length of the event, and are left unbounded here.
use okx_rust_trading.Common.{ℕ, Bool, Option, List}
use okx_rust_trading.Common.Int.{ℤ}
use okx_rust_trading.BTreeMap.{BTreeMap}
use okx_rust_trading.PublicProtocol.Instrument.{OkxSpotInstrumentId}

pub data BookAction : Type 0 where
  snapshot update : BookAction

pub record LevelUpdate (D : Type 0) : Type 0 where
  pub price : D
  pub quantity : D
  pub order_count : ℕ

-- The two views of an event: what their methods return.
pub record SequencedBookEventView (D : Type 0) : Type 0 where
  pub instrument_id : OkxSpotInstrumentId
  pub action : BookAction
  pub asks : List (LevelUpdate D)
  pub bids : List (LevelUpdate D)
  pub sequence_epoch : ℕ
  pub sequence_id : ℤ

pub record HistoricalBookEventView (D : Type 0) : Type 0 where
  pub instrument_id : OkxSpotInstrumentId
  pub action : BookAction
  pub asks : List (LevelUpdate D)
  pub bids : List (LevelUpdate D)
  pub research_epoch : ℕ

pub record BookLevel (D : Type 0) : Type 0 where
  pub quantity : D
  pub order_count : ℕ

pub record OrderBook (D : Type 0) : Type 0 where
  pub instrument_id : OkxSpotInstrumentId
  pub bids : BTreeMap D (BookLevel D)
  pub asks : BTreeMap D (BookLevel D)
  pub trusted : Bool
  pub has_snapshot : Bool
  pub sequence_epoch : Option ℕ
  pub sequence_id : Option ℤ

pub record ApplyOutcome : Type 0 where
  pub invalid_levels : ℕ
  pub unknown_removals : ℕ
  pub duplicate_levels : ℕ
  pub non_monotonic_snapshot_sides : ℕ
  pub update_before_snapshot : ℕ
  pub depth_overflow : ℕ
  pub empty_sides : ℕ
  pub crossed : ℕ

abbrev pub default_outcome : ApplyOutcome
default_outcome = record {
  invalid_levels = 0;
  unknown_removals = 0;
  duplicate_levels = 0;
  non_monotonic_snapshot_sides = 0;
  update_before_snapshot = 0;
  depth_overflow = 0;
  empty_sides = 0;
  crossed = 0;
}

pub data OkxReplayBookError : Type 0 where
  instrument_mismatch : OkxSpotInstrumentId → OkxSpotInstrumentId → OkxReplayBookError
