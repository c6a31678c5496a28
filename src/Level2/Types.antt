-- ===== src/Level2/Types.antt =====
-- okx-market-model/src/level2.rs: the data of the live Level-2 book. An `Instant` is its number of
-- nanoseconds since a fixed start.
use okx_rust_trading.Common.{ℕ, Bool, Option, List}
use okx_rust_trading.Common.Int.{ℤ}
use okx_rust_trading.BTreeMap.{BTreeMap}
use okx_rust_trading.PublicProtocol.Instrument.{OkxSpotInstrumentId}
use okx_rust_trading.PublicProtocol.Books.{OkxLevel2Action, OkxLevel2Data, ValidatedBooksMessage}

abbrev pub Instant : Type 0
Instant = ℕ

abbrev pub okx_level2_max_depth : ℕ
okx_level2_max_depth = 400

abbrev pub feature_rolling_window : ℕ
feature_rolling_window = 32

abbrev pub basis_points_per_unit : ℕ
basis_points_per_unit = 10000

pub record OkxLevel2Update (D : Type 0) : Type 0 where
  pub instrument_id : OkxSpotInstrumentId
  pub action : OkxLevel2Action
  pub payload : OkxLevel2Data D
  pub received_at : Instant
  pub parsed_at : Instant

unfoldable pub from_validated :
    {D : Type 0} → ValidatedBooksMessage D → Instant → Instant → OkxLevel2Update D
from_validated message received_at parsed_at = record {
  instrument_id = message.instrument_id;
  action = message.action;
  payload = message.payload;
  received_at = received_at;
  parsed_at = parsed_at;
}

pub record OkxNearBookDepth (D : Type 0) : Type 0 where
  pub bid_quantity_l10 : D
  pub ask_quantity_l10 : D
  pub bid_notional_l10 : D
  pub ask_notional_l10 : D

pub record OkxDepthMove (D : Type 0) : Type 0 where
  pub bid_quantity : D
  pub ask_quantity : D
  pub bid_notional : D
  pub ask_notional : D

pub record OkxDepthSlope (D : Type 0) : Type 0 where
  pub bid_bps_per_base_unit : D
  pub ask_bps_per_base_unit : D

pub record OkxLevel2FeatureSnapshot (D : Type 0) : Type 0 where
  pub instrument_id : OkxSpotInstrumentId
  pub epoch : ℕ
  pub generation : ℕ
  pub sequence_id : ℤ
  pub exchange_ts_ms : ℤ
  pub received_at : Instant
  pub parsed_at : Instant
  pub book_applied_at : Instant
  pub features_ready_at : Instant
  pub bid_level_count : ℕ
  pub ask_level_count : ℕ
  pub best_bid : D
  pub best_ask : D
  pub mid : D
  pub spread : D
  pub classic_microprice : D
  pub multi_level_microprice : D
  pub microprice_displacement : D
  pub imbalance_l1 : D
  pub imbalance_l3 : D
  pub imbalance_l5 : D
  pub imbalance_l10 : D
  pub imbalance_l25 : D
  pub imbalance_l50 : D
  pub imbalance_l100 : D
  pub imbalance_l200 : D
  pub imbalance_l400 : D
  pub distance_weighted_imbalance : D
  pub notional_imbalance : D
  pub near_book_depth : OkxNearBookDepth D
  pub depth_move_1bps : OkxDepthMove D
  pub depth_move_2bps : OkxDepthMove D
  pub depth_move_5bps : OkxDepthMove D
  pub depth_move_10bps : OkxDepthMove D
  pub depth_slope : OkxDepthSlope D
  pub liquidity_vacuum : D
  pub imbalance_velocity_per_second : D
  pub imbalance_persistence : D
  pub short_horizon_book_volatility_bps : D

pub record BookLevel (D : Type 0) : Type 0 where
  pub quantity : D
  pub order_count : ℕ

pub record RollingFeaturePoint (D : Type 0) : Type 0 where
  pub mid : D
  pub imbalance_l10 : D
  pub received_at : Instant

abbrev pub Side : Type 0 → Type 0
Side D = BTreeMap D (BookLevel D)

pub record OkxLevel2Book (D : Type 0) : Type 0 where
  pub instrument_id : OkxSpotInstrumentId
  pub bids : Side D
  pub asks : Side D
  pub valid : Bool
  pub epoch : ℕ
  pub generation : ℕ
  pub sequence_id : Option ℤ
  pub features : Option (OkxLevel2FeatureSnapshot D)
  pub points : List (RollingFeaturePoint D)

pub data OkxLevel2ApplyOutcome (D : Type 0) : Type 0 where
  features : OkxLevel2FeatureSnapshot D → OkxLevel2ApplyOutcome D
  heartbeat : OkxLevel2ApplyOutcome D

pub data OkxLevel2BookError (D : Type 0) : Type 0 where
  instrument_mismatch : OkxSpotInstrumentId → OkxSpotInstrumentId → OkxLevel2BookError D
  update_before_snapshot : OkxLevel2BookError D
  sequence_gap : ℤ → ℤ → ℤ → OkxLevel2BookError D
  regressing_sequence : ℤ → ℤ → OkxLevel2BookError D
  duplicate_price : D → OkxLevel2BookError D
  unknown_removal : D → OkxLevel2BookError D
  empty_side : OkxLevel2BookError D
  crossed_book : D → D → OkxLevel2BookError D
  depth_overflow : OkxLevel2BookError D
  zero_denominator : OkxLevel2BookError D

pub data BookSide : Type 0 where
  bid ask : BookSide
