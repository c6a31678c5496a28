-- ===== src/Examples/Replay.antt =====
-- okx-market-model/src/replay_book.rs at work: a snapshot, an update and foreign events.
use okx_rust_trading.Common.{ℕ, ◌≡◌, ◌<◌, ◌↔◌, ◌⊎◌, refl, true, some, List, [], ◌∷◌, ok, reverse}
use okx_rust_trading.Common.Int.{ℤ, ◌+ℤ◌, ◌-ℤ◌, pos}
use okx_rust_trading.Order.{int_ord, le?, ◌≺◌}
use okx_rust_trading.BTreeMap.{get, insert, remove, first_key_value, last_key_value}
use okx_rust_trading.Decimal.{sum}
use okx_rust_trading.Decimal.Integers.{int_decimal, int_decimal-IsLawful}
use okx_rust_trading.PublicProtocol.Instrument.{OkxSpotInstrumentId}
use okx_rust_trading.ReplayBook.Types.{
  BookAction, LevelUpdate, SequencedBookEventView, HistoricalBookEventView, OrderBook, ApplyOutcome,
  default_outcome,
}
use okx_rust_trading.ReplayBook.{
  new, ensure_instrument, begin_levels, apply_level, apply_side_from, apply_side, apply_levels,
  finish_apply, apply_checked, apply, apply_historical,
}
use okx_rust_trading.ReplayBook.Levels.{first_update, after, get-apply_side-first_update}
use okx_rust_trading.ReplayBook.Trust.{IsWellFormed, IsReliable}
use okx_rust_trading.ReplayBook.Runs.{
  Operation, applies, step, run, run-new-IsWellFormed, run-new-IsReliable,
}
use okx_rust_trading.ReplayBook.Outcomes.{IsClean, apply_trusted_iff}
use okx_rust_trading.ReplayBook.Foreign.{
  IsDecidedBy, own_operations, refuses_foreign_events, run-own_operations,
}
use okx_rust_trading.ReplayBook.Queries.{quantities, depth_imbalance}
use okx_rust_trading.ReplayBook.Queries.Laws.{HasPrices, trusted_prices, depth_imbalance_bounds}
use okx_rust_trading.Examples.{btc_usdt}

abbrev eth_usdt : OkxSpotInstrumentId
eth_usdt = record { as_str = b'E' ∷ b'T' ∷ b'H' ∷ b'-' ∷ b'U' ∷ b'S' ∷ b'D' ∷ b'T' ∷ [] }

abbrev level_update : ℕ → ℕ → LevelUpdate ℤ
level_update price quantity = record { price = pos price; quantity = pos quantity; order_count = 1 }

abbrev snapshot_event : SequencedBookEventView ℤ
snapshot_event = record {
  instrument_id = btc_usdt;
  action = BookAction.snapshot;
  asks = level_update 101 2 ∷ level_update 102 4 ∷ [];
  bids = level_update 100 3 ∷ level_update 99 5 ∷ [];
  sequence_epoch = 1;
  sequence_id = pos 7;
}

abbrev update_event : SequencedBookEventView ℤ
update_event = record {
  instrument_id = btc_usdt;
  action = BookAction.update;
  asks = level_update 101 5 ∷ [];
  bids = level_update 99 0 ∷ [];
  sequence_epoch = 1;
  sequence_id = pos 8;
}

abbrev foreign_event : SequencedBookEventView ℤ
foreign_event = record {
  instrument_id = eth_usdt;
  action = BookAction.snapshot;
  asks = [];
  bids = [];
  sequence_epoch = 1;
  sequence_id = pos 7;
}

abbrev foreign_archived : HistoricalBookEventView ℤ
foreign_archived = record {
  instrument_id = eth_usdt;
  action = BookAction.update;
  asks = [];
  bids = [];
  research_epoch = 3;
}

abbrev replayed : List (Operation ℤ)
replayed = applies snapshot_event ∷ applies update_event ∷ []

abbrev replayed_book : OrderBook ℤ
replayed_book = run (new btc_usdt) replayed

replayed_trusted : replayed_book.trusted ≡ true
unfolding run step new ensure_instrument begin_levels apply_level apply_side_from apply_side
    apply_levels finish_apply apply_checked apply get insert remove first_key_value last_key_value
replayed_trusted = refl

run-new-IsReliable_example : IsReliable replayed_book
run-new-IsReliable_example = run-new-IsReliable btc_usdt replayed replayed_trusted

run-new-IsWellFormed_example : IsWellFormed replayed_book
run-new-IsWellFormed_example = run-new-IsWellFormed btc_usdt replayed

apply_trusted_iff_example :
    (out : ApplyOutcome) × ((apply replayed_book update_event).1 ≡ ok out)
    × (((apply replayed_book update_event).0.trusted ≡ true) ↔ (
        ((update_event.action ≡ BookAction.snapshot) ⊎ (replayed_book.trusted ≡ true))
        × IsClean out))
unfolding run step new apply ensure_instrument apply_checked finish_apply apply_levels apply_side
    apply_side_from apply_level get insert begin_levels remove
apply_trusted_iff_example = apply_trusted_iff replayed_book update_event refl

refuses_foreign_events_example :
    IsDecidedBy eth_usdt replayed_book (apply replayed_book foreign_event)
    × IsDecidedBy eth_usdt replayed_book (apply_historical replayed_book foreign_archived)
refuses_foreign_events_example = refuses_foreign_events replayed_book foreign_event foreign_archived

run-own_operations_example :
    run (new btc_usdt) (applies foreign_event ∷ replayed)
    ≡ run (new btc_usdt) (
        own_operations {D = ℤ}
          (new {D = ℤ} btc_usdt).instrument_id
          (applies foreign_event ∷ replayed))
run-own_operations_example = run-own_operations (new btc_usdt) (applies foreign_event ∷ replayed)

trusted_prices_example : HasPrices int_decimal-IsLawful replayed_book
trusted_prices_example = trusted_prices int_decimal-IsLawful btc_usdt replayed replayed_trusted

replayed_imbalance : depth_imbalance replayed_book 1 ≡ some (pos 0)
unfolding run step new ensure_instrument begin_levels apply_level apply_side_from apply_side
    apply_levels finish_apply apply_checked apply get insert remove first_key_value last_key_value
    depth_imbalance quantities ◌+ℤ◌ sum ◌-ℤ◌
replayed_imbalance = refl

depth_imbalance_bounds_example :
    (0 < 1)
    × (pos 0
        ≺ sum (quantities 1 (reverse replayed_book.bids)) +ℤ sum (quantities 1 replayed_book.asks))
    × (le? (pos 0 -ℤ pos 1) (pos 0) ≡ true)
    × (le? (pos 0) (pos 1) ≡ true)
depth_imbalance_bounds_example =
    depth_imbalance_bounds int_decimal-IsLawful replayed_book 1 (pos 0)
      (run-new-IsWellFormed btc_usdt replayed) replayed_imbalance

get-apply_side-first_update_example :
    get
      (pos 101)
      (apply_side replayed_book.asks
        (level_update 101 9 ∷ level_update 101 4 ∷ [])
        default_outcome).0
    ≡ after
        (first_update (pos 101) (level_update 101 9 ∷ level_update 101 4 ∷ []))
        (get (pos 101) replayed_book.asks)
get-apply_side-first_update_example =
    get-apply_side-first_update (pos 101) replayed_book.asks
      (level_update 101 9 ∷ level_update 101 4 ∷ []) default_outcome
      (run-new-IsWellFormed btc_usdt replayed).asks_sorted
