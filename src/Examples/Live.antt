-- ===== src/Examples/Live.antt =====
-- okx-market-model/src/level2.rs at work: a snapshot, an increment and a gap on whole numbers.
use okx_rust_trading.Common.{ℕ, ◌≡◌, ◌≤◌, ◌⊎◌, refl, true, false, List, [], ◌∷◌, length, ok, err}
use okx_rust_trading.Common.Int.{ℤ, ◌+ℤ◌, pos, negsuc}
use okx_rust_trading.Order.{int_ord}
use okx_rust_trading.BTreeMap.{get, insert, remove, first_key_value, last_key_value}
use okx_rust_trading.Decimal.Integers.{int_decimal}
use okx_rust_trading.PublicProtocol.Books.{OkxLevel2Action, OkxLevel2Level}
use okx_rust_trading.Level2.Publish.{calculate_features, feature_snapshot}
use okx_rust_trading.Level2.{
  new, invalidate, finish_features, snapshot_sides, apply_snapshot, increment_sides, advance,
  apply_at, apply_increment, apply_with_clock,
}
use okx_rust_trading.Level2.Types.{
  OkxLevel2Book, OkxLevel2FeatureSnapshot, OkxLevel2Update, Instant, features,
  feature_rolling_window, sequence_gap,
}
use okx_rust_trading.Level2.Sides.{
  apply_from, apply_side, build_snapshot_side, build_from, trim_loop, trim_to_depth, validate_book,
}
use okx_rust_trading.Level2.Invariant.Reach.{
  Reaches, fresh, applied, Reaches-live, Reaches-IsCleared, Reaches-bounded,
}
use okx_rust_trading.Level2.Invariant.{IsLiveBook, IsCleared}
use okx_rust_trading.Level2.Outcomes.{IsPrecondition, IsShut, apply_fails_closed}
use okx_rust_trading.Level2.Acceptance.{Continues, Restarts, increment-Continues, snapshot-Restarts}
use okx_rust_trading.Examples.{btc_usdt, level_at}

abbrev update_of :
    OkxLevel2Action → List (OkxLevel2Level ℤ) → List (OkxLevel2Level ℤ) → ℕ → ℤ → OkxLevel2Update ℤ
update_of action asks bids sequence_id previous = record {
  instrument_id = btc_usdt;
  action = action;
  payload = record {
    asks = asks;
    bids = bids;
    ts = pos 1000;
    sequence_id = pos sequence_id;
    previous_sequence_id = previous;
  };
  received_at = 1000;
  parsed_at = 2000;
}

abbrev first_snapshot : OkxLevel2Update ℤ
first_snapshot =
    update_of OkxLevel2Action.snapshot (level_at 101 2 1 ∷ level_at 102 4 2 ∷ [])
      (level_at 100 3 1 ∷ level_at 99 5 2 ∷ []) 7 (negsuc 0)

abbrev next_increment : OkxLevel2Update ℤ
next_increment =
    update_of OkxLevel2Action.update (level_at 101 5 2 ∷ []) (level_at 99 0 0 ∷ []) 8 (pos 7)

abbrev late_increment : OkxLevel2Update ℤ
late_increment = update_of OkxLevel2Action.update (level_at 101 5 2 ∷ []) [] 10 (pos 9)

abbrev clock : ℕ → Instant
clock n = 3000

abbrev fresh_book : OkxLevel2Book ℤ
fresh_book = new btc_usdt

abbrev live_book : OkxLevel2Book ℤ
live_book = (apply_with_clock fresh_book first_snapshot clock).0

live_book-Reaches : Reaches btc_usdt live_book
live_book-Reaches = applied fresh_book first_snapshot clock fresh

live_book_valid : live_book.valid ≡ true
unfolding apply_with_clock apply_snapshot snapshot_sides finish_features calculate_features
    feature_snapshot new build_snapshot_side build_from validate_book get insert first_key_value
    last_key_value ◌+ℤ◌
live_book_valid = refl

snapshot_accepted :
    (f : OkxLevel2FeatureSnapshot ℤ) × ((apply_with_clock fresh_book first_snapshot clock).1
      ≡ ok (features f))
unfolding apply_with_clock apply_snapshot snapshot_sides finish_features calculate_features
    feature_snapshot new build_snapshot_side build_from validate_book get insert first_key_value
    last_key_value ◌+ℤ◌
snapshot_accepted = (_, refl)

increment_accepted :
    (f : OkxLevel2FeatureSnapshot ℤ) × ((apply_with_clock live_book next_increment clock).1
      ≡ ok (features f))
unfolding apply_with_clock apply_snapshot snapshot_sides finish_features calculate_features
    feature_snapshot new build_snapshot_side build_from validate_book get insert first_key_value
    last_key_value ◌+ℤ◌ apply_increment apply_at advance increment_sides apply_side apply_from
    trim_to_depth trim_loop remove
increment_accepted = (_, refl)

gap_refused :
    (apply_with_clock live_book late_increment clock).1
    ≡ err (sequence_gap (pos 7) (pos 9) (pos 10))
unfolding apply_with_clock apply_snapshot snapshot_sides finish_features calculate_features
    feature_snapshot new build_snapshot_side build_from validate_book get insert first_key_value
    last_key_value ◌+ℤ◌ apply_increment apply_at
gap_refused = refl

gap_shuts : (apply_with_clock live_book late_increment clock).0.valid ≡ false
unfolding apply_with_clock apply_snapshot snapshot_sides finish_features calculate_features
    feature_snapshot new build_snapshot_side build_from validate_book get insert first_key_value
    last_key_value ◌+ℤ◌ apply_increment apply_at invalidate
gap_shuts = refl

Reaches-live_example : IsLiveBook live_book
Reaches-live_example = Reaches-live btc_usdt live_book live_book-Reaches live_book_valid

Reaches-IsCleared_example : IsCleared (apply_with_clock live_book late_increment clock).0
Reaches-IsCleared_example =
    Reaches-IsCleared btc_usdt (apply_with_clock live_book late_increment clock).0
      (applied live_book late_increment clock live_book-Reaches) gap_shuts

Reaches-bounded_example : length live_book.points ≤ feature_rolling_window
Reaches-bounded_example = Reaches-bounded btc_usdt live_book live_book-Reaches

apply_fails_closed_example :
    (IsPrecondition live_book late_increment (sequence_gap (pos 7) (pos 9) (pos 10))
      × ((apply_with_clock live_book late_increment clock).0 ≡ live_book))
    ⊎ IsShut (apply_with_clock live_book late_increment clock).0
apply_fails_closed_example =
    apply_fails_closed btc_usdt live_book late_increment clock
      (sequence_gap (pos 7) (pos 9) (pos 10)) live_book-Reaches gap_refused

increment-Continues_example :
    Continues live_book next_increment (apply_with_clock live_book next_increment clock).0
increment-Continues_example =
    increment-Continues btc_usdt live_book next_increment clock increment_accepted.0
      live_book-Reaches refl increment_accepted.1

snapshot-Restarts_example :
    Restarts fresh_book first_snapshot (apply_with_clock fresh_book first_snapshot clock).0
snapshot-Restarts_example =
    snapshot-Restarts fresh_book first_snapshot clock snapshot_accepted.0 refl snapshot_accepted.1
