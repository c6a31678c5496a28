-- ===== src/PublicProtocol/Books.antt =====
-- okx-public-protocol/src/lib.rs: the `books` channel. `serde_json` is a parameter: it gives the rows
-- of a payload with their strings, which the program's own deserializers read.
pub mod Levels
pub mod Messages
use okx_rust_trading.Common.{
  ℕ, Bool, true, false, not, ◌&&◌, ◌||◌, Option, none, some, List, [], ◌∷◌, ltb, ◌==◌, length,
  if◌then◌else◌, is_some, Result, ok, err, ◌>>=◌, ◌>>◌, ensure, ok_or,
}
use okx_rust_trading.Common.Int.{ℤ, pos, leb_ℤ}
use okx_rust_trading.Order.{Ord, lt?, le?, eq?}
use okx_rust_trading.BTreeMap.{BTreeMap, get, insert}
use okx_rust_trading.Text.{Str, eq_str, parse_u64, parse_i64}
use okx_rust_trading.Decimal.{Decimal}
use okx_rust_trading.PublicProtocol.Instrument.{OkxSpotInstrumentId}
use okx_rust_trading.PublicProtocol.Error.{
  DeError, invalid_json, level_length, price_not_decimal, quantity_not_decimal, price_not_positive,
  quantity_negative, deprecated_field, order_count_not_integer, removal_order_count,
  live_order_count, timestamp_not_integer, timestamp_not_positive, OkxPublicProtocolError,
  unsupported_action, unsupported_channel, instrument_mismatch, malformed_payload,
  unexpected_row_count, duplicate_price, try_from,
}

pub data OkxLevel2Action : Type 0 where
  snapshot update : OkxLevel2Action

pub record OkxLevel2Level (D : Type 0) : Type 0 where
  pub price : D
  pub quantity : D
  pub order_count : ℕ

pub record OkxLevel2Data (D : Type 0) : Type 0 where
  pub asks : List (OkxLevel2Level D)
  pub bids : List (OkxLevel2Level D)
  pub ts : ℤ
  pub sequence_id : ℤ
  pub previous_sequence_id : ℤ

pub record ValidatedBooksMessage (D : Type 0) : Type 0 where
  pub instrument_id : OkxSpotInstrumentId
  pub action : OkxLevel2Action
  pub payload : OkxLevel2Data D

-- What serde_json reads of a row of the payload: the rest is read below.
pub record RawLevel2Data : Type 0 where
  pub asks : List (List Str)
  pub bids : List (List Str)
  pub ts : Str
  pub seq_id : ℤ
  pub prev_seq_id : ℤ

abbrev pub okx_level2_books_channel : Str
okx_level2_books_channel = b'b' ∷ b'o' ∷ b'o' ∷ b'k' ∷ b's' ∷ []

abbrev snapshot_text : Str
snapshot_text = b's' ∷ b'n' ∷ b'a' ∷ b'p' ∷ b's' ∷ b'h' ∷ b'o' ∷ b't' ∷ []

abbrev update_text : Str
update_text = b'u' ∷ b'p' ∷ b'd' ∷ b'a' ∷ b't' ∷ b'e' ∷ []

module _ {D : Type 0} where
  -- `OkxLevel2Action::parse`.
  unfoldable pub parse_action : Str → Result OkxLevel2Action (OkxPublicProtocolError D)
  parse_action value =
      if eq_str value snapshot_text
      then ok snapshot
      else if eq_str value update_text
      then ok update
      else err (unsupported_action value)

  -- The answer to a payload for another instrument, whose identity is validated first.
  unfoldable pub mismatch {ℓ} :
      {A : Type ℓ} → OkxSpotInstrumentId → Str → Result A (OkxPublicProtocolError D)
  mismatch expected_instrument received_instrument = do
    received ← try_from received_instrument
    err (instrument_mismatch expected_instrument received)

  abbrev exactly_one : List (OkxLevel2Data D) → Result (OkxLevel2Data D) (OkxPublicProtocolError D)
  exactly_one [] = err (unexpected_row_count 0)
  exactly_one (row ∷ []) = ok row
  exactly_one (row ∷ next ∷ rows) = err (unexpected_row_count (length (row ∷ next ∷ rows)))

-- `positive_i64_string`.
unfoldable pub positive_i64_string : Str → Result ℤ DeError
positive_i64_string text = do
  value ← ok_or (parse_i64 text) timestamp_not_integer
  ensure (not (leb_ℤ value (pos 0))) timestamp_not_positive
  ok value

module _ {D : Type 0} ⦃o : Ord D⦄ ⦃d : Decimal D⦄ where
  -- `Deserialize for OkxLevel2Level`, of a row of four strings.
  unfoldable pub deserialize_row : Str → Str → Str → Str → Result (OkxLevel2Level D) DeError
  deserialize_row row0 row1 row2 row3 = do
    price ← ok_or (d.from_str row0) price_not_decimal
    quantity ← ok_or (d.from_str row1) quantity_not_decimal
    ensure (not (le? price d.zero)) price_not_positive
    ensure (not (lt? quantity d.zero)) quantity_negative
    ensure (eq_str row2 (b'0' ∷ [])) deprecated_field
    order_count ← ok_or (parse_u64 row3) order_count_not_integer
    ensure (not (eq? quantity d.zero && not (order_count == 0))) removal_order_count
    ensure (not (lt? d.zero quantity && order_count == 0)) live_order_count
    ok (record { price = price; quantity = quantity; order_count = order_count })

  unfoldable pub deserialize_level : List Str → Result (OkxLevel2Level D) DeError
  unfolding deserialize_row
  deserialize_level (row0 ∷ row1 ∷ row2 ∷ row3 ∷ []) = deserialize_row row0 row1 row2 row3
  deserialize_level _ = err level_length

  unfoldable pub deserialize_levels : List (List Str) → Result (List (OkxLevel2Level D)) DeError
  unfolding deserialize_level
  deserialize_levels [] = ok []
  deserialize_levels (row ∷ rows) = do
    level ← deserialize_level row
    levels ← deserialize_levels rows
    ok (level ∷ levels)

  -- `Deserialize for OkxLevel2Data`.
  unfoldable pub deserialize_data : RawLevel2Data → Result (OkxLevel2Data D) DeError
  unfolding deserialize_levels positive_i64_string
  deserialize_data raw = do
    asks ← deserialize_levels raw.asks
    bids ← deserialize_levels raw.bids
    ts ← positive_i64_string raw.ts
    ok (record {
      asks = asks;
      bids = bids;
      ts = ts;
      sequence_id = raw.seq_id;
      previous_sequence_id = raw.prev_seq_id;
    })

  unfoldable pub deserialize_rows : List RawLevel2Data → Result (List (OkxLevel2Data D)) DeError
  unfolding deserialize_data
  deserialize_rows [] = ok []
  deserialize_rows (raw ∷ raws) = do
    row ← deserialize_data raw
    rows ← deserialize_rows raws
    ok (row ∷ rows)

  -- The inner loop of `reject_duplicate_book_levels`, over the set of the prices seen.
  unfoldable pub reject_duplicates_from :
      BTreeMap D (Unit {0}) → List (OkxLevel2Level D) → Result (Unit {0}) (OkxPublicProtocolError D)
  reject_duplicates_from prices [] = ok tt
  reject_duplicates_from prices (level ∷ levels) =
      let rest = reject_duplicates_from (insert level.price tt prices) levels in
      if is_some (get level.price prices) then err (duplicate_price level.price) else rest

  unfoldable pub reject_duplicate_book_levels :
      ValidatedBooksMessage D → Result (Unit {0}) (OkxPublicProtocolError D)
  unfolding reject_duplicates_from
  reject_duplicate_book_levels message = do
    reject_duplicates_from [] message.payload.asks
    reject_duplicates_from [] message.payload.bids

  unfoldable pub read_rows :
      Option (List RawLevel2Data) → Result (List (OkxLevel2Data D)) (OkxPublicProtocolError D)
  unfolding deserialize_rows
  read_rows json = elim (do raws ← ok_or json invalid_json; deserialize_rows raws) [
    | ok rows ↦ ok rows
    | err error ↦ err (malformed_payload error)
  ]

  abbrev without_duplicates :
      ValidatedBooksMessage D → Result (ValidatedBooksMessage D) (OkxPublicProtocolError D)
  without_duplicates message = do reject_duplicate_book_levels message; ok message

  -- What follows the checks of the channel and of the identity.
  unfoldable pub parse_expected :
      Option (List RawLevel2Data)
      → OkxSpotInstrumentId
      → Str
      → Result (ValidatedBooksMessage D) (OkxPublicProtocolError D)
  unfolding parse_action reject_duplicate_book_levels read_rows
  parse_expected json expected_instrument action = do
    kind ← parse_action action
    rows ← read_rows json
    row ← exactly_one rows
    without_duplicates
        (record { instrument_id = expected_instrument; action = kind; payload = row })

  unfoldable pub parse_books_message :
      (Str → Option (List RawLevel2Data))
      → OkxSpotInstrumentId
      → Str
      → Str
      → Str
      → Str
      → Result (ValidatedBooksMessage D) (OkxPublicProtocolError D)
  unfolding mismatch parse_expected
  parse_books_message json expected_instrument channel received_instrument action data_json =
      if not (eq_str channel okx_level2_books_channel)
      then err (unsupported_channel channel)
      else if not (eq_str received_instrument expected_instrument.as_str)
      then mismatch expected_instrument received_instrument
      else parse_expected (json data_json) expected_instrument action
