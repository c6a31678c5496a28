-- ===== src/PublicProtocol/Books/Messages.antt =====
-- The `books` channel: what a message that `parse_books_message` accepts satisfies.
use okx_rust_trading.Common.{
  ◌≡◌, ◌≢◌, refl, subst, ap, ◌∙◌, true, Option, none, some, List, [], ◌∷◌, arith, All, ok,
  >>=-eq-ok,
}
use okx_rust_trading.Common.Int.{ℤ, pos, ltb_ℤ}
use okx_rust_trading.Order.{Ord}
use okx_rust_trading.Text.{Str, eq_of_eq_str}
use okx_rust_trading.Decimal.{Decimal}
use okx_rust_trading.PublicProtocol.Instrument.{OkxSpotInstrumentId}
use okx_rust_trading.PublicProtocol.Books.{
  OkxLevel2Data, ValidatedBooksMessage, RawLevel2Data, okx_level2_books_channel, deserialize_data,
  deserialize_rows, positive_i64_string, reject_duplicate_book_levels, read_rows, exactly_one,
  without_duplicates, parse_action, parse_expected, parse_books_message, mismatch,
}
use okx_rust_trading.PublicProtocol.Books.Levels.{
  IsLevel, Distinct, deserialize_levels-IsLevel, reject_duplicates_iff,
}

positive_i64_string_pos :
    (text : Str) (value : ℤ) → positive_i64_string text ≡ ok value → ltb_ℤ (pos 0) value ≡ true
unfolding positive_i64_string
positive_i64_string_pos text value h = ground arith

module _ {D : Type 0} {A : Type 0} where
  pub mismatch_fails :
      (expected : OkxSpotInstrumentId) (received : Str) (a : A)
      → mismatch {D = D} expected received ≢ ok a
  unfolding mismatch
  mismatch_fails expected received a h = ground arith

module _ {D : Type 0} ⦃o : Ord D⦄ ⦃d : Decimal D⦄ where
  -- The data of one row: well-formed levels on both sides, and a positive time.
  pub record IsData (row : OkxLevel2Data D) : Type 0 where
    pub asks_levels : All IsLevel row.asks
    pub bids_levels : All IsLevel row.bids
    pub positive_ts : ltb_ℤ (pos 0) row.ts ≡ true

  -- An accepted message: of the expected instrument, with no price twice on a side.
  pub record IsMessage (expected : OkxSpotInstrumentId) (m : ValidatedBooksMessage D) : Type 0 where
    pub instrument : m.instrument_id ≡ expected
    pub row : IsData m.payload
    pub asks_distinct : Distinct m.payload.asks
    pub bids_distinct : Distinct m.payload.bids

  deserialize_data-IsData :
      (raw : RawLevel2Data) (row : OkxLevel2Data D) → deserialize_data raw ≡ ok row → IsData row
  unfolding deserialize_data
  deserialize_data-IsData raw row h = record {
    asks_levels = deserialize_levels-IsLevel raw.asks row.asks (ground arith);
    bids_levels = deserialize_levels-IsLevel raw.bids row.bids (ground arith);
    positive_ts = positive_i64_string_pos raw.ts row.ts (ground arith);
  }

  -- The only row of a payload, and what is read of it.
  abbrev pub HasOneRow : Option (List RawLevel2Data) → OkxLevel2Data D → Type 0
  HasOneRow json row =
      (raw : RawLevel2Data) × (json ≡ some (raw ∷ [])) × (deserialize_data raw ≡ ok row)

  deserialize_rows_one :
      (raws : List RawLevel2Data) (row : OkxLevel2Data D)
      → deserialize_rows raws ≡ ok (row ∷ [])
      → HasOneRow (some raws) row
  unfolding deserialize_rows
  deserialize_rows_one [] row h = cc
  deserialize_rows_one (raw ∷ []) row h = (raw, refl, ground arith)
  deserialize_rows_one (raw ∷ next ∷ raws) row h = absurd (ground arith)

  read_rows-HasOneRow :
      (json : Option (List RawLevel2Data)) (row : OkxLevel2Data D)
      → read_rows json ≡ ok (row ∷ [])
      → HasOneRow json row
  unfolding read_rows
  read_rows-HasOneRow none row h = cc
  read_rows-HasOneRow (some raws) row h = deserialize_rows_one raws row (ground arith)

  exactly_one_eq :
      (rows : List (OkxLevel2Data D)) (row : OkxLevel2Data D)
      → exactly_one rows ≡ ok row
      → rows ≡ row ∷ []
  exactly_one_eq [] row h = cc
  exactly_one_eq (r ∷ []) row h = ground arith
  exactly_one_eq (r ∷ s ∷ rows) row h = cc

  without_duplicates_eq :
      (m n : ValidatedBooksMessage D)
      → without_duplicates m ≡ ok n
      → (m ≡ n) × Distinct m.payload.asks × Distinct m.payload.bids
  unfolding reject_duplicate_book_levels
  without_duplicates_eq m n h = (
    ground arith,
    (reject_duplicates_iff m.payload.asks).0 (ground arith),
    (reject_duplicates_iff m.payload.bids).0 (ground arith),
  )

  parse_expected-IsMessage :
      (json : Option (List RawLevel2Data)) (expected : OkxSpotInstrumentId) (action : Str)
      (m : ValidatedBooksMessage D)
      → parse_expected json expected action ≡ ok m
      → (parse_action {D = D} action ≡ ok m.action)
        × IsMessage expected m
        × HasOneRow json m.payload
  unfolding parse_expected
  parse_expected-IsMessage json expected action m h =
      let (kind, k, h1) = >>=-eq-ok (parse_action {D = D} action) _ h in
      let (rows, r, h2) = >>=-eq-ok (read_rows json) _ h1 in
      let (row, one, h3) = >>=-eq-ok (exactly_one rows) _ h2 in
      let (same, asks, bids) = without_duplicates_eq _ m h3 in
      let (raw, only, read) =
        read_rows-HasOneRow json row (r ∙ ap ok (exactly_one_eq rows row one)) in
      subst
        (λ (n : ValidatedBooksMessage D).
          (parse_action {D = D} action ≡ ok n.action)
          × IsMessage expected n
          × HasOneRow json n.payload)
        same
        (
          k,
          record {
            instrument = refl;
            row = deserialize_data-IsData raw row read;
            asks_distinct = asks;
            bids_distinct = bids;
          },
          (raw, only, read),
        )

  -- What comes before the payload is read.
  parse_books_message_reads :
      (json : Str → Option (List RawLevel2Data)) (expected : OkxSpotInstrumentId)
      (channel received action data_json : Str) (m : ValidatedBooksMessage D)
      → parse_books_message json expected channel received action data_json ≡ ok m
      → (channel ≡ okx_level2_books_channel)
        × (received ≡ expected.as_str)
        × (parse_expected (json data_json) expected action ≡ ok m)
  unfolding parse_books_message
  parse_books_message_reads json expected channel received action data_json m h = ground (
    arith,
    eq_of_eq_str channel okx_level2_books_channel,
    eq_of_eq_str received expected.as_str,
    mismatch_fails expected received m,
  )

  -- An accepted message came on the channel `books` under the expected identity, with a known
  -- action; its payload is JSON of one row, and the message carries what is read of that row: its
  -- levels are well formed, its time positive, and no price stands twice on a side.
  pub parse_books_message-IsMessage :
      (json : Str → Option (List RawLevel2Data)) (expected : OkxSpotInstrumentId)
      (channel received action data_json : Str) (m : ValidatedBooksMessage D)
      → parse_books_message json expected channel received action data_json ≡ ok m
      → (channel ≡ okx_level2_books_channel)
        × (received ≡ expected.as_str)
        × (parse_action {D = D} action ≡ ok m.action)
        × IsMessage expected m
        × (raw : RawLevel2Data) × (json data_json ≡ some (raw ∷ []))
        × (deserialize_data raw ≡ ok m.payload)
  parse_books_message-IsMessage json expected channel received action data_json m h =
      let (books, same, read) =
        parse_books_message_reads json expected channel received action data_json m h in
      let (known, message, row) =
        parse_expected-IsMessage (json data_json) expected action m read in
      (books, same, known, message, row.0, row.1, row.2)
