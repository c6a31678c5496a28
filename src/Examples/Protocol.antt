-- ===== src/Examples/Protocol.antt =====
-- okx-public-protocol/src/lib.rs at work: the payloads come from a concrete reader.
use okx_rust_trading.Common.{
  ℕ, ◌≡◌, ◌≢◌, ◌↔◌, refl, Option, none, some, List, [], ◌∷◌, All, length, ok, err,
}
use okx_rust_trading.Common.Int.{ℤ, pos, negsuc}
use okx_rust_trading.Order.{int_ord}
use okx_rust_trading.BTreeMap.{get, insert}
use okx_rust_trading.Decimal.Integers.{int_decimal, int_decimal-IsLawful}
use okx_rust_trading.Text.{Str, parse_u64, parse_i64}
use okx_rust_trading.PublicProtocol.Instrument.{valid, validate_spot_instrument_id}
use okx_rust_trading.PublicProtocol.Instrument.Grammar.{IsPair, validate_spot_instrument_id-IsPair}
use okx_rust_trading.PublicProtocol.Books.{
  RawLevel2Data, ValidatedBooksMessage, deserialize_data, parse_action, parse_books_message,
  okx_level2_books_channel,
}
use okx_rust_trading.PublicProtocol.Books.Messages.{IsMessage, parse_books_message-IsMessage}
use okx_rust_trading.PublicProtocol.Archive.{
  PublicTradeArchiveFields, OkxPublicTrade, deserialize_public_trade, IsArchived,
  deserialize_public_trade-IsArchived,
}
use okx_rust_trading.PublicProtocol.Trades.{
  PublicTradeRow, ValidatedPublicTrade, okx_public_trades_channel, parse_trade_message,
}
use okx_rust_trading.PublicProtocol.Trades.Messages.{IsTrade, parse_trade_message-IsTrade}
use okx_rust_trading.Level2.{new, apply_with_clock}
use okx_rust_trading.Level2.Types.{from_validated, zero_denominator}
use okx_rust_trading.Level2.Thick.{feeds_fresh}
use okx_rust_trading.Level2.Thick.Answers.{parsed_never_flat}
use okx_rust_trading.Examples.{btc_usdt}

abbrev text_of : ℕ → Str
text_of digit = digit ∷ []

abbrev snapshot_word : Str
snapshot_word = b's' ∷ b'n' ∷ b'a' ∷ b'p' ∷ b's' ∷ b'h' ∷ b'o' ∷ b't' ∷ []

abbrev raw_row : RawLevel2Data
raw_row = record {
  asks = (text_of b'9' ∷ text_of b'2' ∷ text_of b'0' ∷ text_of b'1' ∷ []) ∷ [];
  bids = (text_of b'8' ∷ text_of b'3' ∷ text_of b'0' ∷ text_of b'2' ∷ []) ∷ [];
  ts = text_of b'5';
  seq_id = pos 7;
  prev_seq_id = negsuc 0;
}

abbrev read_books : Str → Option (List RawLevel2Data)
read_books text = some (raw_row ∷ [])

books_accepted :
    (m : ValidatedBooksMessage ℤ) × (parse_books_message read_books btc_usdt
        okx_level2_books_channel btc_usdt.as_str snapshot_word []
      ≡ ok m)
unfolding parse_books_message get insert parse_i64 parse_u64
books_accepted = (_, refl)

parse_books_message-IsMessage_example :
    (okx_level2_books_channel ≡ okx_level2_books_channel)
    × (btc_usdt.as_str ≡ btc_usdt.as_str)
    × (parse_action {D = ℤ} snapshot_word ≡ ok books_accepted.0.action)
    × IsMessage btc_usdt books_accepted.0
    × (raw : RawLevel2Data) × (read_books [] ≡ some (raw ∷ []))
    × (deserialize_data raw ≡ ok books_accepted.0.payload)
parse_books_message-IsMessage_example =
    parse_books_message-IsMessage read_books btc_usdt okx_level2_books_channel btc_usdt.as_str
      snapshot_word [] books_accepted.0 books_accepted.1

parsed_never_flat_example :
    (apply_with_clock (new btc_usdt) (from_validated books_accepted.0 1000 2000) (λ n. 3000)).1
    ≢ err zero_denominator
parsed_never_flat_example =
    parsed_never_flat int_decimal-IsLawful read_books btc_usdt okx_level2_books_channel
      btc_usdt.as_str snapshot_word [] books_accepted.0 1000 2000 btc_usdt (new btc_usdt)
      (λ n. 3000) books_accepted.1 feeds_fresh

validate_spot_instrument_id-IsPair_example :
    (validate_spot_instrument_id btc_usdt.as_str ≡ valid)
    ↔ ((base : Str) × (quote : Str) × IsPair btc_usdt.as_str base quote)
validate_spot_instrument_id-IsPair_example = validate_spot_instrument_id-IsPair btc_usdt.as_str

abbrev trade_row : PublicTradeRow
trade_row = record {
  instrument_id = btc_usdt.as_str;
  trade_id = text_of b'4';
  ts = text_of b'6';
  count = none;
  px = text_of b'9';
  sz = text_of b'2';
  side = b'b' ∷ b'u' ∷ b'y' ∷ [];
}

abbrev read_trade_rows : Str → Option (List PublicTradeRow)
read_trade_rows text = some (trade_row ∷ [])

trades_accepted :
    (ts : List (ValidatedPublicTrade ℤ)) × (parse_trade_message read_trade_rows btc_usdt
        okx_public_trades_channel btc_usdt.as_str []
      ≡ ok ts)
unfolding parse_trade_message parse_u64 parse_i64
trades_accepted = (_, refl)

parse_trade_message-IsTrade_example :
    (okx_public_trades_channel ≡ okx_public_trades_channel)
    × (btc_usdt.as_str ≡ btc_usdt.as_str)
    × (rows : List PublicTradeRow) × (read_trade_rows [] ≡ some rows)
    × All (λ row. row.instrument_id ≡ btc_usdt.as_str) rows
    × All (IsTrade btc_usdt) trades_accepted.0
    × (length trades_accepted.0 ≡ length rows)
parse_trade_message-IsTrade_example =
    parse_trade_message-IsTrade read_trade_rows btc_usdt okx_public_trades_channel btc_usdt.as_str
      [] trades_accepted.0 trades_accepted.1

abbrev read_archive : Str → Option PublicTradeArchiveFields
read_archive text =
    some
      (record { inst_id = btc_usdt.as_str; trade_id = text_of b'4'; timestamp_ms = text_of b'6' })

archive_accepted : (trade : OkxPublicTrade) × (deserialize_public_trade read_archive [] ≡ ok trade)
unfolding deserialize_public_trade parse_u64 parse_i64 validate_spot_instrument_id
archive_accepted = (_, refl)

deserialize_public_trade-IsArchived_example : IsArchived read_archive [] archive_accepted.0
deserialize_public_trade-IsArchived_example =
    deserialize_public_trade-IsArchived read_archive [] archive_accepted.0 archive_accepted.1
