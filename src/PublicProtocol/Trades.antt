-- ===== src/PublicProtocol/Trades.antt =====
-- okx-public-protocol/src/lib.rs: the `trades` channel. `serde_json` is a parameter: it gives the
-- rows of a payload with their strings.
pub mod Messages
use okx_rust_trading.Common.{
  ℕ, zero, suc, Bool, true, false, not, Option, none, some, List, [], ◌∷◌, if◌then◌else◌, leb,
  Result, ok, err, ◌>>=◌, ◌>>◌,
}
use okx_rust_trading.Common.Int.{ℤ, pos, ltb_ℤ}
use okx_rust_trading.Order.{Ord, lt?}
use okx_rust_trading.Text.{Str, eq_str, parse_u64, parse_i64}
use okx_rust_trading.Decimal.{Decimal}
use okx_rust_trading.PublicProtocol.Instrument.{OkxSpotInstrumentId}
use okx_rust_trading.PublicProtocol.Error.{
  invalid_json, Field, trade_id, trade_ts, trade_count, trade_price, trade_quantity,
  OkxPublicProtocolError, unsupported_channel, mixed_instrument_payload, unsupported_trade_side,
  malformed_payload, invalid_field, try_from,
}
use okx_rust_trading.PublicProtocol.Books.{mismatch}

pub data OkxTradeSide : Type 0 where
  buy sell : OkxTradeSide

pub record ValidatedPublicTrade (D : Type 0) : Type 0 where
  pub instrument_id : OkxSpotInstrumentId
  pub terminal_trade_id : ℕ
  pub timestamp_ms : ℤ
  pub aggregation_count : ℕ
  pub price : D
  pub quantity : D
  pub side : OkxTradeSide

pub record PublicTradeRow : Type 0 where
  pub instrument_id : Str
  pub trade_id : Str
  pub ts : Str
  pub count : Option Str
  pub px : Str
  pub sz : Str
  pub side : Str

abbrev pub okx_public_trades_channel : Str
okx_public_trades_channel = b't' ∷ b'r' ∷ b'a' ∷ b'd' ∷ b'e' ∷ b's' ∷ []

module _ {D : Type 0} where
  -- `.ok().filter(test).ok_or(InvalidField(field))`.
  abbrev filtered :
      {A : Type 0} → Option A → (A → Bool) → Field → Result A (OkxPublicProtocolError D)
  filtered none test field = err (invalid_field field)
  filtered (some value) test field = if test value then ok value else err (invalid_field field)

  unfoldable pub positive_u64 : Str → Field → Result ℕ (OkxPublicProtocolError D)
  positive_u64 value field = filtered (parse_u64 value) (λ n. not (leb n 0)) field

  unfoldable pub positive_i64 : Str → Field → Result ℤ (OkxPublicProtocolError D)
  positive_i64 value field = filtered (parse_i64 value) (λ n. ltb_ℤ (pos 0) n) field

  -- A missing count stands for one.
  unfoldable pub aggregation_of : Option Str → Result ℕ (OkxPublicProtocolError D)
  unfolding positive_u64
  aggregation_of none = ok 1
  aggregation_of (some value) = positive_u64 value trade_count

  unfoldable pub parse_side : Str → Result OkxTradeSide (OkxPublicProtocolError D)
  parse_side value =
      if eq_str value (b'b' ∷ b'u' ∷ b'y' ∷ [])
      then ok buy
      else if eq_str value (b's' ∷ b'e' ∷ b'l' ∷ b'l' ∷ [])
      then ok sell
      else err (unsupported_trade_side value)

  unfoldable pub mixed :
      {A : Type 0} → OkxSpotInstrumentId → Str → Result A (OkxPublicProtocolError D)
  mixed expected_instrument received_instrument = do
    received ← try_from received_instrument
    err (mixed_instrument_payload expected_instrument received)

module _ {D : Type 0} ⦃o : Ord D⦄ ⦃d : Decimal D⦄ where
  unfoldable pub positive_decimal : Str → Field → Result D (OkxPublicProtocolError D)
  positive_decimal value field = filtered (d.from_str value) (λ n. lt? d.zero n) field

  -- The fields of a row under the expected identity.
  unfoldable pub trade_fields :
      OkxSpotInstrumentId
      → PublicTradeRow
      → Result (ValidatedPublicTrade D) (OkxPublicProtocolError D)
  unfolding positive_u64 positive_i64 aggregation_of positive_decimal parse_side
  trade_fields expected_instrument row = do
    terminal_trade_id ← positive_u64 row.trade_id trade_id
    timestamp_ms ← positive_i64 row.ts trade_ts
    aggregation_count ← aggregation_of row.count
    price ← positive_decimal row.px trade_price
    quantity ← positive_decimal row.sz trade_quantity
    side ← parse_side row.side
    ok (record {
      instrument_id = expected_instrument;
      terminal_trade_id = terminal_trade_id;
      timestamp_ms = timestamp_ms;
      aggregation_count = aggregation_count;
      price = price;
      quantity = quantity;
      side = side;
    })

  unfoldable pub validated_public_trade :
      OkxSpotInstrumentId
      → PublicTradeRow
      → Result (ValidatedPublicTrade D) (OkxPublicProtocolError D)
  unfolding mixed trade_fields
  validated_public_trade expected_instrument row =
      if not (eq_str row.instrument_id expected_instrument.as_str)
      then mixed expected_instrument row.instrument_id
      else trade_fields expected_instrument row

  -- `collect` into a `Result`: the first error, or all values.
  unfoldable pub validated_public_trades :
      OkxSpotInstrumentId
      → List PublicTradeRow
      → Result (List (ValidatedPublicTrade D)) (OkxPublicProtocolError D)
  unfolding validated_public_trade
  validated_public_trades expected_instrument [] = ok []
  validated_public_trades expected_instrument (row ∷ rows) = do
    trade ← validated_public_trade expected_instrument row
    trades ← validated_public_trades expected_instrument rows
    ok (trade ∷ trades)

  abbrev read_trades :
      OkxSpotInstrumentId
      → Option (List PublicTradeRow)
      → Result (List (ValidatedPublicTrade D)) (OkxPublicProtocolError D)
  read_trades expected_instrument none = err (malformed_payload invalid_json)
  read_trades expected_instrument (some rows) = validated_public_trades expected_instrument rows

  unfoldable pub parse_trade_message :
      (Str → Option (List PublicTradeRow))
      → OkxSpotInstrumentId
      → Str
      → Str
      → Str
      → Result (List (ValidatedPublicTrade D)) (OkxPublicProtocolError D)
  unfolding mismatch validated_public_trades
  parse_trade_message json expected_instrument channel received_instrument data_json =
      if not (eq_str channel okx_public_trades_channel)
      then err (unsupported_channel channel)
      else if not (eq_str received_instrument expected_instrument.as_str)
      then mismatch expected_instrument received_instrument
      else read_trades expected_instrument (json data_json)
