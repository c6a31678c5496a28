-- ===== src/PublicProtocol/Trades/Messages.antt =====
-- The `trades` channel: what the trades of an accepted message satisfy.
use okx_rust_trading.Common.{
  ℕ, suc, ◌<◌, ◌≡◌, ◌≢◌, refl, ap, subst, true, Option, none, some, List, [], ◌∷◌, arith, All,
  length, ok, inl, inr, Option-cases, >>=-eq-ok, ok-injective,
}
use okx_rust_trading.Common.Int.{ℤ, pos, ltb_ℤ}
use okx_rust_trading.Order.{Ord, ◌≺◌}
use okx_rust_trading.Text.{Str, eq_of_eq_str}
use okx_rust_trading.Decimal.{Decimal}
use okx_rust_trading.PublicProtocol.Instrument.{OkxSpotInstrumentId}
use okx_rust_trading.PublicProtocol.Error.{Field}
use okx_rust_trading.PublicProtocol.Books.Messages.{mismatch_fails}
use okx_rust_trading.PublicProtocol.Trades.{
  PublicTradeRow, ValidatedPublicTrade, okx_public_trades_channel, mixed, trade_fields,
  validated_public_trade, validated_public_trades, read_trades, parse_trade_message, positive_u64,
  positive_i64, aggregation_of, positive_decimal, parse_side,
}

module _ {D : Type 0} ⦃o : Ord D⦄ ⦃d : Decimal D⦄ where
  -- A trade of the expected instrument, all its numbers positive.
  pub record IsTrade (expected : OkxSpotInstrumentId) (t : ValidatedPublicTrade D) : Type 0 where
    pub instrument : t.instrument_id ≡ expected
    pub positive_id : 0 < t.terminal_trade_id
    pub positive_time : ltb_ℤ (pos 0) t.timestamp_ms ≡ true
    pub positive_count : 0 < t.aggregation_count
    pub positive_price : d.zero ≺ t.price
    pub positive_quantity : d.zero ≺ t.quantity

  positive_u64_pos :
      (value : Str) (field : Field) (n : ℕ) → positive_u64 {D = D} value field ≡ ok n → 0 < n
  unfolding positive_u64
  positive_u64_pos value field n h = ground arith

  positive_i64_pos :
      (value : Str) (field : Field) (n : ℤ)
      → positive_i64 {D = D} value field ≡ ok n
      → ltb_ℤ (pos 0) n ≡ true
  unfolding positive_i64
  positive_i64_pos value field n h = ground arith

  positive_decimal_pos :
      (value : Str) (field : Field) (n : D) → positive_decimal value field ≡ ok n → d.zero ≺ n
  unfolding positive_decimal
  positive_decimal_pos value field n h = ground arith

  aggregation_of_pos : (count : Option Str) (n : ℕ) → aggregation_of {D = D} count ≡ ok n → 0 < n
  unfolding aggregation_of
  aggregation_of_pos none n h = ground arith
  aggregation_of_pos (some value) n h = ground arith

  trade_fields-IsTrade :
      (expected : OkxSpotInstrumentId) (row : PublicTradeRow) (t : ValidatedPublicTrade D)
      → trade_fields expected row ≡ ok t
      → IsTrade expected t
  unfolding trade_fields
  trade_fields-IsTrade expected row t h =
      let (id, i, h1) = >>=-eq-ok (positive_u64 row.trade_id _) _ h in
      let (ts, j, h2) = >>=-eq-ok (positive_i64 row.ts _) _ h1 in
      let (count, c, h3) = >>=-eq-ok (aggregation_of row.count) _ h2 in
      let (price, p, h4) = >>=-eq-ok (positive_decimal row.px _) _ h3 in
      let (quantity, q, h5) = >>=-eq-ok (positive_decimal row.sz _) _ h4 in
      let (side, s, h6) = >>=-eq-ok (parse_side row.side) _ h5 in
      subst (IsTrade expected) (ok-injective _ _ h6) (record {
        instrument = refl;
        positive_id = positive_u64_pos row.trade_id _ id i;
        positive_time = positive_i64_pos row.ts _ ts j;
        positive_count = aggregation_of_pos row.count count c;
        positive_price = positive_decimal_pos row.px _ price p;
        positive_quantity = positive_decimal_pos row.sz _ quantity q;
      })

  mixed_fails :
      (expected : OkxSpotInstrumentId) (received : Str) (t : ValidatedPublicTrade D)
      → mixed {D = D} expected received ≢ ok t
  unfolding mixed
  mixed_fails expected received t h = ground arith

  validated_public_trade-IsTrade :
      (expected : OkxSpotInstrumentId) (row : PublicTradeRow) (t : ValidatedPublicTrade D)
      → validated_public_trade expected row ≡ ok t
      → (row.instrument_id ≡ expected.as_str) × IsTrade expected t
  unfolding validated_public_trade
  validated_public_trade-IsTrade expected row t h = ground (
    arith,
    eq_of_eq_str row.instrument_id expected.as_str,
    mixed_fails expected row.instrument_id t,
    trade_fields-IsTrade expected row t,
  )

  validated_public_trades-IsTrade :
      (expected : OkxSpotInstrumentId) (rows : List PublicTradeRow)
      (ts : List (ValidatedPublicTrade D))
      → validated_public_trades expected rows ≡ ok ts
      → All (λ row. row.instrument_id ≡ expected.as_str) rows
        × All (IsTrade expected) ts
        × (length ts ≡ length rows)
  unfolding validated_public_trades
  validated_public_trades-IsTrade expected [] ts h =
      subst (λ us. Unit {0} × All (IsTrade expected) us × (length us ≡ 0)) (ok-injective _ _ h)
        (tt, tt, refl)
  validated_public_trades-IsTrade expected (row ∷ rows) ts h =
      let (t, first, h1) = >>=-eq-ok (validated_public_trade expected row) _ h in
      let (us, rest, h2) = >>=-eq-ok (validated_public_trades expected rows) _ h1 in
      let (same, trade) = validated_public_trade-IsTrade expected row t first in
      let (others, trades, long) = validated_public_trades-IsTrade expected rows us rest in
      subst
        (λ vs.
          All (λ (r : PublicTradeRow). r.instrument_id ≡ expected.as_str) (row ∷ rows)
          × All (IsTrade expected) vs
          × (length vs ≡ length (row ∷ rows)))
        (ok-injective _ _ h2) ((same, others), (trade, trades), ap suc long)

  parse_trade_message_stages :
      (json : Str → Option (List PublicTradeRow)) (expected : OkxSpotInstrumentId)
      (channel received data_json : Str) (ts : List (ValidatedPublicTrade D))
      → parse_trade_message json expected channel received data_json ≡ ok ts
      → (channel ≡ okx_public_trades_channel)
        × (received ≡ expected.as_str)
        × (read_trades expected (json data_json) ≡ ok ts)
  unfolding parse_trade_message
  parse_trade_message_stages json expected channel received data_json ts h = ground (
    arith,
    eq_of_eq_str channel okx_public_trades_channel,
    eq_of_eq_str received expected.as_str,
    mismatch_fails {D = D} expected received ts,
  )

  -- An accepted message came on the channel `trades` under the expected identity, its payload is
  -- JSON, each of its rows carries that identity, and it has one trade for each row: with a
  -- positive id, time, count, price and quantity.
  pub parse_trade_message-IsTrade :
      (json : Str → Option (List PublicTradeRow)) (expected : OkxSpotInstrumentId)
      (channel received data_json : Str) (ts : List (ValidatedPublicTrade D))
      → parse_trade_message json expected channel received data_json ≡ ok ts
      → (channel ≡ okx_public_trades_channel)
        × (received ≡ expected.as_str)
        × (rows : List PublicTradeRow) × (json data_json ≡ some rows)
        × All (λ row. row.instrument_id ≡ expected.as_str) rows
        × All (IsTrade expected) ts
        × (length ts ≡ length rows)
  parse_trade_message-IsTrade json expected channel received data_json ts h =
      let (on, same, read) =
        parse_trade_message_stages json expected channel received data_json ts h in
      elim (Option-cases (json data_json)) [
        | inl bad ↦ let no = rw bad at read in cc
        | inr (rows, good) ↦
            let trades = rw good at read in
            let (rows_same, each, long) = validated_public_trades-IsTrade expected rows ts trades in
            (on, same, rows, good, rows_same, each, long)
      ]
