-- ===== src/PublicProtocol/Archive.antt =====
-- okx-public-protocol/src/lib.rs: the row of a trade archive. `serde_json` is a parameter: it gives the
-- three texts that the program reads of a raw row.
use okx_rust_trading.Common.{
  ℕ, ◌<◌, ◌≡◌, Bool, true, not, ◌&&◌, Option, some, arith, ◌==◌, Result, ok, err, ◌>>=◌, ◌>>◌,
  ensure, ok_or, Option-cases, inl, inr,
}
use okx_rust_trading.Common.Int.{ℤ, pos, leb_ℤ, ltb_ℤ, beq_ℤ}
use okx_rust_trading.Text.{Str, eq_str, parse_u64, parse_i64}
use okx_rust_trading.PublicProtocol.Instrument.{
  OkxSpotInstrumentId, eq_instrument, Reason, Validation, valid, malformed,
  validate_spot_instrument_id,
}

pub record OkxPublicTrade : Type 0 where
  pub inst_id : OkxSpotInstrumentId
  pub trade_id : ℕ
  pub timestamp_ms : ℤ
  pub raw : Str

pub record PublicTradeArchiveFields : Type 0 where
  pub inst_id : Str
  pub trade_id : Str
  pub timestamp_ms : Str

-- What `de::Error::custom` is called with.
pub data ArchiveError : Type 0 where
  invalid_row trade_id_not_integer timestamp_not_integer : ArchiveError
  invalid_instrument : Reason → ArchiveError
  trade_id_not_positive timestamp_not_positive : ArchiveError

-- `PartialEq` of the rows: all four fields.
unfoldable pub eq_public_trade : OkxPublicTrade → OkxPublicTrade → Bool
eq_public_trade a b =
    eq_instrument a.inst_id b.inst_id
    && a.trade_id == b.trade_id
    && beq_ℤ a.timestamp_ms b.timestamp_ms
    && eq_str a.raw b.raw

abbrev checked_identity : Str → Validation → Result OkxSpotInstrumentId ArchiveError
checked_identity value valid = ok (record { as_str = value })
checked_identity value (malformed reason) = err (invalid_instrument reason)

unfoldable pub deserialize_public_trade :
    (Str → Option PublicTradeArchiveFields) → Str → Result OkxPublicTrade ArchiveError
deserialize_public_trade json raw = do
  fields ← ok_or (json raw) invalid_row
  trade_id ← ok_or (parse_u64 fields.trade_id) trade_id_not_integer
  timestamp_ms ← ok_or (parse_i64 fields.timestamp_ms) timestamp_not_integer
  inst_id ← checked_identity fields.inst_id (validate_spot_instrument_id fields.inst_id)
  ensure (not (trade_id == 0)) trade_id_not_positive
  ensure (not (leb_ℤ timestamp_ms (pos 0))) timestamp_not_positive
  ok (record { inst_id = inst_id; trade_id = trade_id; timestamp_ms = timestamp_ms; raw = raw })

-- A row of the archive that is accepted, and the fields that it came from.
pub record IsArchived (json : Str → Option PublicTradeArchiveFields) (raw : Str)
    (trade : OkxPublicTrade) : Type 0 where
  pub fields : PublicTradeArchiveFields
  pub read : json raw ≡ some fields
  pub id_read : parse_u64 fields.trade_id ≡ some trade.trade_id
  pub time_read : parse_i64 fields.timestamp_ms ≡ some trade.timestamp_ms
  pub same_text : trade.inst_id.as_str ≡ fields.inst_id
  pub valid_text : validate_spot_instrument_id fields.inst_id ≡ valid
  pub positive_id : 0 < trade.trade_id
  pub positive_time : ltb_ℤ (pos 0) trade.timestamp_ms ≡ true
  pub kept : trade.raw ≡ raw

-- A row of the archive that is accepted has the three fields that the JSON reader finds in it: its
-- identity is a valid one, its id and its time are the numbers that the texts stand for and
-- positive, and it keeps the text of the row.
pub deserialize_public_trade-IsArchived :
    (json : Str → Option PublicTradeArchiveFields) (raw : Str) (trade : OkxPublicTrade)
    → deserialize_public_trade json raw ≡ ok trade
    → IsArchived json raw trade
unfolding deserialize_public_trade
deserialize_public_trade-IsArchived json raw trade h = elim (Option-cases (json raw)) [
  | inl bad ↦ let no = rw bad at h in cc
  | inr (fields, good) ↦
      let step = rw good at h in
      record {
        fields = fields;
        read = good;
        id_read = ground arith;
        time_read = ground arith;
        same_text = ground arith;
        valid_text = ground arith;
        positive_id = ground arith;
        positive_time = ground arith;
        kept = ground arith;
      }
]
