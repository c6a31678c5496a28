-- ===== src/PublicProtocol/Error.antt =====
-- okx-public-protocol/src/lib.rs: the errors, with the messages of `serde` as a type of their own.
use okx_rust_trading.Common.{ℕ, Result, ok, err}
use okx_rust_trading.Text.{Str}
use okx_rust_trading.PublicProtocol.Instrument.{
  OkxSpotInstrumentId, Reason, Validation, valid, malformed, validate_spot_instrument_id,
}

-- What `de::Error::custom` is called with; `invalid_json` is the refusal of serde_json itself.
pub data DeError : Type 0 where
  invalid_json level_length price_not_decimal quantity_not_decimal price_not_positive : DeError
  quantity_negative deprecated_field order_count_not_integer removal_order_count : DeError
  live_order_count timestamp_not_integer timestamp_not_positive : DeError

-- The field names that `InvalidField` carries.
pub data Field : Type 0 where
  trade_id trade_ts trade_count trade_price trade_quantity : Field

pub data OkxPublicProtocolError (D : Type 0) : Type 0 where
  unsupported_action : Str → OkxPublicProtocolError D
  unsupported_channel : Str → OkxPublicProtocolError D
  malformed_spot_instrument : Str → Reason → OkxPublicProtocolError D
  instrument_mismatch : OkxSpotInstrumentId → OkxSpotInstrumentId → OkxPublicProtocolError D
  mixed_instrument_payload : OkxSpotInstrumentId → OkxSpotInstrumentId → OkxPublicProtocolError D
  unsupported_trade_side : Str → OkxPublicProtocolError D
  malformed_payload : DeError → OkxPublicProtocolError D
  unexpected_row_count : ℕ → OkxPublicProtocolError D
  duplicate_price : D → OkxPublicProtocolError D
  invalid_field : Field → OkxPublicProtocolError D

module _ {D : Type 0} where
  abbrev pub identity_of : Str → Validation → Result OkxSpotInstrumentId (OkxPublicProtocolError D)
  identity_of value valid = ok (record { as_str = value })
  identity_of value (malformed reason) = err (malformed_spot_instrument value reason)

  -- `OkxSpotInstrumentId::try_from`.
  unfoldable pub try_from : Str → Result OkxSpotInstrumentId (OkxPublicProtocolError D)
  try_from value = identity_of value (validate_spot_instrument_id value)
