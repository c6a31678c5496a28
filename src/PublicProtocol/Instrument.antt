-- ===== src/PublicProtocol/Instrument.antt =====
-- okx-public-protocol/src/lib.rs: the identity of a SPOT instrument and its validation.
pub mod Grammar
use okx_rust_trading.Common.{
  ℕ, Bool, true, false, not, ◌&&◌, ◌||◌, List, [], ◌∷◌, ltb, ◌==◌, if◌then◌else◌, length, is_empty,
}
use okx_rust_trading.Text.{
  Str, eq_str, all, any, is_ascii, is_ascii_digit, is_ascii_uppercase, is_ascii_whitespace, split,
  split_step,
}

-- Built by `try_from` only. Two identities are equal if their texts are.
pub record OkxSpotInstrumentId : Type 0 where
  pub as_str : Str

abbrev pub eq_instrument : OkxSpotInstrumentId → OkxSpotInstrumentId → Bool
eq_instrument a b = eq_str a.as_str b.as_str

abbrev pub okx_spot_instrument_id_max_len : ℕ
okx_spot_instrument_id_max_len = 32

-- The `reason` texts of `MalformedSpotInstrument`.
pub data Reason : Type 0 where
  must_not_be_empty exceeds_maximum ascii_only no_whitespace one_separator : Reason
  asset_characters assets_must_differ : Reason

pub data Validation : Type 0 where
  valid : Validation
  malformed : Reason → Validation

abbrev pub valid_asset : Str → Bool
valid_asset = all (λ byte. is_ascii_uppercase byte || is_ascii_digit byte)

-- `components.next()` three times, the first two with `unwrap_or_default`.
abbrev pub base_of : List Str → Str
base_of [] = []
base_of (base ∷ rest) = base

abbrev pub quote_of : List Str → Str
quote_of [] = []
quote_of (base ∷ rest) = base_of rest

abbrev pub has_third : List Str → Bool
has_third (base ∷ quote ∷ third ∷ rest) = true
has_third _ = false

check_components : List Str → Validation
check_components components =
    let base = base_of components in
    let quote = quote_of components in
    if has_third components || is_empty base || is_empty quote
    then malformed one_separator
    else if not (valid_asset base) || not (valid_asset quote)
    then malformed asset_characters
    else if eq_str base quote
    then malformed assets_must_differ
    else valid

unfoldable pub validate_spot_instrument_id : Str → Validation
unfolding check_components split split_step
validate_spot_instrument_id value =
    if is_empty value
    then malformed must_not_be_empty
    else if ltb okx_spot_instrument_id_max_len (length value)
    then malformed exceeds_maximum
    else if not (all is_ascii value)
    then malformed ascii_only
    else if any is_ascii_whitespace value
    then malformed no_whitespace
    else check_components (split b'-' value)
