-- ===== src/TradingRuntime/OrderId.antt =====
-- crates/okx-trading-runtime/src/strategies/okx_ema_atr_maker_trend/order_id.rs: the client order
-- ids by which the strategy marks its orders. The clock and the process-wide sequence counter are
-- arguments; `client_order_id` returns the counter's next value. The non-ASCII characters of a
-- strategy id are bytes from 128 up, which the alphanumeric filter drops as it drops them.
pub mod Base36
pub mod Tags
pub mod RoundTrip
pub mod Parser
pub mod Distinct
use Prim.Native.Nat.{bit_xor}
use okx_rust_trading.Common.{
  ℕ, zero, suc, ◌+◌, ◌-◌, ◌*◌, ◌/◌, ◌%◌, Bool, ◌&&◌, not, Option, none, some, List, [], ◌∷◌, ◌++◌,
  map, length, take, is_empty, leb, ltb, ◌==◌, if◌then◌else◌, u64_max,
}
use okx_rust_trading.Common.Int.{ℤ, pos, negsuc}
use okx_rust_trading.Common.Options.{◌>>=◌}
use okx_rust_trading.Text.{
  Str, all, filter, is_ascii_alphanumeric, to_ascii_uppercase, strip_prefix,
}

abbrev pub okx_client_order_id_max_len : ℕ
okx_client_order_id_max_len = 32

-- "ROX"
abbrev pub order_id_prefix : Str
order_id_prefix = b'R' ∷ b'O' ∷ b'X' ∷ []

abbrev pub strategy_tag_prefix_len : ℕ
strategy_tag_prefix_len = 4

abbrev pub strategy_tag_hash_len : ℕ
strategy_tag_hash_len = 7

abbrev pub strategy_tag_len : ℕ
strategy_tag_len = strategy_tag_prefix_len + strategy_tag_hash_len

abbrev pub legacy_strategy_tag_max_len : ℕ
legacy_strategy_tag_max_len = 8

-- "STRAT"
abbrev pub legacy_strategy_tag_fallback : Str
legacy_strategy_tag_fallback = b'S' ∷ b'T' ∷ b'R' ∷ b'A' ∷ b'T' ∷ []

abbrev pub min_suffix_len : ℕ
min_suffix_len = 5

abbrev pub code_len : ℕ
code_len = 1

abbrev pub max_suffix_len : ℕ
max_suffix_len = okx_client_order_id_max_len - length order_id_prefix - strategy_tag_len - code_len

abbrev pub fnv_1a_32_offset_basis : ℕ
fnv_1a_32_offset_basis = 0x811c9dc5

abbrev pub fnv_1a_32_prime : ℕ
fnv_1a_32_prime = 0x01000193

pub data OrderPurpose : Type 0 where
  entry take_profit stop_loss : OrderPurpose

-- `as_code`, one character.
abbrev pub as_code : OrderPurpose → ℕ
as_code OrderPurpose.entry = b'B'
as_code OrderPurpose.take_profit = b'T'
as_code OrderPurpose.stop_loss = b'S'

-- The loop over the bytes; a u32 multiplication that wraps.
unfoldable pub fnv_from : ℕ → Str → ℕ
fnv_from hash [] = hash
fnv_from hash (byte ∷ bytes) = fnv_from (bit_xor hash byte * fnv_1a_32_prime % 0x1_0000_0000) bytes

unfoldable pub fnv_1a_32 : Str → ℕ
fnv_1a_32 bytes = fnv_from fnv_1a_32_offset_basis bytes

unfoldable pub base36_digit : ℕ → ℕ
base36_digit digit = if leb digit 9 then b'0' + digit else b'A' + digit - 10

-- The loop of `base36`, with the digits pushed so far in reverse, as the last line reads them.
-- A u64 has at most 13 digits.
unfoldable pub base36_digits : ℕ → ℕ → Str → Str
base36_digits zero value encoded = encoded
base36_digits (suc rounds) value encoded =
    let more = base36_digits rounds (value / 36) (base36_digit (value % 36) ∷ encoded) in
    if value == 0 then encoded else more

unfoldable pub base36 : ℕ → Str
base36 value = if value == 0 then b'0' ∷ [] else base36_digits 13 value []

unfoldable pub zeros : ℕ → Str
zeros zero = []
zeros (suc n) = b'0' ∷ zeros n

unfoldable pub padded_base36 : ℕ → ℕ → Str
padded_base36 value width =
    if leb width (length (base36 value))
    then base36 value
    else zeros (width - length (base36 value)) ++ base36 value

-- `filter(alphanumeric).take(n).collect().to_ascii_uppercase()`
unfoldable pub alphanumeric_start : ℕ → Str → Str
alphanumeric_start n strategy_id =
    map to_ascii_uppercase (take n (filter is_ascii_alphanumeric strategy_id))

unfoldable pub or_default : Str → Str → Str
or_default fallback tag = if is_empty tag then fallback else tag

-- The `while` that appends zeros up to `width`.
unfoldable pub pad_end : ℕ → Str → Str
pad_end width tag = tag ++ zeros (width - length tag)

unfoldable pub strategy_tag_prefix : Str → Str
strategy_tag_prefix strategy_id =
    pad_end strategy_tag_prefix_len (
      or_default (b'S' ∷ b'T' ∷ b'R' ∷ []) (alphanumeric_start strategy_tag_prefix_len strategy_id))

unfoldable pub strategy_tag : Str → Str
strategy_tag strategy_id =
    strategy_tag_prefix strategy_id ++ padded_base36 (fnv_1a_32 strategy_id) strategy_tag_hash_len

unfoldable pub legacy_strategy_tag : Str → Str
legacy_strategy_tag strategy_id =
    or_default legacy_strategy_tag_fallback
      (alphanumeric_start legacy_strategy_tag_max_len strategy_id)

-- `unix_timestamp_nanos() / 1_000_000` as a u64, 0 where it does not fit.
unfoldable pub unix_ms : ℤ → ℕ
unix_ms (pos nanos) = if leb (nanos / 1_000_000) u64_max then nanos / 1_000_000 else 0
unix_ms (negsuc nanos) = 0

-- `{sequence:04}` of a number below 10,000.
unfoldable pub four_digits : ℕ → Str
four_digits n =
    (b'0' + n / 1000) ∷ (b'0' + n / 100 % 10) ∷ (b'0' + n / 10 % 10) ∷ (b'0' + n % 10) ∷ []

-- What follows the tag: the code, the time and the sequence number.
unfoldable pub generated_suffix : ℤ → ℕ → Str
generated_suffix now counter = base36 (unix_ms now) ++ four_digits (counter % 10_000)

-- The id, and the counter after `fetch_add`.
unfoldable pub client_order_id : Str → OrderPurpose → ℤ → ℕ → Str × ℕ
client_order_id strategy_id purpose now counter = (
  order_id_prefix ++ strategy_tag strategy_id ++ as_code purpose ∷ generated_suffix now counter,
  (counter + 1) % 0x1_0000_0000_0000_0000,
)

unfoldable pub purpose_of_code : ℕ → Option OrderPurpose
purpose_of_code code =
    if code == b'B'
    then some OrderPurpose.entry
    else if code == b'T'
    then some OrderPurpose.take_profit
    else if code == b'S'
    then some OrderPurpose.stop_loss
    else none

abbrev valid_suffix : ℕ → Str → Bool
valid_suffix max_len suffix =
    leb min_suffix_len (length suffix)
    && leb (length suffix) max_len
    && all is_ascii_alphanumeric suffix

unfoldable pub parse_order_suffix : Str → ℕ → Option OrderPurpose
parse_order_suffix [] max_len = none
parse_order_suffix (code ∷ suffix) max_len = do
  purpose ← purpose_of_code code
  if valid_suffix max_len suffix then some purpose else none

unfoldable pub valid_strategy_tag : Str → Bool
valid_strategy_tag tag = length tag == strategy_tag_len && all is_ascii_alphanumeric tag

unfoldable pub valid_legacy_strategy_tag : Str → Bool
valid_legacy_strategy_tag tag =
    leb 1 (length tag)
    && leb (length tag) legacy_strategy_tag_max_len
    && all is_ascii_alphanumeric tag

abbrev parse_tagged : Str → Str → ℕ → Option OrderPurpose
parse_tagged id tag max_len = do
  tagged ← strip_prefix order_id_prefix id
  suffix ← strip_prefix tag tagged
  parse_order_suffix suffix max_len

unfoldable pub parse_strategy_client_order_id : Str → Str → Option OrderPurpose
parse_strategy_client_order_id id tag =
    if not (valid_strategy_tag tag) then none else parse_tagged id tag max_suffix_len

unfoldable pub parse_legacy_strategy_client_order_id : Str → Str → Option OrderPurpose
parse_legacy_strategy_client_order_id id tag =
    if not (valid_legacy_strategy_tag tag)
    then none
    else parse_tagged id tag
        (okx_client_order_id_max_len - length order_id_prefix - length tag - code_len)
