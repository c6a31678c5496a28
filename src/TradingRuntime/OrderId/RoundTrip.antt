-- ===== src/TradingRuntime/OrderId/RoundTrip.antt =====
-- order_id.rs: an id that `client_order_id` makes is accepted by the exchange and recognised again.
use okx_rust_trading.Common.{
  ℕ, ◌%◌, ◌≤◌, ◌<◌, ◌≡◌, refl, true, some, ◌∷◌, ◌++◌, arith, length, length-append, u64_max,
}
use okx_rust_trading.Common.Int.{ℤ, pos, negsuc}
use okx_rust_trading.Text.{Str, all, all-append, is_ascii_alphanumeric}
use okx_rust_trading.TradingRuntime.OrderId.{
  OrderPurpose, as_code, unix_ms, four_digits, generated_suffix, client_order_id, base36,
  order_id_prefix, strategy_tag, parse_strategy_client_order_id, okx_client_order_id_max_len,
}
use okx_rust_trading.TradingRuntime.OrderId.Base36.{all-base36, length-base36}
use okx_rust_trading.TradingRuntime.OrderId.Tags.{
  length-strategy_tag, all-strategy_tag, valid_strategy_tag-strategy_tag,
}
use okx_rust_trading.TradingRuntime.OrderId.Parser.{HasForm, parse_strategy_client_order_id_iff}

pub unix_ms-le : (now : ℤ) → unix_ms now ≤ u64_max
unfolding unix_ms
unix_ms-le (pos nanos) = ground arith
unix_ms-le (negsuc nanos) = omega arith

all-four_digits : (n : ℕ) → n < 10_000 → all is_ascii_alphanumeric (four_digits n) ≡ true
unfolding four_digits
all-four_digits n h = ground arith

length-four_digits : (n : ℕ) → length (four_digits n) ≡ 4
unfolding four_digits
length-four_digits n = refl

length-generated_suffix :
    (now : ℤ) (counter : ℕ)
    → (5 ≤ length (generated_suffix now counter)) × (length (generated_suffix now counter) ≤ 17)
unfolding generated_suffix
length-generated_suffix now counter = omega (
  arith,
  length-append (base36 (unix_ms now)) (four_digits (counter % 10_000)),
  length-four_digits (counter % 10_000),
  length-base36 13 (unix_ms now) (omega arith) (omega (arith, unix_ms-le now)),
)

all-generated_suffix :
    (now : ℤ) (counter : ℕ) → all is_ascii_alphanumeric (generated_suffix now counter) ≡ true
unfolding generated_suffix
all-generated_suffix now counter =
    all-append is_ascii_alphanumeric (base36 (unix_ms now)) (four_digits (counter % 10_000))
      (all-base36 (unix_ms now)) (all-four_digits (counter % 10_000) (omega arith))

client_order_id-HasForm :
    (id : Str) (p : OrderPurpose) (now : ℤ) (counter : ℕ)
    → HasForm
        (strategy_tag id)
        17
        p
        (client_order_id id p now counter).0
        (generated_suffix now counter)
unfolding client_order_id
client_order_id-HasForm id p now counter = record {
  spelled = refl;
  long_enough = (length-generated_suffix now counter).0;
  short_enough = (length-generated_suffix now counter).1;
  alphanumeric = all-generated_suffix now counter;
}

-- A client order id that is built for a strategy, of any name, purpose, time and counter, is read
-- back under the tag of that strategy as an order of that purpose.
pub parse_strategy_client_order_id-client_order_id :
    (id : Str) (p : OrderPurpose) (now : ℤ) (counter : ℕ)
    → parse_strategy_client_order_id (client_order_id id p now counter).0 (strategy_tag id) ≡ some p
parse_strategy_client_order_id-client_order_id id p now counter =
    (parse_strategy_client_order_id_iff (client_order_id id p now counter).0 (strategy_tag id) p).1
      (
        valid_strategy_tag-strategy_tag id,
        (generated_suffix now counter, client_order_id-HasForm id p now counter),
      )

as_code_alphanumeric : (p : OrderPurpose) → is_ascii_alphanumeric (as_code p) ≡ true
as_code_alphanumeric OrderPurpose.entry = refl
as_code_alphanumeric OrderPurpose.take_profit = refl
as_code_alphanumeric OrderPurpose.stop_loss = refl

-- A client order id has 32 characters at most, and each is an ASCII letter or digit.
pub client_order_id_fits :
    (id : Str) (p : OrderPurpose) (now : ℤ) (counter : ℕ)
    → (length (client_order_id id p now counter).0 ≤ okx_client_order_id_max_len)
      × (all is_ascii_alphanumeric (client_order_id id p now counter).0 ≡ true)
unfolding client_order_id
client_order_id_fits id p now counter = (
  omega (
    arith,
    length-append order_id_prefix (strategy_tag id ++ as_code p ∷ generated_suffix now counter),
    length-append (strategy_tag id) (as_code p ∷ generated_suffix now counter),
    length-strategy_tag id,
    length-generated_suffix now counter,
  ),
  ground (
    arith,
    all-append is_ascii_alphanumeric (strategy_tag id) (as_code p ∷ generated_suffix now counter),
    all-strategy_tag id,
    as_code_alphanumeric p,
    all-generated_suffix now counter,
  ),
)
