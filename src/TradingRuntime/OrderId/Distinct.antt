-- ===== src/TradingRuntime/OrderId/Distinct.antt =====
-- order_id.rs: which of a strategy's ids coincide.
use okx_rust_trading.Common.{
  ℕ, ◌+◌, ◌/◌, ◌%◌, ◌<◌, ◌≡◌, refl, sym, ap, ◌∙◌, [], ◌∷◌, ◌++◌, arith, length, length-append, ◌↔◌,
}
use okx_rust_trading.Common.Int.{ℤ}
use okx_rust_trading.Text.{Str}
use okx_rust_trading.TradingRuntime.OrderId.{
  OrderPurpose, as_code, unix_ms, four_digits, generated_suffix, client_order_id, base36,
  order_id_prefix, strategy_tag,
}
use okx_rust_trading.TradingRuntime.OrderId.Base36.{decode_from, decode_from-base36}
use okx_rust_trading.TradingRuntime.OrderId.RoundTrip.{unix_ms-le}

append_cancel : (s t u : Str) → s ++ t ≡ s ++ u → t ≡ u
append_cancel [] t u h = h
append_cancel (c ∷ s) t u h = append_cancel s t u (cc)

append_split : (s t u v : Str) → length u ≡ length v → s ++ u ≡ t ++ v → (s ≡ t) × (u ≡ v)
append_split [] [] u v e h = (refl, h)
append_split [] (d ∷ t) u v e h = absurd (omega (arith, ap length h, length-append t v))
append_split (c ∷ s) [] u v e h = absurd (omega (arith, ap length h, length-append s u))
append_split (c ∷ s) (d ∷ t) u v e h =
    let tails : s ++ u ≡ t ++ v = cc in ground (arith, append_split s t u v e tails)

four_digits-injective : (m n : ℕ) → m < 10_000 → n < 10_000 → four_digits m ≡ four_digits n → m ≡ n
unfolding four_digits
four_digits-injective m n hm hn h =
    let thousands : b'0' + m / 1000 ≡ b'0' + n / 1000 = cc in
    let hundreds : b'0' + m / 100 % 10 ≡ b'0' + n / 100 % 10 = cc in
    let tens : b'0' + m / 10 % 10 ≡ b'0' + n / 10 % 10 = cc in
    let units : b'0' + m % 10 ≡ b'0' + n % 10 = cc in omega arith

generated_suffix-injective :
    (now later : ℤ) (i j : ℕ)
    → generated_suffix now i ≡ generated_suffix later j
    → (unix_ms now ≡ unix_ms later) × (i % 10_000 ≡ j % 10_000)
unfolding generated_suffix
generated_suffix-injective now later i j h =
    let (times, counts) =
      append_split (base36 (unix_ms now)) (base36 (unix_ms later)) (four_digits (i % 10_000))
        (four_digits (j % 10_000)) (unfold four_digits in refl) h in
    (
      sym (decode_from-base36 (unix_ms now) (unix_ms-le now))
          ∙ ap (decode_from 0) times
          ∙ decode_from-base36 (unix_ms later) (unix_ms-le later),
      four_digits-injective (i % 10_000) (j % 10_000) (omega arith) (omega arith) counts,
    )

as_code-injective : (p q : OrderPurpose) → as_code p ≡ as_code q → p ≡ q
as_code-injective OrderPurpose.entry OrderPurpose.entry h = refl
as_code-injective OrderPurpose.entry OrderPurpose.take_profit h = absurd (omega arith)
as_code-injective OrderPurpose.entry OrderPurpose.stop_loss h = absurd (omega arith)
as_code-injective OrderPurpose.take_profit OrderPurpose.entry h = absurd (omega arith)
as_code-injective OrderPurpose.take_profit OrderPurpose.take_profit h = refl
as_code-injective OrderPurpose.take_profit OrderPurpose.stop_loss h = absurd (omega arith)
as_code-injective OrderPurpose.stop_loss OrderPurpose.entry h = absurd (omega arith)
as_code-injective OrderPurpose.stop_loss OrderPurpose.take_profit h = absurd (omega arith)
as_code-injective OrderPurpose.stop_loss OrderPurpose.stop_loss h = refl

-- Two client order ids of one strategy are equal exactly if they have the same purpose and the
-- same millisecond, and their counters agree modulo 10000.
pub client_order_id_eq_iff :
    (id : Str) (p q : OrderPurpose) (now later : ℤ) (i j : ℕ)
    → ((client_order_id id p now i).0 ≡ (client_order_id id q later j).0)
      ↔ ((p ≡ q) × (unix_ms now ≡ unix_ms later) × (i % 10_000 ≡ j % 10_000))
unfolding client_order_id generated_suffix
client_order_id_eq_iff id p q now later i j = (
  λ h.
      let after_tag =
        append_cancel (strategy_tag id) (as_code p ∷ generated_suffix now i)
          (as_code q ∷ generated_suffix later j)
          (append_cancel order_id_prefix (strategy_tag id ++ as_code p ∷ generated_suffix now i)
            (strategy_tag id ++ as_code q ∷ generated_suffix later j) h) in
      let (times, counts) = generated_suffix-injective now later i j (cc after_tag) in
      (as_code-injective p q (cc after_tag), times, counts),
  λ h. cc (h.0, h.1, h.2),
)
