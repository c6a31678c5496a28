-- ===== src/TradingRuntime/OrderId/Base36.antt =====
-- order_id.rs, `base36` and `padded_base36`: their digits, their length and the value they stand for.
use okx_rust_trading.Common.{
  ℕ, zero, suc, ◌+◌, ◌-◌, ◌*◌, ◌/◌, ◌%◌, ◌≤◌, ◌<◌, ◌≡◌, refl, ◌∙◌, ap, true, false, [], ◌∷◌, arith,
  leb, ◌==◌, if◌then◌else◌, length, length-append, u64_max, Bool-cases, inl, inr,
}
use okx_rust_trading.Text.{Str, all, all-append, is_ascii_alphanumeric}
use okx_rust_trading.TradingRuntime.OrderId.{
  base36_digit, base36_digits, base36, zeros, padded_base36,
}

-- The value of a character of base 36, and of a text that follows a value.
abbrev pub digit_value : ℕ → ℕ
digit_value c = if leb c b'9' then c - b'0' else c + 10 - b'A'

unfoldable pub decode_from : ℕ → Str → ℕ
decode_from acc [] = acc
decode_from acc (c ∷ s) = decode_from (acc * 36 + digit_value c) s

abbrev pub pow_36 : ℕ → ℕ
pow_36 zero = 1
pow_36 (suc n) = 36 * pow_36 n

digit_value-base36_digit : (d : ℕ) → d < 36 → digit_value (base36_digit d) ≡ d
unfolding base36_digit
digit_value-base36_digit d h = ground arith

base36_digit_alphanumeric : (d : ℕ) → d < 36 → is_ascii_alphanumeric (base36_digit d) ≡ true
unfolding base36_digit
base36_digit_alphanumeric d h = ground arith

decode_from-base36_digits :
    (rounds v : ℕ) (s : Str)
    → v < pow_36 rounds
    → decode_from 0 (base36_digits rounds v s) ≡ decode_from v s
unfolding base36_digits decode_from
decode_from-base36_digits zero v s h = ap (λ (n : ℕ). decode_from n s) (omega arith)
decode_from-base36_digits (suc rounds) v s h = elim (Bool-cases (v == 0)) [
  | inl done ↦ rw done (ap (λ (n : ℕ). decode_from n s) (ground arith))
  | inr more ↦ rw more (
      decode_from-base36_digits rounds (v / 36) (base36_digit (v % 36) ∷ s) (omega arith)
      ∙ ap (λ (n : ℕ). decode_from n s) (omega (arith, digit_value-base36_digit (v % 36))))
]

all-base36_digits :
    (rounds v : ℕ) (s : Str)
    → all is_ascii_alphanumeric s ≡ true
    → all is_ascii_alphanumeric (base36_digits rounds v s) ≡ true
unfolding base36_digits
all-base36_digits zero v s h = h
all-base36_digits (suc rounds) v s h = ground (
  arith,
  base36_digit_alphanumeric (v % 36),
  all-base36_digits rounds (v / 36) (base36_digit (v % 36) ∷ s),
)

-- At least one digit, and no more than `k` of a number below 36 ^ k.
length-base36_digits :
    (rounds k v : ℕ) (s : Str)
    → v < pow_36 k
    → (length s ≤ length (base36_digits rounds v s))
      × (length (base36_digits rounds v s) ≤ k + length s)
unfolding base36_digits
length-base36_digits zero k v s h = omega arith
length-base36_digits (suc rounds) zero v s h =
    let none_left : v == 0 ≡ true = ground arith in rw none_left (omega arith)
length-base36_digits (suc rounds) (suc k) v s h =
    ground (arith, length-base36_digits rounds k (v / 36) (base36_digit (v % 36) ∷ s))

decode_from-nil : (v : ℕ) → decode_from v [] ≡ v
unfolding decode_from
decode_from-nil v = refl

decode_from-zero : decode_from 0 (b'0' ∷ []) ≡ 0
unfolding decode_from
decode_from-zero = refl

pub decode_from-base36 : (v : ℕ) → v ≤ u64_max → decode_from 0 (base36 v) ≡ v
unfolding base36
decode_from-base36 v h = elim (Bool-cases (v == 0)) [
  | inl none_left ↦ rw none_left (decode_from-zero ∙ ground arith)
  | inr some_left ↦
      rw some_left (decode_from-base36_digits 13 v [] (omega arith) ∙ decode_from-nil v)
]

pub all-base36 : (v : ℕ) → all is_ascii_alphanumeric (base36 v) ≡ true
unfolding base36
all-base36 v = ground (arith, all-base36_digits 13 v [])

first_digit :
    (v : ℕ)
    → v == 0 ≡ false
    → base36_digits 13 v [] ≡ base36_digits 12 (v / 36) (base36_digit (v % 36) ∷ [])
unfolding base36_digits
first_digit v h = rw h refl

pub length-base36 :
    (k v : ℕ) → 0 < k → v < pow_36 k → (1 ≤ length (base36 v)) × (length (base36 v) ≤ k)
unfolding base36
length-base36 zero v p h = elim p [ ]
length-base36 (suc k) v p h = elim (Bool-cases (v == 0)) [
  | inl none_left ↦ rw none_left (omega arith)
  | inr some_left ↦ rw some_left (
      rw (first_digit v some_left)
        (omega (arith, length-base36_digits 12 k (v / 36) (base36_digit (v % 36) ∷ []))))
]

pub all-zeros : (n : ℕ) → all is_ascii_alphanumeric (zeros n) ≡ true
unfolding zeros
all-zeros zero = refl
all-zeros (suc n) = all-zeros n

pub length-zeros : (n : ℕ) → length (zeros n) ≡ n
unfolding zeros
length-zeros zero = refl
length-zeros (suc n) = omega (arith, length-zeros n)

pub all-padded_base36 : (v width : ℕ) → all is_ascii_alphanumeric (padded_base36 v width) ≡ true
unfolding padded_base36
all-padded_base36 v width = ground (
  arith,
  all-base36 v,
  all-zeros (width - length (base36 v)),
  all-append is_ascii_alphanumeric (zeros (width - length (base36 v))) (base36 v),
)

pub length-padded_base36 :
    (v width : ℕ) → 0 < width → v < pow_36 width → length (padded_base36 v width) ≡ width
unfolding padded_base36
length-padded_base36 v width p h = ground (
  arith,
  length-base36 width v,
  length-zeros (width - length (base36 v)),
  length-append (zeros (width - length (base36 v))) (base36 v),
)
