-- ===== src/Decimal.antt =====
-- `rust_decimal::Decimal`, a package of its own: a parameter of all that computes with it. Its order
-- is an `Ord`; its constants and operations stand in `Decimal`, and what the program relies on of
-- them in `IsLawful`. An operation is total here: a panic on overflow is not modelled.
pub mod Integers
pub mod Sums
use okx_rust_trading.Common.{
  ℕ, ◌≤◌, ◌<◌, ◌≡◌, Option, some, Bool, true, List, [], ◌∷◌, if◌then◌else◌, Ordering,
}
use okx_rust_trading.Order.{Ord, ◌≺◌, lt?, le?}
use okx_rust_trading.Text.{Str}

pub record Decimal (D : Type 0) : Type 0 where
  pub zero : D
  pub one : D
  pub two : D
  pub from_u64 : ℕ → D
  pub from_str : Str → Option D
  pub add : D → D → D
  pub sub : D → D → D
  pub mul : D → D → D
  pub div : D → D → D
  pub abs : D → D
  pub neg : D → D
  pub floor : D → D
  pub ceil : D → D
  -- `None` where the result overflows.
  pub checked_sub : D → D → Option D
  pub checked_mul : D → D → Option D
  -- `normalize().to_string()`
  pub to_normal_string : D → Str

module _ {D : Type 0} ⦃d : Decimal D⦄ where
  infixl 65 ◌+◌ ◌-◌
  infixl 70 ◌*◌ ◌/◌
  abbrev pub ◌+◌ : D → D → D
  a + b = d.add a b

  abbrev pub ◌-◌ : D → D → D
  a - b = d.sub a b

  abbrev pub ◌*◌ : D → D → D
  a * b = d.mul a b

  abbrev pub ◌/◌ : D → D → D
  a / b = d.div a b

  -- `iter().sum::<Decimal>()`, from the left.
  pub sum_from : D → List D → D
  sum_from acc [] = acc
  sum_from acc (x ∷ xs) = sum_from (acc + x) xs

  unfoldable pub sum : List D → D
  unfolding sum_from
  sum xs = sum_from d.zero xs

module _ {D : Type 0} ⦃o : Ord D⦄ where
  -- `Ord::min`, `Ord::max`: of two equal values the first, and the second.
  abbrev pub min : D → D → D
  min a b = if lt? b a then b else a

  abbrev pub max : D → D → D
  max a b = if lt? b a then a else b

  -- `Ord::clamp`, which asks for `low <= high`.
  abbrev pub clamp : D → D → D → D
  clamp x low high = if lt? x low then low else if lt? high x then high else x

-- What is relied on: the operations round, and rounding keeps the order.
pub record IsLawful (D : Type 0) ⦃o : Ord D⦄ ⦃d : Decimal D⦄ : Type 0 where
  pub zero_lt_one : d.zero ≺ d.one
  pub le_add : (a b : D) → le? d.zero b ≡ true → le? a (d.add a b) ≡ true
  pub add_comm : (a b : D) → d.add a b ≡ d.add b a
  pub sub_pos : (a b : D) → a ≺ b → d.zero ≺ d.sub b a
  pub sub_le : (a b : D) → le? d.zero b ≡ true → le? (d.sub a b) a ≡ true
  pub sub_mono : (a b c : D) → le? a b ≡ true → le? (d.sub a c) (d.sub b c) ≡ true
  pub sub_anti : (a b c : D) → le? a b ≡ true → le? (d.sub c b) (d.sub c a) ≡ true
  pub mul_nonneg :
      (a b : D) → le? d.zero a ≡ true → le? d.zero b ≡ true → le? d.zero (d.mul a b) ≡ true
  pub div_nonneg : (a b : D) → le? d.zero a ≡ true → d.zero ≺ b → le? d.zero (d.div a b) ≡ true
  pub div_le_one : (a b : D) → d.zero ≺ b → le? a b ≡ true → le? (d.div a b) d.one ≡ true
  pub from_u64_zero : d.from_u64 0 ≡ d.zero
  pub from_u64_mono : (m n : ℕ) → m ≤ n → le? (d.from_u64 m) (d.from_u64 n) ≡ true
  pub from_u64_pos : (n : ℕ) → 0 < n → d.zero ≺ d.from_u64 n
  pub div_ge_neg_one :
      (a b : D)
      → d.zero ≺ b
      → le? (d.sub d.zero b) a ≡ true
      → le? (d.sub d.zero d.one) (d.div a b) ≡ true
  pub neg_pos : (a : D) → a ≺ d.zero → d.zero ≺ d.neg a
  pub checked_sub_le :
      (a b r : D) → d.checked_sub a b ≡ some r → le? d.zero b ≡ true → le? r a ≡ true
