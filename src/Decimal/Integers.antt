-- ===== src/Decimal/Integers.antt =====
-- The integers as decimals: a concrete instance of the parameter, with division that cuts off.
use Prim.Native.Nat.{◌+◌, ◌/◌, ◌%◌, ◌≤◌, ◌<◌}
use okx_rust_trading.Common.{
  ℕ, zero, suc, ◌≡◌, refl, true, arith, Option, some, [], ◌∷◌, ◌==◌, if◌then◌else◌,
}
use okx_rust_trading.Common.Int.{ℤ, pos, negsuc, pos_part, neg_part, sub_ℕ, ◌+ℤ◌, ◌-ℤ◌, ◌*ℤ◌}
use okx_rust_trading.Order.{int_ord, ◌≺◌, le?}
use okx_rust_trading.Text.{Str, parse_i64}
use okx_rust_trading.Decimal.{Decimal, IsLawful}

abbrev pub div_ℤ : ℤ → ℤ → ℤ
div_ℤ (pos a) (pos b) = pos (a / b)
div_ℤ (pos a) (negsuc b) = sub_ℕ 0 (a / suc b)
div_ℤ (negsuc a) (pos b) = sub_ℕ 0 (suc a / b)
div_ℤ (negsuc a) (negsuc b) = pos (suc a / suc b)

abbrev pub neg_ℤ : ℤ → ℤ
neg_ℤ a = sub_ℕ (neg_part a) (pos_part a)

-- The decimal digits of a number, the last rounds first; 40 rounds are enough for 40 digits.
digits : ℕ → ℕ → Str → Str
digits zero n after = after
digits (suc rounds) n after =
    let more = digits rounds (n / 10) ((b'0' + n % 10) ∷ after) in if n == 0 then after else more

unfoldable pub int_to_string : ℤ → Str
unfolding digits
int_to_string (pos n) = if n == 0 then b'0' ∷ [] else digits 40 n []
int_to_string (negsuc n) = b'-' ∷ digits 40 (suc n) []

instance abbrev pub int_decimal : Decimal ℤ
int_decimal = record {
  zero = pos 0;
  one = pos 1;
  two = pos 2;
  from_u64 = pos;
  from_str = parse_i64;
  add = ◌+ℤ◌;
  sub = ◌-ℤ◌;
  mul = ◌*ℤ◌;
  div = div_ℤ;
  abs = λ a. pos (pos_part a + neg_part a);
  neg = neg_ℤ;
  floor = λ a. a;
  ceil = λ a. a;
  checked_sub = λ a b. some (a -ℤ b);
  checked_mul = λ a b. some (a *ℤ b);
  to_normal_string = int_to_string;
}

int_le_add : (a b : ℤ) → le? (pos 0) b ≡ true → le? a (a +ℤ b) ≡ true
unfolding ◌+ℤ◌
int_le_add a b h = ground arith

int_add_comm : (a b : ℤ) → a +ℤ b ≡ b +ℤ a
unfolding ◌+ℤ◌
int_add_comm a b = ground arith

int_sub_pos : (a b : ℤ) → a ≺ b → pos 0 ≺ b -ℤ a
unfolding ◌-ℤ◌
int_sub_pos a b h = ground arith

int_sub_le : (a b : ℤ) → le? (pos 0) b ≡ true → le? (a -ℤ b) a ≡ true
unfolding ◌-ℤ◌
int_sub_le a b h = ground arith

int_div_nonneg : (a b : ℤ) → le? (pos 0) a ≡ true → pos 0 ≺ b → le? (pos 0) (div_ℤ a b) ≡ true
int_div_nonneg (pos a) (pos b) h p = ground arith
int_div_nonneg (pos a) (negsuc b) h p = ground arith
int_div_nonneg (negsuc a) (pos b) h p = ground arith
int_div_nonneg (negsuc a) (negsuc b) h p = ground arith

div_le_one_nat : (a b : ℕ) → 0 < b → a ≤ b → a / b ≤ 1
div_le_one_nat a b h k = grind arith

int_div_le_one : (a b : ℤ) → pos 0 ≺ b → le? a b ≡ true → le? (div_ℤ a b) (pos 1) ≡ true
int_div_le_one (pos a) (pos b) p h = ground (arith, div_le_one_nat a b)
int_div_le_one (pos a) (negsuc b) p h = ground arith
int_div_le_one (negsuc a) (pos b) p h = ground arith
int_div_le_one (negsuc a) (negsuc b) p h = ground arith

int_sub_mono : (a b c : ℤ) → le? a b ≡ true → le? (a -ℤ c) (b -ℤ c) ≡ true
unfolding ◌-ℤ◌
int_sub_mono a b c h = ground arith

int_sub_anti : (a b c : ℤ) → le? a b ≡ true → le? (c -ℤ b) (c -ℤ a) ≡ true
unfolding ◌-ℤ◌
int_sub_anti a b c h = ground arith

int_mul_nonneg :
    (a b : ℤ) → le? (pos 0) a ≡ true → le? (pos 0) b ≡ true → le? (pos 0) (a *ℤ b) ≡ true
unfolding ◌*ℤ◌
int_mul_nonneg (pos a) (pos b) h k = ground arith
int_mul_nonneg (pos a) (negsuc b) h k = ground arith
int_mul_nonneg (negsuc a) (pos b) h k = ground arith
int_mul_nonneg (negsuc a) (negsuc b) h k = ground arith

int_div_ge_neg_one :
    (a b : ℤ) → pos 0 ≺ b → le? (pos 0 -ℤ b) a ≡ true → le? (pos 0 -ℤ pos 1) (div_ℤ a b) ≡ true
unfolding ◌-ℤ◌
int_div_ge_neg_one (pos a) (pos b) p h = ground arith
int_div_ge_neg_one (pos a) (negsuc b) p h = ground arith
int_div_ge_neg_one (negsuc a) (pos b) p h = ground (arith, div_le_one_nat (suc a) b)
int_div_ge_neg_one (negsuc a) (negsuc b) p h = ground arith

int_from_u64_mono : (m n : ℕ) → m ≤ n → le? (pos m) (pos n) ≡ true
int_from_u64_mono m n h = ground arith

int_from_u64_pos : (n : ℕ) → 0 < n → pos 0 ≺ pos n
int_from_u64_pos n h = ground arith

int_neg_pos : (a : ℤ) → a ≺ pos 0 → pos 0 ≺ neg_ℤ a
int_neg_pos a h = ground arith

int_checked_sub_le :
    (a b r : ℤ)
    → ◌≡◌ {A = Option ℤ} (some (a -ℤ b)) (some r)
    → le? (pos 0) b ≡ true
    → le? r a ≡ true
int_checked_sub_le a b r h p = ground (arith, int_sub_le a b)

-- The integers meet what is relied on.
pub int_decimal-IsLawful : IsLawful ℤ
int_decimal-IsLawful = record {
  zero_lt_one = refl;
  le_add = int_le_add;
  add_comm = int_add_comm;
  sub_pos = int_sub_pos;
  sub_le = int_sub_le;
  sub_mono = int_sub_mono;
  sub_anti = int_sub_anti;
  mul_nonneg = int_mul_nonneg;
  div_nonneg = int_div_nonneg;
  div_le_one = int_div_le_one;
  from_u64_zero = refl;
  from_u64_mono = int_from_u64_mono;
  from_u64_pos = int_from_u64_pos;
  div_ge_neg_one = int_div_ge_neg_one;
  neg_pos = int_neg_pos;
  checked_sub_le = int_checked_sub_le;
}
