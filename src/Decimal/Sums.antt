-- ===== src/Decimal/Sums.antt =====
-- Sums and ratios of decimals that are not negative, from what the program relies on.
use okx_rust_trading.Common.{◌≡◌, true, List, [], ◌∷◌, arith, All}
use okx_rust_trading.Order.{Ord, ◌≺◌, le?, le?_trans, lt_of_lt_of_le}
use okx_rust_trading.Decimal.{Decimal, IsLawful, ◌+◌, ◌-◌, ◌/◌, sum, sum_from}

module _ {D : Type 0} ⦃o : Ord D⦄ ⦃d : Decimal D⦄ (laws : IsLawful D) where
  abbrev pub IsNonneg : D → Type 0
  IsNonneg a = le? d.zero a ≡ true

  pub add-IsNonneg : (a b : D) → IsNonneg a → IsNonneg b → IsNonneg (a + b)
  add-IsNonneg a b h k = le?_trans d.zero a (a + b) h (laws.le_add a b k)

  pub add_pos : (a b : D) → d.zero ≺ a → IsNonneg b → d.zero ≺ a + b
  add_pos a b h k = lt_of_lt_of_le d.zero a (a + b) h (laws.le_add a b k)

  sum_from-IsNonneg :
      (acc : D) (xs : List D) → IsNonneg acc → All IsNonneg xs → IsNonneg (sum_from acc xs)
  unfolding sum_from
  sum_from-IsNonneg acc [] h a = h
  sum_from-IsNonneg acc (x ∷ xs) h a = sum_from-IsNonneg (acc + x) xs (add-IsNonneg acc x h a.0) a.1

  pub sum-IsNonneg : (xs : List D) → All IsNonneg xs → IsNonneg (sum xs)
  unfolding sum
  sum-IsNonneg xs a = sum_from-IsNonneg d.zero xs (ground (arith, o.cmp_self d.zero)) a

  -- An imbalance (b - a) / (b + a) lies between minus one and one.
  pub imbalance_bounds :
      (b a : D)
      → IsNonneg b
      → IsNonneg a
      → d.zero ≺ b + a
      → (le? (d.zero - d.one) ((b - a) / (b + a)) ≡ true) × (le? ((b - a) / (b + a)) d.one ≡ true)
  imbalance_bounds b a hb ha t = (
    laws.div_ge_neg_one (b - a) (b + a) t (
        le?_trans (d.zero - (b + a)) (d.zero - a) (b - a)
          (laws.sub_anti a (b + a) d.zero (rw (laws.add_comm b a) (laws.le_add a b hb)))
          (laws.sub_mono d.zero b a hb)),
    laws.div_le_one (b - a) (b + a) t
        (le?_trans (b - a) b (b + a) (laws.sub_le b a ha) (laws.le_add b a ha)),
  )
