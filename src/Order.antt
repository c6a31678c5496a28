-- ===== src/Order.antt =====
-- `Ord`: the total order of a key type, as Rust's trait gives it, with the laws that the trait asks
-- of `cmp`. Equality by `cmp` is read as `≡`: a decimal stands for its value, not for its scale.
use okx_rust_trading.Common.{◌≡◌, ◌↔◌, Bool, true, false, arith, Ordering}
use okx_rust_trading.Common.Int.{ℤ, cmp_ℤ, eq_of_parts}

-- `Ordering::reverse`.
abbrev pub flip : Ordering → Ordering
flip Ordering.lt = Ordering.gt
flip Ordering.eq = Ordering.eq
flip Ordering.gt = Ordering.lt

pub record Ord {ℓ} (K : Type ℓ) : Type ℓ where
  pub cmp : K → K → Ordering
  pub cmp_self : (a : K) → cmp a a ≡ Ordering.eq
  pub cmp_flip : (a b : K) → cmp b a ≡ flip (cmp a b)
  pub eq_of_cmp : (a b : K) → cmp a b ≡ Ordering.eq → a ≡ b
  pub cmp_trans :
      (a b c : K) → cmp a b ≡ Ordering.lt → cmp b c ≡ Ordering.lt → cmp a c ≡ Ordering.lt

module _ {ℓ} {K : Type ℓ} ⦃o : Ord K⦄ where
  -- The operators `<`, `<=`, `==` of the type.
  abbrev pub lt? : K → K → Bool
  lt? a b = elim (o.cmp a b) [ Ordering.lt ↦ true | _ ↦ false ]

  abbrev pub le? : K → K → Bool
  le? a b = elim (o.cmp a b) [ Ordering.gt ↦ false | _ ↦ true ]

  abbrev pub eq? : K → K → Bool
  eq? a b = elim (o.cmp a b) [ Ordering.eq ↦ true | _ ↦ false ]

  infix 50 ◌≺◌
  abbrev pub ◌≺◌ : K → K → Type 0
  a ≺ b = o.cmp a b ≡ Ordering.lt

  pub eq?_iff : (a b : K) → (eq? a b ≡ true) ↔ (a ≡ b)
  eq?_iff a b = ground (arith, o.eq_of_cmp a b, o.cmp_self a)

module _ {ℓ} {K : Type ℓ} ⦃o : Ord K⦄ where
  pub lt_of_le_of_lt : (a b c : K) → le? a b ≡ true → b ≺ c → a ≺ c
  lt_of_le_of_lt a b c h k = ground (arith, o.cmp_trans a b c, o.eq_of_cmp a b)

  pub lt_of_lt_of_le : (a b c : K) → a ≺ b → le? b c ≡ true → a ≺ c
  lt_of_lt_of_le a b c h k = ground (arith, o.cmp_trans a b c, o.eq_of_cmp b c)

  pub lt_of_not_le : (a b : K) → le? a b ≡ false → b ≺ a
  lt_of_not_le a b h = ground (arith, o.cmp_flip a b)

  pub le?_trans : (a b c : K) → le? a b ≡ true → le? b c ≡ true → le? a c ≡ true
  le?_trans a b c h k =
      ground (arith, o.cmp_trans a b c, o.eq_of_cmp a b, o.eq_of_cmp b c, o.cmp_flip a c)

pub int_cmp_flip : (a b : ℤ) → cmp_ℤ b a ≡ flip (cmp_ℤ a b)
int_cmp_flip a b = ground arith

pub int_cmp_trans :
    (a b c : ℤ) → cmp_ℤ a b ≡ Ordering.lt → cmp_ℤ b c ≡ Ordering.lt → cmp_ℤ a c ≡ Ordering.lt
int_cmp_trans a b c h k = ground arith

pub int_eq_of_cmp : (a b : ℤ) → cmp_ℤ a b ≡ Ordering.eq → a ≡ b
int_eq_of_cmp a b h = ground (arith, eq_of_parts a b)

pub int_cmp_self : (a : ℤ) → cmp_ℤ a a ≡ Ordering.eq
int_cmp_self a = ground arith

instance abbrev pub int_ord : Ord ℤ
int_ord = record {
  cmp = cmp_ℤ;
  cmp_self = int_cmp_self;
  cmp_flip = int_cmp_flip;
  eq_of_cmp = int_eq_of_cmp;
  cmp_trans = int_cmp_trans;
}
