-- ===== src/BTreeMap/Order.antt =====
-- BTreeMap: the keys ascend, whatever is inserted, removed or cut off at an end.
use mathlib.Core.Option.{some-injective}
use okx_rust_trading.Common.{
  ℕ, zero, suc, ◌≡◌, refl, [], ◌∷◌, some, true, arith, All, All-take, All-mono, take, drop, length,
  subst,
}
use okx_rust_trading.Order.{Ord, ◌≺◌, le?, lt_of_le_of_lt, lt_of_lt_of_le}
use okx_rust_trading.BTreeMap.{BTreeMap, insert, remove, first_key_value, last_key_value}

module _ {ℓ κ} {K : Type ℓ} {V : Type κ} ⦃o : Ord K⦄ where
  -- Every key of the map lies above `k`, or below it.
  abbrev pub Above : K → BTreeMap K V → Type 0
  Above k = All (λ e. k ≺ e.0)

  abbrev pub Below : K → BTreeMap K V → Type 0
  Below k = All (λ e. e.0 ≺ k)

  abbrev pub IsSorted : BTreeMap K V → Type 0
  IsSorted [] = Unit {0}
  IsSorted ((k, v) ∷ m) = Above k m × IsSorted m

  pub Above-mono : (j k : K) (m : BTreeMap K V) → j ≺ k → Above k m → Above j m
  Above-mono j k [] h a = tt
  Above-mono j k ((i, w) ∷ m) h a = (o.cmp_trans j k i h a.0, Above-mono j k m h a.1)

  pub insert-Above :
      (j k : K) (v : V) (m : BTreeMap K V) → j ≺ k → Above j m → Above j (insert k v m)
  unfolding insert
  insert-Above j k v [] h a = (h, tt)
  insert-Above j k v ((i, w) ∷ m) h a = ground (arith, insert-Above j k v m h a.1)

  pub insert-IsSorted : (k : K) (v : V) (m : BTreeMap K V) → IsSorted m → IsSorted (insert k v m)
  unfolding insert
  insert-IsSorted k v [] s = (tt, tt)
  insert-IsSorted k v ((i, w) ∷ m) s = ground (
    arith,
    Above-mono k i m,
    insert-Above i k v m,
    insert-IsSorted k v m s.1,
    o.cmp_flip k i,
    o.eq_of_cmp k i,
  )

  pub remove-Above : (j k : K) (m : BTreeMap K V) → Above j m → Above j (remove k m)
  unfolding remove
  remove-Above j k [] a = tt
  remove-Above j k ((i, w) ∷ m) a = ground (arith, remove-Above j k m a.1)

  pub remove-IsSorted : (k : K) (m : BTreeMap K V) → IsSorted m → IsSorted (remove k m)
  unfolding remove
  remove-IsSorted k [] s = tt
  remove-IsSorted k ((i, w) ∷ m) s = ground (arith, remove-Above i k m s.0, remove-IsSorted k m s.1)

  pub take-IsSorted : (n : ℕ) (m : BTreeMap K V) → IsSorted m → IsSorted (take n m)
  take-IsSorted zero m s = tt
  take-IsSorted (suc n) [] s = tt
  take-IsSorted (suc n) ((k, v) ∷ m) s =
      (All-take (λ (e : K × V). k ≺ e.0) n m s.0, take-IsSorted n m s.1)

  pub drop-IsSorted : (n : ℕ) (m : BTreeMap K V) → IsSorted m → IsSorted (drop n m)
  drop-IsSorted zero m s = s
  drop-IsSorted (suc n) [] s = tt
  drop-IsSorted (suc n) ((k, v) ∷ m) s = drop-IsSorted n m s.1

  -- The ends of the map are its least and its greatest key.
  pub first_key_value-least :
      (m : BTreeMap K V) (e : K × V)
      → IsSorted m
      → first_key_value m ≡ some e
      → All (λ f. le? e.0 f.0 ≡ true) m
  unfolding first_key_value
  first_key_value-least [] e s h = tt
  first_key_value-least ((k, v) ∷ m) e s h =
      let same : e.0 ≡ k = ground arith in
      (
        ground (arith, o.cmp_self k),
        All-mono (λ (f : K × V). k ≺ f.0) (λ f. le? e.0 f.0 ≡ true) m (λ f p. ground arith) s.0,
      )

  last_key_value-Above :
      (k : K) (m : BTreeMap K V) (e : K × V) → Above k m → last_key_value m ≡ some e → k ≺ e.0
  unfolding last_key_value
  last_key_value-Above k [] e a h = cc
  last_key_value-Above k (f ∷ []) e a h = ground arith
  last_key_value-Above k (f ∷ g ∷ m) e a h = last_key_value-Above k (g ∷ m) e a.1 h

  pub last_key_value-greatest :
      (m : BTreeMap K V) (e : K × V)
      → IsSorted m
      → last_key_value m ≡ some e
      → All (λ f. le? f.0 e.0 ≡ true) m
  unfolding last_key_value
  last_key_value-greatest [] e s h = tt
  last_key_value-greatest (f ∷ []) e s h = (ground (arith, o.cmp_self f.0), tt)
  last_key_value-greatest ((k, v) ∷ f ∷ m) e s h = (
    ground (arith, last_key_value-Above k (f ∷ m) e s.0 h),
    last_key_value-greatest (f ∷ m) e s.1 h,
  )

  -- Removing an end of the map cuts it off.
  pub remove-first_key_value :
      (m : BTreeMap K V) (e : K × V) → first_key_value m ≡ some e → remove e.0 m ≡ drop 1 m
  unfolding first_key_value remove
  remove-first_key_value [] e h = cc
  remove-first_key_value ((k, v) ∷ m) e h = ground (arith, o.cmp_self k)

  pub remove-last_key_value :
      (m : BTreeMap K V) (e : K × V) (n : ℕ)
      → IsSorted m
      → last_key_value m ≡ some e
      → length m ≡ suc n
      → remove e.0 m ≡ take n m
  unfolding last_key_value remove
  remove-last_key_value [] e n s h l = cc
  remove-last_key_value (f ∷ []) e zero s h l = ground (arith, o.cmp_self f.0)
  remove-last_key_value (f ∷ []) e (suc n) s h l = absurd (omega arith)
  remove-last_key_value (f ∷ g ∷ m) e zero s h l = absurd (omega arith)
  remove-last_key_value (f ∷ g ∷ m) e (suc n) s h l = ground (
    arith,
    remove-last_key_value (g ∷ m) e n s.1 h,
    last_key_value-Above f.0 (g ∷ m) e s.0 h,
    o.cmp_flip f.0 e.0,
  )

  -- What holds of every entry goes on to hold of every entry.
  pub insert-All {μ} :
      (P : K × V → Type μ) (k : K) (v : V) (m : BTreeMap K V)
      → P (k, v)
      → All P m
      → All P (insert k v m)
  unfolding insert
  insert-All P k v [] h a = (h, tt)
  insert-All P k v ((i, w) ∷ m) h a = ground (arith, insert-All P k v m h a.1, o.eq_of_cmp k i)

  pub remove-All {μ} :
      (P : K × V → Type μ) (k : K) (m : BTreeMap K V) → All P m → All P (remove k m)
  unfolding remove
  remove-All P k [] a = tt
  remove-All P k ((i, w) ∷ m) a = ground (arith, remove-All P k m a.1)

-- A map that is not empty has a last entry.
pub last_key_value-some {ℓ κ} :
    {K : Type ℓ} {V : Type κ} (e : K × V) (m : BTreeMap K V)
    → (f : K × V) × (last_key_value (e ∷ m) ≡ some f)
unfolding last_key_value
last_key_value-some e [] = (e, refl)
last_key_value-some e (f ∷ m) = last_key_value-some f m

-- What holds of every entry holds of the ends.
module _ {ℓ κ μ} {K : Type ℓ} {V : Type κ} (P : K × V → Type μ) where
  pub first_key_value-All :
      (m : BTreeMap K V) (e : K × V) → first_key_value m ≡ some e → All P m → P e
  unfolding first_key_value
  first_key_value-All [] e h a = cc
  first_key_value-All (f ∷ m) e h a = subst P (some-injective f e h) a.0

  pub last_key_value-All :
      (m : BTreeMap K V) (e : K × V) → last_key_value m ≡ some e → All P m → P e
  unfolding last_key_value
  last_key_value-All [] e h a = cc
  last_key_value-All (f ∷ []) e h a = subst P (some-injective f e h) a.0
  last_key_value-All (f ∷ g ∷ m) e h a = last_key_value-All (g ∷ m) e h a.1

-- Two maps whose facing ends are in order lie apart: each key of the one below each of the other.
pub apart_of_ends {ℓ κ μ} :
    {K : Type ℓ} {V : Type κ} {W : Type μ} ⦃o : Ord K⦄ (m : BTreeMap K V) (n : BTreeMap K W)
    (e : K × V) (f : K × W)
    → IsSorted m
    → IsSorted n
    → last_key_value m ≡ some e
    → first_key_value n ≡ some f
    → e.0 ≺ f.0
    → All (λ b. All (λ a. b.0 ≺ a.0) n) m
apart_of_ends m n e f s t last first h =
    All-mono (λ b. le? b.0 e.0 ≡ true) _ m
      (λ b below.
        All-mono (λ a. le? f.0 a.0 ≡ true) (λ a. b.0 ≺ a.0) n
          (λ a above. lt_of_lt_of_le b.0 f.0 a.0 (lt_of_le_of_lt b.0 e.0 f.0 below h) above)
          (first_key_value-least n f t first))
      (last_key_value-greatest m e s last)
