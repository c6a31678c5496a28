-- ===== src/BTreeMap.antt =====
-- `std::collections::BTreeMap`: the entries in ascending key order.
pub mod Order
pub mod Lookup
use okx_rust_trading.Common.{List, [], ◌∷◌, Option, none, some, Ordering}
use okx_rust_trading.Order.{Ord}

abbrev pub BTreeMap {ℓ κ} : Type ℓ → Type κ → Type (ℓ ⊔ κ)
BTreeMap K V = List (K × V)

module _ {ℓ κ} {K : Type ℓ} {V : Type κ} where
  -- `first_key_value`, `last_key_value`.
  unfoldable pub first_key_value : BTreeMap K V → Option (K × V)
  first_key_value [] = none
  first_key_value (e ∷ m) = some e

  unfoldable pub last_key_value : BTreeMap K V → Option (K × V)
  last_key_value [] = none
  last_key_value (e ∷ []) = some e
  last_key_value (e ∷ f ∷ m) = last_key_value (f ∷ m)

module _ {ℓ κ} {K : Type ℓ} {V : Type κ} ⦃o : Ord K⦄ where
  unfoldable pub get : K → BTreeMap K V → Option V
  get k [] = none
  get k ((j, w) ∷ m) = elim (o.cmp k j) [
    | Ordering.lt ↦ none
    | Ordering.eq ↦ some w
    | Ordering.gt ↦ get k m
  ]

  -- `insert` also returns the value that was there: `get k m`.
  unfoldable pub insert : K → V → BTreeMap K V → BTreeMap K V
  insert k v [] = (k, v) ∷ []
  insert k v ((j, w) ∷ m) = elim (o.cmp k j) [
    | Ordering.lt ↦ (k, v) ∷ (j, w) ∷ m
    | Ordering.eq ↦ (j, v) ∷ m
    | Ordering.gt ↦ (j, w) ∷ insert k v m
  ]

  -- `remove` also returns the value that was there: `get k m`.
  unfoldable pub remove : K → BTreeMap K V → BTreeMap K V
  remove k [] = []
  remove k ((j, w) ∷ m) = elim (o.cmp k j) [
    | Ordering.lt ↦ (j, w) ∷ m
    | Ordering.eq ↦ m
    | Ordering.gt ↦ (j, w) ∷ remove k m
  ]
