-- ===== src/BTreeMap/Lookup.antt =====
-- BTreeMap: what `get` reads after an insertion or a removal, and how the length changes.
use okx_rust_trading.Common.{
  suc, ◌≡◌, refl, [], ◌∷◌, none, some, true, arith, length, All, is_some, if◌then◌else◌,
}
use okx_rust_trading.Order.{Ord, eq?}
use okx_rust_trading.BTreeMap.{BTreeMap, get, insert, remove}
use okx_rust_trading.BTreeMap.Order.{Above, Above-mono, IsSorted}

module _ {ℓ κ} {K : Type ℓ} {V : Type κ} ⦃o : Ord K⦄ where
  pub get-insert :
      (j k : K) (v : V) (m : BTreeMap K V)
      → get j (insert k v m) ≡ (if eq? j k then some v else get j m)
  unfolding get insert
  get-insert j k v [] = ground arith
  get-insert j k v ((i, w) ∷ m) = ground (
    arith,
    get-insert j k v m,
    o.cmp_trans j k i,
    o.cmp_trans j i k,
    o.cmp_flip k i,
    o.eq_of_cmp k i,
    o.eq_of_cmp j i,
    o.eq_of_cmp j k,
  )

  pub get-Above : (k : K) (m : BTreeMap K V) → Above k m → get k m ≡ none
  unfolding get
  get-Above k [] a = refl
  get-Above k ((i, w) ∷ m) a = ground arith

  pub get-remove :
      (j k : K) (m : BTreeMap K V)
      → IsSorted m
      → get j (remove k m) ≡ (if eq? j k then none else get j m)
  unfolding get remove
  get-remove j k [] s = ground arith
  get-remove j k ((i, w) ∷ m) s = ground (
    arith,
    get-remove j k m s.1,
    o.cmp_trans j k i,
    o.cmp_trans j i k,
    o.cmp_flip k i,
    o.eq_of_cmp k i,
    o.eq_of_cmp j i,
    o.eq_of_cmp j k,
    get-Above i m s.0,
    Above-mono j i m,
    get-Above j m,
  )

  pub length-insert :
      (k : K) (v : V) (m : BTreeMap K V)
      → length (insert k v m) ≡ (if is_some (get k m) then length m else suc (length m))
  unfolding get insert
  length-insert k v [] = refl
  length-insert k v ((i, w) ∷ m) = ground (arith, length-insert k v m)

  pub length-remove :
      (k : K) (m : BTreeMap K V)
      → length m ≡ (if is_some (get k m) then suc (length (remove k m)) else length (remove k m))
  unfolding get remove
  length-remove k [] = refl
  length-remove k ((i, w) ∷ m) = ground (arith, length-remove k m)

  lift_found :
      (k : K) (v : V) (m n : BTreeMap K V)
      → Above k n
      → All (λ e. is_some (get e.0 m) ≡ true) n
      → All (λ e. is_some (get e.0 ((k, v) ∷ m)) ≡ true) n
  unfolding get
  lift_found k v m [] a f = tt
  lift_found k v m ((i, w) ∷ n) a f =
      (ground (arith, o.cmp_flip k i, a.0, f.0), lift_found k v m n a.1 f.1)

  -- Every entry of a sorted map is found.
  pub entries_found : (m : BTreeMap K V) → IsSorted m → All (λ e. is_some (get e.0 m) ≡ true) m
  unfolding get
  entries_found [] s = tt
  entries_found ((k, v) ∷ m) s =
      (ground (arith, o.cmp_self k), lift_found k v m m s.0 (entries_found m s.1))
