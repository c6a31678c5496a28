-- ===== src/Level2/Sides/Increments.antt =====
-- okx-market-model/src/level2.rs: the side that an increment leaves.
use okx_rust_trading.Common.{
  ◌≡◌, false, Option, none, some, List, [], ◌∷◌, arith, if◌then◌else◌, is_some, All, All-trivial,
  ok, Bool-cases, inl, inr,
}
use okx_rust_trading.Order.{Ord, eq?}
use okx_rust_trading.BTreeMap.{BTreeMap, get, insert, remove}
use okx_rust_trading.BTreeMap.Order.{
  IsSorted, insert-IsSorted, remove-IsSorted, insert-All, remove-All,
}
use okx_rust_trading.BTreeMap.Lookup.{get-insert, get-remove}
use okx_rust_trading.Decimal.{Decimal}
use okx_rust_trading.PublicProtocol.Books.{OkxLevel2Level}
use okx_rust_trading.PublicProtocol.Books.Levels.{IsLevel}
use okx_rust_trading.Level2.Types.{Side, BookLevel}
use okx_rust_trading.Level2.Sides.{level_of, apply_from, apply_side}
use okx_rust_trading.Level2.Sides.Laws.{IsLive, level-IsLive}

module _ {D : Type 0} ⦃o : Ord D⦄ ⦃d : Decimal D⦄ where
  -- A property that insertions and removals keep holds of the side, also where the loop fails.
  apply_from_keeps {κ μ} :
      (P : Side D → Type κ) (Q : OkxLevel2Level D → Type μ) (seen : BTreeMap D (Unit {0}))
      (us : List (OkxLevel2Level D)) (side : Side D)
      → ((u : OkxLevel2Level D) (s : Side D)
          → Q u
          → eq? u.quantity d.zero ≡ false
          → P s
          → P (insert u.price (level_of u) s))
      → ((p : D) (s : Side D) → P s → P (remove p s))
      → All Q us
      → P side
      → P (apply_from seen us side).0
  unfolding apply_from
  apply_from_keeps P Q seen [] side put take ls p = p
  apply_from_keeps P Q seen (u ∷ us) side put take ls p =
      let rest = insert u.price tt seen in
      elim (Bool-cases (eq? u.quantity d.zero)) [
        | inl removal ↦ ground (
          arith,
          apply_from_keeps P Q rest us (remove u.price side) put take ls.1 (take u.price side p),
        )
        | inr live ↦ ground (
          arith,
          apply_from_keeps P Q rest us (insert u.price (level_of u) side) put take ls.1
              (put u side ls.0 live p),
        )
      ]

  pub apply_side-IsSorted :
      (side : Side D) (us : List (OkxLevel2Level D))
      → IsSorted side
      → IsSorted (apply_side side us).0
  unfolding apply_side
  apply_side-IsSorted side us s =
      apply_from_keeps IsSorted (λ _. Unit {0}) [] us side
        (λ u m l n p. insert-IsSorted u.price (level_of u) m p) remove-IsSorted (All-trivial us) s

  pub apply_side-IsLive :
      (side : Side D) (us : List (OkxLevel2Level D))
      → All IsLevel us
      → All IsLive side
      → All IsLive (apply_side side us).0
  unfolding apply_side
  apply_side-IsLive side us ls a =
      apply_from_keeps (All IsLive) IsLevel [] us side
        (λ u m l n p. insert-All IsLive u.price (level_of u) m (level-IsLive u l n) p)
        (remove-All IsLive) ls a

  -- The update of a price, and what it makes of the level there.
  pub find_update : D → List (OkxLevel2Level D) → Option (OkxLevel2Level D)
  find_update p [] = none
  find_update p (u ∷ us) = if eq? p u.price then some u else find_update p us

  abbrev pub updated : Option (OkxLevel2Level D) → Option (BookLevel D) → Option (BookLevel D)
  updated none old = old
  updated (some u) old = if eq? u.quantity d.zero then none else some (level_of u)

  get-apply_from :
      (p : D) (seen : BTreeMap D (Unit {0})) (us : List (OkxLevel2Level D)) (side : Side D)
      → IsSorted side
      → (apply_from seen us side).1 ≡ ok tt
      → get p (apply_from seen us side).0
        ≡ (if is_some (get p seen) then get p side else updated (find_update p us) (get p side))
  unfolding apply_from find_update
  get-apply_from p seen [] side s h = ground arith
  get-apply_from p seen (u ∷ us) side s h =
      let rest = insert u.price tt seen in
      ground (
        arith,
        get-apply_from p rest us (remove u.price side) (remove-IsSorted u.price side s),
        get-apply_from p rest us (insert u.price (level_of u) side)
            (insert-IsSorted u.price (level_of u) side s),
        get-remove p u.price side s,
        get-insert p u.price (level_of u) side,
        get-insert p u.price tt seen,
        o.eq_of_cmp p u.price,
      )

  -- A sorted side that accepts an increment reads at each price as the update there says: removed
  -- or replaced, and as before where there is no update.
  pub get-apply_side :
      (p : D) (us : List (OkxLevel2Level D)) (side : Side D)
      → IsSorted side
      → (apply_side side us).1 ≡ ok tt
      → get p (apply_side side us).0 ≡ updated (find_update p us) (get p side)
  unfolding apply_side get
  get-apply_side p us side s h = get-apply_from p [] us side s h
