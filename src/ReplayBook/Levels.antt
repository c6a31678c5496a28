-- ===== src/ReplayBook/Levels.antt =====
-- okx-market-model/src/replay_book.rs: what an event does to one side of the book. Only the first
-- update of a price counts; a zero quantity removes the level, an invalid update changes nothing.
use okx_rust_trading.Common.{
  ◌≡◌, Bool, ◌||◌, Option, none, some, List, [], ◌∷◌, arith, if◌then◌else◌, is_some, All,
}
use okx_rust_trading.Order.{Ord, ◌≺◌, lt?, le?, eq?}
use okx_rust_trading.BTreeMap.{BTreeMap, get, insert}
use okx_rust_trading.BTreeMap.Order.{
  IsSorted, insert-IsSorted, remove-IsSorted, insert-All, remove-All,
}
use okx_rust_trading.BTreeMap.Lookup.{get-insert, get-remove}
use okx_rust_trading.Decimal.{Decimal}
use okx_rust_trading.ReplayBook.Types.{LevelUpdate, BookLevel, ApplyOutcome}
use okx_rust_trading.ReplayBook.{apply_level, apply_side_from, apply_side}

module _ {D : Type 0} ⦃o : Ord D⦄ ⦃d : Decimal D⦄ where
  -- The first update of a price.
  pub first_update : D → List (LevelUpdate D) → Option (LevelUpdate D)
  first_update p [] = none
  first_update p (u ∷ us) = if eq? p u.price then some u else first_update p us

  -- What one update makes of the level at its price.
  pub effect : LevelUpdate D → Option (BookLevel D) → Option (BookLevel D)
  effect u old =
      if le? u.price d.zero || lt? u.quantity d.zero
      then old
      else if eq? u.quantity d.zero
      then none
      else some (record { quantity = u.quantity; order_count = u.order_count })

  abbrev pub after : Option (LevelUpdate D) → Option (BookLevel D) → Option (BookLevel D)
  after none old = old
  after (some u) old = effect u old

  apply_level-IsSorted :
      (b : Bool) (u : LevelUpdate D) (side : BTreeMap D (BookLevel D)) (out : ApplyOutcome)
      → IsSorted side
      → IsSorted (apply_level b u side out).0
  unfolding apply_level
  apply_level-IsSorted b u side out s = ground (
    arith,
    remove-IsSorted u.price side s,
    insert-IsSorted u.price (record { quantity = u.quantity; order_count = u.order_count }) side s,
  )

  apply_side_from-IsSorted :
      (seen : BTreeMap D (Unit {0})) (us : List (LevelUpdate D)) (side : BTreeMap D (BookLevel D))
      (out : ApplyOutcome)
      → IsSorted side
      → IsSorted (apply_side_from seen us side out).0
  unfolding apply_side_from
  apply_side_from-IsSorted seen [] side out s = s
  apply_side_from-IsSorted seen (u ∷ us) side out s =
      apply_side_from-IsSorted (insert u.price tt seen) us _ _
        (apply_level-IsSorted (is_some (get u.price seen)) u side out s)

  pub apply_side-IsSorted :
      (side : BTreeMap D (BookLevel D)) (us : List (LevelUpdate D)) (out : ApplyOutcome)
      → IsSorted side
      → IsSorted (apply_side side us out).0
  unfolding apply_side
  apply_side-IsSorted side us out s = apply_side_from-IsSorted [] us side out s

  -- A stored level has a positive price and a positive quantity.
  abbrev pub IsLive : D × BookLevel D → Type 0
  IsLive e = (d.zero ≺ e.0) × (d.zero ≺ e.1.quantity)

  apply_level-IsLive :
      (b : Bool) (u : LevelUpdate D) (side : BTreeMap D (BookLevel D)) (out : ApplyOutcome)
      → All IsLive side
      → All IsLive (apply_level b u side out).0
  unfolding apply_level
  apply_level-IsLive b u side out a = ground (
    arith,
    remove-All IsLive u.price side a,
    insert-All IsLive u.price (record { quantity = u.quantity; order_count = u.order_count }) side,
    o.cmp_flip d.zero u.price,
    o.cmp_flip d.zero u.quantity,
  )

  apply_side_from-IsLive :
      (seen : BTreeMap D (Unit {0})) (us : List (LevelUpdate D)) (side : BTreeMap D (BookLevel D))
      (out : ApplyOutcome)
      → All IsLive side
      → All IsLive (apply_side_from seen us side out).0
  unfolding apply_side_from
  apply_side_from-IsLive seen [] side out a = a
  apply_side_from-IsLive seen (u ∷ us) side out a =
      apply_side_from-IsLive (insert u.price tt seen) us _ _
        (apply_level-IsLive (is_some (get u.price seen)) u side out a)

  pub apply_side-IsLive :
      (side : BTreeMap D (BookLevel D)) (us : List (LevelUpdate D)) (out : ApplyOutcome)
      → All IsLive side
      → All IsLive (apply_side side us out).0
  unfolding apply_side
  apply_side-IsLive side us out a = apply_side_from-IsLive [] us side out a

  get-apply_level :
      (p : D) (b : Bool) (u : LevelUpdate D) (side : BTreeMap D (BookLevel D)) (out : ApplyOutcome)
      → IsSorted side
      → get p (apply_level b u side out).0
        ≡ (if b then get p side else if eq? p u.price then effect u (get p side) else get p side)
  unfolding apply_level effect
  get-apply_level p b u side out s = ground (
    arith,
    get-remove p u.price side s,
    get-insert p u.price (record { quantity = u.quantity; order_count = u.order_count }) side,
  )

  get-apply_side_from :
      (p : D) (seen : BTreeMap D (Unit {0})) (us : List (LevelUpdate D))
      (side : BTreeMap D (BookLevel D)) (out : ApplyOutcome)
      → IsSorted side
      → get p (apply_side_from seen us side out).0
        ≡ (if is_some (get p seen) then get p side else after (first_update p us) (get p side))
  unfolding apply_side_from first_update
  get-apply_side_from p seen [] side out s = ground arith
  get-apply_side_from p seen (u ∷ us) side out s =
      let dup = is_some (get u.price seen) in
      let next = apply_level dup u side out in
      ground (
        arith,
        get-apply_side_from p (insert u.price tt seen) us next.0 next.1
            (apply_level-IsSorted dup u side out s),
        get-apply_level p dup u side out s,
        get-insert p u.price tt seen,
        o.eq_of_cmp p u.price,
      )

  -- On a sorted side, every price reads after the loop as its first update says, and as before if
  -- it has none: the update removes the level, sets it, or is invalid and changes nothing.
  pub get-apply_side-first_update :
      (p : D) (side : BTreeMap D (BookLevel D)) (us : List (LevelUpdate D)) (out : ApplyOutcome)
      → IsSorted side
      → get p (apply_side side us out).0 ≡ after (first_update p us) (get p side)
  unfolding apply_side get
  get-apply_side-first_update p side us out s = get-apply_side_from p [] us side out s
