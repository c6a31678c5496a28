-- ===== src/Level2/Sides/Laws.antt =====
-- okx-market-model/src/level2.rs: the sides that a snapshot builds and that an increment leaves.
use okx_rust_trading.Common.{
  ◌+◌, ◌≤◌, ◌≡◌, false, Option, none, some, List, [], ◌∷◌, ◌++◌, map, arith, length, if◌then◌else◌,
  All, ok, ok-injective, All-trivial, subst, Bool-cases, inl, inr,
}
use okx_rust_trading.Order.{Ord, ◌≺◌, eq?}
use okx_rust_trading.BTreeMap.{get, insert}
use okx_rust_trading.BTreeMap.Order.{IsSorted, insert-IsSorted, insert-All}
use okx_rust_trading.BTreeMap.Lookup.{get-insert, length-insert}
use okx_rust_trading.Decimal.{Decimal}
use okx_rust_trading.PublicProtocol.Books.{OkxLevel2Level}
use okx_rust_trading.PublicProtocol.Books.Levels.{IsLevel}
use okx_rust_trading.Level2.Types.{Side, BookLevel}
use okx_rust_trading.Level2.Sides.{level_of, build_from, build_snapshot_side}

module _ {D : Type 0} ⦃o : Ord D⦄ ⦃d : Decimal D⦄ where
  -- A stored level has a positive price and a positive quantity.
  abbrev pub IsLive : D × BookLevel D → Type 0
  IsLive e = (d.zero ≺ e.0) × (d.zero ≺ e.1.quantity)

  pub level-IsLive :
      (u : OkxLevel2Level D)
      → IsLevel u
      → eq? u.quantity d.zero ≡ false
      → IsLive (u.price, level_of u)
  level-IsLive u l n =
      (l.positive_price, ground (arith, l.nonnegative_quantity, o.cmp_flip u.quantity d.zero))

  -- A property that each insertion of a level keeps holds of the built side.
  build_from_keeps {κ μ} :
      (P : Side D → Type κ) (Q : OkxLevel2Level D → Type μ) (side : Side D)
      (us : List (OkxLevel2Level D)) (built : Side D)
      → ((u : OkxLevel2Level D) (s : Side D)
          → Q u
          → eq? u.quantity d.zero ≡ false
          → P s
          → P (insert u.price (level_of u) s))
      → All Q us
      → P side
      → build_from side us ≡ ok built
      → P built
  unfolding build_from
  build_from_keeps P Q side [] built keep ls p h = subst P (ok-injective _ _ h) p
  build_from_keeps P Q side (u ∷ us) built keep ls p h = elim (Bool-cases (eq? u.quantity d.zero)) [
    | inl none_left ↦ build_from_keeps P Q side us built keep ls.1 p (ground arith)
    | inr live ↦
        build_from_keeps P Q (insert u.price (level_of u) side) us built keep ls.1
          (keep u side ls.0 live p) (ground arith)
  ]

  pub build_snapshot_side-IsSorted :
      (us : List (OkxLevel2Level D)) (built : Side D)
      → build_snapshot_side us ≡ ok built
      → IsSorted built
  unfolding build_snapshot_side
  build_snapshot_side-IsSorted us built h =
      build_from_keeps IsSorted (λ _. Unit {0}) [] us built
        (λ u s l n p. insert-IsSorted u.price (level_of u) s p) (All-trivial us) tt h

  pub build_snapshot_side-IsLive :
      (us : List (OkxLevel2Level D)) (built : Side D)
      → All IsLevel us
      → build_snapshot_side us ≡ ok built
      → All IsLive built
  unfolding build_snapshot_side
  build_snapshot_side-IsLive us built ls h =
      build_from_keeps (All IsLive) IsLevel [] us built
        (λ u s l n p. insert-All IsLive u.price (level_of u) s (level-IsLive u l n) p) ls tt h

  length-build_from :
      (side : Side D) (us : List (OkxLevel2Level D)) (built : Side D)
      → build_from side us ≡ ok built
      → length built ≤ length side + length us
  unfolding build_from
  length-build_from side [] built h = ground arith
  length-build_from side (u ∷ us) built h =
      let inserted = insert u.price (level_of u) side in
      ground (
        arith,
        length-build_from side us built,
        length-build_from inserted us built,
        length-insert u.price (level_of u) side,
      )

  pub length-build_snapshot_side :
      (us : List (OkxLevel2Level D)) (built : Side D)
      → build_snapshot_side us ≡ ok built
      → length built ≤ length us
  unfolding build_snapshot_side
  length-build_snapshot_side us built h = omega (arith, length-build_from [] us built h)

  -- The levels of a snapshot at a price that are no removals.
  unfoldable pub live_levels : D → List (OkxLevel2Level D) → List (OkxLevel2Level D)
  live_levels p [] = []
  live_levels p (u ∷ us) =
      if eq? u.quantity d.zero
      then live_levels p us
      else if eq? p u.price
      then u ∷ live_levels p us
      else live_levels p us

  -- What is read at a price, as a list.
  abbrev pub to_list : Option (BookLevel D) → List (BookLevel D)
  to_list none = []
  to_list (some l) = l ∷ []

  get-build_from :
      (p : D) (side : Side D) (us : List (OkxLevel2Level D)) (built : Side D)
      → build_from side us ≡ ok built
      → to_list (get p built) ≡ to_list (get p side) ++ map level_of (live_levels p us)
  unfolding build_from live_levels
  get-build_from p side [] built h = ground arith
  get-build_from p side (u ∷ us) built h =
      let inserted = insert u.price (level_of u) side in
      ground (
        arith,
        get-build_from p side us built,
        get-build_from p inserted us built,
        get-insert p u.price (level_of u) side,
        o.eq_of_cmp p u.price,
      )

  -- What a side that a snapshot builds reads at a price is all that the snapshot has there:
  -- nothing if it has no live level at the price, and otherwise its only one.
  pub get-build_snapshot_side :
      (p : D) (us : List (OkxLevel2Level D)) (built : Side D)
      → build_snapshot_side us ≡ ok built
      → to_list (get p built) ≡ map level_of (live_levels p us)
  unfolding build_snapshot_side get
  get-build_snapshot_side p us built h = get-build_from p [] us built h
