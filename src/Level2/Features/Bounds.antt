-- ===== src/Level2/Features/Bounds.antt =====
-- okx-market-model/src/level2.rs: the ratios among the features, and their ranges.
use okx_rust_trading.Common.{
  ℕ, zero, suc, ◌≤◌, ◌≡◌, true, List, [], ◌∷◌, reverse, take, arith, All, All-map, All-mono,
  All-take, All-reverse, if◌then◌else◌, ◌==◌,
}
use okx_rust_trading.Common.Int.{ℤ}
use okx_rust_trading.Order.{Ord, ◌≺◌, le?}
use okx_rust_trading.Decimal.{Decimal, IsLawful, ◌+◌, ◌-◌, ◌*◌, sum, clamp}
use okx_rust_trading.Decimal.Sums.{IsNonneg, sum-IsNonneg, imbalance_bounds}
use okx_rust_trading.Level2.Types.{
  BookLevel, Side, Instant, OkxLevel2Book, OkxLevel2FeatureSnapshot, OkxLevel2Update,
  RollingFeaturePoint, okx_level2_max_depth,
}
use okx_rust_trading.Level2.Publish.{feature_snapshot}
use okx_rust_trading.Level2.Sides.Laws.{IsLive}
use okx_rust_trading.Level2.Features.{
  quantities, notionals, ranked, signed_ratio, imbalance, distance_weighted_imbalance,
  notional_imbalance, liquidity_vacuum, decimal_sign,
}
use okx_rust_trading.Level2.Features.Rolling.{
  count_signs, with_current, persistence, rolling_features,
}

-- The counters of the signs: what matches was observed.
module _ {D : Type 0} ⦃o : Ord D⦄ ⦃d : Decimal D⦄ where
  count_signs_le :
      (current : ℤ) (points : List (RollingFeaturePoint D)) (observed matching : ℕ)
      → matching ≤ observed
      → (count_signs current observed matching points).1
        ≤ (count_signs current observed matching points).0
  unfolding count_signs
  count_signs_le current [] observed matching h = h
  count_signs_le current (point ∷ points) observed matching h =
      count_signs_le current points _ _ (ground arith)

module _ {D : Type 0} ⦃o : Ord D⦄ ⦃d : Decimal D⦄ (laws : IsLawful D) where
  -- Between minus one and one, and between zero and one.
  pub record IsSigned (r : D) : Type 0 where
    pub above : le? (d.zero - d.one) r ≡ true
    pub below : le? r d.one ≡ true

  pub record IsShare (r : D) : Type 0 where
    pub above : le? d.zero r ≡ true
    pub below : le? r d.one ≡ true

  one-IsNonneg : IsNonneg laws d.one
  one-IsNonneg = ground (arith, laws.zero_lt_one)

  signed_ratio-IsSigned :
      (b a : D) → IsNonneg laws b → IsNonneg laws a → IsSigned (signed_ratio b a)
  unfolding signed_ratio
  signed_ratio-IsSigned b a hb ha = ground (
    arith,
    one-IsNonneg,
    laws.sub_le d.zero d.one one-IsNonneg,
    imbalance_bounds laws b a hb ha,
    o.cmp_flip (b + a) d.zero,
  )

  -- Sums over the levels of a live side.
  pos_le : (a : D) → d.zero ≺ a → IsNonneg laws a
  pos_le a h = ground arith

  quantities-IsNonneg :
      (levels : ℕ) (side : Side D) → All IsLive side → IsNonneg laws (sum (quantities levels side))
  unfolding quantities
  quantities-IsNonneg levels side live = sum-IsNonneg laws _ (
      All-map (IsNonneg laws) (λ (e : D × BookLevel D). e.1.quantity) (take levels side)
        (All-mono IsLive _ (take levels side) (λ e l. pos_le e.1.quantity l.1)
          (All-take IsLive levels side live)))

  notionals-IsNonneg :
      (levels : ℕ) (side : Side D) → All IsLive side → IsNonneg laws (sum (notionals levels side))
  unfolding notionals
  notionals-IsNonneg levels side live = sum-IsNonneg laws _ (
      All-map (IsNonneg laws) (λ (e : D × BookLevel D). e.0 * e.1.quantity) (take levels side)
        (All-mono IsLive _ (take levels side)
          (λ e l. laws.mul_nonneg e.0 e.1.quantity (pos_le e.0 l.0) (pos_le e.1.quantity l.1))
          (All-take IsLive levels side live)))

  ranked-All :
      (index : ℕ) (side : Side D) → All IsLive side → All (IsNonneg laws) (ranked index side)
  unfolding ranked
  ranked-All index [] live = tt
  ranked-All index ((price, level) ∷ side) (l, live) = (
    laws.div_nonneg level.quantity (d.from_u64 (suc index)) (pos_le level.quantity l.1)
        (laws.from_u64_pos (suc index) (omega arith)),
    ranked-All (suc index) side live,
  )

  pub imbalance-IsSigned :
      (bids asks : Side D) (levels : ℕ)
      → All IsLive bids
      → All IsLive asks
      → IsSigned (imbalance bids asks levels)
  unfolding imbalance
  imbalance-IsSigned bids asks levels hb ha =
      signed_ratio-IsSigned _ _
        (quantities-IsNonneg levels (reverse bids) (All-reverse IsLive bids hb))
        (quantities-IsNonneg levels asks ha)

  pub notional_imbalance-IsSigned :
      (bids asks : Side D) (levels : ℕ)
      → All IsLive bids
      → All IsLive asks
      → IsSigned (notional_imbalance bids asks levels)
  unfolding notional_imbalance
  notional_imbalance-IsSigned bids asks levels hb ha =
      signed_ratio-IsSigned _ _
        (notionals-IsNonneg levels (reverse bids) (All-reverse IsLive bids hb))
        (notionals-IsNonneg levels asks ha)

  pub distance_weighted_imbalance-IsSigned :
      (bids asks : Side D)
      → All IsLive bids
      → All IsLive asks
      → IsSigned (distance_weighted_imbalance bids asks)
  unfolding distance_weighted_imbalance
  distance_weighted_imbalance-IsSigned bids asks hb ha =
      signed_ratio-IsSigned _ _
        (sum-IsNonneg laws _ (
          ranked-All 0 _
            (All-take IsLive okx_level2_max_depth (reverse bids) (All-reverse IsLive bids hb))))
        (sum-IsNonneg laws _ (ranked-All 0 _ (All-take IsLive okx_level2_max_depth asks ha)))

  liquidity_vacuum-IsShare : (bids asks : Side D) → IsShare (liquidity_vacuum bids asks)
  unfolding liquidity_vacuum
  liquidity_vacuum-IsShare bids asks = clamped _
    where
      clamped : (x : D) → IsShare (clamp x d.zero d.one)
      clamped x = ground (
        arith,
        one-IsNonneg,
        o.cmp_self d.zero,
        o.cmp_self d.one,
        o.cmp_flip x d.zero,
        o.cmp_flip d.one x,
      )

  from_u64-IsNonneg : (n : ℕ) → IsNonneg laws (d.from_u64 n)
  from_u64-IsNonneg n = rw laws.from_u64_zero at (laws.from_u64_mono 0 n (omega arith))

  ratio_of-IsShare :
      (observed matching : ℕ)
      → matching ≤ observed
      → IsShare
          (if observed == 0 then d.zero else d.div (d.from_u64 matching) (d.from_u64 observed))
  ratio_of-IsShare zero matching h = record {
    above = ground (arith, o.cmp_self d.zero);
    below = one-IsNonneg;
  }
  ratio_of-IsShare (suc observed) matching h =
      let many = laws.from_u64_pos (suc observed) (omega arith) in
      ground (
        arith,
        laws.div_nonneg (d.from_u64 matching) (d.from_u64 (suc observed))
            (from_u64-IsNonneg matching) many,
        laws.div_le_one (d.from_u64 matching) (d.from_u64 (suc observed)) many
            (laws.from_u64_mono matching (suc observed) h),
      )

  persistence-IsShare :
      (points : List (RollingFeaturePoint D)) (imbalance_l10 : D)
      → IsShare (persistence points imbalance_l10)
  unfolding persistence
  persistence-IsShare points imbalance_l10 =
      let current = decimal_sign imbalance_l10 in
      let counted = count_signs current 0 0 points in
      let le = count_signs_le current points 0 0 (omega arith) in
      let both = with_current current counted in ratio_of-IsShare both.0 both.1 (ground arith)

  -- The ratios of a snapshot of features.
  pub record IsInRange (f : OkxLevel2FeatureSnapshot D) : Type 0 where
    pub l1 : IsSigned f.imbalance_l1
    pub l3 : IsSigned f.imbalance_l3
    pub l5 : IsSigned f.imbalance_l5
    pub l10 : IsSigned f.imbalance_l10
    pub l25 : IsSigned f.imbalance_l25
    pub l50 : IsSigned f.imbalance_l50
    pub l100 : IsSigned f.imbalance_l100
    pub l200 : IsSigned f.imbalance_l200
    pub l400 : IsSigned f.imbalance_l400
    pub weighted : IsSigned f.distance_weighted_imbalance
    pub notional : IsSigned f.notional_imbalance
    pub vacuum : IsShare f.liquidity_vacuum
    pub persistent : IsShare f.imbalance_persistence

  -- With lawful decimals, the features computed of a book whose levels have positive prices and
  -- quantities have every imbalance between minus one and one, and the liquidity vacuum and the
  -- persistence between zero and one, whatever points the window holds.
  pub feature_snapshot-IsInRange :
      (book : OkxLevel2Book D) (u : OkxLevel2Update D) (applied ready : Instant)
      (bid ask : D × BookLevel D)
      → All IsLive book.bids
      → All IsLive book.asks
      → IsInRange (feature_snapshot book u applied ready bid ask).1
  unfolding feature_snapshot rolling_features
  feature_snapshot-IsInRange book u applied ready bid ask hb ha = record {
    l1 = imbalance-IsSigned book.bids book.asks 1 hb ha;
    l3 = imbalance-IsSigned book.bids book.asks 3 hb ha;
    l5 = imbalance-IsSigned book.bids book.asks 5 hb ha;
    l10 = imbalance-IsSigned book.bids book.asks 10 hb ha;
    l25 = imbalance-IsSigned book.bids book.asks 25 hb ha;
    l50 = imbalance-IsSigned book.bids book.asks 50 hb ha;
    l100 = imbalance-IsSigned book.bids book.asks 100 hb ha;
    l200 = imbalance-IsSigned book.bids book.asks 200 hb ha;
    l400 = imbalance-IsSigned book.bids book.asks 400 hb ha;
    weighted = distance_weighted_imbalance-IsSigned book.bids book.asks hb ha;
    notional = notional_imbalance-IsSigned book.bids book.asks okx_level2_max_depth hb ha;
    vacuum = liquidity_vacuum-IsShare book.bids book.asks;
    persistent = persistence-IsShare book.points _;
  }
