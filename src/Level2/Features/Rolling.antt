-- ===== src/Level2/Features/Rolling.antt =====
-- okx-market-model/src/level2.rs: the features over the last points of a book, and its window.
use Prim.Native.Nat.{◌+◌, ◌-◌, ◌/◌, min}
use okx_rust_trading.Common.{
  ℕ, suc, ◌≤◌, not, Option, none, some, List, [], ◌∷◌, ◌++◌, arith, ◌==◌, length, length-append,
  last?, if◌then◌else◌, from_bool, u64_max,
}
use okx_rust_trading.Common.Int.{ℤ, pos, beq_ℤ}
use okx_rust_trading.Order.{Ord}
use okx_rust_trading.Decimal.{Decimal}
use okx_rust_trading.Level2.Types.{RollingFeaturePoint, Instant, feature_rolling_window}
use okx_rust_trading.Level2.Features.{decimal_sign, absolute_return_bps}

-- `saturating_duration_since(...).as_micros()`, cut to a u64.
abbrev pub elapsed_micros : Instant → Instant → ℕ
elapsed_micros received_at previous = min ((received_at - previous) / 1000) u64_max

-- The counters with the current sign.
abbrev pub with_current : ℤ → ℕ × ℕ → ℕ × ℕ
with_current current (observed, matching) =
    if not (beq_ℤ current (pos 0)) then (suc observed, suc matching) else (observed, matching)

module _ {D : Type 0} ⦃o : Ord D⦄ ⦃d : Decimal D⦄ where
  velocity_from : D → Instant → Option (RollingFeaturePoint D) → D
  velocity_from imbalance_l10 received_at none = d.zero
  velocity_from imbalance_l10 received_at (some previous) =
      if elapsed_micros received_at previous.received_at == 0
      then d.zero
      else d.div (d.mul (d.sub imbalance_l10 previous.imbalance_l10) (d.from_u64 1000000))
          (d.from_u64 (elapsed_micros received_at previous.received_at))

  unfoldable pub velocity : List (RollingFeaturePoint D) → D → Instant → D
  unfolding velocity_from
  velocity points imbalance_l10 received_at = velocity_from imbalance_l10 received_at (last? points)

  -- The counters `observed` and `matching` after the points.
  unfoldable pub count_signs : ℤ → ℕ → ℕ → List (RollingFeaturePoint D) → ℕ × ℕ
  count_signs current observed matching [] = (observed, matching)
  count_signs current observed matching (point ∷ points) =
      let sign = decimal_sign point.imbalance_l10 in
      let seen = not (beq_ℤ sign (pos 0)) in
      count_signs current (if seen then suc observed else observed)
        (if seen then matching + from_bool (beq_ℤ sign current) else matching) points

  abbrev ratio_of : ℕ × ℕ → D
  ratio_of (observed, matching) =
      if observed == 0 then d.zero else d.div (d.from_u64 matching) (d.from_u64 observed)

  unfoldable pub persistence : List (RollingFeaturePoint D) → D → D
  persistence points imbalance_l10 =
      let current = decimal_sign imbalance_l10 in
      ratio_of (with_current current (count_signs current 0 0 points))

  -- The returns between neighbouring mids, the last of them to the current mid: sum and count.
  abbrev step_return : Option D → D → D × ℕ → D × ℕ
  step_return none mid (total, count) = (total, count)
  step_return (some previous) mid (total, count) =
      (d.add total (absolute_return_bps previous mid), suc count)

  unfoldable pub sum_returns : Option D → D × ℕ → List (RollingFeaturePoint D) → D → D × ℕ
  sum_returns previous acc [] mid = step_return previous mid acc
  sum_returns previous acc (point ∷ points) mid =
      sum_returns (some point.mid) (step_return previous point.mid acc) points mid

  abbrev mean_of : D × ℕ → D
  mean_of (total, count) = if count == 0 then d.zero else d.div total (d.from_u64 count)

  unfoldable pub volatility : List (RollingFeaturePoint D) → D → D
  unfolding sum_returns
  volatility points mid = mean_of (sum_returns none (d.zero, 0) points mid)

module _ {D : Type 0} where
  abbrev pop_front : List (RollingFeaturePoint D) → List (RollingFeaturePoint D)
  pop_front [] = []
  pop_front (point ∷ points) = points

  -- The window after a new point: at its limit the oldest point goes.
  unfoldable pub push_point :
      List (RollingFeaturePoint D) → RollingFeaturePoint D → List (RollingFeaturePoint D)
  push_point points point =
      (if length points == feature_rolling_window then pop_front points else points) ++ point ∷ []

module _ {D : Type 0} ⦃o : Ord D⦄ ⦃d : Decimal D⦄ where
  -- `rolling_features`: the window after it, and velocity, persistence and volatility before it.
  unfoldable pub rolling_features :
      List (RollingFeaturePoint D) → D → D → Instant → List (RollingFeaturePoint D) × D × D × D
  rolling_features points mid imbalance_l10 received_at = (
    push_point points
        (record { mid = mid; imbalance_l10 = imbalance_l10; received_at = received_at }),
    velocity points imbalance_l10 received_at,
    persistence points imbalance_l10,
    volatility points mid,
  )

module _ {D : Type 0} where
  -- The window never outgrows its limit.
  pub push_point_bounded :
      (points : List (RollingFeaturePoint D)) (point : RollingFeaturePoint D)
      → length points ≤ feature_rolling_window
      → length (push_point points point) ≤ feature_rolling_window
  unfolding push_point
  push_point_bounded [] point h = omega arith
  push_point_bounded (p ∷ points) point h =
      ground (arith, length-append points (point ∷ []), length-append (p ∷ points) (point ∷ []))
