-- ===== src/TradingRuntime/MakerTrend/Reconstruct.antt =====
-- strategies/okx_ema_atr_maker_trend.rs: the position that the evidence of fills and the balance
-- give together when the strategy starts.
pub mod Agreed
use okx_rust_trading.Common.{
  Bool, true, false, ◌&&◌, Option, none, some, List, [], ◌∷◌, Result, ok, err, ok_or, ensure, ◌>>=◌,
  ◌>>◌, if◌then◌else◌,
}
use okx_rust_trading.Order.{Ord, lt?, le?}
use okx_rust_trading.Text.{Str}
use okx_rust_trading.Decimal.{Decimal, ◌+◌, ◌-◌, ◌/◌, max}
use okx_rust_trading.TradingRuntime.OrderId.{OrderPurpose}
use okx_rust_trading.TradingRuntime.Okx.Errors
use okx_rust_trading.TradingRuntime.Okx.Errors.{Error}
use okx_rust_trading.TradingRuntime.Okx.Orders.{OrderSide}
use okx_rust_trading.TradingRuntime.Okx.Accounting.{OkxSpotFillAccounting}
use okx_rust_trading.TradingRuntime.Okx.Instrument.{lot_size}
use okx_rust_trading.TradingRuntime.MakerTrend.Indicators.{Float, FromFloat}
use okx_rust_trading.TradingRuntime.MakerTrend.Types.{Runner, OpenPosition}
use okx_rust_trading.TradingRuntime.MakerTrend.Action.{state_of}
use okx_rust_trading.TradingRuntime.MakerTrend.Prices.{distance, stop_loss_trigger}
use okx_rust_trading.TradingRuntime.MakerTrend.Inventory.{StrategyBalance}
use okx_rust_trading.TradingRuntime.MakerTrend.Evidence.{
  StrategyFillEvidence, EntryAveragePriceStatus,
}

pub data PositionEvidenceGap (D : Type 0) : Type 0 where
  missing_cost_basis : PositionEvidenceGap D
  inventory_mismatch : D → PositionEvidenceGap D

pub data PositionReconstruction (D : Type 0) : Type 0 where
  no_position : PositionReconstruction D
  reconstructed : OpenPosition D → PositionReconstruction D
  needs_more_evidence : PositionEvidenceGap D → PositionReconstruction D

pub data PositionEvidenceAttempt : Type 0 where
  initial final : PositionEvidenceAttempt

unfoldable pub matches_side : OrderPurpose → OrderSide → Bool
matches_side OrderPurpose.entry OrderSide.buy = true
matches_side OrderPurpose.entry OrderSide.sell = false
matches_side OrderPurpose.take_profit OrderSide.buy = false
matches_side OrderPurpose.take_profit OrderSide.sell = true
matches_side OrderPurpose.stop_loss OrderSide.buy = false
matches_side OrderPurpose.stop_loss OrderSide.sell = true

unfoldable pub is_entry_buy : OrderPurpose → OrderSide → Bool
is_entry_buy OrderPurpose.entry OrderSide.buy = true
is_entry_buy OrderPurpose.entry OrderSide.sell = false
is_entry_buy OrderPurpose.take_profit side = false
is_entry_buy OrderPurpose.stop_loss side = false

module _ {D : Type 0} ⦃o : Ord D⦄ ⦃d : Decimal D⦄ where
  -- The base of the fills, added up from `quantity`.
  unfoldable pub add_net : List (StrategyFillEvidence D) → D → Result D Error
  add_net [] quantity = ok quantity
  add_net (fill ∷ fills) quantity =
      ok_or fill.accounting Errors.fill_without_accounting >>= λ accounting.
      ensure (matches_side fill.purpose fill.side) Errors.unexpected_fill_side
      >> add_net fills (quantity + accounting.base_change)

  unfoldable pub strategy_net_filled_position : List (StrategyFillEvidence D) → Result D Error
  strategy_net_filled_position evidence =
      add_net evidence d.zero >>= λ quantity. ok (max quantity d.zero)

  unfoldable pub average_of : D → D → Result (EntryAveragePriceStatus D) Error
  average_of quantity quote_cost =
      if le? quantity d.zero then ok EntryAveragePriceStatus.no_entry_fill else (do
        ensure (lt? d.zero quote_cost) Errors.entry_cost_not_positive
        ensure (lt? d.zero (quote_cost / quantity)) Errors.entry_average_not_positive
        ok (EntryAveragePriceStatus.reconstructed (quote_cost / quantity)))

  -- The base and the cost, with a fill added if it is one of an entry; nothing without its price.
  unfoldable pub with_entry_fill : Bool → Option (OkxSpotFillAccounting D) → D → D → Option (D × D)
  with_entry_fill false accounting quantity quote_cost = some (quantity, quote_cost)
  with_entry_fill true none quantity quote_cost = none
  with_entry_fill true (some accounting) quantity quote_cost =
      some (quantity + accounting.base_change, quote_cost - accounting.quote_change)

  unfoldable pub add_entries : List (StrategyFillEvidence D) → D → D → Option (D × D)
  add_entries [] quantity quote_cost = some (quantity, quote_cost)
  add_entries (fill ∷ fills) quantity quote_cost =
      elim (with_entry_fill (is_entry_buy fill.purpose fill.side) fill.accounting quantity
        quote_cost) [ none ↦ none | some (bought, spent) ↦ add_entries fills bought spent ]

  unfoldable pub status_of : Option (D × D) → Result (EntryAveragePriceStatus D) Error
  status_of none = ok EntryAveragePriceStatus.missing_price
  status_of (some (quantity, quote_cost)) = average_of quantity quote_cost

  unfoldable pub strategy_entry_average_price :
      List (StrategyFillEvidence D) → Result (EntryAveragePriceStatus D) Error
  strategy_entry_average_price evidence = status_of (add_entries evidence d.zero d.zero)

  -- Without anything to trade: whether the rest is smaller than a lot.
  unfoldable pub without_position : D → D → D → PositionReconstruction D
  without_position apart lot owned =
      if le? lot apart then needs_more_evidence (inventory_mismatch owned) else no_position

  unfoldable pub finalize_reconstructed_position :
      StrategyBalance D → PositionReconstruction D → Result (Option (OpenPosition D)) Error
  finalize_reconstructed_position balance no_position = ok none
  finalize_reconstructed_position balance (reconstructed position) = ok (some position)
  finalize_reconstructed_position balance (needs_more_evidence missing_cost_basis) =
      err Errors.no_cost_basis
  finalize_reconstructed_position balance (needs_more_evidence (inventory_mismatch owned)) =
      if lt? owned balance.total
      then err Errors.balance_exceeds_fills
      else err Errors.fills_exceed_balance

module _ {F D : Type 0} ⦃o : Ord D⦄ ⦃d : Decimal D⦄ ⦃f : Float F⦄ ⦃x : FromFloat F D⦄ where
  unfoldable pub position_at :
      Runner F D → StrategyBalance D → D → D → D → D → Result (PositionReconstruction D) Error
  position_at runner balance owned lot apart average_price =
      if le? lot apart then ok (needs_more_evidence (inventory_mismatch owned)) else (do
        trigger ← stop_loss_trigger runner average_price
        ok (
            reconstructed (record {
              quantity = balance.tradeable_quantity;
              average_price = average_price;
              stop_loss_trigger = trigger;
            })))

  unfoldable pub with_average :
      Runner F D
      → StrategyBalance D
      → PositionEvidenceAttempt
      → D
      → D
      → D
      → EntryAveragePriceStatus D
      → Result (PositionReconstruction D) Error
  with_average runner balance attempt owned lot apart EntryAveragePriceStatus.no_entry_fill =
      ok (needs_more_evidence missing_cost_basis)
  with_average runner balance initial owned lot apart EntryAveragePriceStatus.missing_price =
      ok (needs_more_evidence missing_cost_basis)
  with_average runner balance final owned lot apart EntryAveragePriceStatus.missing_price =
      err Errors.entry_fill_without_price
  with_average runner balance attempt owned lot apart
        (EntryAveragePriceStatus.reconstructed average_price) =
      position_at runner balance owned lot apart average_price

  -- The fills against the balance, by the size of a lot.
  unfoldable pub weighed :
      Runner F D
      → StrategyBalance D
      → List (StrategyFillEvidence D)
      → PositionEvidenceAttempt
      → D
      → D
      → Result (PositionReconstruction D) Error
  weighed runner balance evidence attempt owned lot =
      if le? balance.tradeable_quantity d.zero
      then ok (without_position (distance balance.total owned) lot owned)
      else strategy_entry_average_price evidence
        >>= with_average runner balance attempt owned lot (distance balance.total owned)

  unfoldable pub reconstruct_position_from_evidence :
      Runner F D
      → StrategyBalance D
      → List (StrategyFillEvidence D)
      → PositionEvidenceAttempt
      → Result (PositionReconstruction D) Error
  reconstruct_position_from_evidence runner balance evidence attempt = do
    owned ← strategy_net_filled_position evidence
    state ← state_of runner
    lot ← lot_size state.instrument
    weighed runner balance evidence attempt owned lot
