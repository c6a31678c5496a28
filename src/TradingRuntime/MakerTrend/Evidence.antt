-- ===== src/TradingRuntime/MakerTrend/Evidence.antt =====
-- strategies/okx_ema_atr_maker_trend.rs: the position that the exchange's orders and fills amount
-- to. A `HashSet` of ids is the list of its elements.
pub mod Repeated
use okx_rust_trading.Common.{
  Bool, true, false, ◌&&◌, ◌||◌, not, Option, none, some, is_some, List, [], ◌∷◌, ◌++◌, Result, ok,
  err, ok_or, ensure, ◌>>=◌, ◌>>◌, if◌then◌else◌, is_empty,
}
use okx_rust_trading.Order.{Ord, lt?, le?}
use okx_rust_trading.Text.{Str, eq_str}
use okx_rust_trading.Decimal.{Decimal, ◌+◌, ◌-◌, ◌/◌, max}
use okx_rust_trading.TradingRuntime.OrderId.{OrderPurpose, parse_strategy_client_order_id}
use okx_rust_trading.TradingRuntime.Okx.Errors
use okx_rust_trading.TradingRuntime.Okx.Errors.{Error}
use okx_rust_trading.TradingRuntime.Okx.Orders.{
  OrderSide, OkxOrder, OkxFill, parsed_side, eq_side, fill_size, average_fill_price, dedupe_key,
}
use okx_rust_trading.TradingRuntime.Okx.Accounting.{
  Pair, OkxSpotFillAccounting, cumulative_spot_accounting, spot_accounting,
}

pub record StrategyFillEvidence (D : Type 0) : Type 0 where
  pub purpose : OrderPurpose
  pub side : OrderSide
  pub accounting : Option (OkxSpotFillAccounting D)

pub data EntryAveragePriceStatus (D : Type 0) : Type 0 where
  no_entry_fill missing_price : EntryAveragePriceStatus D
  reconstructed : D → EntryAveragePriceStatus D

unfoldable pub contains : Str → List Str → Bool
contains id [] = false
contains id (seen ∷ ids) = eq_str id seen || contains id ids

unfoldable pub expected_side : OrderPurpose → OrderSide
expected_side OrderPurpose.entry = OrderSide.buy
expected_side OrderPurpose.take_profit = OrderSide.sell
expected_side OrderPurpose.stop_loss = OrderSide.sell

unfoldable pub ensure_expected_fill_side : OrderPurpose → OrderSide → Result (Unit {0}) Error
ensure_expected_fill_side purpose side =
    ensure (eq_side side (expected_side purpose)) Errors.unexpected_fill_side

-- The loop over the fills: the ids seen, the orders that have fills, and the evidence, last first.
pub record FillState (D : Type 0) : Type 0 where
  pub seen_fill_ids : List Str
  pub fill_client_order_ids : List Str
  pub evidence : List (StrategyFillEvidence D)

module _ {D : Type 0} ⦃o : Ord D⦄ ⦃d : Decimal D⦄ where
  unfoldable pub new_fill : Pair → FillState D → OkxFill → OrderPurpose → Result (FillState D) Error
  new_fill pair state fill purpose = do
    side ← ok_or (parsed_side fill.side) Errors.unexpected_fill_side
    ensure_expected_fill_side purpose side
    accounting ← spot_accounting fill pair
    ok (record {
      seen_fill_ids = dedupe_key fill ∷ state.seen_fill_ids;
      fill_client_order_ids = fill.client_order_id ∷ state.fill_client_order_ids;
      evidence =
          record { purpose = purpose; side = side; accounting = some accounting } ∷ state.evidence;
    })

  unfoldable pub tagged_fill :
      Pair → FillState D → OkxFill → Option OrderPurpose → Result (FillState D) Error
  tagged_fill pair state fill none = ok state
  tagged_fill pair state fill (some purpose) =
      ensure (not (is_empty (dedupe_key fill))) Errors.fill_without_identity
      >> (if contains (dedupe_key fill) state.seen_fill_ids
          then ok state
          else new_fill pair state fill purpose)

  unfoldable pub add_fill : Str → Pair → FillState D → OkxFill → Result (FillState D) Error
  add_fill tag pair state fill =
      tagged_fill pair state fill (parse_strategy_client_order_id fill.client_order_id tag)

  unfoldable pub add_fills : Str → Pair → List OkxFill → FillState D → Result (FillState D) Error
  add_fills tag pair [] state = ok state
  add_fills tag pair (fill ∷ fills) state =
      add_fill tag pair state fill >>= (λ reached. add_fills tag pair fills reached)

  unfoldable pub order_accounting :
      Pair → OkxOrder → Option D → Result (Option (OkxSpotFillAccounting D)) Error
  order_accounting pair order none = ok none
  order_accounting pair order (some price) =
      cumulative_spot_accounting order pair >>= (λ accounting. ok (some accounting))

  unfoldable pub filled_order :
      Pair
      → List (StrategyFillEvidence D)
      → OkxOrder
      → OrderPurpose
      → Result (List (StrategyFillEvidence D)) Error
  filled_order pair evidence order purpose = do
    side ← ok_or (parsed_side order.side) Errors.unexpected_fill_side
    ensure_expected_fill_side purpose side
    price ← average_fill_price {D = D} order
    accounting ← order_accounting pair order price
    ok (record { purpose = purpose; side = side; accounting = accounting } ∷ evidence)

  -- An order counts by itself only where none of its fills was reported.
  unfoldable pub tagged_order :
      Pair
      → List Str
      → List (StrategyFillEvidence D)
      → OkxOrder
      → Option OrderPurpose
      → Result (List (StrategyFillEvidence D)) Error
  tagged_order pair with_fills evidence order none = ok evidence
  tagged_order pair with_fills evidence order (some purpose) =
      if contains order.client_order_id with_fills then ok evidence else (do
        filled ← fill_size {D = D} order
        if le? filled d.zero then ok evidence else filled_order pair evidence order purpose)

  unfoldable pub add_orders :
      Str
      → Pair
      → List Str
      → List OkxOrder
      → List (StrategyFillEvidence D)
      → Result (List (StrategyFillEvidence D)) Error
  add_orders tag pair with_fills [] evidence = ok evidence
  add_orders tag pair with_fills (order ∷ orders) evidence =
      tagged_order pair with_fills evidence order
        (parse_strategy_client_order_id order.client_order_id tag)
      >>= (λ reached. add_orders tag pair with_fills orders reached)

  unfoldable pub no_fills : FillState D
  no_fills = record { seen_fill_ids = []; fill_client_order_ids = []; evidence = [] }

  -- The evidence, last first.
  unfoldable pub strategy_fill_evidence :
      List OkxOrder → List OkxFill → Str → Pair → Result (List (StrategyFillEvidence D)) Error
  strategy_fill_evidence orders fills tag pair = do
    state ← add_fills tag pair fills no_fills
    add_orders tag pair state.fill_client_order_ids orders state.evidence
