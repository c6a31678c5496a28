-- ===== src/TradingRuntime/MakerTrend/Inventory.antt =====
-- strategies/okx_ema_atr_maker_trend/inventory.rs, and of okx_ema_atr_maker_trend.rs the methods
-- that measure the strategy's holdings by the account's balance.
use okx_rust_trading.Common.{
  Bool, true, false, ◌||◌, Option, none, some, List, [], ◌∷◌, Result, ok, ensure, if◌then◌else◌,
}
use okx_rust_trading.Common
use okx_rust_trading.Order.{Ord, lt?, le?}
use okx_rust_trading.Text.{Str, eq_str}
use okx_rust_trading.Decimal.{Decimal, ◌+◌, ◌-◌, min}
use okx_rust_trading.TradingRuntime.Okx.Errors
use okx_rust_trading.TradingRuntime.Okx.Errors.{Error}
use okx_rust_trading.TradingRuntime.Okx.Numbers.{quantize_decimal_down}
use okx_rust_trading.TradingRuntime.Okx.Instrument.{
  OkxBalance, OkxBalanceDetail, detail_total, lot_size, min_size,
}
use okx_rust_trading.TradingRuntime.Okx.Client.{OkxClient}
use okx_rust_trading.TradingRuntime.MakerTrend.Types.{Runner, OpenPosition}
use okx_rust_trading.TradingRuntime.MakerTrend.Action.{
  Action, World, pure, asks, state_of, ◌>>=◌, ◌>>◌, if_some, choose, try_call, exchange,
  change_exchange, clear_position_state,
}
use okx_rust_trading.TradingRuntime.MakerTrend.Protection.Tracking.{with_position}

pub record StrategyBalance (D : Type 0) : Type 0 where
  pub total : D
  pub tradeable_quantity : D

module _ {D : Type 0} ⦃o : Ord D⦄ ⦃d : Decimal D⦄ where
  -- What the operator's share leaves, cut to lots; below the minimum nothing can be traded.
  unfoldable pub strategy_balance_after_operator_baseline :
      D → D → D → D → Result (StrategyBalance D) Error
  strategy_balance_after_operator_baseline account_total operator_owned lot smallest =
      Common.◌>>◌ (ensure (le? d.zero operator_owned) Errors.operator_balance_negative) (
        Common.◌>>◌
          (ensure (le? operator_owned account_total) Errors.balance_below_operator_balance)
          (let total = account_total - operator_owned in
            if le? total d.zero || lt? total smallest
            then ok (record { total = total; tradeable_quantity = d.zero })
            else Common.◌>>=◌ (quantize_decimal_down total lot)
                (λ quantity. ok (record { total = total; tradeable_quantity = quantity }))))

  -- The cash balances of one currency, added up from `total`.
  unfoldable pub add_details : Str → List OkxBalanceDetail → D → Result D Error
  add_details ccy [] total = ok total
  add_details ccy (detail ∷ details) total = elim (eq_str detail.ccy ccy) [
    | true ↦ Common.◌>>=◌ (detail_total detail) (λ amount. add_details ccy details (total + amount))
    | false ↦ add_details ccy details total
  ]

  unfoldable pub add_balances : Str → List OkxBalance → D → Result D Error
  add_balances ccy [] total = ok total
  add_balances ccy (balance ∷ balances) total =
      Common.◌>>=◌ (add_details ccy balance.details total)
        (λ reached. add_balances ccy balances reached)

module _ {F D : Type 0} ⦃o : Ord D⦄ ⦃d : Decimal D⦄ where
  unfoldable pub reconstruct_strategy_balance :
      Runner F D → List OkxBalance → Result (StrategyBalance D) Error
  reconstruct_strategy_balance runner balances = Common.◌>>=◌ (state_of runner) λ state.
      Common.◌>>=◌ (add_balances state.instrument.base_ccy balances d.zero) λ total.
        Common.◌>>=◌ (lot_size state.instrument) λ lot.
          Common.◌>>=◌ (min_size state.instrument) λ smallest.
            strategy_balance_after_operator_baseline total runner.operator_owned_base_balance lot
              smallest

module _ {F D C : Type 0} ⦃o : Ord D⦄ ⦃d : Decimal D⦄ ⦃c : OkxClient D C⦄ where
  -- The position cut down to a balance; without any the state is cleared.
  unfoldable pub limit_position :
      OpenPosition D → D → Action (World F D C) (Option (OpenPosition D))
  limit_position position quantity =
      choose (le? quantity d.zero) (clear_position_state >> pure none) (
        change_exchange (with_position (some (record position { quantity = quantity })))
        >> pure (some (record position { quantity = quantity })))

  unfoldable pub reconcile_position_quantity_from_balance :
      Action (World F D C) (Option (OpenPosition D))
  reconcile_position_quantity_from_balance = do
    state ← exchange
    if_some state.position
        (λ position. do
          balances ← try_call c.balances
          balance ← asks (λ (w : World F D C). reconstruct_strategy_balance w.runner balances)
          limit_position position (min balance.tradeable_quantity position.quantity))
        (pure none)
