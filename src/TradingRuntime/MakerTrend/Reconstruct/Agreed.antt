-- ===== src/TradingRuntime/MakerTrend/Reconstruct/Agreed.antt =====
-- strategies/okx_ema_atr_maker_trend.rs: what a reconstruction that is accepted says.
use okx_rust_trading.Common.{
  ap, sym, ◌∙◌, ◌≡◌, subst, true, false, Option, none, some, List, ok, >>=-eq-ok, arith,
}
use okx_rust_trading.Order.{Ord, ◌≺◌, le?, lt_of_not_le}
use okx_rust_trading.Decimal.{Decimal}
use okx_rust_trading.TradingRuntime.Okx.Instrument.{lot_size}
use okx_rust_trading.TradingRuntime.MakerTrend.Indicators.{Float, FromFloat}
use okx_rust_trading.TradingRuntime.MakerTrend.Types.{Runner, OpenPosition, ExchangeState}
use okx_rust_trading.TradingRuntime.MakerTrend.Action.{state_of}
use okx_rust_trading.TradingRuntime.MakerTrend.Prices.{
  distance, stop_loss_trigger, stop_loss_trigger_pos,
}
use okx_rust_trading.TradingRuntime.MakerTrend.Inventory.{StrategyBalance}
use okx_rust_trading.TradingRuntime.MakerTrend.Evidence.{
  StrategyFillEvidence, EntryAveragePriceStatus,
}
use okx_rust_trading.TradingRuntime.MakerTrend.Sound.{IsOpen}
use okx_rust_trading.TradingRuntime.MakerTrend.Reconstruct.{
  PositionReconstruction, PositionEvidenceAttempt, strategy_net_filled_position,
  strategy_entry_average_price, without_position, position_at, with_average, weighed,
  reconstruct_position_from_evidence, finalize_reconstructed_position, reconstructed, no_position,
}

module _ {D : Type 0} ⦃o : Ord D⦄ ⦃d : Decimal D⦄ where
  finalized_reconstructed :
      (balance : StrategyBalance D) (found : PositionReconstruction D) (position : OpenPosition D)
      → finalize_reconstructed_position balance found ≡ ok (some position)
      → found ≡ reconstructed position
  unfolding finalize_reconstructed_position
  finalized_reconstructed balance found position h = ground arith

  finalized_no_position :
      (balance : StrategyBalance D) (found : PositionReconstruction D)
      → finalize_reconstructed_position balance found ≡ ok none
      → found ≡ no_position
  unfolding finalize_reconstructed_position
  finalized_no_position balance found h = ground arith

module _ {F D : Type 0} ⦃o : Ord D⦄ ⦃d : Decimal D⦄ ⦃f : Float F⦄ ⦃x : FromFloat F D⦄ where
  -- The fills and the balance differ by less than a lot.
  pub record IsAgreed (runner : Runner F D) (balance : StrategyBalance D)
      (evidence : List (StrategyFillEvidence D)) : Type 0 where
    pub owned : D
    pub lot : D
    pub state : ExchangeState D
    pub owned_is : strategy_net_filled_position evidence ≡ ok owned
    pub state_is : state_of runner ≡ ok state
    pub lot_is : lot_size state.instrument ≡ ok lot
    pub apart : distance balance.total owned ≺ lot

  pub record IsReconstructed (runner : Runner F D) (balance : StrategyBalance D)
      (evidence : List (StrategyFillEvidence D)) (position : OpenPosition D) : Type 0 where
    pub agreed : IsAgreed runner balance evidence
    pub opened : IsOpen position
    pub quantity_is : position.quantity ≡ balance.tradeable_quantity
    pub price_is :
        strategy_entry_average_price evidence
        ≡ ok (EntryAveragePriceStatus.reconstructed position.average_price)

  -- Nothing to trade and nothing missing, or a position that the fills and the balance agree on.
  abbrev pub IsAccepted :
      Runner F D
      → StrategyBalance D
      → List (StrategyFillEvidence D)
      → Option (OpenPosition D)
      → Type 0
  IsAccepted runner balance evidence none =
      IsAgreed runner balance evidence × (le? balance.tradeable_quantity d.zero ≡ true)
  IsAccepted runner balance evidence (some position) =
      IsReconstructed runner balance evidence position

  weighed_reconstructed :
      (runner : Runner F D) (balance : StrategyBalance D) (evidence : List (StrategyFillEvidence D))
      (attempt : PositionEvidenceAttempt) (owned lot : D) (position : OpenPosition D)
      → weighed runner balance evidence attempt owned lot ≡ ok (reconstructed position)
      → (le? balance.tradeable_quantity d.zero ≡ false)
        × (le? lot (distance balance.total owned) ≡ false)
        × (strategy_entry_average_price evidence
            ≡ ok (EntryAveragePriceStatus.reconstructed position.average_price))
        × (position.quantity ≡ balance.tradeable_quantity)
        × (stop_loss_trigger runner position.average_price ≡ ok position.stop_loss_trigger)
  unfolding weighed without_position with_average position_at
  weighed_reconstructed runner balance evidence attempt owned lot position h = ground arith

  weighed_no_position :
      (runner : Runner F D) (balance : StrategyBalance D) (evidence : List (StrategyFillEvidence D))
      (attempt : PositionEvidenceAttempt) (owned lot : D)
      → weighed runner balance evidence attempt owned lot ≡ ok no_position
      → (le? balance.tradeable_quantity d.zero ≡ true)
        × (le? lot (distance balance.total owned) ≡ false)
  unfolding weighed without_position with_average position_at
  weighed_no_position runner balance evidence attempt owned lot h = ground arith

  -- What was weighed.
  reconstruct_weighed :
      (runner : Runner F D) (balance : StrategyBalance D) (evidence : List (StrategyFillEvidence D))
      (attempt : PositionEvidenceAttempt) (found : PositionReconstruction D)
      → reconstruct_position_from_evidence runner balance evidence attempt ≡ ok found
      → (owned : D) × (state : ExchangeState D) × (lot : D) × (strategy_net_filled_position evidence
          ≡ ok owned)
        × (state_of runner ≡ ok state)
        × (lot_size state.instrument ≡ ok lot)
        × (weighed runner balance evidence attempt owned lot ≡ ok found)
  unfolding reconstruct_position_from_evidence
  reconstruct_weighed runner balance evidence attempt found h =
      let (owned, owned_is, h1) = >>=-eq-ok (strategy_net_filled_position evidence) _ h in
      let (state, state_is, h2) = >>=-eq-ok (state_of runner) _ h1 in
      let (lot, lot_is, h3) = >>=-eq-ok (lot_size state.instrument) _ h2 in
      (owned, state, lot, owned_is, state_is, lot_is, h3)

  -- When a reconstruction from evidence is accepted, the net base of the fills and the balance
  -- differ by less than a lot; and either nothing is tradeable and there is no position, or the
  -- position has the tradeable quantity, the average price of the entry fills, and a positive
  -- quantity, price and stop-loss trigger.
  pub finalize_reconstructed_position-IsAccepted :
      (runner : Runner F D) (balance : StrategyBalance D) (evidence : List (StrategyFillEvidence D))
      (attempt : PositionEvidenceAttempt) (found : PositionReconstruction D)
      (position : Option (OpenPosition D))
      → reconstruct_position_from_evidence runner balance evidence attempt ≡ ok found
      → finalize_reconstructed_position balance found ≡ ok position
      → IsAccepted runner balance evidence position
  finalize_reconstructed_position-IsAccepted runner balance evidence attempt found none h k =
      let (owned, state, lot, owned_is, state_is, lot_is, w) =
        reconstruct_weighed runner balance evidence attempt found h in
      let (empty, near) =
        weighed_no_position runner balance evidence attempt owned lot
          (w ∙ ap ok (finalized_no_position balance found k)) in
      (
        record {
          owned = owned;
          lot = lot;
          state = state;
          owned_is = owned_is;
          state_is = state_is;
          lot_is = lot_is;
          apart = lt_of_not_le lot (distance balance.total owned) near;
        },
        empty,
      )
  finalize_reconstructed_position-IsAccepted runner balance evidence attempt found (some position) h
        k =
      let (owned, state, lot, owned_is, state_is, lot_is, w) =
        reconstruct_weighed runner balance evidence attempt found h in
      let (held, near, price_is, quantity_is, trigger_is) =
        weighed_reconstructed runner balance evidence attempt owned lot position
          (w ∙ ap ok (finalized_reconstructed balance found position k)) in
      let (price_pos, trigger_pos) =
        stop_loss_trigger_pos runner position.average_price position.stop_loss_trigger trigger_is in
      record {
        agreed = record {
          owned = owned;
          lot = lot;
          state = state;
          owned_is = owned_is;
          state_is = state_is;
          lot_is = lot_is;
          apart = lt_of_not_le lot (distance balance.total owned) near;
        };
        opened = record {
          quantity_pos =
              subst (λ q. d.zero ≺ q) (sym quantity_is)
                (lt_of_not_le balance.tradeable_quantity d.zero held);
          average_price_pos = price_pos;
          trigger_pos = trigger_pos;
        };
        quantity_is = quantity_is;
        price_is = price_is;
      }
