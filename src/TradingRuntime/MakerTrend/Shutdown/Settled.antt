-- ===== src/TradingRuntime/MakerTrend/Shutdown/Settled.antt =====
-- strategies/okx_ema_atr_maker_trend/shutdown.rs: the state in which a shutdown succeeds.
use okx_rust_trading.Common.{
  ◌≡◌, refl, Bool, true, false, ◌&&◌, ◌||◌, Option, none, some, is_some, is_none, Result, ok, err,
  arith, subst, ap,
}
use okx_rust_trading.Order.{Ord}
use okx_rust_trading.Decimal.{Decimal}
use okx_rust_trading.TradingRuntime.Okx.Errors.{Error}
use okx_rust_trading.TradingRuntime.Okx.Client.{OkxClient}
use okx_rust_trading.TradingRuntime.MakerTrend.Indicators.{Float, FromFloat}
use okx_rust_trading.TradingRuntime.MakerTrend.Types.{ExchangeState, cleared}
use okx_rust_trading.TradingRuntime.MakerTrend.Action.{
  Action, World, after, ◌>>=◌, choose, clear_position_state, clear_with, exchange, lift, asks,
  state_of, write_exchange,
}
use okx_rust_trading.TradingRuntime.MakerTrend.Action.Exchange.{OnExchange}
use okx_rust_trading.TradingRuntime.MakerTrend.Shutdown.{
  shutdown_without_position, shutdown_with_position, reconcile_shutdown_position,
  shutdown_initialized, ensure_shutdown_protection,
}

module _ {D : Type 0} where
  -- Nothing is held, tracked or pending.
  unfoldable pub is_clear : ExchangeState D → Bool
  is_clear s =
      is_none s.position
      && is_none s.entry_order
      && is_none s.take_profit_order
      && is_none s.stop_loss_order
      && is_none s.stop_loss_exit_order
      && is_none s.stop_loss_pending

  -- A market exit is under way, or both the stop loss and the take profit are.
  unfoldable pub is_protected : ExchangeState D → Bool
  is_protected s =
      is_some s.stop_loss_exit_order || (is_some s.stop_loss_order && is_some s.take_profit_order)

-- What a method that returns has reached.
record Ends {ℓ} {S A : Type ℓ} (Q : S → Type ℓ) (method : Action S A) : Type ℓ where
  pub reached : (w r : S) (value : A) → method w ≡ (ok value, r) → Q r

module _ {ℓ} {S A B : Type ℓ} {Q : S → Type ℓ} where
  after-Ends :
      (next : A → Action S B) (result : Result A Error) (w r : S) (value : B)
      → ((a : A) → Ends Q (next a))
      → after next result w ≡ (ok value, r)
      → Q r
  unfolding after
  after-Ends next (ok a) w r value k h = (k a).reached w r value h
  after-Ends next (err e) w r value k h = cc

  Ends-bind :
      (first : Action S A) (next : A → Action S B)
      → ((a : A) → Ends Q (next a))
      → Ends Q (first >>= next)
  unfolding ◌>>=◌
  Ends-bind first next k = record {
    reached =
        λ w r value h. let (result, middle) = first w in after-Ends next result middle r value k h;
  }

module _ {ℓ} {S A : Type ℓ} {Q : S → Type ℓ} where
  Ends-choose : (test : Bool) (m n : Action S A) → Ends Q m → Ends Q n → Ends Q (choose test m n)
  unfolding choose
  Ends-choose true m n em en = em
  Ends-choose false m n em en = en

module _ {F D C : Type 0} where
  unfoldable pub IsSettled : World F D C → Type 0
  IsSettled w = OnExchange (λ s. (is_clear s || is_protected s) ≡ true) w

  clear_with-IsSettled :
      (w : World F D C) (current : Option (ExchangeState D))
      → w.runner.exchange ≡ current
      → IsSettled (clear_with current w)
  unfolding IsSettled clear_with write_exchange is_clear cleared
  clear_with-IsSettled w none e = rw e tt
  clear_with-IsSettled w (some s) e = refl

  Ends-clear_position_state : Ends (IsSettled) clear_position_state
  unfolding clear_position_state
  Ends-clear_position_state = record {
    reached = λ w r value h.
        subst IsSettled (ap (λ p. p.1) h) (clear_with-IsSettled w w.runner.exchange refl);
  }

  ensured-IsSettled :
      (w r : World F D C) (current : Option (ExchangeState D))
      → w.runner.exchange ≡ current
      → ensure_shutdown_protection w ≡ (ok tt, r)
      → IsSettled r
  unfolding ensure_shutdown_protection exchange asks state_of ◌>>=◌ after lift IsSettled
      is_protected
  ensured-IsSettled w r none e h = ground arith
  ensured-IsSettled w r (some s) e h = ground arith

  Ends-ensure_shutdown_protection : Ends (IsSettled) ensure_shutdown_protection
  Ends-ensure_shutdown_protection = record {
    reached = λ w r value h. ensured-IsSettled w r w.runner.exchange refl h;
  }

module _ {F D C : Type 0} ⦃o : Ord D⦄ ⦃d : Decimal D⦄ ⦃f : Float F⦄ ⦃x : FromFloat F D⦄
    ⦃c : OkxClient D C⦄ where
  Ends-shutdown_without_position :
      Ends (IsSettled {F = F} {D = D} {C = C}) shutdown_without_position
  unfolding shutdown_without_position
  Ends-shutdown_without_position = search (Ends-bind, Ends-clear_position_state) depth 30

  Ends-shutdown_with_position : Ends (IsSettled {F = F} {D = D} {C = C}) shutdown_with_position
  unfolding shutdown_with_position
  Ends-shutdown_with_position =
      search
        (Ends-bind, Ends-choose, Ends-shutdown_without_position, Ends-ensure_shutdown_protection)
        depth 30

  Ends-shutdown_initialized : Ends (IsSettled {F = F} {D = D} {C = C}) shutdown_initialized
  unfolding shutdown_initialized reconcile_shutdown_position
  Ends-shutdown_initialized =
      search (Ends-bind, Ends-choose, Ends-shutdown_without_position, Ends-shutdown_with_position)
        depth 30

  -- When the shutdown of an initialized runner succeeds, whatever the exchange answered, either
  -- nothing is held, tracked or pending, or a market exit is tracked, or both a stop loss and a
  -- take-profit order are.
  pub shutdown_initialized-IsSettled :
      (w r : World F D C) → shutdown_initialized w ≡ (ok tt, r) → IsSettled r
  shutdown_initialized-IsSettled w r h = Ends-shutdown_initialized.reached w r tt h
