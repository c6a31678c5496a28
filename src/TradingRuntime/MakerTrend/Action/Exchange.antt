-- ===== src/TradingRuntime/MakerTrend/Action/Exchange.antt =====
-- Invariants that are about the exchange's state alone: the client, the clock and the order ids do
-- not matter to them.
use okx_rust_trading.Common.{◌≡◌, subst, Bool, Option, none, some, ok, ok_or}
use okx_rust_trading.TradingRuntime.OrderId.{OrderPurpose}
use okx_rust_trading.TradingRuntime.Okx.Errors.{Error}
use okx_rust_trading.TradingRuntime.Okx.Client.{OkxClient, Call}
use okx_rust_trading.TradingRuntime.MakerTrend.Types.{ExchangeState, cleared}
use okx_rust_trading.TradingRuntime.MakerTrend.Action.{
  Action, World, try_call, change_exchange, change_with, clear_position_state, clear_with,
  write_exchange, now, next_order_id, numbered_order_id, done, when, exchange, exchange_ok,
  state_of, ◌>>=◌,
}
use okx_rust_trading.TradingRuntime.MakerTrend.Action.Keeps.{
  Keeps, Keeps-pure, Keeps-choose, Keeps-asks, Keeps-gets, Keeps-bind, Keeps-bind_asks, keeps_rules,
}

-- A property of the value, if there is one.
abbrev pub OfSome {ℓ} : {A : Type ℓ} → (A → Type 0) → Option A → Type 0
OfSome P none = Unit
OfSome P (some value) = P value

pub OfSome-ok_or :
    {A : Type 0} (P : A → Type 0) (o : Option A) (e : Error) (value : A)
    → ok_or o e ≡ ok value
    → OfSome P o
    → P value
OfSome-ok_or P none e value h p = cc
OfSome-ok_or P (some a) e value h p = subst P (cc) p

abbrev pub OnExchange : {F D C : Type 0} → (ExchangeState D → Type 0) → World F D C → Type 0
OnExchange P w = OfSome P w.runner.exchange

module _ {F D C : Type 0} {P : ExchangeState D → Type 0} where
  pub Keeps-try_call :
      {A : Type 0} (call : Call C A) → Keeps (OnExchange {F = F} P) (try_call {A = A} call)
  unfolding try_call
  Keeps-try_call call = record { holds = λ w h. h }

  pub Keeps-done : Keeps (OnExchange {F = F} {C = C} P) done
  unfolding done
  Keeps-done = Keeps-pure tt

  pub Keeps-when :
      (test : Bool) (body : Action (World F D C) (Unit {0}))
      → Keeps (OnExchange P) body
      → Keeps (OnExchange P) (when test body)
  unfolding when
  Keeps-when test body k = Keeps-choose test body done k Keeps-done

  change_with-Keeps :
      (change : ExchangeState D → ExchangeState D) (current : Option (ExchangeState D))
      (w : World F D C)
      → ((s : ExchangeState D) → P s → P (change s))
      → OfSome P current
      → OnExchange P w
      → OnExchange P (change_with change current w).1
  unfolding change_with write_exchange
  change_with-Keeps change none w k h hw = hw
  change_with-Keeps change (some s) w k h hw = k s h

  pub Keeps-change_exchange :
      (change : ExchangeState D → ExchangeState D)
      → ((s : ExchangeState D) → P s → P (change s))
      → Keeps (OnExchange {F = F} {C = C} P) (change_exchange change)
  unfolding change_exchange
  Keeps-change_exchange change k = record {
    holds = λ w h. change_with-Keeps change w.runner.exchange w k h h;
  }

  clear_with-Keeps :
      (current : Option (ExchangeState D)) (w : World F D C)
      → ((s : ExchangeState D) → P s → P (cleared s))
      → OfSome P current
      → OnExchange P w
      → OnExchange P (clear_with current w)
  unfolding clear_with write_exchange
  clear_with-Keeps none w k h hw = hw
  clear_with-Keeps (some s) w k h hw = k s h

  pub Keeps-clear_position_state :
      ((s : ExchangeState D) → P s → P (cleared s))
      → Keeps (OnExchange {F = F} {C = C} P) clear_position_state
  unfolding clear_position_state
  Keeps-clear_position_state k = record {
    holds = λ w h. clear_with-Keeps w.runner.exchange w k h h;
  }

  pub Keeps-exchange_ok : Keeps (OnExchange {F = F} {C = C} P) exchange_ok
  unfolding exchange_ok
  Keeps-exchange_ok = Keeps-gets _

  -- The state that `exchange` returns has the invariant.
  pub Keeps-bind_exchange :
      {B : Type 0} (next : ExchangeState D → Action (World F D C) B)
      → ((s : ExchangeState D) → P s → Keeps (OnExchange P) (next s))
      → Keeps (OnExchange P) (exchange >>= next)
  unfolding exchange state_of
  Keeps-bind_exchange next k =
      Keeps-bind_asks (λ (w : World F D C). state_of w.runner) next
        (λ w s h e. k s (OfSome-ok_or P w.runner.exchange _ s e h))

module _ {F D C : Type 0} {P : ExchangeState D → Type 0} ⦃c : OkxClient D C⦄ where
  pub Keeps-now : Keeps (OnExchange {F = F} {C = C} P) now
  unfolding now
  Keeps-now = record { holds = λ w h. h }

  pub Keeps-next_order_id :
      (purpose : OrderPurpose) → Keeps (OnExchange {F = F} {C = C} P) (next_order_id purpose)
  unfolding next_order_id numbered_order_id
  Keeps-next_order_id purpose = Keeps-bind now _ Keeps-now (λ nanos. record { holds = λ w h. h })

pub ruleset exchange_rules = (
  keeps_rules, Keeps-try_call, Keeps-done, Keeps-when, Keeps-exchange_ok, Keeps-bind_exchange,
  Keeps-now, Keeps-next_order_id,
)
