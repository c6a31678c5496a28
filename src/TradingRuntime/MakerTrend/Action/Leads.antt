-- ===== src/TradingRuntime/MakerTrend/Action/Leads.antt =====
-- Methods that lead from one property of the state to another, which also holds where they end with
-- an error.
use okx_rust_trading.Common.{
  ◌≡◌, refl, Bool, true, false, Option, none, some, Result, ok, err, ok_or,
}
use okx_rust_trading.TradingRuntime.Okx.Errors.{Error, exchange_not_initialized}
use okx_rust_trading.TradingRuntime.MakerTrend.Types.{ExchangeState}
use okx_rust_trading.TradingRuntime.MakerTrend.Action.{
  Action, World, after, ◌>>=◌, if_some, choose, when, done, pure, asks, exchange, state_of,
  change_exchange, change_with, write_exchange,
}
use okx_rust_trading.TradingRuntime.MakerTrend.Action.Keeps.{Keeps}
use okx_rust_trading.TradingRuntime.MakerTrend.Action.Exchange.{OfSome, OnExchange}

pub record Leads {ℓ} {S A : Type ℓ} (P Q : S → Type ℓ) (method : Action S A) : Type ℓ where
  pub reaches : (state : S) → P state → Q (method state).1

module _ {ℓ} {S A B : Type ℓ} {P Q : S → Type ℓ} where
  -- The property is reached in the rest.
  pub Leads-bind :
      (first : Action S A) (next : A → Action S B)
      → Keeps P first
      → ((state : S) → P state → Q state)
      → ((value : A) → Leads P Q (next value))
      → Leads P Q (first >>= next)
  unfolding ◌>>=◌
  Leads-bind first next kf sub kn = record {
    reaches =
        λ state h. let (result, reached) = first state in go result reached (kf.holds state h);
  }
    where
      go : (result : Result A Error) (reached : S) → P reached → Q (after next result reached).1
      go (ok value) reached h = (kn value).reaches reached h
      go (err e) reached h = sub reached h

  -- The property is reached at once.
  pub Leads-bind_first :
      (first : Action S A) (next : A → Action S B)
      → Leads P Q first
      → ((value : A) → Keeps Q (next value))
      → Leads P Q (first >>= next)
  unfolding ◌>>=◌
  Leads-bind_first first next lf kn = record {
    reaches =
        λ state h. let (result, reached) = first state in go result reached (lf.reaches state h);
  }
    where
      go : (result : Result A Error) (reached : S) → Q reached → Q (after next result reached).1
      go (ok value) reached h = (kn value).holds reached h
      go (err e) reached h = h

  pub Leads-if_some :
      (o : Option A) (found : A → Action S B) (missing : Action S B)
      → ((value : A) → Leads P Q (found value))
      → Leads P Q missing
      → Leads P Q (if_some o found missing)
  unfolding if_some
  Leads-if_some none found missing lf lm = lm
  Leads-if_some (some value) found missing lf lm = lf value

OfSome-mono :
    {A : Type 0} (P Q : A → Type 0) (o : Option A) → ((a : A) → P a → Q a) → OfSome P o → OfSome Q o
OfSome-mono P Q none sub h = h
OfSome-mono P Q (some a) sub h = sub a h

module _ {F D C : Type 0} where
  change_with-Leads :
      (P Q : ExchangeState D → Type 0) (change : ExchangeState D → ExchangeState D)
      (current : Option (ExchangeState D)) (w : World F D C)
      → ((s : ExchangeState D) → P s → Q (change s))
      → w.runner.exchange ≡ current
      → OfSome P current
      → OnExchange Q (change_with change current w).1
  unfolding change_with write_exchange
  change_with-Leads P Q change none w k e h = rw e tt
  change_with-Leads P Q change (some s) w k e h = k s h

module _ {F D C : Type 0} {P Q : ExchangeState D → Type 0} where
  pub OnExchange-mono :
      ((s : ExchangeState D) → P s → Q s) → (w : World F D C) → OnExchange P w → OnExchange Q w
  OnExchange-mono sub w h = OfSome-mono P Q w.runner.exchange sub h

  pub Leads-done :
      ((s : ExchangeState D) → P s → Q s) → Leads (OnExchange {F = F} {C = C} P) (OnExchange Q) done
  unfolding done pure
  Leads-done sub = record { reaches = λ w h. OnExchange-mono sub w h }

  pub Leads-when :
      (test : Bool) (body : Action (World F D C) (Unit {0}))
      → (test ≡ true → Leads (OnExchange P) (OnExchange Q) body)
      → ((s : ExchangeState D) → P s → Q s)
      → Leads (OnExchange P) (OnExchange Q) (when test body)
  unfolding when choose
  Leads-when true body l sub = l refl
  Leads-when false body l sub = Leads-done sub

  pub Leads-change_exchange :
      (change : ExchangeState D → ExchangeState D)
      → ((s : ExchangeState D) → P s → Q (change s))
      → Leads (OnExchange {F = F} {C = C} P) (OnExchange Q) (change_exchange change)
  unfolding change_exchange
  Leads-change_exchange change k = record {
    reaches = λ w h. change_with-Leads P Q change w.runner.exchange w k refl h;
  }

module _ {F D C : Type 0} {P : ExchangeState D → Type 0} where
  -- What follows starts in the very state that `exchange` returns.
  pub Keeps-bind_exchange_at :
      {B : Type 0} (next : ExchangeState D → Action (World F D C) B)
      → ((s : ExchangeState D) → P s → Leads (OnExchange (λ t. t ≡ s)) (OnExchange P) (next s))
      → Keeps (OnExchange P) (exchange >>= next)
  unfolding exchange state_of asks ◌>>=◌ after
  Keeps-bind_exchange_at next k = record { holds = λ w h. go w w.runner.exchange refl h }
    where
      go :
          (w : World F D C) (current : Option (ExchangeState D))
          → w.runner.exchange ≡ current
          → OfSome P current
          → OnExchange P (after next (ok_or current exchange_not_initialized) w).1
      go w none e h = rw e tt
      go w (some s) e h = (k s h).reaches w (rw e refl)
