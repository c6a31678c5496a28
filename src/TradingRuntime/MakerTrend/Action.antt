-- ===== src/TradingRuntime/MakerTrend/Action.antt =====
-- strategies/okx_ema_atr_maker_trend.rs: how its methods run. A method reads and writes the runner
-- and calls the client; `?` ends it with an error, and what was written or requested before stays.
pub mod Keeps
pub mod Exchange
pub mod Leads
use Prim.Native.Nat.{◌+◌, ◌%◌}
use okx_rust_trading.Common.{
  ℕ, ◌≡◌, Bool, true, false, Option, none, some, Result, ok, err, ok_or, if◌then◌else◌,
}
use okx_rust_trading.Common.Int.{ℤ}
use okx_rust_trading.Text.{Str}
use okx_rust_trading.TradingRuntime.OrderId.{OrderPurpose, client_order_id}
use okx_rust_trading.TradingRuntime.Okx.Errors.{Error, exchange_not_initialized}
use okx_rust_trading.TradingRuntime.Okx.Client.{OkxClient, Call}
use okx_rust_trading.TradingRuntime.MakerTrend.Types.{Runner, ExchangeState, cleared}

abbrev pub Action {ℓ} : Type ℓ → Type ℓ → Type ℓ
Action S A = S → Result A Error × S

module _ {ℓ} {S A : Type ℓ} where
  unfoldable pub pure : A → Action S A
  pure value state = (ok value, state)

  unfoldable pub lift : Result A Error → Action S A
  lift result state = (result, state)

  -- A value that is read off the state.
  unfoldable pub gets : (S → A) → Action S A
  gets read state = (ok (read state), state)

  -- A check or a computation on the state that may fail, and writes nothing.
  unfoldable pub asks : (S → Result A Error) → Action S A
  asks compute state = (compute state, state)

module _ {ℓ} {S A B : Type ℓ} where
  -- After the first method: its error ends this one.
  unfoldable pub after : (A → Action S B) → Result A Error → Action S B
  after next (ok value) state = next value state
  after next (err e) state = (err e, state)

  infixl 5 ◌>>=◌ ◌>>◌
  unfoldable pub ◌>>=◌ : Action S A → (A → Action S B) → Action S B
  unfolding after
  ◌>>=◌ first next state = let (result, reached) = first state in after next result reached

  abbrev pub ◌>>◌ : Action S A → Action S B → Action S B
  first >> next = first >>= λ _. next

  -- `if let Some(value) = option { … } else { … }`
  unfoldable pub if_some : Option A → (A → Action S B) → Action S B → Action S B
  if_some none found missing = missing
  if_some (some value) found missing = found value

module _ {ℓ} {S A : Type ℓ} where
  -- `if test { … } else { … }`
  unfoldable pub choose : Bool → Action S A → Action S A → Action S A
  choose true yes_branch no_branch = yes_branch
  choose false yes_branch no_branch = no_branch

-- The runner, the client with what is behind it, and the process's order id counter.
pub record World (F D C : Type 0) : Type 0 where
  pub runner : Runner F D
  pub client : C
  pub order_id_sequence : ℕ

module _ {F D : Type 0} where
  -- `self.exchange()?`
  unfoldable pub state_of : Runner F D → Result (ExchangeState D) Error
  state_of runner = ok_or runner.exchange exchange_not_initialized

module _ {F D C : Type 0} where
  -- `return Ok(())`
  unfoldable pub done : Action (World F D C) (Unit {0})
  done = pure tt

  -- `if test { … }`
  unfoldable pub when : Bool → Action (World F D C) (Unit {0}) → Action (World F D C) (Unit {0})
  when test body = choose test body done

  unfoldable pub try_call : {A : Type 0} → Call C A → Action (World F D C) A
  try_call call w = let (result, client) = call w.client in (result, record w { client = client })

  unfoldable pub exchange : Action (World F D C) (ExchangeState D)
  exchange = asks (λ (w : World F D C). state_of w.runner)

  -- `self.exchange().ok()`
  unfoldable pub exchange_ok : Action (World F D C) (Option (ExchangeState D))
  exchange_ok = gets (λ (w : World F D C). w.runner.exchange)

  unfoldable pub write_exchange : ExchangeState D → World F D C → World F D C
  write_exchange state w = record w { runner = record w.runner { exchange = some state } }

  unfoldable pub change_with :
      (ExchangeState D → ExchangeState D)
      → Option (ExchangeState D)
      → Action (World F D C) (Unit {0})
  change_with change none w = (err exchange_not_initialized, w)
  change_with change (some state) w = (ok tt, write_exchange (change state) w)

  -- `self.exchange_mut()?` and an assignment.
  unfoldable pub change_exchange :
      (ExchangeState D → ExchangeState D) → Action (World F D C) (Unit {0})
  unfolding change_with write_exchange
  change_exchange change w = change_with change w.runner.exchange w

  unfoldable pub clear_with : Option (ExchangeState D) → World F D C → World F D C
  clear_with none w = w
  clear_with (some state) w = write_exchange (cleared state) w

  unfoldable pub clear_position_state : Action (World F D C) (Unit {0})
  unfolding clear_with write_exchange
  clear_position_state w = (ok tt, clear_with w.runner.exchange w)

module _ {F D C : Type 0} ⦃c : OkxClient D C⦄ where
  unfoldable pub now : Action (World F D C) ℤ
  now w = let (nanos, client) = c.now_nanos w.client in (ok nanos, record w { client = client })

  -- `client_order_id(&self.instance_id, purpose)` at that time.
  unfoldable pub numbered_order_id : OrderPurpose → ℤ → Action (World F D C) Str
  numbered_order_id purpose nanos w =
      let (id, sequence) = client_order_id w.runner.instance_id purpose nanos w.order_id_sequence in
      (ok id, record w { order_id_sequence = sequence })

  unfoldable pub next_order_id : OrderPurpose → Action (World F D C) Str
  next_order_id purpose = do nanos ← now; numbered_order_id purpose nanos
