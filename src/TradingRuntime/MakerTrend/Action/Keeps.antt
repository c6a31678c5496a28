-- ===== src/TradingRuntime/MakerTrend/Action/Keeps.antt =====
-- Invariants of the methods, one rule for each way to build one: what held before a method holds
-- after it, whether it returns or ends with an error.
use okx_rust_trading.Common.{◌≡◌, refl, Bool, true, false, Option, none, some, Result, ok, err}
use okx_rust_trading.TradingRuntime.Okx.Errors.{Error}
use okx_rust_trading.TradingRuntime.MakerTrend.Action.{
  Action, pure, lift, gets, asks, after, ◌>>=◌, if_some, choose,
}

pub record Keeps {ℓ} {S A : Type ℓ} (P : S → Type ℓ) (method : Action S A) : Type ℓ where
  pub holds : (state : S) → P state → P (method state).1

module _ {ℓ} {S A : Type ℓ} {P : S → Type ℓ} where
  pub Keeps-pure : (value : A) → Keeps P (pure value)
  unfolding pure
  Keeps-pure value = record { holds = λ state h. h }

  pub Keeps-lift : (result : Result A Error) → Keeps P (lift result)
  unfolding lift
  Keeps-lift result = record { holds = λ state h. h }

  pub Keeps-gets : (read : S → A) → Keeps P (gets read)
  unfolding gets
  Keeps-gets read = record { holds = λ state h. h }

  pub Keeps-asks : (compute : S → Result A Error) → Keeps P (asks compute)
  unfolding asks
  Keeps-asks compute = record { holds = λ state h. h }

  pub Keeps-choose :
      (test : Bool) (m n : Action S A) → Keeps P m → Keeps P n → Keeps P (choose test m n)
  unfolding choose
  Keeps-choose true m n km kn = km
  Keeps-choose false m n km kn = kn

module _ {ℓ} {S A B : Type ℓ} {P : S → Type ℓ} where
  after-Keeps :
      (next : A → Action S B) (result : Result A Error)
      → ((value : A) → result ≡ ok value → Keeps P (next value))
      → Keeps P (after next result)
  unfolding after
  after-Keeps next (ok value) k = k value refl
  after-Keeps next (err e) k = record { holds = λ state h. h }

  pub Keeps-bind :
      (first : Action S A) (next : A → Action S B)
      → Keeps P first
      → ((value : A) → Keeps P (next value))
      → Keeps P (first >>= next)
  unfolding ◌>>=◌ after
  Keeps-bind first next kf kn = record {
    holds = λ state h.
        let (result, reached) = first state in
        (after-Keeps next result (λ value _. kn value)).holds reached (kf.holds state h);
  }

  -- The value that a check returned is at hand in what follows.
  pub Keeps-bind_lift :
      (result : Result A Error) (next : A → Action S B)
      → ((value : A) → result ≡ ok value → Keeps P (next value))
      → Keeps P (lift result >>= next)
  unfolding ◌>>=◌ lift
  Keeps-bind_lift result next k = after-Keeps next result k

  pub Keeps-if_some :
      (o : Option A) (found : A → Action S B) (missing : Action S B)
      → ((value : A) → o ≡ some value → Keeps P (found value))
      → Keeps P missing
      → Keeps P (if_some o found missing)
  unfolding if_some
  Keeps-if_some none found missing kf km = km
  Keeps-if_some (some value) found missing kf km = kf value refl

  -- What is read from a state for which the invariant holds.
  pub Keeps-bind_gets :
      (read : S → A) (next : A → Action S B)
      → ((state : S) → P state → Keeps P (next (read state)))
      → Keeps P (gets read >>= next)
  unfolding ◌>>=◌ gets after
  Keeps-bind_gets read next k = record { holds = λ state h. (k state h).holds state h }

  pub Keeps-bind_asks :
      (compute : S → Result A Error) (next : A → Action S B)
      → ((state : S) (value : A) → P state → compute state ≡ ok value → Keeps P (next value))
      → Keeps P (asks compute >>= next)
  unfolding ◌>>=◌ asks
  Keeps-bind_asks compute next k = record {
    holds =
        λ state h. (after-Keeps next (compute state) (λ value e. k state value h e)).holds state h;
  }

pub ruleset keeps_rules =
    (Keeps-pure, Keeps-lift, Keeps-gets, Keeps-asks, Keeps-choose, Keeps-if_some, Keeps-bind)
