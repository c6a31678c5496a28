-- ===== src/TradingRuntime/MakerTrend/Evidence/Repeated.antt =====
-- strategies/okx_ema_atr_maker_trend.rs: a fill that is reported again counts once.
use okx_rust_trading.Common.{
  ◌≡◌, refl, Bool, true, not, ◌&&◌, Option, none, some, List, [], ◌∷◌, ◌++◌, ok, arith, is_empty,
  >>=-eq-ok, ◌>>=◌, All, Result-cases, inl, inr,
}
use okx_rust_trading.Order.{Ord}
use okx_rust_trading.Text.{Str, eq_str_self}
use okx_rust_trading.Decimal.{Decimal}
use okx_rust_trading.TradingRuntime.OrderId.{OrderPurpose, parse_strategy_client_order_id}
use okx_rust_trading.TradingRuntime.Okx.Orders.{OkxFill, OkxOrder, dedupe_key}
use okx_rust_trading.TradingRuntime.Okx.Accounting.{Pair}
use okx_rust_trading.TradingRuntime.MakerTrend.Evidence.{
  FillState, contains, new_fill, tagged_fill, add_fill, add_fills, no_fills, strategy_fill_evidence,
}

-- A fill that adds nothing to a state: another's, or one whose identity was seen.
unfoldable is_known_as : List Str → OkxFill → Option OrderPurpose → Bool
is_known_as seen fill none = true
is_known_as seen fill (some purpose) =
    not (is_empty (dedupe_key fill)) && contains (dedupe_key fill) seen

unfoldable is_known : Str → List Str → OkxFill → Bool
is_known tag seen fill =
    is_known_as seen fill (parse_strategy_client_order_id fill.client_order_id tag)

known_as-keeps :
    (seen more : List Str) (fill : OkxFill) (purpose : Option OrderPurpose)
    → (contains (dedupe_key fill) seen ≡ true → contains (dedupe_key fill) more ≡ true)
    → is_known_as seen fill purpose ≡ true
    → is_known_as more fill purpose ≡ true
unfolding is_known_as
known_as-keeps seen more fill none k h = refl
known_as-keeps seen more fill (some purpose) k h = ground (arith, k)

module _ {D : Type 0} ⦃o : Ord D⦄ ⦃d : Decimal D⦄ where
  new_fill-seen :
      (pair : Pair) (state reached : FillState D) (fill : OkxFill) (purpose : OrderPurpose)
      → new_fill pair state fill purpose ≡ ok reached
      → reached.seen_fill_ids ≡ dedupe_key fill ∷ state.seen_fill_ids
  unfolding new_fill
  new_fill-seen pair state reached fill purpose h = ground arith

  tagged_fill-known :
      (pair : Pair) (state reached : FillState D) (fill : OkxFill) (purpose : Option OrderPurpose)
      → tagged_fill pair state fill purpose ≡ ok reached
      → is_known_as reached.seen_fill_ids fill purpose ≡ true
  unfolding tagged_fill is_known_as contains
  tagged_fill-known pair state reached fill none h = refl
  tagged_fill-known pair state reached fill (some purpose) h =
      ground (arith, new_fill-seen pair state reached fill purpose, eq_str_self (dedupe_key fill))

  tagged_fill-again :
      (pair : Pair) (state : FillState D) (fill : OkxFill) (purpose : Option OrderPurpose)
      → is_known_as state.seen_fill_ids fill purpose ≡ true
      → tagged_fill pair state fill purpose ≡ ok state
  unfolding tagged_fill is_known_as
  tagged_fill-again pair state fill none h = refl
  tagged_fill-again pair state fill (some purpose) h = ground arith

  tagged_fill-keeps :
      (pair : Pair) (state reached : FillState D) (fill : OkxFill) (purpose : Option OrderPurpose)
      (id : Str)
      → tagged_fill pair state fill purpose ≡ ok reached
      → contains id state.seen_fill_ids ≡ true
      → contains id reached.seen_fill_ids ≡ true
  unfolding tagged_fill contains
  tagged_fill-keeps pair state reached fill none id h k = ground arith
  tagged_fill-keeps pair state reached fill (some purpose) id h k =
      ground (arith, new_fill-seen pair state reached fill purpose)

  add_fills-keeps :
      (tag : Str) (pair : Pair) (fills : List OkxFill) (state reached : FillState D)
      (fill : OkxFill)
      → add_fills tag pair fills state ≡ ok reached
      → is_known tag state.seen_fill_ids fill ≡ true
      → is_known tag reached.seen_fill_ids fill ≡ true
  unfolding add_fills add_fill is_known
  add_fills-keeps tag pair [] state reached fill h k = ground arith
  add_fills-keeps tag pair (first ∷ fills) state reached fill h k =
      let (middle, one, rest) =
        >>=-eq-ok
          (tagged_fill pair state first (parse_strategy_client_order_id first.client_order_id tag))
          _ h in
      add_fills-keeps tag pair fills middle reached fill rest (
        known_as-keeps state.seen_fill_ids middle.seen_fill_ids fill _
          (tagged_fill-keeps pair state middle first _ (dedupe_key fill) one) k)

  -- All of the fills are known afterwards.
  add_fills-known :
      (tag : Str) (pair : Pair) (fills : List OkxFill) (state reached : FillState D)
      → add_fills tag pair fills state ≡ ok reached
      → All (λ (fill : OkxFill). is_known tag reached.seen_fill_ids fill ≡ true) fills
  unfolding add_fills
  add_fills-known tag pair [] state reached h = tt
  add_fills-known tag pair (fill ∷ fills) state reached h =
      let (middle, one, rest) = >>=-eq-ok (add_fill tag pair state fill) _ h in
      (
        add_fills-keeps tag pair fills middle reached fill rest
            (unfold add_fill is_known in tagged_fill-known pair state middle fill _ one),
        add_fills-known tag pair fills middle reached rest,
      )

  add_fills-again :
      (tag : Str) (pair : Pair) (fills : List OkxFill) (state : FillState D)
      → All (λ (fill : OkxFill). is_known tag state.seen_fill_ids fill ≡ true) fills
      → add_fills tag pair fills state ≡ ok state
  unfolding add_fills add_fill is_known
  add_fills-again tag pair [] state h = refl
  add_fills-again tag pair (fill ∷ fills) state h =
      rw (tagged_fill-again pair state fill _ h.0, ◌>>=◌) (add_fills-again tag pair fills state h.1)

  add_fills-append :
      (tag : Str) (pair : Pair) (fills more : List OkxFill) (state : FillState D)
      → add_fills tag pair (fills ++ more) state
        ≡ (add_fills tag pair fills state >>= (λ reached. add_fills tag pair more reached))
  unfolding add_fills
  add_fills-append tag pair [] more state = refl
  add_fills-append tag pair (fill ∷ fills) more state =
      elim (Result-cases (add_fill tag pair state fill)) [
        | inl (reached, e) ↦ rw (e, ◌>>=◌) (add_fills-append tag pair fills more reached)
        | inr (e, failed) ↦ rw (failed, ◌>>=◌) refl
      ]

  -- The evidence of orders and fills is the same when the whole list of fills is reported twice,
  -- errors included.
  pub strategy_fill_evidence_repeated :
      (orders : List OkxOrder) (fills : List OkxFill) (tag : Str) (pair : Pair)
      → strategy_fill_evidence {D = D} orders (fills ++ fills) tag pair
        ≡ strategy_fill_evidence orders fills tag pair
  unfolding strategy_fill_evidence
  strategy_fill_evidence_repeated orders fills tag pair =
      rw (add_fills-append tag pair fills fills no_fills)
        (elim (Result-cases (add_fills tag pair fills (no_fills {D = D}))) [
          | inl (reached, e) ↦
              rw (e, ◌>>=◌)
                (rw
                  (
                    add_fills-again tag pair fills reached
                        (add_fills-known tag pair fills no_fills reached e),
                    ◌>>=◌,
                  )
                  refl)
          | inr (e, failed) ↦ rw (failed, ◌>>=◌) refl
        ])
