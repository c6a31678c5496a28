-- ===== src/ReplayBook/Queries.antt =====
-- okx-market-model/src/replay_book.rs: what a book answers.
pub mod Laws
use okx_rust_trading.Common.{
  ℕ, zero, suc, Bool, true, false, ◌&&◌, Option, none, some, List, [], ◌∷◌, ◌++◌, ltb, length, map,
  reverse, take, if◌then◌else◌, unwrap_or,
}
use okx_rust_trading.Common.Options.{◌>>=◌}
use okx_rust_trading.Order.{Ord, lt?, le?}
use okx_rust_trading.BTreeMap.{BTreeMap, get, first_key_value, last_key_value}
use okx_rust_trading.Decimal.{Decimal, ◌+◌, ◌-◌, ◌*◌, ◌/◌, sum}
use okx_rust_trading.ReplayBook.Types.{BookLevel, OrderBook}

pub record TopLevel (D : Type 0) : Type 0 where
  pub price : D
  pub quantity : D

-- `test.then(value)`.
abbrev pub then_some {ℓ} : {A : Type ℓ} → Bool → A → Option A
then_some true a = some a
then_some false a = none

module _ {D : Type 0} where
  unfoldable pub top_level : D × BookLevel D → TopLevel D
  top_level (price, level) = record { price = price; quantity = level.quantity }

  unfoldable pub best_bid : OrderBook D → Option (TopLevel D)
  unfolding last_key_value top_level
  best_bid book = do entry ← last_key_value book.bids; some (top_level entry)

  unfoldable pub best_ask : OrderBook D → Option (TopLevel D)
  unfolding first_key_value top_level
  best_ask book = do entry ← first_key_value book.asks; some (top_level entry)

  unfoldable pub bid_level_count : OrderBook D → ℕ
  bid_level_count book = length book.bids

  unfoldable pub ask_level_count : OrderBook D → ℕ
  ask_level_count book = length book.asks

  unfoldable pub asks_ascending : OrderBook D → List (TopLevel D)
  asks_ascending book = map top_level book.asks

  unfoldable pub bids_descending : OrderBook D → List (TopLevel D)
  bids_descending book = map top_level (reverse book.bids)

  -- The quantities of the first levels of a side.
  unfoldable pub quantities : ℕ → BTreeMap D (BookLevel D) → List D
  quantities levels side = map (λ (e : D × BookLevel D). e.1.quantity) (take levels side)

module _ {D : Type 0} ⦃d : Decimal D⦄ where
  unfoldable pub spread : OrderBook D → Option D
  spread book = do ask ← best_ask book; bid ← best_bid book; some (ask.price - bid.price)

  unfoldable pub midpoint : OrderBook D → Option D
  midpoint book = do
    ask ← best_ask book
    bid ← best_bid book
    some ((ask.price + bid.price) / d.two)

  unfoldable pub total_depth : OrderBook D → ℕ → D
  total_depth book levels =
      sum (quantities levels (reverse book.bids) ++ quantities levels book.asks)

module _ {D : Type 0} ⦃o : Ord D⦄ ⦃d : Decimal D⦄ where
  unfoldable pub microprice : OrderBook D → Option D
  microprice book = do
    bid ← best_bid book
    ask ← best_ask book
    let quantity = bid.quantity + ask.quantity
    then_some (lt? d.zero quantity)
        ((ask.price * bid.quantity + bid.price * ask.quantity) / quantity)

  unfoldable pub depth_imbalance : OrderBook D → ℕ → Option D
  depth_imbalance book levels =
      let bid = sum (quantities levels (reverse book.bids)) in
      let ask = sum (quantities levels book.asks) in
      let total = bid + ask in then_some (ltb 0 levels && lt? d.zero total) ((bid - ask) / total)

  unfoldable pub top_imbalance : OrderBook D → Option D
  top_imbalance book = depth_imbalance book 1

  -- The loop of `weighted_microprice`, at a rank, over the two sides together.
  unfoldable pub weigh_levels :
      ℕ → D → D → BTreeMap D (BookLevel D) → BTreeMap D (BookLevel D) → D × D
  weigh_levels index weighted_price weight_sum [] asks = (weighted_price, weight_sum)
  weigh_levels index weighted_price weight_sum (b ∷ bids) [] = (weighted_price, weight_sum)
  weigh_levels index weighted_price weight_sum ((bid_price, bid) ∷ bids) ((ask_price, ask) ∷ asks) =
      let quantity = bid.quantity + ask.quantity in
      let rank_weight = d.one / d.from_u64 (suc index) in
      let level_microprice = (ask_price * bid.quantity + bid_price * ask.quantity) / quantity in
      let idle = le? quantity d.zero in
      weigh_levels (suc index)
        (if idle then weighted_price else weighted_price + level_microprice * rank_weight)
        (if idle then weight_sum else weight_sum + rank_weight) bids asks

  unfoldable pub weighted_microprice : OrderBook D → ℕ → Option D
  unfolding weigh_levels
  weighted_microprice book levels =
      let (weighted_price, weight_sum) =
        weigh_levels 0 d.zero d.zero (take levels (reverse book.bids)) (take levels book.asks) in
      then_some (lt? d.zero weight_sum) (weighted_price / weight_sum)

  unfoldable pub multi_level_microprice : OrderBook D → ℕ → Option D
  multi_level_microprice book levels = do
    mid ← midpoint book
    width ← spread book
    imbalance ← depth_imbalance book levels
    some (mid + width * imbalance / d.two)

  abbrev quantity_or_zero : Option (BookLevel D) → D
  quantity_or_zero none = d.zero
  quantity_or_zero (some level) = level.quantity

  unfoldable pub bid_quantity_at : OrderBook D → D → D
  unfolding get
  bid_quantity_at book price = quantity_or_zero (get price book.bids)

  unfoldable pub ask_quantity_at : OrderBook D → D → D
  unfolding get
  ask_quantity_at book price = quantity_or_zero (get price book.asks)
