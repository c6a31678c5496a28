-- ===== src/ReplayBook/Queries/Laws.antt =====
-- okx-market-model/src/replay_book.rs: what the answers of a book satisfy.
use okx_rust_trading.Common.{
  ℕ, ◌<◌, ◌≡◌, true, some, List, arith, reverse, take, All, All-mono, All-take, All-map,
  All-reverse,
}
use okx_rust_trading.Order.{Ord, ◌≺◌, le?}
use okx_rust_trading.BTreeMap.{BTreeMap}
use okx_rust_trading.BTreeMap.Order.{
  first_key_value-least, last_key_value-greatest, first_key_value-All, last_key_value-All,
}
use okx_rust_trading.Decimal.{Decimal, IsLawful, ◌+◌, ◌-◌, ◌*◌, ◌/◌, sum}
use okx_rust_trading.Decimal.Sums.{IsNonneg, add_pos, sum-IsNonneg, imbalance_bounds}
use okx_rust_trading.PublicProtocol.Instrument.{OkxSpotInstrumentId}
use okx_rust_trading.ReplayBook.Types.{BookLevel, OrderBook}
use okx_rust_trading.ReplayBook.{new}
use okx_rust_trading.ReplayBook.Levels.{IsLive}
use okx_rust_trading.ReplayBook.Trust.{IsWellFormed, ends}
use okx_rust_trading.ReplayBook.Runs.{Operation, run, Inv, run-new-Inv}
use okx_rust_trading.ReplayBook.Queries.{
  TopLevel, top_level, best_bid, best_ask, spread, microprice, quantities, depth_imbalance,
}

module _ {D : Type 0} ⦃o : Ord D⦄ ⦃d : Decimal D⦄ (laws : IsLawful D) where
  -- The two ends of a book, and how they lie.
  pub record HasTop (book : OrderBook D) (bid ask : TopLevel D) : Type 0 where
    pub bid_found : best_bid book ≡ some bid
    pub ask_found : best_ask book ≡ some ask
    pub bid_greatest : All (λ b. le? b.0 bid.price ≡ true) book.bids
    pub ask_least : All (λ a. le? ask.price a.0 ≡ true) book.asks
    pub positive_bid : d.zero ≺ bid.quantity
    pub positive_ask : d.zero ≺ ask.quantity
    pub uncrossed : bid.price ≺ ask.price

  trusted_top :
      (i : OkxSpotInstrumentId) (book : OrderBook D)
      → Inv i book
      → book.trusted ≡ true
      → (bid : TopLevel D) × (ask : TopLevel D) × HasTop book bid ask
  unfolding best_bid best_ask
  trusted_top i book v t =
      let r = v.reliable t in
      let (bid, last) = (ends book.bids r.bids_nonempty).1 in
      let (ask, first) = (ends book.asks r.asks_nonempty).0 in
      (
        top_level bid,
        top_level ask,
        record {
          bid_found = rw last;
          ask_found = rw first;
          bid_greatest = last_key_value-greatest book.bids bid v.well_formed.bids_sorted last;
          ask_least = first_key_value-least book.asks ask v.well_formed.asks_sorted first;
          positive_bid = (last_key_value-All IsLive book.bids bid last v.well_formed.bids_live).1;
          positive_ask = (first_key_value-All IsLive book.asks ask first v.well_formed.asks_live).1;
          uncrossed =
              first_key_value-All (λ a. bid.0 ≺ a.0) book.asks ask first
                (last_key_value-All (λ b. All (λ a. b.0 ≺ a.0) book.asks) book.bids bid last
                  r.apart);
        },
      )

  pos_le : (a : D) → d.zero ≺ a → IsNonneg laws a
  pos_le a h = ground arith

  top-microprice :
      (book : OrderBook D) (bid ask : TopLevel D)
      → HasTop book bid ask
      → microprice book
        ≡ some
            ((ask.price * bid.quantity + bid.price * ask.quantity) / (bid.quantity + ask.quantity))
  unfolding microprice
  top-microprice book bid ask h =
      let total =
        add_pos laws bid.quantity ask.quantity h.positive_bid
          (pos_le ask.quantity h.positive_ask) in
      rw (h.bid_found, h.ask_found, microprice) (ground (arith, total))

  -- What the queries of a trusted book answer.
  pub record HasPrices (book : OrderBook D) : Type 0 where
    pub bid : TopLevel D
    pub ask : TopLevel D
    pub top : HasTop book bid ask
    pub spread_found : spread book ≡ some (ask.price - bid.price)
    pub spread_positive : d.zero ≺ ask.price - bid.price
    pub microprice_found :
        microprice book
        ≡ some
            ((ask.price * bid.quantity + bid.price * ask.quantity) / (bid.quantity + ask.quantity))

  prices_of :
      (i : OkxSpotInstrumentId) (book : OrderBook D)
      → Inv i book
      → book.trusted ≡ true
      → HasPrices book
  unfolding spread
  prices_of i book v t =
      let (bid, ask, top) = trusted_top i book v t in
      record {
        bid = bid;
        ask = ask;
        top = top;
        spread_found = rw (top.ask_found, top.bid_found, spread);
        spread_positive = laws.sub_pos bid.price ask.price top.uncrossed;
        microprice_found = top-microprice book bid ask top;
      }

  -- With lawful decimals, if a book is trusted after any operations on a new book, its best bid is
  -- a greatest bid and its best ask a least ask, both with a positive quantity and the bid below
  -- the ask; its spread is their difference and positive, and its microprice is the mean of the
  -- two prices, each weighed by the quantity of the other side.
  pub trusted_prices :
      (i : OkxSpotInstrumentId) (ops : List (Operation D))
      → (run (new i) ops).trusted ≡ true
      → HasPrices (run (new i) ops)
  trusted_prices i ops t = prices_of i (run (new i) ops) (run-new-Inv i ops) t

  quantities-IsNonneg :
      (levels : ℕ) (side : BTreeMap D (BookLevel D))
      → All IsLive side
      → IsNonneg laws (sum (quantities levels side))
  unfolding quantities
  quantities-IsNonneg levels side live = sum-IsNonneg laws _ (
      All-map (IsNonneg laws) (λ (e : D × BookLevel D). e.1.quantity) (take levels side)
        (All-mono IsLive _ (take levels side) (λ e l. pos_le e.1.quantity l.1)
          (All-take IsLive levels side live)))

  -- On a book with sorted sides of live levels, and with lawful decimals, an imbalance is given
  -- for a positive number of levels and a positive depth only, and then lies between minus one and
  -- one.
  pub depth_imbalance_bounds :
      (book : OrderBook D) (levels : ℕ) (r : D)
      → IsWellFormed book
      → depth_imbalance book levels ≡ some r
      → (0 < levels)
        × (d.zero ≺ sum (quantities levels (reverse book.bids)) + sum (quantities levels book.asks))
        × (le? (d.zero - d.one) r ≡ true)
        × (le? r d.one ≡ true)
  unfolding depth_imbalance
  depth_imbalance_bounds book levels r w h =
      let bids =
        quantities-IsNonneg levels (reverse book.bids) (All-reverse IsLive book.bids w.bids_live) in
      let asks = quantities-IsNonneg levels book.asks w.asks_live in
      let b = sum (quantities levels (reverse book.bids)) in
      let a = sum (quantities levels book.asks) in
      ground (arith, imbalance_bounds laws b a bids asks)
