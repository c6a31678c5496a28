-- ===== src/ReplayBook/Trust.antt =====
-- okx-market-model/src/replay_book.rs: the invariant of the book, and when it is trusted.
use okx_rust_trading.Common.{
  ℕ, ◌≤◌, ◌≡◌, refl, sym, subst, ◌⊎◌, inl, true, false, Option, some, List, [], ◌∷◌, arith, length,
  is_empty, All,
}
use okx_rust_trading.Common.Int.{ℤ}
use okx_rust_trading.Order.{Ord, ◌≺◌}
use okx_rust_trading.BTreeMap.{BTreeMap, first_key_value, last_key_value}
use okx_rust_trading.BTreeMap.Order.{IsSorted, apart_of_ends, last_key_value-some}
use okx_rust_trading.Decimal.{Decimal}
use okx_rust_trading.ReplayBook.Types.{
  BookAction, snapshot, update, LevelUpdate, BookLevel, OrderBook, ApplyOutcome,
}
use okx_rust_trading.ReplayBook.{
  apply_side, begin_levels, apply_levels, is_crossed, is_faulty, finish_apply, apply_checked,
}
use okx_rust_trading.ReplayBook.Levels.{IsLive, apply_side-IsSorted, apply_side-IsLive}

module _ {D : Type 0} ⦃o : Ord D⦄ ⦃d : Decimal D⦄ where
  -- Both sides ascend and hold live levels only.
  pub record IsWellFormed (book : OrderBook D) : Type 0 where
    pub bids_sorted : IsSorted book.bids
    pub asks_sorted : IsSorted book.asks
    pub bids_live : All IsLive book.bids
    pub asks_live : All IsLive book.asks

  -- What a trusted book promises.
  pub record IsReliable (book : OrderBook D) : Type 0 where
    pub snapshot_seen : book.has_snapshot ≡ true
    pub bids_nonempty : is_empty book.bids ≡ false
    pub asks_nonempty : is_empty book.asks ≡ false
    pub bids_bounded : length book.bids ≤ 400
    pub asks_bounded : length book.asks ≤ 400
    pub apart : All (λ b. All (λ a. b.0 ≺ a.0) book.asks) book.bids

  abbrev pub TrustIsReliable : OrderBook D → Type 0
  TrustIsReliable book = book.trusted ≡ true → IsReliable book

  pub ends :
      (m : BTreeMap D (BookLevel D))
      → is_empty m ≡ false
      → ((e : D × BookLevel D) × (first_key_value m ≡ some e))
        × ((e : D × BookLevel D) × (last_key_value m ≡ some e))
  unfolding first_key_value
  ends [] h = cc
  ends (e ∷ m) h = ((e, refl), last_key_value-some e m)

  crosses_false :
      (book : OrderBook D) (bid ask : D × BookLevel D)
      → last_key_value book.bids ≡ some bid
      → first_key_value book.asks ≡ some ask
      → is_crossed book ≡ false
      → bid.0 ≺ ask.0
  crosses_false book bid ask b a h = ground (arith, o.cmp_flip ask.0 bid.0)

  -- With both sides sorted, a best bid below the best ask keeps the sides apart.
  pub uncrossed_apart :
      (book : OrderBook D)
      → IsWellFormed book
      → is_empty book.bids ≡ false
      → is_empty book.asks ≡ false
      → is_crossed book ≡ false
      → All (λ b. All (λ a. b.0 ≺ a.0) book.asks) book.bids
  uncrossed_apart book w b a h =
      let (bid, last) = (ends book.bids b).1 in
      let (ask, first) = (ends book.asks a).0 in
      apart_of_ends book.bids book.asks bid ask w.bids_sorted w.asks_sorted last first
        (crosses_false book bid ask last first h)

  -- `finish_apply` changes nothing but the trust, and leaves that to a reliable book only.
  pub finish_apply-reliable :
      (book : OrderBook D) (out : ApplyOutcome)
      → (finish_apply book out).0.trusted ≡ true
      → ((finish_apply book out).0 ≡ book)
        × (book.trusted ≡ true)
        × (is_empty book.bids ≡ false)
        × (is_empty book.asks ≡ false)
        × (length book.bids ≤ 400)
        × (length book.asks ≤ 400)
        × (is_crossed book ≡ false)
        × (is_faulty out ≡ false)
  unfolding finish_apply
  finish_apply-reliable book out h = ground arith

  pub finish_apply-sides :
      (book : OrderBook D) (out : ApplyOutcome)
      → ((finish_apply book out).0.bids ≡ book.bids) × ((finish_apply book out).0.asks ≡ book.asks)
  unfolding finish_apply
  finish_apply-sides book out = ground arith

  begin_levels-IsWellFormed :
      (book : OrderBook D) (action : BookAction) (asks bids : List (LevelUpdate D))
      → IsWellFormed book
      → IsWellFormed (begin_levels book action asks bids).0
  unfolding begin_levels
  begin_levels-IsWellFormed book snapshot asks bids w = record {
    bids_sorted = tt;
    asks_sorted = tt;
    bids_live = tt;
    asks_live = tt;
  }
  begin_levels-IsWellFormed book update asks bids w = ground arith

  pub begin_levels-trusted :
      (book : OrderBook D) (action : BookAction) (asks bids : List (LevelUpdate D))
      → (begin_levels book action asks bids).0.trusted ≡ true
      → ((begin_levels book action asks bids).0.has_snapshot ≡ true)
        × ((action ≡ snapshot) ⊎ (book.trusted ≡ true))
  unfolding begin_levels
  begin_levels-trusted book snapshot asks bids h = (refl, inl refl)
  begin_levels-trusted book update asks bids h = ground arith

  apply_levels-IsWellFormed :
      (book : OrderBook D) (action : BookAction) (asks bids : List (LevelUpdate D))
      → IsWellFormed book
      → IsWellFormed (apply_levels book action asks bids).0
  unfolding apply_levels
  apply_levels-IsWellFormed book action asks bids w =
      let started = begin_levels book action asks bids in
      let s = begin_levels-IsWellFormed book action asks bids w in
      let asked = apply_side started.0.asks asks started.1 in
      record {
        bids_sorted = apply_side-IsSorted started.0.bids bids asked.1 s.bids_sorted;
        asks_sorted = apply_side-IsSorted started.0.asks asks started.1 s.asks_sorted;
        bids_live = apply_side-IsLive started.0.bids bids asked.1 s.bids_live;
        asks_live = apply_side-IsLive started.0.asks asks started.1 s.asks_live;
      }

  pub apply_checked-IsWellFormed :
      (book : OrderBook D) (action : BookAction) (asks bids : List (LevelUpdate D))
      (epoch : Option ℕ) (id : Option ℤ)
      → IsWellFormed book
      → IsWellFormed (apply_checked book action asks bids epoch id).0
  unfolding apply_checked
  apply_checked-IsWellFormed book action asks bids epoch id w =
      let levels = apply_levels book action asks bids in
      let identified = record (levels.0) { sequence_epoch = epoch; sequence_id = id } in
      let v = apply_levels-IsWellFormed book action asks bids w in
      let sides = finish_apply-sides identified levels.1 in
      record {
        bids_sorted = rw sides.0 v.bids_sorted;
        asks_sorted = rw sides.1 v.asks_sorted;
        bids_live = rw sides.0 v.bids_live;
        asks_live = rw sides.1 v.asks_live;
      }

  pub apply_checked-reliable :
      (book : OrderBook D) (action : BookAction) (asks bids : List (LevelUpdate D))
      (epoch : Option ℕ) (id : Option ℤ)
      → IsWellFormed book
      → TrustIsReliable (apply_checked book action asks bids epoch id).0
  unfolding apply_checked apply_levels
  apply_checked-reliable book action asks bids epoch id w h =
      let levels = apply_levels book action asks bids in
      let identified = record (levels.0) { sequence_epoch = epoch; sequence_id = id } in
      let (same, trusted, some_bids, some_asks, few_bids, few_asks, apart, _) =
        finish_apply-reliable identified levels.1 h in
      let v = apply_levels-IsWellFormed book action asks bids w in
      let identified-IsWellFormed : IsWellFormed identified = record {
        bids_sorted = v.bids_sorted;
        asks_sorted = v.asks_sorted;
        bids_live = v.bids_live;
        asks_live = v.asks_live;
      } in
      subst IsReliable (sym same) (record {
        snapshot_seen = (begin_levels-trusted book action asks bids trusted).0;
        bids_nonempty = some_bids;
        asks_nonempty = some_asks;
        bids_bounded = few_bids;
        asks_bounded = few_asks;
        apart = uncrossed_apart identified identified-IsWellFormed some_bids some_asks apart;
      })
