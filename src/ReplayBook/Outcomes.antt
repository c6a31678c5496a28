-- ===== src/ReplayBook/Outcomes.antt =====
-- okx-market-model/src/replay_book.rs: how the outcome of an event decides the trust.
use okx_rust_trading.Common.{
  ℕ, ◌≡◌, refl, sym, ◌∙◌, ◌↔◌, ◌⊎◌, inl, inr, Bool, true, Option, some, List, [], ◌∷◌, arith,
  is_some, ok, ok-injective, subst,
}
use okx_rust_trading.Common.Int.{ℤ}
use okx_rust_trading.Order.{Ord}
use okx_rust_trading.BTreeMap.{BTreeMap, get, insert}
use okx_rust_trading.Decimal.{Decimal}
use okx_rust_trading.ReplayBook.Types.{
  BookAction, snapshot, update, LevelUpdate, BookLevel, SequencedBookEventView, OrderBook,
  ApplyOutcome,
}
use okx_rust_trading.ReplayBook.{
  begin_levels, apply_level, apply_side_from, apply_side, apply_levels, finish_apply, apply_checked,
  apply,
}
use okx_rust_trading.ReplayBook.Runs.{ensure_instrument-cases}

-- Nothing was wrong with the event but removals of levels that are not there.
pub record IsClean (out : ApplyOutcome) : Type 0 where
  pub no_invalid : out.invalid_levels ≡ 0
  pub no_duplicate : out.duplicate_levels ≡ 0
  pub monotonic : out.non_monotonic_snapshot_sides ≡ 0
  pub not_early : out.update_before_snapshot ≡ 0
  pub not_deep : out.depth_overflow ≡ 0
  pub no_empty_side : out.empty_sides ≡ 0
  pub not_crossed : out.crossed ≡ 0

-- The counters that the levels leave alone.
record SameRest (out out' : ApplyOutcome) : Type 0 where
  same_monotonic : out'.non_monotonic_snapshot_sides ≡ out.non_monotonic_snapshot_sides
  same_early : out'.update_before_snapshot ≡ out.update_before_snapshot
  same_deep : out'.depth_overflow ≡ out.depth_overflow
  same_empty : out'.empty_sides ≡ out.empty_sides
  same_crossed : out'.crossed ≡ out.crossed

module _ {D : Type 0} ⦃o : Ord D⦄ ⦃d : Decimal D⦄ where
  apply_level-SameRest :
      (b : Bool) (u : LevelUpdate D) (side : BTreeMap D (BookLevel D)) (out : ApplyOutcome)
      → SameRest out (apply_level b u side out).1
  unfolding apply_level
  apply_level-SameRest b u side out = ground arith

  apply_side_from-SameRest :
      (seen : BTreeMap D (Unit {0})) (us : List (LevelUpdate D)) (side : BTreeMap D (BookLevel D))
      (out : ApplyOutcome)
      → SameRest out (apply_side_from seen us side out).1
  unfolding apply_side_from
  apply_side_from-SameRest seen [] side out = ground arith
  apply_side_from-SameRest seen (u ∷ us) side out =
      let next = apply_level (is_some (get u.price seen)) u side out in
      ground (
        arith,
        apply_level-SameRest (is_some (get u.price seen)) u side out,
        apply_side_from-SameRest (insert u.price tt seen) us next.0 next.1,
      )

  begin_levels-pending :
      (book : OrderBook D) (action : BookAction) (asks bids : List (LevelUpdate D))
      → let out = (begin_levels book action asks bids).1 in
        (out.empty_sides ≡ 0) × (out.crossed ≡ 0) × (out.depth_overflow ≡ 0)
  unfolding begin_levels
  begin_levels-pending book snapshot asks bids = (refl, refl, refl)
  begin_levels-pending book update asks bids = ground arith

  apply_levels-SameRest :
      (book : OrderBook D) (action : BookAction) (asks bids : List (LevelUpdate D))
      → SameRest (begin_levels book action asks bids).1 (apply_levels book action asks bids).1
  unfolding apply_levels apply_side
  apply_levels-SameRest book action asks bids =
      let started = begin_levels book action asks bids in
      let asked = apply_side_from [] asks started.0.asks started.1 in
      ground (
        arith,
        apply_side_from-SameRest [] asks started.0.asks started.1,
        apply_side_from-SameRest [] bids started.0.bids asked.1,
      )

  -- After the levels no side is counted as empty, crossed or too deep yet.
  apply_levels-pending :
      (book : OrderBook D) (action : BookAction) (asks bids : List (LevelUpdate D))
      → let out = (apply_levels book action asks bids).1 in
        (out.empty_sides ≡ 0) × (out.crossed ≡ 0) × (out.depth_overflow ≡ 0)
  apply_levels-pending book action asks bids = ground (
    arith,
    begin_levels-pending book action asks bids,
    apply_levels-SameRest book action asks bids,
  )

  finish_apply_iff :
      (book : OrderBook D) (out : ApplyOutcome)
      → out.empty_sides ≡ 0
      → out.crossed ≡ 0
      → out.depth_overflow ≡ 0
      → ((finish_apply book out).0.trusted ≡ true)
        ↔ ((book.trusted ≡ true) × IsClean (finish_apply book out).1)
  unfolding finish_apply
  finish_apply_iff book out e c z = (λ h. ground arith, λ h. ground arith)

  finish_apply-early :
      (book : OrderBook D) (out : ApplyOutcome)
      → (finish_apply book out).1.update_before_snapshot ≡ out.update_before_snapshot
  unfolding finish_apply
  finish_apply-early book out = ground arith

  begin_levels_trusted_iff :
      (book : OrderBook D) (action : BookAction) (asks bids : List (LevelUpdate D))
      → (begin_levels book action asks bids).1.update_before_snapshot ≡ 0
      → ((begin_levels book action asks bids).0.trusted ≡ true)
        ↔ ((action ≡ snapshot) ⊎ (book.trusted ≡ true))
  unfolding begin_levels
  begin_levels_trusted_iff book snapshot asks bids h = (λ t. inl refl, λ t. refl)
  begin_levels_trusted_iff book update asks bids h = (λ t. ground arith, λ t. ground arith)

  apply_levels_trusted_iff :
      (book : OrderBook D) (action : BookAction) (asks bids : List (LevelUpdate D))
      → (apply_levels book action asks bids).1.update_before_snapshot ≡ 0
      → ((apply_levels book action asks bids).0.trusted ≡ true)
        ↔ ((action ≡ snapshot) ⊎ (book.trusted ≡ true))
  unfolding apply_levels
  apply_levels_trusted_iff book action asks bids h =
      begin_levels_trusted_iff book action asks bids
        (sym (apply_levels-SameRest book action asks bids).same_early ∙ h)

  apply_checked_trusted_iff :
      (book : OrderBook D) (action : BookAction) (asks bids : List (LevelUpdate D))
      (epoch : Option ℕ) (id : Option ℤ) (out : ApplyOutcome)
      → (apply_checked book action asks bids epoch id).1 ≡ ok out
      → ((apply_checked book action asks bids epoch id).0.trusted ≡ true)
        ↔ (((action ≡ snapshot) ⊎ (book.trusted ≡ true)) × IsClean out)
  unfolding apply_checked
  apply_checked_trusted_iff book action asks bids epoch id out h =
      let levels = apply_levels book action asks bids in
      let identified = record (levels.0) { sequence_epoch = epoch; sequence_id = id } in
      let (e, c, z) = apply_levels-pending book action asks bids in
      let iff = finish_apply_iff identified levels.1 e c z in
      let early = finish_apply-early identified levels.1 in
      let same : (finish_apply identified levels.1).1 ≡ out = ok-injective _ _ h in
      (
        λ t.
            let clean = subst IsClean same (iff.0 t).1 in
            (
              (apply_levels_trusted_iff book action asks bids (sym early ∙ (iff.0 t).1.not_early)).0
                  (iff.0 t).0,
              clean,
            ),
        λ (origin, clean).
            let clean' = subst IsClean (sym same) clean in
            iff.1 (
              (apply_levels_trusted_iff book action asks bids (sym early ∙ clean'.not_early)).1
                  origin,
              clean',
            ),
      )

  pub apply_checked-ok :
      (book : OrderBook D) (action : BookAction) (asks bids : List (LevelUpdate D))
      (epoch : Option ℕ) (id : Option ℤ)
      → (out : ApplyOutcome) × ((apply_checked book action asks bids epoch id).1 ≡ ok out)
  unfolding apply_checked
  apply_checked-ok book action asks bids epoch id = (_, refl)

  -- An event of the book's instrument has an outcome, and after it the book is trusted exactly if
  -- the event was a snapshot or the book was trusted before, and the outcome is clean: no invalid
  -- or duplicate level, no unordered snapshot, no update before a snapshot, no side empty or too
  -- deep, no crossing.
  pub apply_trusted_iff :
      (book : OrderBook D) (event : SequencedBookEventView D)
      → event.instrument_id ≡ book.instrument_id
      → (out : ApplyOutcome) × ((apply book event).1 ≡ ok out)
        × (((apply book event).0.trusted ≡ true)
            ↔ (((event.action ≡ snapshot) ⊎ (book.trusted ≡ true)) × IsClean out))
  unfolding apply
  apply_trusted_iff book event same = elim (ensure_instrument-cases book event.instrument_id) [
    | inr (e, other) ↦ absurd (other same)
    | inl (e, _) ↦
        let (out, got) =
          apply_checked-ok book event.action event.asks event.bids (some event.sequence_epoch)
            (some event.sequence_id) in
        (
          out,
          rw (e, apply) got,
          rw (e, apply)
              (apply_checked_trusted_iff book event.action event.asks event.bids _ _ out got),
        )
  ]
