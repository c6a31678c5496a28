-- ===== src/ReplayBook/Runs.antt =====
-- okx-market-model/src/replay_book.rs: what holds of a book after any sequence of operations.
use okx_rust_trading.Common.{
  ℕ, ◌≡◌, refl, ◌∙◌, ◌≢◌, ◌⊎◌, inl, inr, true, false, Option, List, [], ◌∷◌, arith, ok, err,
}
use okx_rust_trading.Common.Int.{ℤ}
use okx_rust_trading.Order.{Ord}
use okx_rust_trading.Decimal.{Decimal}
use okx_rust_trading.Text.{eq_of_eq_str, eq_str_self}
use okx_rust_trading.PublicProtocol.Instrument.{OkxSpotInstrumentId}
use okx_rust_trading.ReplayBook.Types.{
  BookAction, LevelUpdate, SequencedBookEventView, HistoricalBookEventView, OrderBook,
  instrument_mismatch,
}
use okx_rust_trading.ReplayBook.{
  new, reset, mark_untrusted, ensure_instrument, begin_levels, apply_levels, finish_apply,
  apply_checked, apply, apply_historical,
}
use okx_rust_trading.ReplayBook.Trust.{
  IsWellFormed, IsReliable, TrustIsReliable, apply_checked-IsWellFormed, apply_checked-reliable,
}

-- The operations of a book, in the order in which a replay makes them.
pub data Operation (D : Type 0) : Type 0 where
  applies : SequencedBookEventView D → Operation D
  applies_historical : HistoricalBookEventView D → Operation D
  resets : Operation D
  marks_untrusted : Operation D

module _ {D : Type 0} ⦃o : Ord D⦄ ⦃d : Decimal D⦄ where
  unfoldable pub step : OrderBook D → Operation D → OrderBook D
  step book (applies event) = (apply book event).0
  step book (applies_historical event) = (apply_historical book event).0
  step book resets = reset book
  step book marks_untrusted = mark_untrusted book

  unfoldable pub run : OrderBook D → List (Operation D) → OrderBook D
  unfolding step
  run book [] = book
  run book (op ∷ ops) = run (step book op) ops

  pub record Inv (i : OkxSpotInstrumentId) (book : OrderBook D) : Type 0 where
    pub well_formed : IsWellFormed book
    pub reliable : TrustIsReliable book
    pub instrument : book.instrument_id ≡ i

  finish_apply-instrument :
      (book : OrderBook D) (out : _) → (finish_apply book out).0.instrument_id ≡ book.instrument_id
  unfolding finish_apply
  finish_apply-instrument book out = ground arith

  begin_levels-instrument :
      (book : OrderBook D) (action : BookAction) (asks bids : List (LevelUpdate D))
      → (begin_levels book action asks bids).0.instrument_id ≡ book.instrument_id
  unfolding begin_levels
  begin_levels-instrument book BookAction.snapshot asks bids = refl
  begin_levels-instrument book BookAction.update asks bids = ground arith

  pub apply_checked-instrument :
      (book : OrderBook D) (action : BookAction) (asks bids : List (LevelUpdate D))
      (epoch : Option ℕ) (id : Option ℤ)
      → (apply_checked book action asks bids epoch id).0.instrument_id ≡ book.instrument_id
  unfolding apply_checked apply_levels
  apply_checked-instrument book action asks bids epoch id =
      let levels = apply_levels book action asks bids in
      finish_apply-instrument (record (levels.0) { sequence_epoch = epoch; sequence_id = id })
        levels.1
      ∙ begin_levels-instrument book action asks bids

  apply_checked-Inv :
      (i : OkxSpotInstrumentId) (book : OrderBook D) (action : BookAction)
      (asks bids : List (LevelUpdate D)) (epoch : Option ℕ) (id : Option ℤ)
      → Inv i book
      → Inv i (apply_checked book action asks bids epoch id).0
  apply_checked-Inv i book action asks bids epoch id v = record {
    well_formed = apply_checked-IsWellFormed book action asks bids epoch id v.well_formed;
    reliable = apply_checked-reliable book action asks bids epoch id v.well_formed;
    instrument = apply_checked-instrument book action asks bids epoch id ∙ v.instrument;
  }

  pub ensure_instrument-cases :
      (book : OrderBook D) (received : OkxSpotInstrumentId)
      → ((ensure_instrument book received ≡ ok tt) × (received ≡ book.instrument_id))
        ⊎ ((ensure_instrument book received ≡ err (instrument_mismatch book.instrument_id received))
            × (received ≢ book.instrument_id))
  unfolding ensure_instrument
  ensure_instrument-cases book received =
      ground
        (arith, eq_of_eq_str received.as_str book.instrument_id.as_str, eq_str_self received.as_str)

  apply-Inv :
      (i : OkxSpotInstrumentId) (book : OrderBook D) (event : SequencedBookEventView D)
      → Inv i book
      → Inv i (apply book event).0
  unfolding apply
  apply-Inv i book event v = elim (ensure_instrument-cases book event.instrument_id) [
    | inl (e, same) ↦
        rw (e, apply) (apply_checked-Inv i book event.action event.asks event.bids _ _ v)
    | inr (e, other) ↦ rw (e, apply) v
  ]

  apply_historical-Inv :
      (i : OkxSpotInstrumentId) (book : OrderBook D) (event : HistoricalBookEventView D)
      → Inv i book
      → Inv i (apply_historical book event).0
  unfolding apply_historical
  apply_historical-Inv i book event v = elim (ensure_instrument-cases book event.instrument_id) [
    | inl (e, same) ↦
        rw (e, apply_historical) (apply_checked-Inv i book event.action event.asks event.bids _ _ v)
    | inr (e, other) ↦ rw (e, apply_historical) v
  ]

  untrusted-reliable : (book : OrderBook D) → book.trusted ≡ false → TrustIsReliable book
  untrusted-reliable book u t = cc

  pub step-Inv :
      (i : OkxSpotInstrumentId) (book : OrderBook D) (op : Operation D)
      → Inv i book
      → Inv i (step book op)
  unfolding step reset mark_untrusted
  step-Inv i book (applies event) v = apply-Inv i book event v
  step-Inv i book (applies_historical event) v = apply_historical-Inv i book event v
  step-Inv i book resets v = record {
    well_formed = record { bids_sorted = tt; asks_sorted = tt; bids_live = tt; asks_live = tt };
    reliable = untrusted-reliable _ refl;
    instrument = v.instrument;
  }
  step-Inv i book marks_untrusted v = record {
    well_formed = record {
      bids_sorted = v.well_formed.bids_sorted;
      asks_sorted = v.well_formed.asks_sorted;
      bids_live = v.well_formed.bids_live;
      asks_live = v.well_formed.asks_live;
    };
    reliable = untrusted-reliable _ refl;
    instrument = v.instrument;
  }

  run-Inv :
      (i : OkxSpotInstrumentId) (book : OrderBook D) (ops : List (Operation D))
      → Inv i book
      → Inv i (run book ops)
  unfolding run
  run-Inv i book [] v = v
  run-Inv i book (op ∷ ops) v = run-Inv i (step book op) ops (step-Inv i book op v)

  new-Inv : (i : OkxSpotInstrumentId) → Inv i (new i)
  unfolding new
  new-Inv i = record {
    well_formed = record { bids_sorted = tt; asks_sorted = tt; bids_live = tt; asks_live = tt };
    reliable = untrusted-reliable _ refl;
    instrument = refl;
  }

  pub run-new-Inv : (i : OkxSpotInstrumentId) (ops : List (Operation D)) → Inv i (run (new i) ops)
  run-new-Inv i ops = run-Inv i (new i) ops (new-Inv i)

  -- After any operations on a new book its sides ascend and hold live levels only: each price and
  -- each quantity is positive.
  pub run-new-IsWellFormed :
      (i : OkxSpotInstrumentId) (ops : List (Operation D)) → IsWellFormed (run (new i) ops)
  run-new-IsWellFormed i ops = (run-new-Inv i ops).well_formed

  -- If a book is trusted after any operations on a new book, then it has seen a snapshot, no side
  -- is empty or deeper than 400 levels, and every bid is below every ask.
  pub run-new-IsReliable :
      (i : OkxSpotInstrumentId) (ops : List (Operation D))
      → (run (new i) ops).trusted ≡ true
      → IsReliable (run (new i) ops)
  run-new-IsReliable i ops = (run-new-Inv i ops).reliable
