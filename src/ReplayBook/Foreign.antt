-- ===== src/ReplayBook/Foreign.antt =====
-- okx-market-model/src/replay_book.rs: the events of other instruments.
use okx_rust_trading.Common.{
  ◌≡◌, ◌≢◌, ◌↔◌, refl, ap, ◌∙◌, inl, inr, Bool, true, false, List, [], ◌∷◌, Result, ok, err,
  if◌then◌else◌, Bool-cases,
}
use okx_rust_trading.Order.{Ord}
use okx_rust_trading.Decimal.{Decimal}
use okx_rust_trading.Text.{eq_str, eq_str_self}
use okx_rust_trading.PublicProtocol.Instrument.{OkxSpotInstrumentId}
use okx_rust_trading.ReplayBook.Types.{
  SequencedBookEventView, HistoricalBookEventView, OrderBook, ApplyOutcome, OkxReplayBookError,
  instrument_mismatch,
}
use okx_rust_trading.ReplayBook.{reset, mark_untrusted, apply, apply_historical}
use okx_rust_trading.ReplayBook.Runs.{
  Operation, applies, applies_historical, resets, marks_untrusted, step, run,
  ensure_instrument-cases, apply_checked-instrument,
}
use okx_rust_trading.ReplayBook.Outcomes.{apply_checked-ok}

own_event :
    (i received : OkxSpotInstrumentId)
    → received ≡ i
    → (if eq_str received.as_str i.as_str then false else true) ≢ true
own_event i received same h =
    let equal : eq_str received.as_str i.as_str ≡ true = rw same (eq_str_self i.as_str) in
    let no = rw equal at h in cc

module _ {D : Type 0} ⦃o : Ord D⦄ ⦃d : Decimal D⦄ where
  -- An answer that refuses an event of another instrument, and no other.
  abbrev pub IsDecidedBy :
      OkxSpotInstrumentId
      → OrderBook D
      → OrderBook D × Result ApplyOutcome OkxReplayBookError
      → Type 0
  IsDecidedBy received book answer =
      ((answer ≡ (book, err (instrument_mismatch book.instrument_id received)))
        ↔ (received ≢ book.instrument_id))
      × (((out : ApplyOutcome) × (answer.1 ≡ ok out)) ↔ (received ≡ book.instrument_id))

  refused-IsDecidedBy :
      (received : OkxSpotInstrumentId) (book : OrderBook D)
      → received ≢ book.instrument_id
      → IsDecidedBy received book (book, err (instrument_mismatch book.instrument_id received))
  refused-IsDecidedBy received book other =
      ((λ _. other, λ _. refl), (λ (out, h). absurd (cc), λ same. absurd (other same)))

  accepted-IsDecidedBy :
      (received : OkxSpotInstrumentId) (book : OrderBook D)
      (answer : OrderBook D × Result ApplyOutcome OkxReplayBookError)
      → received ≡ book.instrument_id
      → (out : ApplyOutcome) × (answer.1 ≡ ok out)
      → IsDecidedBy received book answer
  accepted-IsDecidedBy received book answer same (out, h) = (
    (λ e. absurd (let no = ap (λ a. a.1) e in cc), λ other. absurd (other same)),
    (λ _. same, λ _. (out, h)),
  )

  apply-IsDecidedBy :
      (book : OrderBook D) (event : SequencedBookEventView D)
      → IsDecidedBy event.instrument_id book (apply book event)
  unfolding apply
  apply-IsDecidedBy book event = elim (ensure_instrument-cases book event.instrument_id) [
    | inl (e, same) ↦
        accepted-IsDecidedBy event.instrument_id book (apply book event) same
          (rw (e, apply) (apply_checked-ok book event.action event.asks event.bids _ _))
    | inr (e, other) ↦ rw (e, apply) (refused-IsDecidedBy event.instrument_id book other)
  ]

  apply_historical-IsDecidedBy :
      (book : OrderBook D) (event : HistoricalBookEventView D)
      → IsDecidedBy event.instrument_id book (apply_historical book event)
  unfolding apply_historical
  apply_historical-IsDecidedBy book event =
      elim (ensure_instrument-cases book event.instrument_id) [
        | inl (e, same) ↦
            accepted-IsDecidedBy event.instrument_id book (apply_historical book event) same (
              rw (e, apply_historical)
                (apply_checked-ok book event.action event.asks event.bids _ _))
        | inr (e, other) ↦
            rw (e, apply_historical) (refused-IsDecidedBy event.instrument_id book other)
      ]

  -- `apply` and `apply_historical` each refuse an event exactly if it is of another instrument,
  -- with an error that names both instruments and the book left as it was, and have an outcome
  -- exactly if it is of the instrument of the book.
  pub refuses_foreign_events :
      (book : OrderBook D) (event : SequencedBookEventView D) (archived : HistoricalBookEventView D)
      → IsDecidedBy event.instrument_id book (apply book event)
        × IsDecidedBy archived.instrument_id book (apply_historical book archived)
  refuses_foreign_events book event archived =
      (apply-IsDecidedBy book event, apply_historical-IsDecidedBy book archived)

  -- Whether an operation is an event of another instrument.
  unfoldable pub is_foreign : OkxSpotInstrumentId → Operation D → Bool
  is_foreign i (applies event) = if eq_str event.instrument_id.as_str i.as_str then false else true
  is_foreign i (applies_historical event) =
      if eq_str event.instrument_id.as_str i.as_str then false else true
  is_foreign i resets = false
  is_foreign i marks_untrusted = false

  -- The operations without the events of other instruments.
  unfoldable pub own_operations : OkxSpotInstrumentId → List (Operation D) → List (Operation D)
  own_operations i [] = []
  own_operations i (op ∷ ops) =
      if is_foreign i op then own_operations i ops else op ∷ own_operations i ops

  step-instrument :
      (book : OrderBook D) (op : Operation D) → (step book op).instrument_id ≡ book.instrument_id
  unfolding step reset mark_untrusted apply apply_historical
  step-instrument book (applies event) = elim (ensure_instrument-cases book event.instrument_id) [
    | inl (e, same) ↦
        rw (e, step, apply) (apply_checked-instrument book event.action event.asks event.bids _ _)
    | inr (e, other) ↦ rw (e, step, apply) refl
  ]
  step-instrument book (applies_historical event) =
      elim (ensure_instrument-cases book event.instrument_id) [
        | inl (e, same) ↦
            rw (e, step, apply_historical)
              (apply_checked-instrument book event.action event.asks event.bids _ _)
        | inr (e, other) ↦ rw (e, step, apply_historical) refl
      ]
  step-instrument book resets = refl
  step-instrument book marks_untrusted = refl

  step-foreign :
      (i : OkxSpotInstrumentId) (book : OrderBook D) (op : Operation D)
      → book.instrument_id ≡ i
      → is_foreign i op ≡ true
      → step book op ≡ book
  unfolding step is_foreign apply apply_historical
  step-foreign i book (applies event) k h =
      elim (ensure_instrument-cases book event.instrument_id) [
        | inl (e, same) ↦ absurd (own_event i event.instrument_id (same ∙ k) h)
        | inr (e, other) ↦ rw (e, step, apply) refl
      ]
  step-foreign i book (applies_historical event) k h =
      elim (ensure_instrument-cases book event.instrument_id) [
        | inl (e, same) ↦ absurd (own_event i event.instrument_id (same ∙ k) h)
        | inr (e, other) ↦ rw (e, step, apply_historical) refl
      ]
  step-foreign i book resets k h = cc
  step-foreign i book marks_untrusted k h = cc

  run-own :
      (i : OkxSpotInstrumentId) (book : OrderBook D) (ops : List (Operation D))
      → book.instrument_id ≡ i
      → run book ops ≡ run book (own_operations i ops)
  unfolding run own_operations
  run-own i book [] k = refl
  run-own i book (op ∷ ops) k = elim (Bool-cases (is_foreign i op)) [
    | inl foreign ↦ rw (foreign, step-foreign i book op k foreign) (run-own i book ops k)
    | inr own ↦ rw own (run-own i (step book op) ops (step-instrument book op ∙ k))
  ]

  -- Any operations leave a book as they do without the events of other instruments among them.
  pub run-own_operations :
      (book : OrderBook D) (ops : List (Operation D))
      → run book ops ≡ run book (own_operations book.instrument_id ops)
  run-own_operations book ops = run-own book.instrument_id book ops refl
