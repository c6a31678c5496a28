-- ===== src/Level2/Outcomes.antt =====
-- okx-market-model/src/level2.rs: what an answer of the live book says of the book behind it.
use okx_rust_trading.Common.{
  ℕ, ◌≡◌, refl, sym, subst, true, false, some, ◌⊎◌, inl, inr, ok, err, Bool-cases,
}
use okx_rust_trading.Common.Int.{ℤ}
use okx_rust_trading.Order.{Ord, le?}
use okx_rust_trading.Decimal.{Decimal}
use okx_rust_trading.PublicProtocol.Instrument.{OkxSpotInstrumentId}
use okx_rust_trading.Level2.Types.{
  Instant, OkxLevel2Book, OkxLevel2BookError, OkxLevel2FeatureSnapshot, OkxLevel2Update, features,
  instrument_mismatch, update_before_snapshot, zero_denominator,
}
use okx_rust_trading.Level2.Publish.{feature_snapshot}
use okx_rust_trading.Level2.{Answer, invalidate, finish_features, apply_with_clock}
use okx_rust_trading.Level2.GoodSides.{IsGood, snapshot_sides-IsGood, increment_sides-IsGood}
use okx_rust_trading.Level2.Cases.{
  replaced, advanced, AtCase, beats, gaps, regresses, refuses, advances, Case, mismatched, refused,
  taken, early, incremented, apply_with_clock-Case,
}
use okx_rust_trading.Level2.Invariant.Reach.{Reaches, Reaches-Inv}
use okx_rust_trading.Level2.Invariant.{IsCleared, Inv, finish_features_thick, finish_features_flat}

module _ {D : Type 0} ⦃o : Ord D⦄ ⦃d : Decimal D⦄ where
  -- The two errors that an update meets before the book is changed.
  pub data IsPrecondition (book : OkxLevel2Book D) (u : OkxLevel2Update D)
      : OkxLevel2BookError D → Type 0 where
    other_instrument :
        IsPrecondition book u (instrument_mismatch book.instrument_id u.instrument_id)
    no_snapshot : IsPrecondition book u update_before_snapshot

  -- A book that is shut: invalid, and emptied.
  pub record IsShut (book : OkxLevel2Book D) : Type 0 where
    pub invalid : book.valid ≡ false
    pub cleared : IsCleared book

  pub invalidate-IsShut : (book : OkxLevel2Book D) → IsShut (invalidate book)
  unfolding invalidate
  invalidate-IsShut book = record {
    invalid = refl;
    cleared = record {
      no_bids = refl;
      no_asks = refl;
      no_sequence = refl;
      no_features = refl;
      no_points = refl;
    };
  }

  -- How the features of a book with good sides end.
  pub data FinishCase (book : OkxLevel2Book D) (r : OkxLevel2Book D × Answer D) : Type 0 where
    flat : r ≡ (invalidate book, err zero_denominator) → FinishCase book r
    published :
        (f : OkxLevel2FeatureSnapshot D)
        → r.1 ≡ ok (features f)
        → r.0.valid ≡ book.valid
        → r.0.epoch ≡ book.epoch
        → r.0.generation ≡ book.generation
        → r.0.sequence_id ≡ book.sequence_id
        → (r.0.bids ≡ book.bids) × (r.0.asks ≡ book.asks)
        → r.0.features ≡ some f
        → FinishCase book r

  pub finish_features-FinishCase :
      (book : OkxLevel2Book D) (u : OkxLevel2Update D) (clock : ℕ → Instant)
      → IsGood (book.bids, book.asks)
      → FinishCase book (finish_features book u clock)
  unfolding feature_snapshot
  finish_features-FinishCase book u clock g =
      elim (Bool-cases (le? (d.add g.bid.1.quantity g.ask.1.quantity) d.zero)) [
        | inl none_there ↦ flat (finish_features_flat book u clock g.bid g.ask g.ends none_there)
        | inr thick ↦
            rw (finish_features_thick book u clock g.bid g.ask g.ends thick)
              (published _ refl refl refl refl refl (refl, refl) refl)
      ]

  abbrev FailsClosed :
      OkxLevel2Book D → OkxLevel2Update D → OkxLevel2Book D → OkxLevel2BookError D → Type 0
  FailsClosed book u after e = (IsPrecondition book u e × (after ≡ book)) ⊎ IsShut after

  shuts :
      (book book' : OkxLevel2Book D) (u : OkxLevel2Update D) (r : OkxLevel2Book D × Answer D)
      (e f : OkxLevel2BookError D)
      → r ≡ (invalidate book', err f)
      → FailsClosed book u r.0 e
  shuts book book' u r e f h = inr (rw h (invalidate-IsShut book'))

  finish-FailsClosed :
      (book book' : OkxLevel2Book D) (u : OkxLevel2Update D) (r : OkxLevel2Book D × Answer D)
      (e : OkxLevel2BookError D)
      → FinishCase book' r
      → r.1 ≡ err e
      → FailsClosed book u r.0 e
  finish-FailsClosed book book' u r e (flat h) f = shuts book book' u r e zero_denominator h
  finish-FailsClosed book book' u r e (published s h _ _ _ _ _ _) f = absurd cc

  AtCase-FailsClosed :
      (i : OkxSpotInstrumentId) (book : OkxLevel2Book D) (n : ℤ) (u : OkxLevel2Update D)
      (clock : ℕ → Instant) (r : OkxLevel2Book D × Answer D) (e : OkxLevel2BookError D)
      → Inv i book
      → book.valid ≡ true
      → AtCase book n u clock r
      → r.1 ≡ err e
      → FailsClosed book u r.0 e
  AtCase-FailsClosed i book n u clock r e v valid (beats _ h) f = absurd cc
  AtCase-FailsClosed i book n u clock r e v valid (gaps _ h) f = shuts book book u r e _ h
  AtCase-FailsClosed i book n u clock r e v valid (regresses _ h) f = shuts book book u r e _ h
  AtCase-FailsClosed i book n u clock r e v valid (refuses _ _ h) f = shuts book book u r e _ h
  AtCase-FailsClosed i book n u clock r e v valid (advances sides _ _ built h) f =
      let live = v.live valid in
      let good =
        increment_sides-IsGood book u.payload sides live.good.bids_sorted live.good.asks_sorted
          built in
      finish-FailsClosed book (advanced book u sides) u r e
        (subst (FinishCase (advanced book u sides)) (sym h)
          (finish_features-FinishCase _ u clock good))
        f

  Case-FailsClosed :
      (i : OkxSpotInstrumentId) (book : OkxLevel2Book D) (u : OkxLevel2Update D)
      (clock : ℕ → Instant) (r : OkxLevel2Book D × Answer D) (e : OkxLevel2BookError D)
      → Inv i book
      → Case book u clock r
      → r.1 ≡ err e
      → FailsClosed book u r.0 e
  Case-FailsClosed i book u clock r e v (mismatched _ h) f =
      let same : instrument_mismatch book.instrument_id u.instrument_id ≡ e = cc in
      inl (subst (IsPrecondition book u) same other_instrument, cc)
  Case-FailsClosed i book u clock r e v (early _ _ h) f =
      let same : update_before_snapshot ≡ e = cc in
      inl (subst (IsPrecondition book u) same no_snapshot, cc)
  Case-FailsClosed i book u clock r e v (refused _ _ _ _ h) f = shuts book book u r e _ h
  Case-FailsClosed i book u clock r e v (taken sides _ _ built h) f =
      finish-FailsClosed book (replaced book u sides) u r e
        (subst (FinishCase (replaced book u sides)) (sym h)
          (finish_features-FinishCase _ u clock (snapshot_sides-IsGood u.payload sides built)))
        f
  Case-FailsClosed i book u clock r e v (incremented n _ _ valid _ c) f =
      AtCase-FailsClosed i book n u clock r e v valid c f

  -- When an update of a reachable book fails, either the error is the mismatch of the two
  -- instruments or the missing snapshot and the book is unchanged, or the book is invalid and
  -- emptied: it has no level, no sequence id, no features and no point of its window.
  pub apply_fails_closed :
      (i : OkxSpotInstrumentId) (book : OkxLevel2Book D) (u : OkxLevel2Update D)
      (clock : ℕ → Instant) (e : OkxLevel2BookError D)
      → Reaches i book
      → (apply_with_clock book u clock).1 ≡ err e
      → (IsPrecondition book u e × ((apply_with_clock book u clock).0 ≡ book))
        ⊎ IsShut (apply_with_clock book u clock).0
  apply_fails_closed i book u clock e h f =
      Case-FailsClosed i book u clock _ e (Reaches-Inv i book h)
        (apply_with_clock-Case book u clock) f
