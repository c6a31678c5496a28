-- ===== src/Level2/Acceptance.antt =====
-- okx-market-model/src/level2.rs: the updates that the live book accepts, and what they change.
use okx_rust_trading.Common.{ℕ, ◌≡◌, sym, ◌∙◌, subst, true, some, saturating_add, ok}
use okx_rust_trading.Common.Int.{ℤ, ltb_ℤ}
use okx_rust_trading.Order.{Ord}
use okx_rust_trading.Decimal.{Decimal}
use okx_rust_trading.PublicProtocol.Instrument.{OkxSpotInstrumentId}
use okx_rust_trading.PublicProtocol.Books.{OkxLevel2Action}
use okx_rust_trading.Level2.Types.{
  BookSide, Instant, OkxLevel2Book, OkxLevel2FeatureSnapshot, OkxLevel2Update, Side, features,
}
use okx_rust_trading.Level2.{Answer, snapshot_sides, increment_sides, apply_with_clock}
use okx_rust_trading.Level2.Sides.{apply_side, build_snapshot_side, trim_to_depth}
use okx_rust_trading.Level2.GoodSides.{
  snapshot_sides-IsGood, increment_sides-IsGood, snapshot_stages, increment_stages,
}
use okx_rust_trading.Level2.Cases.{
  replaced, advanced, AtCase, beats, gaps, regresses, refuses, advances, Case, mismatched, refused,
  taken, early, incremented, apply_with_clock-Case,
}
use okx_rust_trading.Level2.Invariant.Reach.{Reaches, Reaches-Inv}
use okx_rust_trading.Level2.Invariant.{Inv}
use okx_rust_trading.Level2.Outcomes.{FinishCase, flat, published, finish_features-FinishCase}

module _ {D : Type 0} ⦃o : Ord D⦄ ⦃d : Decimal D⦄ where
  -- What an accepted increment says of the books before and behind it.
  pub record Continues (before : OkxLevel2Book D) (u : OkxLevel2Update D) (after : OkxLevel2Book D)
      : Type 0 where
    pub current : ℤ
    pub was_valid : before.valid ≡ true
    pub was_at : before.sequence_id ≡ some current
    pub follows : u.payload.previous_sequence_id ≡ current
    pub grows : ltb_ℤ current u.payload.sequence_id ≡ true
    pub is_at : after.sequence_id ≡ some u.payload.sequence_id
    pub same_epoch : after.epoch ≡ before.epoch
    pub next_generation : after.generation ≡ saturating_add before.generation 1
    pub bids_taken : (apply_side before.bids u.payload.bids).1 ≡ ok tt
    pub asks_taken : (apply_side before.asks u.payload.asks).1 ≡ ok tt
    pub bids : after.bids ≡ trim_to_depth (apply_side before.bids u.payload.bids).0 BookSide.bid
    pub asks : after.asks ≡ trim_to_depth (apply_side before.asks u.payload.asks).0 BookSide.ask

  -- What an accepted snapshot says of the books before and behind it.
  pub record Restarts (before : OkxLevel2Book D) (u : OkxLevel2Update D) (after : OkxLevel2Book D)
      : Type 0 where
    pub now_valid : after.valid ≡ true
    pub is_at : after.sequence_id ≡ some u.payload.sequence_id
    pub next_epoch : after.epoch ≡ saturating_add before.epoch 1
    pub next_generation : after.generation ≡ saturating_add before.generation 1
    pub bids : build_snapshot_side u.payload.bids ≡ ok after.bids
    pub asks : build_snapshot_side u.payload.asks ≡ ok after.asks

  finish-Continues :
      (book : OkxLevel2Book D) (n : ℤ) (u : OkxLevel2Update D) (r : OkxLevel2Book D × Answer D)
      (sides : Side D × Side D) (f : OkxLevel2FeatureSnapshot D)
      → book.valid ≡ true
      → book.sequence_id ≡ some n
      → u.payload.previous_sequence_id ≡ n
      → ltb_ℤ n u.payload.sequence_id ≡ true
      → increment_sides book u.payload ≡ ok sides
      → FinishCase (advanced book u sides) r
      → r.1 ≡ ok (features f)
      → Continues book u r.0
  finish-Continues book n u r sides f valid s follows grows built (flat h) g = absurd cc
  finish-Continues book n u r sides f valid s follows grows built (published _ _ _ e gen seq same _)
        g =
      let (bids_taken, asks_taken, bids, asks, _) = increment_stages book u.payload sides built in
      record {
        current = n;
        was_valid = valid;
        was_at = s;
        follows = follows;
        grows = grows;
        is_at = seq;
        same_epoch = e;
        next_generation = gen;
        bids_taken = bids_taken;
        asks_taken = asks_taken;
        bids = same.0 ∙ bids;
        asks = same.1 ∙ asks;
      }

  AtCase-Continues :
      (i : OkxSpotInstrumentId) (book : OkxLevel2Book D) (n : ℤ) (u : OkxLevel2Update D)
      (clock : ℕ → Instant) (r : OkxLevel2Book D × Answer D) (f : OkxLevel2FeatureSnapshot D)
      → Inv i book
      → book.valid ≡ true
      → book.sequence_id ≡ some n
      → AtCase book n u clock r
      → r.1 ≡ ok (features f)
      → Continues book u r.0
  AtCase-Continues i book n u clock r f v valid s (beats _ h) g = absurd cc
  AtCase-Continues i book n u clock r f v valid s (gaps _ h) g = absurd cc
  AtCase-Continues i book n u clock r f v valid s (regresses _ h) g = absurd cc
  AtCase-Continues i book n u clock r f v valid s (refuses _ _ h) g = absurd cc
  AtCase-Continues i book n u clock r f v valid s (advances sides follows grows built h) g =
      let live = v.live valid in
      let good =
        increment_sides-IsGood book u.payload sides live.good.bids_sorted live.good.asks_sorted
          built in
      finish-Continues book n u r sides f valid s follows grows built
        (subst (FinishCase (advanced book u sides)) (sym h)
          (finish_features-FinishCase _ u clock good))
        g

  finish-Restarts :
      (book : OkxLevel2Book D) (u : OkxLevel2Update D) (r : OkxLevel2Book D × Answer D)
      (sides : Side D × Side D) (f : OkxLevel2FeatureSnapshot D)
      → snapshot_sides u.payload ≡ ok sides
      → FinishCase (replaced book u sides) r
      → r.1 ≡ ok (features f)
      → Restarts book u r.0
  finish-Restarts book u r sides f built (flat h) g = absurd cc
  finish-Restarts book u r sides f built (published _ _ valid e gen seq same _) g =
      let (_, _, bids, asks, _) = snapshot_stages u.payload sides built in
      record {
        now_valid = valid;
        is_at = seq;
        next_epoch = e;
        next_generation = gen;
        bids = rw (same.0) bids;
        asks = rw (same.1) asks;
      }

  Case-Continues :
      (i : OkxSpotInstrumentId) (book : OkxLevel2Book D) (u : OkxLevel2Update D)
      (clock : ℕ → Instant) (r : OkxLevel2Book D × Answer D) (f : OkxLevel2FeatureSnapshot D)
      → Inv i book
      → u.action ≡ OkxLevel2Action.update
      → Case book u clock r
      → r.1 ≡ ok (features f)
      → Continues book u r.0
  Case-Continues i book u clock r f v a (mismatched _ h) g = absurd cc
  Case-Continues i book u clock r f v a (refused _ _ b _ h) g = absurd cc
  Case-Continues i book u clock r f v a (taken _ _ b _ h) g = absurd cc
  Case-Continues i book u clock r f v a (early _ _ h) g = absurd cc
  Case-Continues i book u clock r f v a (incremented n _ _ valid s c) g =
      AtCase-Continues i book n u clock r f v valid s c g

  Case-Restarts :
      (book : OkxLevel2Book D) (u : OkxLevel2Update D) (clock : ℕ → Instant)
      (r : OkxLevel2Book D × Answer D) (f : OkxLevel2FeatureSnapshot D)
      → u.action ≡ OkxLevel2Action.snapshot
      → Case book u clock r
      → r.1 ≡ ok (features f)
      → Restarts book u r.0
  Case-Restarts book u clock r f a (mismatched _ h) g = absurd cc
  Case-Restarts book u clock r f a (refused _ _ b _ h) g = absurd cc
  Case-Restarts book u clock r f a (early b _ h) g = absurd cc
  Case-Restarts book u clock r f a (incremented _ _ b _ _ _) g = absurd cc
  Case-Restarts book u clock r f a (taken sides _ _ built h) g =
      finish-Restarts book u r sides f built
        (subst (FinishCase (replaced book u sides)) (sym h)
          (finish_features-FinishCase _ u clock (snapshot_sides-IsGood u.payload sides built)))
        g

  -- When an increment of a reachable book is answered with features, the book was valid at a
  -- sequence id that the update names as its previous one and that is below its own; the book
  -- keeps its epoch, takes the update's sequence id and the next generation, each side took its
  -- changes without an error, and each side is now the changed side cut to the depth.
  pub increment-Continues :
      (i : OkxSpotInstrumentId) (book : OkxLevel2Book D) (u : OkxLevel2Update D)
      (clock : ℕ → Instant) (f : OkxLevel2FeatureSnapshot D)
      → Reaches i book
      → u.action ≡ OkxLevel2Action.update
      → (apply_with_clock book u clock).1 ≡ ok (features f)
      → Continues book u (apply_with_clock book u clock).0
  increment-Continues i book u clock f h a g =
      Case-Continues i book u clock _ f (Reaches-Inv i book h) a
        (apply_with_clock-Case book u clock) g

  -- When a snapshot is answered with features, whatever the book was before, the book is valid,
  -- holds on each side the levels that the snapshot builds, takes its sequence id and the next
  -- epoch and generation.
  pub snapshot-Restarts :
      (book : OkxLevel2Book D) (u : OkxLevel2Update D) (clock : ℕ → Instant)
      (f : OkxLevel2FeatureSnapshot D)
      → u.action ≡ OkxLevel2Action.snapshot
      → (apply_with_clock book u clock).1 ≡ ok (features f)
      → Restarts book u (apply_with_clock book u clock).0
  snapshot-Restarts book u clock f a g =
      Case-Restarts book u clock _ f a (apply_with_clock-Case book u clock) g
