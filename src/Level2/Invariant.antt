-- ===== src/Level2/Invariant.antt =====
-- okx-market-model/src/level2.rs: what holds of the live book after any calls.
pub mod Reach
use okx_rust_trading.Common.{
  ℕ, suc, ◌≤◌, ◌≡◌, refl, sym, ◌∙◌, Bool, true, false, Option, none, some, List, [], ◌∷◌, arith,
  length, All, Result, ok, err, Bool-cases, Option-cases, Result-cases, inl, inr, if◌then◌else◌,
  saturating_add, subst,
}
use okx_rust_trading.Common.Int.{ℤ}
use okx_rust_trading.Order.{Ord, ◌≺◌, le?}
use okx_rust_trading.BTreeMap.{first_key_value, last_key_value}
use okx_rust_trading.BTreeMap.Order.{IsSorted, apart_of_ends}
use okx_rust_trading.Decimal.{Decimal}
use okx_rust_trading.PublicProtocol.Instrument.{OkxSpotInstrumentId, eq_instrument}
use okx_rust_trading.PublicProtocol.Books.{OkxLevel2Action}
use okx_rust_trading.Level2.Types.{
  BookLevel, Side, Instant, OkxLevel2Book, OkxLevel2FeatureSnapshot, OkxLevel2Update,
  feature_rolling_window, okx_level2_max_depth, features, zero_denominator,
}
use okx_rust_trading.Level2.Features.Rolling.{push_point_bounded, rolling_features}
use okx_rust_trading.Level2.GoodSides.{
  HasEnds, IsGood, snapshot_sides-IsGood, increment_sides-IsGood,
}
use okx_rust_trading.Level2.Cases.{
  replaced, advanced, AtCase, beats, gaps, regresses, refuses, advances, Case, mismatched, refused,
  taken, early, incremented, apply_with_clock-Case,
}
use okx_rust_trading.Level2.Publish.{feature_snapshot, calculate_features}
use okx_rust_trading.Level2.{
  Answer, new, invalidate, finish_features, snapshot_sides, increment_sides, apply_snapshot,
  advance, apply_at, apply_increment, apply_with_clock,
}

module _ {D : Type 0} ⦃o : Ord D⦄ ⦃d : Decimal D⦄ where
  -- The published features describe the book as it stands.
  pub record Describes (book : OkxLevel2Book D) (f : OkxLevel2FeatureSnapshot D) : Type 0 where
    pub same_instrument : f.instrument_id ≡ book.instrument_id
    pub same_epoch : f.epoch ≡ book.epoch
    pub same_generation : f.generation ≡ book.generation
    pub same_sequence : book.sequence_id ≡ some f.sequence_id
    pub bid_levels : f.bid_level_count ≡ length book.bids
    pub ask_levels : f.ask_level_count ≡ length book.asks
    pub uncrossed : f.best_bid ≺ f.best_ask

  -- What a valid book promises.
  pub record IsLiveBook (book : OkxLevel2Book D) : Type 0 where
    pub good : IsGood (book.bids, book.asks)
    pub apart : All (λ b. All (λ a. b.0 ≺ a.0) book.asks) book.bids
    pub snapshot : OkxLevel2FeatureSnapshot D
    pub published : book.features ≡ some snapshot
    pub describes : Describes book snapshot

  -- An invalid book keeps nothing of what it was.
  pub record IsCleared (book : OkxLevel2Book D) : Type 0 where
    pub no_bids : book.bids ≡ []
    pub no_asks : book.asks ≡ []
    pub no_sequence : book.sequence_id ≡ none
    pub no_features : book.features ≡ none
    pub no_points : book.points ≡ []

  pub record Inv (i : OkxSpotInstrumentId) (book : OkxLevel2Book D) : Type 0 where
    pub live : book.valid ≡ true → IsLiveBook book
    pub cleared : book.valid ≡ false → IsCleared book
    pub window : length book.points ≤ feature_rolling_window
    pub instrument : book.instrument_id ≡ i

  pub good_apart :
      (bids asks : Side D) → IsGood (bids, asks) → All (λ b. All (λ a. b.0 ≺ a.0) asks) bids
  good_apart bids asks g =
      apart_of_ends bids asks g.bid g.ask g.bids_sorted g.asks_sorted g.ends.last g.ends.first
        g.ends.uncrossed

  pub invalidate-Inv :
      (i : OkxSpotInstrumentId) (book : OkxLevel2Book D)
      → book.instrument_id ≡ i
      → Inv i (invalidate book)
  unfolding invalidate
  invalidate-Inv i book e = record {
    live = λ v. cc;
    cleared = λ _. record {
      no_bids = refl;
      no_asks = refl;
      no_sequence = refl;
      no_features = refl;
      no_points = refl;
    };
    window = omega arith;
    instrument = e;
  }

  -- The state in which `finish_features` is called.
  pub record IsReady (i : OkxSpotInstrumentId) (u : OkxLevel2Update D) (book : OkxLevel2Book D)
      : Type 0 where
    pub good : IsGood (book.bids, book.asks)
    pub valid : book.valid ≡ true
    pub sequenced : book.sequence_id ≡ some u.payload.sequence_id
    pub window : length book.points ≤ feature_rolling_window
    pub instrument : book.instrument_id ≡ i

  -- With both ends there, the features are published if the top has a quantity.
  pub finish_features_thick :
      (book : OkxLevel2Book D) (u : OkxLevel2Update D) (clock : ℕ → Instant)
      (bid ask : D × BookLevel D)
      → HasEnds book.bids book.asks bid ask
      → le? (d.add bid.1.quantity ask.1.quantity) d.zero ≡ false
      → let next = feature_snapshot book u (clock 0) (clock 1) bid ask in
        finish_features book u clock
        ≡ (record (next.0) { features = some (next.1) }, ok (features next.1))
  unfolding finish_features calculate_features
  finish_features_thick book u clock bid ask e t = ground arith

  pub finish_features_flat :
      (book : OkxLevel2Book D) (u : OkxLevel2Update D) (clock : ℕ → Instant)
      (bid ask : D × BookLevel D)
      → HasEnds book.bids book.asks bid ask
      → le? (d.add bid.1.quantity ask.1.quantity) d.zero ≡ true
      → finish_features book u clock ≡ (invalidate book, err zero_denominator)
  unfolding finish_features calculate_features
  finish_features_flat book u clock bid ask e t = ground arith

  published-Inv :
      (i : OkxSpotInstrumentId) (book : OkxLevel2Book D) (u : OkxLevel2Update D)
      (at ready : Instant)
      → (r : IsReady i u book)
      → let next = feature_snapshot book u at ready r.good.bid r.good.ask in
        Inv i (record (next.0) { features = some (next.1) })
  unfolding feature_snapshot rolling_features
  published-Inv i book u at ready r = record {
    live = λ _. record {
      good = r.good;
      apart = good_apart book.bids book.asks r.good;
      snapshot = _;
      published = refl;
      describes = record {
        same_instrument = refl;
        same_epoch = refl;
        same_generation = refl;
        same_sequence = r.sequenced;
        bid_levels = refl;
        ask_levels = refl;
        uncrossed = r.good.ends.uncrossed;
      };
    };
    cleared = λ invalid. cc (r.valid);
    window = push_point_bounded book.points _ r.window;
    instrument = r.instrument;
  }

  pub finish_features-Inv :
      (i : OkxSpotInstrumentId) (book : OkxLevel2Book D) (u : OkxLevel2Update D)
      (clock : ℕ → Instant)
      → IsReady i u book
      → Inv i (finish_features book u clock).0
  finish_features-Inv i book u clock r =
      elim (Bool-cases (le? (d.add r.good.bid.1.quantity r.good.ask.1.quantity) d.zero)) [
        | inl flat ↦
            rw (finish_features_flat book u clock r.good.bid r.good.ask r.good.ends flat)
              (invalidate-Inv i book r.instrument)
        | inr thick ↦
            rw (finish_features_thick book u clock r.good.bid r.good.ask r.good.ends thick)
              (published-Inv i book u (clock 0) (clock 1) r)
      ]
