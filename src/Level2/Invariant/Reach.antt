-- ===== src/Level2/Invariant/Reach.antt =====
-- okx-market-model/src/level2.rs: what holds of each live book that calls can lead to.
use okx_rust_trading.Common.{ℕ, ◌≤◌, ◌≡◌, refl, true, false, arith, length, ok}
use okx_rust_trading.Common.Int.{ℤ}
use okx_rust_trading.Order.{Ord}
use okx_rust_trading.Decimal.{Decimal}
use okx_rust_trading.PublicProtocol.Instrument.{OkxSpotInstrumentId}
use okx_rust_trading.Level2.Types.{
  Side, Instant, OkxLevel2Book, OkxLevel2Update, feature_rolling_window,
}
use okx_rust_trading.Level2.GoodSides.{snapshot_sides-IsGood, increment_sides-IsGood}
use okx_rust_trading.Level2.Cases.{
  replaced, advanced, AtCase, beats, gaps, regresses, refuses, advances, Case, mismatched, refused,
  taken, early, incremented, apply_with_clock-Case,
}
use okx_rust_trading.Level2.{
  Answer, new, invalidate, finish_features, snapshot_sides, increment_sides, apply_with_clock,
}
use okx_rust_trading.Level2.Invariant.{
  IsLiveBook, IsCleared, Inv, invalidate-Inv, finish_features-Inv,
}

module _ {D : Type 0} ⦃o : Ord D⦄ ⦃d : Decimal D⦄ where
  -- The books that calls can lead to.
  pub data Reaches (i : OkxSpotInstrumentId) : OkxLevel2Book D → Type 0 where
    fresh : Reaches i (new i)
    applied :
        (book : OkxLevel2Book D) (u : OkxLevel2Update D) (clock : ℕ → Instant)
        → Reaches i book
        → Reaches i (apply_with_clock book u clock).0
    invalidated : (book : OkxLevel2Book D) → Reaches i book → Reaches i (invalidate book)

  taken-Inv :
      (i : OkxSpotInstrumentId) (book : OkxLevel2Book D) (u : OkxLevel2Update D)
      (clock : ℕ → Instant) (sides : Side D × Side D)
      → snapshot_sides u.payload ≡ ok sides
      → Inv i book
      → Inv i (finish_features (replaced book u sides) u clock).0
  taken-Inv i book u clock sides e v =
      finish_features-Inv i (replaced book u sides) u clock (record {
        good = snapshot_sides-IsGood u.payload sides e;
        valid = refl;
        sequenced = refl;
        window = omega arith;
        instrument = v.instrument;
      })

  advances-Inv :
      (i : OkxSpotInstrumentId) (book : OkxLevel2Book D) (u : OkxLevel2Update D)
      (clock : ℕ → Instant) (sides : Side D × Side D)
      → book.valid ≡ true
      → increment_sides book u.payload ≡ ok sides
      → Inv i book
      → Inv i (finish_features (advanced book u sides) u clock).0
  advances-Inv i book u clock sides valid e v =
      let live = v.live valid in
      finish_features-Inv i (advanced book u sides) u clock (record {
        good =
            increment_sides-IsGood book u.payload sides live.good.bids_sorted live.good.asks_sorted
              e;
        valid = valid;
        sequenced = refl;
        window = v.window;
        instrument = v.instrument;
      })

  AtCase-Inv :
      (i : OkxSpotInstrumentId) (book : OkxLevel2Book D) (n : ℤ) (u : OkxLevel2Update D)
      (clock : ℕ → Instant) (r : OkxLevel2Book D × Answer D)
      → book.valid ≡ true
      → AtCase book n u clock r
      → Inv i book
      → Inv i r.0
  AtCase-Inv i book n u clock r valid (beats beat e) v = rw e v
  AtCase-Inv i book n u clock r valid (gaps gap e) v = rw e (invalidate-Inv i book v.instrument)
  AtCase-Inv i book n u clock r valid (regresses old e) v =
      rw e (invalidate-Inv i book v.instrument)
  AtCase-Inv i book n u clock r valid (refuses error f e) v =
      rw e (invalidate-Inv i book v.instrument)
  AtCase-Inv i book n u clock r valid (advances sides follows grows f e) v =
      rw e (advances-Inv i book u clock sides valid f v)

  Case-Inv :
      (i : OkxSpotInstrumentId) (book : OkxLevel2Book D) (u : OkxLevel2Update D)
      (clock : ℕ → Instant) (r : OkxLevel2Book D × Answer D)
      → Case book u clock r
      → Inv i book
      → Inv i r.0
  Case-Inv i book u clock r (mismatched other e) v = rw e v
  Case-Inv i book u clock r (refused error same a f e) v = rw e (invalidate-Inv i book v.instrument)
  Case-Inv i book u clock r (taken sides same a f e) v = rw e (taken-Inv i book u clock sides f v)
  Case-Inv i book u clock r (early a none_yet e) v = rw e v
  Case-Inv i book u clock r (incremented n same a valid s c) v =
      AtCase-Inv i book n u clock r valid c v

  new-Inv : (i : OkxSpotInstrumentId) → Inv i (new {D = D} i)
  unfolding new
  new-Inv i = record {
    live = λ v. cc;
    cleared = λ _. record {
      no_bids = refl;
      no_asks = refl;
      no_sequence = refl;
      no_features = refl;
      no_points = refl;
    };
    window = omega arith;
    instrument = refl;
  }

  pub Reaches-Inv : (i : OkxSpotInstrumentId) (book : OkxLevel2Book D) → Reaches i book → Inv i book
  Reaches-Inv i book fresh = new-Inv i
  Reaches-Inv i book (applied before u clock h) =
      Case-Inv i before u clock _ (apply_with_clock-Case before u clock) (Reaches-Inv i before h)
  Reaches-Inv i book (invalidated before h) =
      invalidate-Inv i before (Reaches-Inv i before h).instrument

  -- A valid book that was made for an instrument, and then updated or invalidated in any order,
  -- has sorted sides of at most 400 levels each, every bid below every ask, and publishes features
  -- of the instrument, the epoch, the generation, the sequence id and the level counts that it has
  -- now.
  pub Reaches-live :
      (i : OkxSpotInstrumentId) (book : OkxLevel2Book D)
      → Reaches i book
      → book.valid ≡ true
      → IsLiveBook book
  Reaches-live i book h valid = (Reaches-Inv i book h).live valid

  -- An invalid book that was made for an instrument, and then updated or invalidated in any order,
  -- has no level, no sequence id, no features and no point of its window.
  pub Reaches-IsCleared :
      (i : OkxSpotInstrumentId) (book : OkxLevel2Book D)
      → Reaches i book
      → book.valid ≡ false
      → IsCleared book
  Reaches-IsCleared i book h invalid = (Reaches-Inv i book h).cleared invalid

  -- The window of a book that was made for an instrument, and then updated or invalidated in any
  -- order, has at most 32 points.
  pub Reaches-bounded :
      (i : OkxSpotInstrumentId) (book : OkxLevel2Book D)
      → Reaches i book
      → length book.points ≤ feature_rolling_window
  Reaches-bounded i book h = (Reaches-Inv i book h).window
