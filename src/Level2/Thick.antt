-- ===== src/Level2/Thick.antt =====
-- okx-market-model/src/level2.rs: a book of updates that the protocol accepts has a quantity on top.
pub mod Answers
use okx_rust_trading.Common.{
  ℕ, ◌≡◌, ◌≢◌, refl, sym, subst, Bool, true, false, Option, none, some, List, [], arith, All, ◌⊎◌,
  inl, inr, Result, ok, err, Bool-cases,
}
use okx_rust_trading.Common.Int.{ℤ}
use okx_rust_trading.Order.{Ord, ◌≺◌, le?}
use okx_rust_trading.Decimal.{Decimal, IsLawful}
use okx_rust_trading.Decimal.Sums.{add_pos}
use okx_rust_trading.BTreeMap.Order.{first_key_value-All, last_key_value-All}
use okx_rust_trading.PublicProtocol.Instrument.{OkxSpotInstrumentId}
use okx_rust_trading.PublicProtocol.Books.{OkxLevel2Action}
use okx_rust_trading.Level2.Types.{
  Instant, OkxLevel2Book, OkxLevel2BookError, OkxLevel2FeatureSnapshot, OkxLevel2Update, Side,
  features, zero_denominator,
}
use okx_rust_trading.Level2.Publish.{feature_snapshot}
use okx_rust_trading.Level2.{
  Answer, new, invalidate, finish_features, snapshot_sides, increment_sides, apply_with_clock,
}
use okx_rust_trading.Level2.Sides.Laws.{IsLive}
use okx_rust_trading.Level2.GoodSides.{
  IsGood, HasLevels, AllLive, snapshot_sides-IsGood, snapshot_sides-AllLive, increment_sides-IsGood,
  increment_sides-AllLive,
}
use okx_rust_trading.Level2.Cases.{
  replaced, advanced, AtCase, beats, gaps, regresses, refuses, advances, Case, mismatched, refused,
  taken, early, incremented, apply_with_clock-Case,
}
use okx_rust_trading.Level2.Invariant.Reach.{Reaches, fresh, applied, invalidated, Reaches-Inv}
use okx_rust_trading.Level2.Invariant.{Inv, finish_features_thick}

module _ {D : Type 0} ⦃o : Ord D⦄ ⦃d : Decimal D⦄ where
  -- The books that updates with accepted levels, and invalidations, can lead to.
  pub data Feeds (i : OkxSpotInstrumentId) : OkxLevel2Book D → Type 0 where
    feeds_fresh : Feeds i (new i)
    feeds_applied :
        (book : OkxLevel2Book D) (u : OkxLevel2Update D) (clock : ℕ → Instant)
        → HasLevels u.payload
        → Feeds i book
        → Feeds i (apply_with_clock book u clock).0
    feeds_invalidated : (book : OkxLevel2Book D) → Feeds i book → Feeds i (invalidate book)

  pub Feeds-Reaches :
      (i : OkxSpotInstrumentId) (book : OkxLevel2Book D) → Feeds i book → Reaches i book
  Feeds-Reaches i book feeds_fresh = fresh
  Feeds-Reaches i book (feeds_applied before u clock l h) =
      applied before u clock (Feeds-Reaches i before h)
  Feeds-Reaches i book (feeds_invalidated before h) = invalidated before (Feeds-Reaches i before h)

  abbrev pub LiveSides : OkxLevel2Book D → Type 0
  LiveSides book = AllLive (book.bids, book.asks)

  pub invalidate-LiveSides : (book : OkxLevel2Book D) → LiveSides (invalidate book)
  unfolding invalidate
  invalidate-LiveSides book = (tt, tt)

-- What is shown of a call: the sides stay live, and the top is never without a quantity.
module _ {D : Type 0} ⦃o : Ord D⦄ ⦃d : Decimal D⦄ (laws : IsLawful D) where
  abbrev pub IsThick : OkxLevel2Book D × Answer D → Type 0
  IsThick r = LiveSides r.0 × (r.1 ≢ err zero_denominator)

  top_positive :
      (book : OkxLevel2Book D)
      → (g : IsGood (book.bids, book.asks)) → LiveSides book
      → le? (d.add g.bid.1.quantity g.ask.1.quantity) d.zero ≡ false
  top_positive book g live =
      let bid = (last_key_value-All IsLive book.bids g.bid g.ends.last live.0).1 in
      let ask = (first_key_value-All IsLive book.asks g.ask g.ends.first live.1).1 in
      let ask_nonneg : le? d.zero g.ask.1.quantity ≡ true = ground (arith, ask) in
      ground (
        arith,
        add_pos laws g.bid.1.quantity g.ask.1.quantity bid ask_nonneg,
        o.cmp_flip (d.add g.bid.1.quantity g.ask.1.quantity) d.zero,
      )

  pub finish_features-IsThick :
      (book : OkxLevel2Book D) (u : OkxLevel2Update D) (clock : ℕ → Instant)
      → IsGood (book.bids, book.asks)
      → LiveSides book
      → IsThick (finish_features book u clock)
  unfolding feature_snapshot
  finish_features-IsThick book u clock g live =
      rw (finish_features_thick book u clock g.bid g.ask g.ends (top_positive book g live))
        (live, λ h. cc)

  pub shut-IsThick :
      (book : OkxLevel2Book D) (e : OkxLevel2BookError D) (r : OkxLevel2Book D × Answer D)
      → e ≢ zero_denominator
      → r ≡ (invalidate book, err e)
      → IsThick r
  shut-IsThick book e r n h = rw h (invalidate-LiveSides book, λ k. n cc)
