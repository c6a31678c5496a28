-- ===== src/Level2/Thick/Answers.antt =====
-- okx-market-model/src/level2.rs: an update with accepted levels is never short of a quantity on top.
use okx_rust_trading.Common.{
  ℕ, ◌≡◌, ◌≢◌, true, Option, List, [], ◌∷◌, arith, Result, ok, err, ◌>>=◌, ◌>>◌,
}
use okx_rust_trading.Common.Int.{ℤ}
use okx_rust_trading.Order.{Ord}
use okx_rust_trading.Decimal.{Decimal, IsLawful}
use okx_rust_trading.BTreeMap.{BTreeMap, insert, remove}
use okx_rust_trading.PublicProtocol.Instrument.{OkxSpotInstrumentId}
use okx_rust_trading.PublicProtocol.Books.{
  OkxLevel2Data, OkxLevel2Level, RawLevel2Data, ValidatedBooksMessage, parse_books_message,
}
use okx_rust_trading.PublicProtocol.Books.Messages.{parse_books_message-IsMessage}
use okx_rust_trading.Text.{Str}
use okx_rust_trading.Level2.Types.{
  BookSide, Instant, OkxLevel2Book, OkxLevel2BookError, OkxLevel2Update, Side, from_validated,
  zero_denominator,
}
use okx_rust_trading.Level2.{Answer, new, snapshot_sides, increment_sides, apply_with_clock}
use okx_rust_trading.Level2.Sides.{
  level_of, apply_from, apply_side, build_from, build_snapshot_side, trim_to_depth, validate_book,
}
use okx_rust_trading.Level2.GoodSides.{
  HasLevels, snapshot_sides-IsGood, snapshot_sides-AllLive, increment_sides-IsGood,
  increment_sides-AllLive,
}
use okx_rust_trading.Level2.Cases.{
  replaced, advanced, AtCase, beats, gaps, regresses, refuses, advances, Case, mismatched, refused,
  taken, early, incremented, apply_with_clock-Case,
}
use okx_rust_trading.Level2.Invariant.Reach.{Reaches-Inv}
use okx_rust_trading.Level2.Invariant.{Inv}
use okx_rust_trading.Level2.Thick.{
  Feeds, feeds_fresh, feeds_applied, feeds_invalidated, Feeds-Reaches, LiveSides,
  invalidate-LiveSides, IsThick, finish_features-IsThick, shut-IsThick,
}

-- The verdicts on the sides of an update are other errors.
module _ {D : Type 0} ⦃o : Ord D⦄ ⦃d : Decimal D⦄ where
  abbrev IsOther : {A : Type 0} → Result A (OkxLevel2BookError D) → Type 0
  IsOther r = r ≢ err zero_denominator

  build_from-IsOther : (side : Side D) (us : List (OkxLevel2Level D)) → IsOther (build_from side us)
  unfolding build_from
  build_from-IsOther side [] h = cc
  build_from-IsOther side (u ∷ us) h =
      ground (
        arith,
        build_from-IsOther side us,
        build_from-IsOther (insert u.price (level_of u) side) us,
      )

  apply_from-IsOther :
      (seen : BTreeMap D (Unit {0})) (us : List (OkxLevel2Level D)) (side : Side D)
      → IsOther (apply_from seen us side).1
  unfolding apply_from
  apply_from-IsOther seen [] side h = cc
  apply_from-IsOther seen (u ∷ us) side h = ground (
    arith,
    apply_from-IsOther (insert u.price tt seen) us (remove u.price side),
    apply_from-IsOther (insert u.price tt seen) us (insert u.price (level_of u) side),
  )

  validate_book-IsOther : (bids asks : Side D) → IsOther (validate_book bids asks)
  unfolding validate_book
  validate_book-IsOther bids asks h = ground arith

  checked-IsOther :
      (bids asks : Result (Side D) (OkxLevel2BookError D))
      → IsOther bids
      → IsOther asks
      → IsOther {A = Side D × Side D}
          (bids >>= (λ b. asks >>= (λ a. validate_book b a >> ok (b, a))))
  checked-IsOther (err e) asks n m h = n cc
  checked-IsOther (ok b) (err e) n m h = m cc
  checked-IsOther (ok b) (ok a) n m h = ground (arith, validate_book-IsOther b a)

  snapshot_sides-IsOther : (payload : OkxLevel2Data D) → IsOther (snapshot_sides payload)
  unfolding snapshot_sides build_snapshot_side
  snapshot_sides-IsOther payload h = ground (
    arith,
    checked-IsOther (build_from [] payload.bids) (build_from [] payload.asks)
        (build_from-IsOther [] payload.bids) (build_from-IsOther [] payload.asks),
  )

  increment_sides-IsOther :
      (book : OkxLevel2Book D) (payload : OkxLevel2Data D) → IsOther (increment_sides book payload)
  unfolding increment_sides apply_side
  increment_sides-IsOther book payload h = ground (
    arith,
    apply_from-IsOther [] payload.bids book.bids,
    apply_from-IsOther [] payload.asks book.asks,
    validate_book-IsOther (trim_to_depth (apply_from [] payload.bids book.bids).0 BookSide.bid)
        (trim_to_depth (apply_from [] payload.asks book.asks).0 BookSide.ask),
  )

-- What each way to end an update keeps.
module _ {D : Type 0} ⦃o : Ord D⦄ ⦃d : Decimal D⦄ (laws : IsLawful D) where
  AtCase-IsThick :
      (i : OkxSpotInstrumentId) (book : OkxLevel2Book D) (n : ℤ) (u : OkxLevel2Update D)
      (clock : ℕ → Instant) (r : OkxLevel2Book D × Answer D)
      → Inv i book
      → LiveSides book
      → HasLevels u.payload
      → book.valid ≡ true
      → AtCase book n u clock r
      → IsThick laws r
  AtCase-IsThick i book n u clock r v live ls valid (beats _ h) = rw h (live, λ k. cc)
  AtCase-IsThick i book n u clock r v live ls valid (gaps _ h) =
      shut-IsThick laws book _ r (λ k. cc) h
  AtCase-IsThick i book n u clock r v live ls valid (regresses _ h) =
      shut-IsThick laws book _ r (λ k. cc) h
  AtCase-IsThick i book n u clock r v live ls valid (refuses e f h) =
      shut-IsThick laws book e r (λ k. increment_sides-IsOther book u.payload cc) h
  AtCase-IsThick i book n u clock r v live ls valid (advances sides _ _ built h) =
      let was = (v.live valid).good in
      rw h (
        finish_features-IsThick laws (advanced book u sides) u clock
          (increment_sides-IsGood book u.payload sides was.bids_sorted was.asks_sorted built)
          (increment_sides-AllLive book u.payload sides was.bids_sorted was.asks_sorted ls live
            built))

  Case-IsThick :
      (i : OkxSpotInstrumentId) (book : OkxLevel2Book D) (u : OkxLevel2Update D)
      (clock : ℕ → Instant) (r : OkxLevel2Book D × Answer D)
      → Inv i book
      → LiveSides book
      → HasLevels u.payload
      → Case book u clock r
      → IsThick laws r
  Case-IsThick i book u clock r v live ls (mismatched _ h) = rw h (live, λ k. cc)
  Case-IsThick i book u clock r v live ls (early _ _ h) = rw h (live, λ k. cc)
  Case-IsThick i book u clock r v live ls (refused e _ _ f h) =
      shut-IsThick laws book e r (λ k. snapshot_sides-IsOther u.payload cc) h
  Case-IsThick i book u clock r v live ls (taken sides _ _ built h) = rw h (
      finish_features-IsThick laws (replaced book u sides) u clock
        (snapshot_sides-IsGood u.payload sides built)
        (snapshot_sides-AllLive u.payload sides ls built))
  Case-IsThick i book u clock r v live ls (incremented n _ _ valid _ c) =
      AtCase-IsThick i book n u clock r v live ls valid c

  apply-IsThick :
      (i : OkxSpotInstrumentId) (book : OkxLevel2Book D) (u : OkxLevel2Update D)
      (clock : ℕ → Instant)
      → Feeds i book
      → LiveSides book
      → HasLevels u.payload
      → IsThick laws (apply_with_clock book u clock)
  apply-IsThick i book u clock h live ls =
      Case-IsThick i book u clock _ (Reaches-Inv i book (Feeds-Reaches i book h)) live ls
        (apply_with_clock-Case book u clock)

  pub Feeds-LiveSides :
      (i : OkxSpotInstrumentId) (book : OkxLevel2Book D) → Feeds i book → LiveSides book
  unfolding new
  Feeds-LiveSides i book feeds_fresh = (tt, tt)
  Feeds-LiveSides i book (feeds_applied before u clock ls h) =
      (apply-IsThick i before u clock h (Feeds-LiveSides i before h) ls).0
  Feeds-LiveSides i book (feeds_invalidated before h) = invalidate-LiveSides before

  -- A book that was made for an instrument, and then invalidated or updated with levels that the
  -- protocol accepts, in any order, never answers such an update with the error of a top without a
  -- quantity.
  pub apply_never_flat :
      (i : OkxSpotInstrumentId) (book : OkxLevel2Book D) (u : OkxLevel2Update D)
      (clock : ℕ → Instant)
      → Feeds i book
      → HasLevels u.payload
      → (apply_with_clock book u clock).1 ≢ err zero_denominator
  apply_never_flat i book u clock h ls =
      (apply-IsThick i book u clock h (Feeds-LiveSides i book h) ls).1

  -- With lawful decimals, a message that `parse_books_message` accepts, made into an update and
  -- applied to a book that was made for an instrument and then invalidated or updated with levels
  -- that the protocol accepts, in any order, is never answered with the error of a top without a
  -- quantity.
  pub parsed_never_flat :
      (json : Str → Option (List RawLevel2Data)) (expected : OkxSpotInstrumentId)
      (channel received action data_json : Str) (m : ValidatedBooksMessage D)
      (received_at parsed_at : Instant) (i : OkxSpotInstrumentId) (book : OkxLevel2Book D)
      (clock : ℕ → Instant)
      → parse_books_message json expected channel received action data_json ≡ ok m
      → Feeds i book
      → (apply_with_clock book (from_validated m received_at parsed_at) clock).1
        ≢ err zero_denominator
  unfolding from_validated
  parsed_never_flat json expected channel received action data_json m received_at parsed_at i book
        clock h fed =
      let (_, _, _, accepted, _, _, _) =
        parse_books_message-IsMessage json expected channel received action data_json m h in
      apply_never_flat i book (from_validated m received_at parsed_at) clock fed
        (accepted.row.bids_levels, accepted.row.asks_levels)
