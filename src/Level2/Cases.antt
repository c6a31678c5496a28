-- ===== src/Level2/Cases.antt =====
-- okx-market-model/src/level2.rs: the ways in which an update can end, with the condition and the
-- result of each.
use okx_rust_trading.Common.{
  ℕ, ◌≡◌, ◌≢◌, refl, sym, ◌∙◌, subst, true, false, none, some, [], arith, is_empty, ◌⊎◌, inl, inr,
  saturating_add, ok, err, Bool-cases, Option-cases, Result-cases,
}
use okx_rust_trading.Common.Int.{ℤ, ltb_ℤ, leb_ℤ, eq_of_parts}
use okx_rust_trading.Order.{Ord}
use okx_rust_trading.Decimal.{Decimal}
use okx_rust_trading.Text.{eq_of_eq_str, eq_str_self}
use okx_rust_trading.PublicProtocol.Books.{OkxLevel2Action}
use okx_rust_trading.Level2.Types.{
  Instant, OkxLevel2Book, OkxLevel2BookError, OkxLevel2Update, Side, heartbeat, instrument_mismatch,
  regressing_sequence, sequence_gap, update_before_snapshot,
}
use okx_rust_trading.Level2.{
  Answer, invalidate, finish_features, snapshot_sides, increment_sides, apply_snapshot, advance,
  apply_at, apply_increment, dispatch, apply_with_clock,
}

module _ {D : Type 0} where
  -- The book that a snapshot, or an increment, hands to `finish_features`.
  abbrev pub replaced : OkxLevel2Book D → OkxLevel2Update D → Side D × Side D → OkxLevel2Book D
  replaced book u sides = record book {
    bids = sides.0;
    asks = sides.1;
    valid = true;
    epoch = saturating_add book.epoch 1;
    generation = saturating_add book.generation 1;
    sequence_id = some u.payload.sequence_id;
    points = [];
  }

  abbrev pub advanced : OkxLevel2Book D → OkxLevel2Update D → Side D × Side D → OkxLevel2Book D
  advanced book u sides = record book {
    bids = sides.0;
    asks = sides.1;
    generation = saturating_add book.generation 1;
    sequence_id = some u.payload.sequence_id;
  }

  -- The update carries no level and repeats the sequence id of the book.
  pub record IsHeartbeat (n : ℤ) (u : OkxLevel2Update D) : Type 0 where
    pub no_asks : is_empty u.payload.asks ≡ true
    pub no_bids : is_empty u.payload.bids ≡ true
    pub same : u.payload.sequence_id ≡ n
    pub follows : u.payload.previous_sequence_id ≡ n

module _ {D : Type 0} ⦃o : Ord D⦄ ⦃d : Decimal D⦄ where
  -- An increment of a book at the sequence id `n`.
  pub data AtCase (book : OkxLevel2Book D) (n : ℤ) (u : OkxLevel2Update D) (clock : ℕ → Instant)
      (r : OkxLevel2Book D × Answer D) : Type 0 where
    beats : IsHeartbeat n u → r ≡ (book, ok heartbeat) → AtCase book n u clock r
    gaps :
        u.payload.previous_sequence_id ≢ n
        → r ≡ (
          invalidate book,
          err (sequence_gap n u.payload.previous_sequence_id u.payload.sequence_id),
        )
        → AtCase book n u clock r
    regresses :
        leb_ℤ u.payload.sequence_id n ≡ true
        → r ≡ (invalidate book, err (regressing_sequence n u.payload.sequence_id))
        → AtCase book n u clock r
    refuses :
        (e : OkxLevel2BookError D)
        → increment_sides book u.payload ≡ err e
        → r ≡ (invalidate book, err e)
        → AtCase book n u clock r
    advances :
        (sides : Side D × Side D)
        → u.payload.previous_sequence_id ≡ n
        → ltb_ℤ n u.payload.sequence_id ≡ true
        → increment_sides book u.payload ≡ ok sides
        → r ≡ finish_features (advanced book u sides) u clock
        → AtCase book n u clock r

  apply_at_branches :
      (book : OkxLevel2Book D) (n : ℤ) (u : OkxLevel2Update D) (clock : ℕ → Instant)
      → (IsHeartbeat n u × (apply_at book n u clock ≡ (book, ok heartbeat)))
        ⊎ ((u.payload.previous_sequence_id ≢ n)
            × (apply_at book n u clock ≡ (
              invalidate book,
              err (sequence_gap n u.payload.previous_sequence_id u.payload.sequence_id),
            )))
        ⊎ ((leb_ℤ u.payload.sequence_id n ≡ true)
            × (apply_at book n u clock
                ≡ (invalidate book, err (regressing_sequence n u.payload.sequence_id))))
        ⊎ ((u.payload.previous_sequence_id ≡ n)
            × (ltb_ℤ n u.payload.sequence_id ≡ true)
            × (apply_at book n u clock ≡ advance book u clock))
  unfolding apply_at
  apply_at_branches book n u clock =
      ground
        (arith, eq_of_parts u.payload.sequence_id n, eq_of_parts u.payload.previous_sequence_id n)

  pub apply_at-AtCase :
      (book : OkxLevel2Book D) (n : ℤ) (u : OkxLevel2Update D) (clock : ℕ → Instant)
      → AtCase book n u clock (apply_at book n u clock)
  unfolding advance
  apply_at-AtCase book n u clock = elim (apply_at_branches book n u clock) [
    | inl (beat, e) ↦ beats beat e
    | inr (inl (gap, e)) ↦ gaps gap e
    | inr (inr (inl (old, e))) ↦ regresses old e
    | inr (inr (inr (follows, grows, e))) ↦ elim (Result-cases (increment_sides book u.payload)) [
      | inr (error, f) ↦ refuses error f (e ∙ rw (f, advance))
      | inl (sides, f) ↦ advances sides follows grows f (e ∙ rw (f, advance))
    ]
  ]

  -- Every way in which a call of `apply_with_clock` can end.
  pub data Case (book : OkxLevel2Book D) (u : OkxLevel2Update D) (clock : ℕ → Instant)
      (r : OkxLevel2Book D × Answer D) : Type 0 where
    mismatched :
        u.instrument_id ≢ book.instrument_id
        → r ≡ (book, err (instrument_mismatch book.instrument_id u.instrument_id))
        → Case book u clock r
    refused :
        (e : OkxLevel2BookError D)
        → u.instrument_id ≡ book.instrument_id
        → u.action ≡ OkxLevel2Action.snapshot
        → snapshot_sides u.payload ≡ err e
        → r ≡ (invalidate book, err e)
        → Case book u clock r
    taken :
        (sides : Side D × Side D)
        → u.instrument_id ≡ book.instrument_id
        → u.action ≡ OkxLevel2Action.snapshot
        → snapshot_sides u.payload ≡ ok sides
        → r ≡ finish_features (replaced book u sides) u clock
        → Case book u clock r
    early :
        u.action ≡ OkxLevel2Action.update
        → (book.valid ≡ false) ⊎ (book.sequence_id ≡ none)
        → r ≡ (book, err update_before_snapshot)
        → Case book u clock r
    incremented :
        (n : ℤ)
        → u.instrument_id ≡ book.instrument_id
        → u.action ≡ OkxLevel2Action.update
        → book.valid ≡ true
        → book.sequence_id ≡ some n
        → AtCase book n u clock r
        → Case book u clock r

  snapshot-Case :
      (book : OkxLevel2Book D) (u : OkxLevel2Update D) (clock : ℕ → Instant)
      (r : OkxLevel2Book D × Answer D)
      → u.instrument_id ≡ book.instrument_id
      → u.action ≡ OkxLevel2Action.snapshot
      → r ≡ apply_snapshot book u clock
      → Case book u clock r
  unfolding apply_snapshot
  snapshot-Case book u clock r same a e = elim (Result-cases (snapshot_sides u.payload)) [
    | inr (error, f) ↦ refused error same a f (e ∙ rw (f, apply_snapshot))
    | inl (sides, f) ↦ taken sides same a f (e ∙ rw (f, apply_snapshot))
  ]

  apply_increment-none :
      (book : OkxLevel2Book D) (u : OkxLevel2Update D) (clock : ℕ → Instant)
      → (book.valid ≡ false) ⊎ (book.sequence_id ≡ none)
      → apply_increment book u clock ≡ (book, err update_before_snapshot)
  unfolding apply_increment
  apply_increment-none book u clock h = ground arith

  apply_increment-some :
      (book : OkxLevel2Book D) (u : OkxLevel2Update D) (clock : ℕ → Instant) (n : ℤ)
      → book.valid ≡ true
      → book.sequence_id ≡ some n
      → apply_increment book u clock ≡ apply_at book n u clock
  unfolding apply_increment
  apply_increment-some book u clock n v s = ground arith

  increment-Case :
      (book : OkxLevel2Book D) (u : OkxLevel2Update D) (clock : ℕ → Instant)
      (r : OkxLevel2Book D × Answer D)
      → u.instrument_id ≡ book.instrument_id
      → u.action ≡ OkxLevel2Action.update
      → r ≡ apply_increment book u clock
      → Case book u clock r
  increment-Case book u clock r same a e = elim (Bool-cases book.valid) [
    | inr invalid ↦ early a (inl invalid) (e ∙ apply_increment-none book u clock (inl invalid))
    | inl valid ↦ elim (Option-cases book.sequence_id) [
      | inl absent ↦ early a (inr absent) (e ∙ apply_increment-none book u clock (inr absent))
      | inr (n, s) ↦ incremented n same a valid s (
          subst (AtCase book n u clock) (sym (e ∙ apply_increment-some book u clock n valid s))
            (apply_at-AtCase book n u clock))
    ]
  ]

  apply_with_clock_branches :
      (book : OkxLevel2Book D) (u : OkxLevel2Update D) (clock : ℕ → Instant)
      → ((u.instrument_id ≢ book.instrument_id)
          × (apply_with_clock book u clock
              ≡ (book, err (instrument_mismatch book.instrument_id u.instrument_id))))
        ⊎ ((u.instrument_id ≡ book.instrument_id)
            × (apply_with_clock book u clock ≡ dispatch u.action book u clock))
  unfolding apply_with_clock
  apply_with_clock_branches book u clock = ground (
    arith,
    eq_of_eq_str u.instrument_id.as_str book.instrument_id.as_str,
    eq_str_self u.instrument_id.as_str,
  )

  dispatch-Case :
      (book : OkxLevel2Book D) (u : OkxLevel2Update D) (clock : ℕ → Instant)
      (r : OkxLevel2Book D × Answer D) (a : OkxLevel2Action)
      → u.instrument_id ≡ book.instrument_id
      → u.action ≡ a
      → r ≡ dispatch a book u clock
      → Case book u clock r
  dispatch-Case book u clock r OkxLevel2Action.snapshot same a e =
      snapshot-Case book u clock r same a e
  dispatch-Case book u clock r OkxLevel2Action.update same a e =
      increment-Case book u clock r same a e

  pub apply_with_clock-Case :
      (book : OkxLevel2Book D) (u : OkxLevel2Update D) (clock : ℕ → Instant)
      → Case book u clock (apply_with_clock book u clock)
  apply_with_clock-Case book u clock = elim (apply_with_clock_branches book u clock) [
    | inl (other, e) ↦ mismatched other e
    | inr (same, e) ↦ dispatch-Case book u clock _ u.action same refl e
  ]
