-- ===== src/Level2/Sides/Trim.antt =====
-- okx-market-model/src/level2.rs: trimming keeps the best levels of a side.
use Prim.Native.Nat.{◌-◌}
use okx_rust_trading.Common.{
  ℕ, zero, suc, ◌≤◌, ◌≡◌, refl, sym, ◌∙◌, ap, true, List, [], ◌∷◌, arith, ltb, length, take, drop,
  length-take, length-drop, Bool-cases, inl, inr,
}
use okx_rust_trading.Order.{Ord}
use okx_rust_trading.BTreeMap.{first_key_value}
use okx_rust_trading.BTreeMap.Order.{
  IsSorted, take-IsSorted, remove-first_key_value, remove-last_key_value, last_key_value-some,
}
use okx_rust_trading.Level2.Types.{Side, BookLevel, BookSide, bid, ask, okx_level2_max_depth}
use okx_rust_trading.Level2.Sides.{trim_loop, trim_to_depth}

take-take {ℓ} : {A : Type ℓ} (m n : ℕ) (xs : List A) → m ≤ n → take m (take n xs) ≡ take m xs
take-take zero n xs h = refl
take-take (suc m) zero xs h = absurd (omega arith)
take-take (suc m) (suc n) [] h = refl
take-take (suc m) (suc n) (x ∷ xs) h = ap (λ ys. x ∷ ys) (take-take m n xs (omega arith))

take_all {ℓ} : {A : Type ℓ} (n : ℕ) (xs : List A) → length xs ≤ n → take n xs ≡ xs
take_all zero [] h = refl
take_all zero (x ∷ xs) h = absurd (omega arith)
take_all (suc n) [] h = refl
take_all (suc n) (x ∷ xs) h = ap (λ ys. x ∷ ys) (take_all n xs (omega arith))

module _ {D : Type 0} ⦃o : Ord D⦄ where
  trim_short :
      (fuel : ℕ) (side : Side D) (b : BookSide)
      → length side ≤ okx_level2_max_depth
      → trim_loop fuel side b ≡ side
  unfolding trim_loop
  trim_short zero side b h = refl
  trim_short (suc fuel) side b h = ground arith

  trim_first :
      (fuel : ℕ) (e : D × BookLevel D) (side : Side D)
      → ltb okx_level2_max_depth (suc (length side)) ≡ true
      → trim_loop (suc fuel) (e ∷ side) bid ≡ trim_loop fuel side bid
  unfolding trim_loop first_key_value
  trim_first fuel e side long = ground (arith, remove-first_key_value (e ∷ side) e refl)

  trim_last :
      (fuel : ℕ) (e : D × BookLevel D) (side : Side D)
      → IsSorted (e ∷ side)
      → ltb okx_level2_max_depth (suc (length side)) ≡ true
      → trim_loop (suc fuel) (e ∷ side) ask ≡ trim_loop fuel (take (length side) (e ∷ side)) ask
  unfolding trim_loop
  trim_last fuel e side s long =
      let (f, last) = last_key_value-some e side in
      ground (arith, last, remove-last_key_value (e ∷ side) f (length side) s last)

  trim_bids :
      (fuel : ℕ) (side : Side D)
      → length side ≤ fuel
      → trim_loop fuel side bid ≡ drop (length side - okx_level2_max_depth) side
  trim_bids fuel [] h = trim_short fuel [] bid (omega arith)
  trim_bids zero (e ∷ side) h = absurd (omega arith)
  trim_bids (suc fuel) (e ∷ side) h =
      elim (Bool-cases (ltb okx_level2_max_depth (suc (length side)))) [
        | inr short ↦
            let none_left : suc (length side) - okx_level2_max_depth ≡ 0 = ground arith in
            trim_short (suc fuel) (e ∷ side) bid (ground arith)
            ∙ sym (ap (λ k. drop k (e ∷ side)) none_left)
        | inl long ↦
            let more : suc (length side) - okx_level2_max_depth
                ≡ suc (length side - okx_level2_max_depth) =
              ground arith in
            trim_first fuel e side long
            ∙ trim_bids fuel side (omega arith)
            ∙ sym (ap (λ k. drop k (e ∷ side)) more)
      ]

  trim_asks :
      (fuel : ℕ) (side : Side D)
      → IsSorted side
      → length side ≤ fuel
      → trim_loop fuel side ask ≡ take okx_level2_max_depth side
  trim_asks fuel [] s h = trim_short fuel [] ask (omega arith)
  trim_asks zero (e ∷ side) s h = absurd (omega arith)
  trim_asks (suc fuel) (e ∷ side) s h =
      elim (Bool-cases (ltb okx_level2_max_depth (suc (length side)))) [
        | inr short ↦
            trim_short (suc fuel) (e ∷ side) ask (ground arith)
            ∙ sym (take_all okx_level2_max_depth (e ∷ side) (ground arith))
        | inl long ↦
            trim_last fuel e side s long
            ∙ trim_asks fuel (take (length side) (e ∷ side))
                (take-IsSorted (length side) (e ∷ side) s)
                (omega (arith, length-take (length side) (e ∷ side)))
            ∙ take-take okx_level2_max_depth (length side) (e ∷ side) (ground arith)
      ]

  -- Cut to the depth, a sorted side keeps its last 400 entries as bids and its first 400 as asks,
  -- and all of a shorter side: the greatest bids, the least asks.
  pub trim_to_depth_lem :
      (side : Side D)
      → IsSorted side
      → (trim_to_depth side bid ≡ drop (length side - okx_level2_max_depth) side)
        × (trim_to_depth side ask ≡ take okx_level2_max_depth side)
  unfolding trim_to_depth
  trim_to_depth_lem side s =
      (trim_bids (length side) side (omega arith), trim_asks (length side) side s (omega arith))

  pub trim_to_depth_bounded :
      (side : Side D) (b : BookSide)
      → IsSorted side
      → length (trim_to_depth side b) ≤ okx_level2_max_depth
  trim_to_depth_bounded side bid s =
      rw ((trim_to_depth_lem side s).0)
        (omega (arith, length-drop (length side - okx_level2_max_depth) side))
  trim_to_depth_bounded side ask s =
      rw ((trim_to_depth_lem side s).1) (omega (arith, length-take okx_level2_max_depth side))
