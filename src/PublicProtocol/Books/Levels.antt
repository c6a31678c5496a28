-- ===== src/PublicProtocol/Books/Levels.antt =====
-- The `books` channel: what an accepted level, an accepted side and a side without duplicates are.
use okx_rust_trading.Common.{
  ◌<◌, ◌≡◌, refl, ◌≢◌, ◌↔◌, ◌⊎◌, true, none, List, [], ◌∷◌, arith, All, All-mono, ok, >>=-eq-ok,
  inl, inr, subst, Bool-cases, Option-cases,
}
use okx_rust_trading.Order.{Ord, ◌≺◌, le?, eq?, eq?_iff}
use okx_rust_trading.BTreeMap.{BTreeMap, get, insert}
use okx_rust_trading.BTreeMap.Lookup.{get-insert}
use okx_rust_trading.Text.{Str}
use okx_rust_trading.Decimal.{Decimal}
use okx_rust_trading.PublicProtocol.Books.{
  OkxLevel2Level, deserialize_row, deserialize_level, deserialize_levels, reject_duplicates_from,
}

module _ {D : Type 0} ⦃o : Ord D⦄ ⦃d : Decimal D⦄ where
  -- A level has a positive price, and its order count tells a removal from a live level.
  pub record IsLevel (l : OkxLevel2Level D) : Type 0 where
    pub positive_price : d.zero ≺ l.price
    pub nonnegative_quantity : le? d.zero l.quantity ≡ true
    pub counted :
        ((l.quantity ≡ d.zero) × (l.order_count ≡ 0))
        ⊎ ((d.zero ≺ l.quantity) × (0 < l.order_count))

  -- No price stands twice.
  abbrev pub Distinct : List (OkxLevel2Level D) → Type 0
  Distinct [] = Unit
  Distinct (l ∷ ls) = All (λ m. m.price ≢ l.price) ls × Distinct ls

  deserialize_row-IsLevel :
      (row0 row1 row2 row3 : Str) (l : OkxLevel2Level D)
      → deserialize_row row0 row1 row2 row3 ≡ ok l
      → IsLevel l
  unfolding deserialize_row
  deserialize_row-IsLevel row0 row1 row2 row3 l h = ground (
    arith,
    o.cmp_flip l.price d.zero,
    o.cmp_flip l.quantity d.zero,
    o.cmp_self d.zero,
    o.eq_of_cmp l.quantity d.zero,
  )

  deserialize_level-IsLevel :
      (row : List Str) (l : OkxLevel2Level D) → deserialize_level row ≡ ok l → IsLevel l
  unfolding deserialize_level
  deserialize_level-IsLevel [] l h = cc
  deserialize_level-IsLevel (a ∷ []) l h = cc
  deserialize_level-IsLevel (a ∷ b ∷ []) l h = cc
  deserialize_level-IsLevel (a ∷ b ∷ c ∷ []) l h = cc
  deserialize_level-IsLevel (a ∷ b ∷ c ∷ e ∷ []) l h = deserialize_row-IsLevel a b c e l h
  deserialize_level-IsLevel (a ∷ b ∷ c ∷ e ∷ f ∷ row) l h = cc

  pub deserialize_levels-IsLevel :
      (rows : List (List Str)) (ls : List (OkxLevel2Level D))
      → deserialize_levels rows ≡ ok ls
      → All IsLevel ls
  unfolding deserialize_levels
  deserialize_levels-IsLevel [] ls h = ground arith
  deserialize_levels-IsLevel (row ∷ rows) ls h =
      let (l, first, rest) = >>=-eq-ok (deserialize_level row) _ h in
      let (ls', others, last) = >>=-eq-ok (deserialize_levels rows) _ rest in
      let all : All IsLevel (l ∷ ls') =
        (deserialize_level-IsLevel row l first, deserialize_levels-IsLevel rows ls' others) in
      let same : l ∷ ls' ≡ ls = ground arith in subst (All IsLevel) same all

  Fresh : BTreeMap D (Unit {0}) → List (OkxLevel2Level D) → Type 0
  Fresh seen = All (λ l. get l.price seen ≡ none)

  fresh_after :
      (p q : D) (seen : BTreeMap D (Unit {0}))
      → get q (insert p tt seen) ≡ none
      → (get q seen ≡ none) × (q ≢ p)
  fresh_after p q seen h = elim (Bool-cases (eq? q p)) [
    | inl same ↦ let r = get-insert q p tt seen in cc (rw same at r)
    | inr differ ↦ (rw (get-insert q p tt seen, differ) at h, λ e. ground (arith, eq?_iff q p))
  ]

  reject_duplicates-Distinct :
      (seen : BTreeMap D (Unit {0})) (ls : List (OkxLevel2Level D))
      → reject_duplicates_from seen ls ≡ ok tt
      → Fresh seen ls × Distinct ls
  unfolding reject_duplicates_from Fresh
  reject_duplicates-Distinct seen [] h = (tt, tt)
  reject_duplicates-Distinct seen (l ∷ ls) h = elim (Option-cases (get l.price seen)) [
    | inl new ↦
        let tail = rw new at h in
        let (fresh, distinct) = reject_duplicates-Distinct (insert l.price tt seen) ls tail in
        let after : All (λ m. (get m.price seen ≡ none) × (m.price ≢ l.price)) ls =
          All-mono _ _ ls (λ m f. fresh_after l.price m.price seen f) fresh in
        ((new, All-mono _ _ ls (λ m f. f.0) after), (All-mono _ _ ls (λ m f. f.1) after, distinct))
    | inr (u, old) ↦ let no = rw old at h in cc
  ]

  fresh_before :
      (p q : D) (seen : BTreeMap D (Unit {0}))
      → get q seen ≡ none
      → q ≢ p
      → get q (insert p tt seen) ≡ none
  fresh_before p q seen h n = ground (arith, get-insert q p tt seen, eq?_iff q p)

  zip-All :
      (P Q R : OkxLevel2Level D → Type 0) (ls : List (OkxLevel2Level D))
      → ((l : OkxLevel2Level D) → P l → Q l → R l)
      → All P ls
      → All Q ls
      → All R ls
  zip-All P Q R [] f p q = tt
  zip-All P Q R (l ∷ ls) f p q = (f l p.0 q.0, zip-All P Q R ls f p.1 q.1)

  Distinct-reject_duplicates :
      (seen : BTreeMap D (Unit {0})) (ls : List (OkxLevel2Level D))
      → Fresh seen ls
      → Distinct ls
      → reject_duplicates_from seen ls ≡ ok tt
  unfolding reject_duplicates_from Fresh
  Distinct-reject_duplicates seen [] f s = refl
  Distinct-reject_duplicates seen (l ∷ ls) f s = rw f.0 (
      Distinct-reject_duplicates (insert l.price tt seen) ls
        (zip-All _ _ _ ls (λ m g n. fresh_before l.price m.price seen g n) f.1 s.0) s.1)

  Fresh-empty : (ls : List (OkxLevel2Level D)) → Fresh [] ls
  unfolding Fresh get
  Fresh-empty [] = tt
  Fresh-empty (l ∷ ls) = (refl, Fresh-empty ls)

  -- The search for a duplicate passes a side exactly if its prices differ.
  pub reject_duplicates_iff :
      (ls : List (OkxLevel2Level D)) → (reject_duplicates_from [] ls ≡ ok tt) ↔ Distinct ls
  reject_duplicates_iff ls = (
    λ h. (reject_duplicates-Distinct [] ls h).1,
    λ s. Distinct-reject_duplicates [] ls (Fresh-empty ls) s,
  )
