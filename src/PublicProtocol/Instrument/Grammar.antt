-- ===== src/PublicProtocol/Instrument/Grammar.antt =====
-- The validation of an instrument identity against its grammar: BASE-QUOTE.
use okx_rust_trading.Common.{
  ℕ, ◌≤◌, ◌≡◌, refl, ◌≢◌, ◌↔◌, Bool, true, false, ◌&&◌, ◌||◌, List, [], ◌∷◌, ◌++◌, arith, length,
  is_empty,
}
use okx_rust_trading.Text.{
  Str, eq_of_eq_str, eq_str_self, all, any, is_ascii, is_ascii_digit, is_ascii_uppercase,
  is_ascii_whitespace, split, split_step,
}
use okx_rust_trading.PublicProtocol.Instrument.{
  valid, valid_asset, check_components, validate_spot_instrument_id,
}

-- An asset: one upper-case letter or digit, or more.
pub record IsAsset (s : Str) : Type 0 where
  pub nonempty : s ≢ []
  pub characters : valid_asset s ≡ true

-- The documented form of an identity.
pub record IsPair (value base quote : Str) : Type 0 where
  pub text : value ≡ base ++ b'-' ∷ quote
  pub base_asset : IsAsset base
  pub quote_asset : IsAsset quote
  pub differ : base ≢ quote
  pub short : length value ≤ 32

-- No asset holds the separator, so it is one part.
split_asset : (s : Str) → valid_asset s ≡ true → split b'-' s ≡ s ∷ []
unfolding split split_step
split_asset [] h = refl
split_asset (c ∷ s) h = ground (arith, split_asset s)

split_pair :
    (base quote : Str)
    → valid_asset base ≡ true
    → valid_asset quote ≡ true
    → split b'-' (base ++ b'-' ∷ quote) ≡ base ∷ quote ∷ []
unfolding split split_step
split_pair [] quote h k = ground (arith, split_asset quote)
split_pair (c ∷ base) quote h k = ground (arith, split_pair base quote)

-- `split` loses nothing: one part is the text, and of two parts the text is their join.
module _ (sep : ℕ) where
  abbrev Joins : Str → List Str → Type 0
  Joins s [] = ⊥
  Joins s (p ∷ []) = s ≡ p
  Joins s (p ∷ q ∷ []) = s ≡ p ++ sep ∷ q
  Joins s (p ∷ q ∷ r ∷ rest) = Unit {0}

  step-Joins :
      (c : ℕ) (s : Str) (parts : List Str) → Joins s parts → Joins (c ∷ s) (split_step sep c parts)
  unfolding split_step
  step-Joins c s [] j = absurd j
  step-Joins c s (p ∷ []) j = ground arith
  step-Joins c s (p ∷ q ∷ []) j = ground arith
  step-Joins c s (p ∷ q ∷ r ∷ rest) j = ground arith

  split-Joins : (s : Str) → Joins s (split sep s)
  unfolding split
  split-Joins [] = refl
  split-Joins (c ∷ s) = step-Joins c s (split sep s) (split-Joins s)

pair_checks :
    (c : ℕ)
    → (is_ascii_uppercase c || is_ascii_digit c) ≡ true
    → (is_ascii c ≡ true) × (is_ascii_whitespace c ≡ false)
pair_checks c h = ground arith

asset_checks :
    (s : Str) → valid_asset s ≡ true → (all is_ascii s ≡ true) × (any is_ascii_whitespace s ≡ false)
asset_checks [] h = (refl, refl)
asset_checks (c ∷ s) h = ground (arith, pair_checks c, asset_checks s)

all-append : (p : ℕ → Bool) (s t : Str) → all p (s ++ t) ≡ (all p s && all p t)
all-append p [] t = refl
all-append p (c ∷ s) t = ground (arith, all-append p s t)

any-append : (p : ℕ → Bool) (s t : Str) → any p (s ++ t) ≡ (any p s || any p t)
any-append p [] t = refl
any-append p (c ∷ s) t = ground (arith, any-append p s t)

components-IsPair :
    (value : Str) (parts : List Str)
    → length value ≤ 32
    → Joins b'-' value parts
    → check_components parts ≡ valid
    → (base : Str) × (quote : Str) × IsPair value base quote
unfolding check_components
components-IsPair value [] l j h = absurd j
components-IsPair value ([] ∷ []) l j h = cc
components-IsPair value ((c ∷ p) ∷ []) l j h = cc
components-IsPair value ([] ∷ q ∷ []) l j h = cc
components-IsPair value ((c ∷ p) ∷ [] ∷ []) l j h = cc
components-IsPair value ((c ∷ p) ∷ (e ∷ q) ∷ []) l j h = (
  c ∷ p,
  e ∷ q,
  record {
    text = j;
    base_asset = record { nonempty = λ eq. cc; characters = ground arith };
    quote_asset = record { nonempty = λ eq. cc; characters = ground arith };
    differ = λ same. ground (arith, eq_str_self (c ∷ p));
    short = l;
  },
)
components-IsPair value (p ∷ q ∷ r ∷ rest) l j h = cc

validate-IsPair :
    (value : Str)
    → validate_spot_instrument_id value ≡ valid
    → (base : Str) × (quote : Str) × IsPair value base quote
unfolding validate_spot_instrument_id
validate-IsPair value h =
    components-IsPair value (split b'-' value) (ground arith) (split-Joins b'-' value)
      (ground arith)

pair_components :
    (base quote : Str)
    → IsAsset base
    → IsAsset quote
    → base ≢ quote
    → check_components (base ∷ quote ∷ []) ≡ valid
unfolding check_components
pair_components [] quote a b d = absurd (a.nonempty refl)
pair_components (c ∷ base) [] a b d = absurd (b.nonempty refl)
pair_components (c ∷ base) (e ∷ quote) a b d =
    ground (arith, eq_of_eq_str (c ∷ base) (e ∷ quote), a.characters, b.characters)

pair-nonempty : (base quote : Str) → is_empty (base ++ b'-' ∷ quote) ≡ false
pair-nonempty [] quote = refl
pair-nonempty (c ∷ base) quote = refl

passes_checks :
    (value : Str) (parts : List Str)
    → is_empty value ≡ false
    → length value ≤ 32
    → all is_ascii value ≡ true
    → any is_ascii_whitespace value ≡ false
    → split b'-' value ≡ parts
    → check_components parts ≡ valid
    → validate_spot_instrument_id value ≡ valid
unfolding validate_spot_instrument_id
passes_checks value parts e l a w s c = rw (e, a, w) (rw s (ground arith))

IsPair-validate :
    (value base quote : Str) → IsPair value base quote → validate_spot_instrument_id value ≡ valid
IsPair-validate value base quote p =
    passes_checks value (base ∷ quote ∷ []) (rw p.text (pair-nonempty base quote)) p.short
      (rw p.text (rw (all-append is_ascii base (b'-' ∷ quote)) (ground (arith, left, right))))
      (rw p.text
        (rw (any-append is_ascii_whitespace base (b'-' ∷ quote)) (ground (arith, left, right))))
      (rw p.text (split_pair base quote p.base_asset.characters p.quote_asset.characters))
      (pair_components base quote p.base_asset p.quote_asset p.differ)
  where
    left : (all is_ascii base ≡ true) × (any is_ascii_whitespace base ≡ false)
    left = asset_checks base p.base_asset.characters

    right : (all is_ascii quote ≡ true) × (any is_ascii_whitespace quote ≡ false)
    right = asset_checks quote p.quote_asset.characters

-- A text is accepted exactly if it is BASE-QUOTE for two different assets of upper-case letters
-- and digits, in 32 bytes at most.
pub validate_spot_instrument_id-IsPair :
    (value : Str)
    → (validate_spot_instrument_id value ≡ valid)
      ↔ ((base : Str) × (quote : Str) × IsPair value base quote)
validate_spot_instrument_id-IsPair value =
    (validate-IsPair value, λ (base, quote, p). IsPair-validate value base quote p)
