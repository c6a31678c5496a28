-- ===== src/TradingRuntime/OrderId/Tags.antt =====
-- order_id.rs, the tags: what a strategy's tag and its legacy tag look like.
use okx_rust_trading.Common.{
  ℕ, zero, suc, ◌-◌, ◌≤◌, ◌<◌, ◌≡◌, refl, Bool, true, ◌%◌, ◌*◌, [], ◌∷◌, map, take, arith, length,
  length-append, length-map, length-take,
}
use Prim.Native.Nat.{bit_xor}
use okx_rust_trading.Text.{Str, all, all-append, filter, is_ascii_alphanumeric, to_ascii_uppercase}
use okx_rust_trading.TradingRuntime.OrderId.{
  zeros, fnv_from, fnv_1a_32, fnv_1a_32_prime, alphanumeric_start, padded_base36,
  strategy_tag_prefix, strategy_tag, legacy_strategy_tag, valid_strategy_tag,
  valid_legacy_strategy_tag, or_default, pad_end, strategy_tag_len, strategy_tag_hash_len,
}
use okx_rust_trading.TradingRuntime.OrderId.Base36.{
  all-zeros, length-zeros, all-padded_base36, length-padded_base36,
}

alphanumeric-to_ascii_uppercase :
    (c : ℕ) → is_ascii_alphanumeric c ≡ true → is_ascii_alphanumeric (to_ascii_uppercase c) ≡ true
alphanumeric-to_ascii_uppercase c h = ground arith

all-upper_start :
    (n : ℕ) (s : Str)
    → all is_ascii_alphanumeric s ≡ true
    → all is_ascii_alphanumeric (map to_ascii_uppercase (take n s)) ≡ true
all-upper_start zero s h = refl
all-upper_start (suc n) [] h = refl
all-upper_start (suc n) (c ∷ s) h =
    ground (arith, alphanumeric-to_ascii_uppercase c, all-upper_start n s)

all-filter : (p : ℕ → Bool) (s : Str) → all p (filter p s) ≡ true
all-filter p [] = refl
all-filter p (c ∷ s) = ground (arith, all-filter p s)

all-alphanumeric_start :
    (n : ℕ) (id : Str) → all is_ascii_alphanumeric (alphanumeric_start n id) ≡ true
unfolding alphanumeric_start
all-alphanumeric_start n id =
    all-upper_start n (filter is_ascii_alphanumeric id) (all-filter is_ascii_alphanumeric id)

length-alphanumeric_start : (n : ℕ) (id : Str) → length (alphanumeric_start n id) ≤ n
unfolding alphanumeric_start
length-alphanumeric_start n id = omega (
  arith,
  length-map (take n (filter is_ascii_alphanumeric id)) to_ascii_uppercase,
  length-take n (filter is_ascii_alphanumeric id),
)

all-or_default :
    (p : ℕ → Bool) (fallback tag : Str)
    → all p fallback ≡ true
    → all p tag ≡ true
    → all p (or_default fallback tag) ≡ true
unfolding or_default
all-or_default p fallback tag hf ht = ground arith

length-or_default :
    (n : ℕ) (fallback tag : Str)
    → 1 ≤ length fallback
    → length fallback ≤ n
    → length tag ≤ n
    → (1 ≤ length (or_default fallback tag)) × (length (or_default fallback tag) ≤ n)
unfolding or_default
length-or_default n fallback [] hf hn ht = (hf, hn)
length-or_default n fallback (c ∷ tag) hf hn ht = omega arith

all-pad_end :
    (n : ℕ) (tag : Str)
    → all is_ascii_alphanumeric tag ≡ true
    → all is_ascii_alphanumeric (pad_end n tag) ≡ true
unfolding pad_end
all-pad_end n tag h =
    all-append is_ascii_alphanumeric tag (zeros (n - length tag)) h (all-zeros (n - length tag))

length-pad_end : (n : ℕ) (tag : Str) → length tag ≤ n → length (pad_end n tag) ≡ n
unfolding pad_end
length-pad_end n tag h =
    omega (arith, length-append tag (zeros (n - length tag)), length-zeros (n - length tag))

all-strategy_tag_prefix : (id : Str) → all is_ascii_alphanumeric (strategy_tag_prefix id) ≡ true
unfolding strategy_tag_prefix
all-strategy_tag_prefix id =
    all-pad_end 4 (or_default (b'S' ∷ b'T' ∷ b'R' ∷ []) (alphanumeric_start 4 id)) (
      all-or_default is_ascii_alphanumeric (b'S' ∷ b'T' ∷ b'R' ∷ []) (alphanumeric_start 4 id) refl
        (all-alphanumeric_start 4 id))

length-strategy_tag_prefix : (id : Str) → length (strategy_tag_prefix id) ≡ 4
unfolding strategy_tag_prefix
length-strategy_tag_prefix id =
    length-pad_end 4 (or_default (b'S' ∷ b'T' ∷ b'R' ∷ []) (alphanumeric_start 4 id))
      (length-or_default 4 (b'S' ∷ b'T' ∷ b'R' ∷ []) (alphanumeric_start 4 id) (omega arith)
        (omega arith) (length-alphanumeric_start 4 id)).1

fnv_from-lt : (hash : ℕ) (bytes : Str) → hash < 0x1_0000_0000 → fnv_from hash bytes < 0x1_0000_0000
unfolding fnv_from
fnv_from-lt hash [] h = h
fnv_from-lt hash (byte ∷ bytes) h =
    fnv_from-lt (bit_xor hash byte * fnv_1a_32_prime % 0x1_0000_0000) bytes (omega arith)

fnv_1a_32-lt : (bytes : Str) → fnv_1a_32 bytes < 0x1_0000_0000
unfolding fnv_1a_32
fnv_1a_32-lt bytes = fnv_from-lt 0x811c9dc5 bytes (omega arith)

pub length-strategy_tag : (id : Str) → length (strategy_tag id) ≡ strategy_tag_len
unfolding strategy_tag
length-strategy_tag id = omega (
  arith,
  length-append (strategy_tag_prefix id) (padded_base36 (fnv_1a_32 id) strategy_tag_hash_len),
  length-strategy_tag_prefix id,
  length-padded_base36 (fnv_1a_32 id) 7 (omega arith) (omega (arith, fnv_1a_32-lt id)),
)

pub all-strategy_tag : (id : Str) → all is_ascii_alphanumeric (strategy_tag id) ≡ true
unfolding strategy_tag
all-strategy_tag id =
    all-append is_ascii_alphanumeric (strategy_tag_prefix id) (padded_base36 (fnv_1a_32 id) 7)
      (all-strategy_tag_prefix id) (all-padded_base36 (fnv_1a_32 id) 7)

pub valid_strategy_tag-strategy_tag : (id : Str) → valid_strategy_tag (strategy_tag id) ≡ true
unfolding valid_strategy_tag
valid_strategy_tag-strategy_tag id = ground (arith, length-strategy_tag id, all-strategy_tag id)

pub valid_legacy_strategy_tag-legacy_strategy_tag :
    (id : Str) → valid_legacy_strategy_tag (legacy_strategy_tag id) ≡ true
unfolding legacy_strategy_tag valid_legacy_strategy_tag
valid_legacy_strategy_tag-legacy_strategy_tag id = ground (
  arith,
  length-or_default 8 (b'S' ∷ b'T' ∷ b'R' ∷ b'A' ∷ b'T' ∷ []) (alphanumeric_start 8 id)
      (omega arith) (omega arith) (length-alphanumeric_start 8 id),
  all-or_default is_ascii_alphanumeric (b'S' ∷ b'T' ∷ b'R' ∷ b'A' ∷ b'T' ∷ [])
      (alphanumeric_start 8 id) refl (all-alphanumeric_start 8 id),
)
