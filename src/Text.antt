-- ===== src/Text.antt =====
-- Rust strings as their UTF-8 bytes, with the operations of `str` and `u8` that the program calls.
use Prim.Native.Char.{code}
use Prim.Native.String.{String}
use okx_rust_trading.Common.{
  ℕ, ◌+◌, ◌-◌, ◌*◌, ◌≡◌, refl, Bool, true, false, ◌&&◌, ◌||◌, Option, none, some, List, [], ◌∷◌,
  ◌++◌, arith, ltb, leb, ◌==◌, if◌then◌else◌, u64_max,
}
use okx_rust_trading.Common.Int.{ℤ, pos, negsuc}

abbrev pub Str : Type 0
Str = List ℕ

-- The bytes of an ASCII literal.
abbrev pub codes : String → Str
codes String.[] = []
codes (String.◌∷◌ c s) = code c ∷ codes s

abbrev pub eq_str : Str → Str → Bool
eq_str [] [] = true
eq_str [] (d ∷ t) = false
eq_str (c ∷ s) [] = false
eq_str (c ∷ s) (d ∷ t) = c == d && eq_str s t

pub eq_of_eq_str : (s t : Str) → eq_str s t ≡ true → s ≡ t
eq_of_eq_str [] [] h = refl
eq_of_eq_str [] (d ∷ t) h = cc
eq_of_eq_str (c ∷ s) [] h = cc
eq_of_eq_str (c ∷ s) (d ∷ t) h = ground (arith, eq_of_eq_str s t)

pub eq_str_self : (s : Str) → eq_str s s ≡ true
eq_str_self [] = refl
eq_str_self (c ∷ s) = ground (arith, eq_str_self s)

-- `bytes().all(p)`, `bytes().any(p)`.
abbrev pub all : (ℕ → Bool) → Str → Bool
all p [] = true
all p (c ∷ s) = p c && all p s

abbrev pub any : (ℕ → Bool) → Str → Bool
any p [] = false
any p (c ∷ s) = p c || any p s

abbrev pub is_ascii : ℕ → Bool
is_ascii c = ltb c 128

abbrev pub is_ascii_digit : ℕ → Bool
is_ascii_digit c = leb b'0' c && leb c b'9'

abbrev pub is_ascii_uppercase : ℕ → Bool
is_ascii_uppercase c = leb b'A' c && leb c b'Z'

abbrev pub is_ascii_lowercase : ℕ → Bool
is_ascii_lowercase c = leb b'a' c && leb c b'z'

abbrev pub is_ascii_alphanumeric : ℕ → Bool
is_ascii_alphanumeric c = is_ascii_digit c || is_ascii_uppercase c || is_ascii_lowercase c

-- Space, tab, line feed, form feed, carriage return.
abbrev pub is_ascii_whitespace : ℕ → Bool
is_ascii_whitespace c = c == 32 || c == 9 || c == 10 || c == 12 || c == 13

-- `split(separator)`: the parts between the separators, one at least.
unfoldable pub split_step : ℕ → ℕ → List Str → List Str
split_step sep c [] = []
split_step sep c (part ∷ parts) = if c == sep then [] ∷ part ∷ parts else (c ∷ part) ∷ parts

unfoldable pub split : ℕ → Str → List Str
split sep [] = [] ∷ []
split sep (c ∷ s) = split_step sep c (split sep s)

-- `strip_prefix`.
unfoldable pub strip_prefix : Str → Str → Option Str
strip_prefix [] s = some s
strip_prefix (p ∷ ps) [] = none
strip_prefix (p ∷ ps) (c ∷ s) = let rest = strip_prefix ps s in if p == c then rest else none

-- `parse::<u64>()`: an optional `+`, then digits whose value fits.
parse_digits : ℕ → ℕ → Str → Option ℕ
parse_digits bound acc [] = some acc
parse_digits bound acc (c ∷ s) =
    let rest = parse_digits bound (acc * 10 + (c - b'0')) s in
    if is_ascii_digit c && leb (acc * 10 + (c - b'0')) bound then rest else none

nonempty_digits : ℕ → Str → Option ℕ
nonempty_digits bound [] = none
nonempty_digits bound (c ∷ s) = parse_digits bound 0 (c ∷ s)

unfoldable pub parse_u64 : Str → Option ℕ
unfolding nonempty_digits parse_digits
parse_u64 [] = none
parse_u64 (c ∷ s) = if c == b'+' then nonempty_digits u64_max s else nonempty_digits u64_max (c ∷ s)

neg : ℕ → ℤ
neg n = if n == 0 then pos 0 else negsuc (n - 1)

abbrev map_option {ℓ κ} : {A : Type ℓ} {B : Type κ} → (A → B) → Option A → Option B
map_option f none = none
map_option f (some a) = some (f a)

-- `parse::<i64>()`: an optional sign, then digits; the range is -2^63 to 2^63 - 1.
unfoldable pub parse_i64 : Str → Option ℤ
unfolding nonempty_digits parse_digits neg
parse_i64 [] = none
parse_i64 (c ∷ s) =
    if c == b'-'
    then map_option neg (nonempty_digits 9223372036854775808 s)
    else map_option pos (
        if c == b'+'
        then nonempty_digits 9223372036854775807 s
        else nonempty_digits 9223372036854775807 (c ∷ s))

-- `chars().filter(p)` of a predicate on ASCII characters.
abbrev pub filter : (ℕ → Bool) → Str → Str
filter p [] = []
filter p (c ∷ s) = if p c then c ∷ filter p s else filter p s

-- `to_ascii_uppercase` of one byte.
abbrev pub to_ascii_uppercase : ℕ → ℕ
to_ascii_uppercase c = if is_ascii_lowercase c then c - 32 else c

pub all-append :
    (p : ℕ → Bool) (s t : Str) → all p s ≡ true → all p t ≡ true → all p (s ++ t) ≡ true
all-append p [] t hs ht = ht
all-append p (c ∷ s) t hs ht = ground (arith, all-append p s t)

pub all-append_right : (p : ℕ → Bool) (s t : Str) → all p (s ++ t) ≡ true → all p t ≡ true
all-append_right p [] t h = h
all-append_right p (c ∷ s) t h = ground (arith, all-append_right p s t)

pub strip_prefix-append : (p s : Str) → strip_prefix p (p ++ s) ≡ some s
unfolding strip_prefix
strip_prefix-append [] s = refl
strip_prefix-append (c ∷ p) s = ground (arith, strip_prefix-append p s)

pub append_of_strip_prefix : (p s r : Str) → strip_prefix p s ≡ some r → s ≡ p ++ r
unfolding strip_prefix
append_of_strip_prefix [] s r h = cc
append_of_strip_prefix (c ∷ p) [] r h = cc
append_of_strip_prefix (c ∷ p) (d ∷ s) r h = ground (arith, append_of_strip_prefix p s r)

-- `trim().is_empty()`: nothing but white space, in UTF-8.
abbrev is_space_1 : ℕ → Bool
is_space_1 a = (leb 9 a && leb a 13) || a == 32

abbrev is_space_2 : ℕ → ℕ → Bool
is_space_2 a b = a == 0xc2 && (b == 0x85 || b == 0xa0)

abbrev is_space_3 : ℕ → ℕ → ℕ → Bool
is_space_3 a b c =
    (a == 0xe1 && b == 0x9a && c == 0x80)
    || (a == 0xe2
        && b == 0x80
        && ((leb 0x80 c && leb c 0x8a) || c == 0xa8 || c == 0xa9 || c == 0xaf))
    || (a == 0xe2 && b == 0x81 && c == 0x9f)
    || (a == 0xe3 && b == 0x80 && c == 0x80)

unfoldable pub is_blank : Str → Bool
is_blank [] = true
is_blank (a ∷ []) = is_space_1 a
is_blank (a ∷ b ∷ []) = is_space_2 a b || (is_space_1 a && is_space_1 b)
is_blank (a ∷ b ∷ c ∷ s) =
    let after_1 = is_blank (b ∷ c ∷ s) in
    let after_2 = is_blank (c ∷ s) in
    let after_3 = is_blank s in
    if is_space_1 a
    then after_1
    else if is_space_2 a b
    then after_2
    else if is_space_3 a b c
    then after_3
    else false
