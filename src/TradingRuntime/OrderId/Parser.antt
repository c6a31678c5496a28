-- ===== src/TradingRuntime/OrderId/Parser.antt =====
-- order_id.rs, the two parsers: which ids they take for a strategy's own.
use okx_rust_trading.Common.{
  ℕ, ◌-◌, ◌≤◌, ◌≡◌, refl, true, ◌↔◌, some, [], ◌∷◌, ◌++◌, arith, length, Bool-cases, inl, inr, ap,
  ◌∙◌,
}
use okx_rust_trading.Common.Options.{◌>>=◌, >>=-eq-some}
use okx_rust_trading.Text.{
  Str, all, is_ascii_alphanumeric, strip_prefix, strip_prefix-append, append_of_strip_prefix,
}
use okx_rust_trading.TradingRuntime.OrderId.{
  OrderPurpose, as_code, purpose_of_code, parse_order_suffix, parse_tagged, valid_strategy_tag,
  valid_legacy_strategy_tag, valid_suffix, order_id_prefix, parse_strategy_client_order_id,
  parse_legacy_strategy_client_order_id,
}

-- The form of an id: the prefix, the tag, the code of a purpose and a suffix of alphanumerics.
pub record HasForm (tag : Str) (max_len : ℕ) (purpose : OrderPurpose) (id suffix : Str)
    : Type 0 where
  pub spelled : id ≡ order_id_prefix ++ tag ++ as_code purpose ∷ suffix
  pub long_enough : 5 ≤ length suffix
  pub short_enough : length suffix ≤ max_len
  pub alphanumeric : all is_ascii_alphanumeric suffix ≡ true

purpose_of_code-as_code : (p : OrderPurpose) → purpose_of_code (as_code p) ≡ some p
unfolding purpose_of_code
purpose_of_code-as_code OrderPurpose.entry = refl
purpose_of_code-as_code OrderPurpose.take_profit = refl
purpose_of_code-as_code OrderPurpose.stop_loss = refl

as_code_of_purpose :
    (code : ℕ) (p : OrderPurpose) → purpose_of_code code ≡ some p → code ≡ as_code p
unfolding purpose_of_code
as_code_of_purpose code OrderPurpose.entry h = ground arith
as_code_of_purpose code OrderPurpose.take_profit h = ground arith
as_code_of_purpose code OrderPurpose.stop_loss h = ground arith

pub parse_order_suffix_code :
    (p : OrderPurpose) (suffix : Str) (max_len : ℕ)
    → valid_suffix max_len suffix ≡ true
    → parse_order_suffix (as_code p ∷ suffix) max_len ≡ some p
unfolding parse_order_suffix
parse_order_suffix_code p suffix max_len h = rw (purpose_of_code-as_code p, ◌>>=◌) (rw h refl)

parse_order_suffix_form :
    (s : Str) (max_len : ℕ) (p : OrderPurpose)
    → parse_order_suffix s max_len ≡ some p
    → (suffix : Str) × (s ≡ as_code p ∷ suffix)
      × (5 ≤ length suffix)
      × (length suffix ≤ max_len)
      × (all is_ascii_alphanumeric suffix ≡ true)
unfolding parse_order_suffix
parse_order_suffix_form [] max_len p h = cc
parse_order_suffix_form (code ∷ suffix) max_len p h =
    let (q, found, kept) = >>=-eq-some (purpose_of_code code) _ h in
    (suffix, ground (arith, as_code_of_purpose code p), ground arith, ground arith, ground arith)

pub parse_tagged_form :
    (id tag : Str) (max_len : ℕ) (p : OrderPurpose)
    → parse_tagged id tag max_len ≡ some p
    → (suffix : Str) × HasForm tag max_len p id suffix
parse_tagged_form id tag max_len p h =
    let (tagged, after_prefix, h1) = >>=-eq-some (strip_prefix order_id_prefix id) _ h in
    let (rest, after_tag, h2) = >>=-eq-some (strip_prefix tag tagged) _ h1 in
    let (suffix, spelled, low, high, alnum) = parse_order_suffix_form rest max_len p h2 in
    (
      suffix,
      record {
        spelled =
            append_of_strip_prefix order_id_prefix id tagged after_prefix
            ∙ ap (λ (t : Str). order_id_prefix ++ t)
                (append_of_strip_prefix tag tagged rest after_tag
                  ∙ ap (λ (t : Str). tag ++ t) spelled);
        long_enough = low;
        short_enough = high;
        alphanumeric = alnum;
      },
    )

pub parse_tagged_of_form :
    (id tag : Str) (max_len : ℕ) (p : OrderPurpose) (suffix : Str)
    → HasForm tag max_len p id suffix
    → parse_tagged id tag max_len ≡ some p
parse_tagged_of_form id tag max_len p suffix form = rw form.spelled (
    rw (strip_prefix-append order_id_prefix (tag ++ as_code p ∷ suffix), ◌>>=◌)
      (rw (strip_prefix-append tag (as_code p ∷ suffix), ◌>>=◌)
        (parse_order_suffix_code p suffix max_len (ground (arith, form)))))

-- Under a tag an id is read as an order of a purpose exactly if the tag is a valid one and the id
-- is the prefix, the tag, the code of the purpose, and from 5 to 17 ASCII letters and digits.
pub parse_strategy_client_order_id_iff :
    (id tag : Str) (p : OrderPurpose)
    → (parse_strategy_client_order_id id tag ≡ some p)
      ↔ ((valid_strategy_tag tag ≡ true) × ((suffix : Str) × HasForm tag 17 p id suffix))
unfolding parse_strategy_client_order_id
parse_strategy_client_order_id_iff id tag p = elim (Bool-cases (valid_strategy_tag tag)) [
  | inl valid ↦ rw valid (
    λ h. (refl, parse_tagged_form id tag 17 p h),
    λ h. parse_tagged_of_form id tag 17 p h.1.0 h.1.1,
  )
  | inr invalid ↦ rw invalid (λ h. cc, λ h. cc)
]

pub parse_legacy_strategy_client_order_id_iff :
    (id tag : Str) (p : OrderPurpose)
    → (parse_legacy_strategy_client_order_id id tag ≡ some p) ↔ (
        (valid_legacy_strategy_tag tag ≡ true)
        × ((suffix : Str) × HasForm tag (29 - length tag - 1) p id suffix))
unfolding parse_legacy_strategy_client_order_id
parse_legacy_strategy_client_order_id_iff id tag p =
    elim (Bool-cases (valid_legacy_strategy_tag tag)) [
      | inl valid ↦ rw valid (
        λ h. (refl, parse_tagged_form id tag _ p h),
        λ h. parse_tagged_of_form id tag _ p h.1.0 h.1.1,
      )
      | inr invalid ↦ rw invalid (λ h. cc, λ h. cc)
    ]
