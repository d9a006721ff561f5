-- ===== src/Blocks/Laws.antt =====
-- What a block parameter names: a quoted tag, a decimal number, or nothing.
use charon.Prelude.{
  ℕ, suc, ◌+◌, ◌-◌, ◌*◌, ◌≤◌, ◌<◌, ◌^◌, ◌≡◌, ◌≢◌, refl, ap, ◌∙◌, inl, inr, Bool, true, false, some,
  [], ◌∷◌, ◌++◌, Text, codes, length, take, pos, neg, word, arith, length-append,
}
use native.Mathlib.Nat.{pow-suc}
use charon.Rpc.{HexUtil, Node, new_invalid_params_error}
use charon.Blocks.{
  quote, count_quotes, starts_with_quote, ends_with_quote, is_bytes_of_string, digits_from,
  parse_uint, parse_int, get_block_number_by_param, get_block_number_by_raw_param, unquote,
}

-- No byte of the text is a quote.
abbrev pub IsPlain : Text → Type 0
IsPlain [] = Unit
IsPlain (c ∷ s) = (c ≢ quote) × IsPlain s

count_quotes-IsPlain : (s : Text) → IsPlain s → count_quotes (s ++ (quote ∷ [])) ≡ 1
unfolding count_quotes
count_quotes-IsPlain [] h = refl
count_quotes-IsPlain (c ∷ s) h = ground (arith, count_quotes-IsPlain s h.1)

is_bytes_of_string-quoted :
    (s : Text) → IsPlain s → is_bytes_of_string (quote ∷ (s ++ (quote ∷ []))) ≡ true
unfolding is_bytes_of_string starts_with_quote count_quotes
is_bytes_of_string-quoted s h = ground (arith, count_quotes-IsPlain s h)

take-length : (s t : Text) → take (length s) (s ++ t) ≡ s
take-length [] t = refl
take-length (c ∷ s) t = ap (λ l. c ∷ l) (take-length s t)

unquote-quoted :
    (h : HexUtil) (node : Node) (s : Text) → unquote h node (quote ∷ (s ++ (quote ∷ []))) ≡ s
unquote-quoted h node s = ap (λ n. take n (s ++ (quote ∷ []))) e ∙ take-length s (quote ∷ [])
  where
    e : suc (length (s ++ (quote ∷ []))) - 2 ≡ length s
    e = omega (arith, length-append s (quote ∷ []))

-- Every byte is a decimal digit.
abbrev pub IsDecimal : Text → Type 0
IsDecimal [] = Unit
IsDecimal (c ∷ s) = (b'0' ≤ c) × (c ≤ b'9') × IsDecimal s

-- The number that decimal digits stand for, by their places.
abbrev pub decimal : Text → ℕ
decimal [] = 0
decimal (c ∷ s) = (c - b'0') * 10 ^ length s + decimal s

digits_from-decimal :
    (n : ℕ) (s : Text) → IsDecimal s → digits_from n s ≡ some (n * 10 ^ length s + decimal s)
unfolding digits_from
digits_from-decimal n [] h = ap some (omega arith)
digits_from-decimal n (c ∷ s) h = ground (
  arith,
  digits_from-decimal (n * 10 + (c - b'0')) s h.2,
  place (10 ^ length s),
  pow-suc 10 (length s),
)
  where
    place : (p : ℕ) → (n * 10 + (c - b'0')) * p ≡ n * (p * 10) + (c - b'0') * p
    place p = grind arith

ends_with_quote-IsDecimal :
    (c : ℕ) (s : Text) → c ≢ quote → IsDecimal s → ends_with_quote (c ∷ s) ≡ false
unfolding ends_with_quote
ends_with_quote-IsDecimal c [] n h = ground arith
ends_with_quote-IsDecimal c (d ∷ s) n h = ends_with_quote-IsDecimal d s (ground arith) h.2

-- A number, with or without a minus, is not taken for a text.
is_bytes_of_string-number :
    (c : ℕ) (s : Text) → c ≢ quote → IsDecimal s → is_bytes_of_string (c ∷ s) ≡ false
unfolding is_bytes_of_string starts_with_quote
is_bytes_of_string-number c s n h = ground (arith, ends_with_quote-IsDecimal c s n h)

parse_uint-decimal :
    (s : Text) → IsDecimal s → s ≢ [] → decimal s < word → parse_uint s ≡ some (decimal s)
unfolding parse_uint
parse_uint-decimal [] h n k = absurd (n refl)
parse_uint-decimal (c ∷ s) h n k = ground (arith, digits_from-decimal 0 (c ∷ s) h)

parse_int-decimal :
    (s : Text) → IsDecimal s → s ≢ [] → decimal s < 2 ^ 63 → parse_int s ≡ some (pos (decimal s))
unfolding parse_int
parse_int-decimal [] h n k = absurd (n refl)
parse_int-decimal (c ∷ s) h n k =
    let e = parse_uint-decimal (c ∷ s) h n (omega arith) in ground (arith, e)

parse_int-minus :
    (s : Text)
    → IsDecimal s
    → s ≢ []
    → decimal s ≤ 2 ^ 63
    → parse_int (b'-' ∷ s) ≡ some (neg (decimal s))
unfolding parse_int
parse_int-minus s h n k = rw (parse_uint-decimal s h n (omega arith)) (ground arith)

-- For every state of the node: a text in quotes that has no quote inside is read as the text
-- itself; decimal digits are the number that they stand for, if that is below 2^63, and with a
-- minus in front its negation, up to 2^63; and no text at all, as for a block that the request
-- leaves out, is refused with invalid parameters, whether a default is wanted or not.
pub raw_param_cases :
    (h : HexUtil) (node : Node) (s : Text) (default_val : Bool)
    → (IsPlain s
        → get_block_number_by_raw_param h node (quote ∷ (s ++ (quote ∷ []))) default_val
          ≡ get_block_number_by_param h node s default_val)
      × (IsDecimal s
          → s ≢ []
          → decimal s < 2 ^ 63
          → get_block_number_by_raw_param h node s default_val ≡ inr (pos (decimal s)))
      × (IsDecimal s
          → s ≢ []
          → decimal s ≤ 2 ^ 63
          → get_block_number_by_raw_param h node (b'-' ∷ s) default_val ≡ inr (neg (decimal s)))
      × (get_block_number_by_raw_param h node [] default_val
          ≡ inl (
              new_invalid_params_error
                (codes "invalid parameter format - string or integer is expected")))
unfolding get_block_number_by_raw_param is_bytes_of_string starts_with_quote ends_with_quote
    parse_int
raw_param_cases h node s default_val = (
  λ p. quoted p,
  λ d n k. rw (number s d n, parse_int-decimal s d n k, get_block_number_by_raw_param),
  λ d n k. rw (
    is_bytes_of_string-number b'-' s (omega arith) d,
    parse_int-minus s d n k,
    get_block_number_by_raw_param,
  ),
  refl,
)
  where
    quoted :
        IsPlain s
        → get_block_number_by_raw_param h node (quote ∷ (s ++ (quote ∷ []))) default_val
          ≡ get_block_number_by_param h node s default_val
    quoted p =
        rw (is_bytes_of_string-quoted s p, get_block_number_by_raw_param)
          (ap (λ t. get_block_number_by_param h node t default_val) (unquote-quoted h node s))

    number : (s : Text) → IsDecimal s → s ≢ [] → is_bytes_of_string s ≡ false
    number [] d n = absurd (n refl)
    number (c ∷ s) d n = is_bytes_of_string-number c s (ground arith) d.2
