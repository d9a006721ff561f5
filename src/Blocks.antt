-- ===== src/Blocks.antt =====
-- pkg/transformer/util.go: the block that a parameter names (`getBlockNumberByRawParam`,
-- `getBlockNumberByParam`, `isBytesOfString`), with Go's `strconv.ParseInt`.
pub mod Laws
use charon.Prelude.{
  ℕ, ◌+◌, ◌-◌, ◌*◌, ◌≤◌, ◌<◌, ◌^◌, ◌≡◌, ◌⊎◌, inl, inr, Bool, true, false, ◌&&◌, ◌||◌, not, Option,
  none, some, List, [], ◌∷◌, Text, codes, text_eq, has_prefix, length, drop, take, ltb, leb, ◌==◌,
  if◌then◌else◌, ℤ, pos, neg, word,
}
use charon.Rpc.{
  JsonRpcError, HexUtil, Node, new_invalid_params_error, new_invalid_request_error,
  new_callback_error,
}
use charon.Hex.Prefix.{hex_prefix, decode_big}

abbrev pub quote : ℕ
quote = b'"'

unfoldable pub count_quotes : Text → ℕ
count_quotes [] = 0
count_quotes (c ∷ s) = let rest = count_quotes s in if c == quote then rest + 1 else rest

unfoldable pub starts_with_quote : Text → Bool
starts_with_quote [] = false
starts_with_quote (c ∷ s) = c == quote

unfoldable pub ends_with_quote : Text → Bool
ends_with_quote [] = false
ends_with_quote (c ∷ []) = c == quote
ends_with_quote (c ∷ d ∷ s) = ends_with_quote (d ∷ s)

unfoldable pub is_bytes_of_string : Text → Bool
is_bytes_of_string v =
    if not (starts_with_quote v) && not (ends_with_quote v)
    then false
    else if not (count_quotes v == 2)
    then false
    else true

-- `strconv.ParseUint(s, 10, 64)` behind the first digit.
unfoldable pub digits_from : ℕ → Text → Option ℕ
digits_from n [] = some n
digits_from n (c ∷ s) =
    let rest = digits_from (n * 10 + (c - b'0')) s in
    if leb b'0' c && leb c b'9' then rest else none

unfoldable pub parse_uint : Text → Option ℕ
parse_uint [] = none
parse_uint (c ∷ s) = elim (digits_from 0 (c ∷ s)) [
  | none ↦ none
  | some n ↦ if ltb n word then some n else none
]

abbrev pub in_int64 : Bool → Option ℕ → Option ℤ
in_int64 minus none = none
in_int64 true (some n) = if leb n (2 ^ 63) then some (neg n) else none
in_int64 false (some n) = if ltb n (2 ^ 63) then some (pos n) else none

-- `strconv.ParseInt(s, 10, 64)`; `none` is an error.
unfoldable pub parse_int : Text → Option ℤ
parse_int [] = none
parse_int (c ∷ s) =
    if c == b'-'
    then in_int64 true (parse_uint s)
    else if c == b'+'
    then in_int64 false (parse_uint s)
    else in_int64 false (parse_uint (c ∷ s))

-- The height of the node, or its failure.
abbrev pub latest : Node → JsonRpcError ⊎ ℤ
latest node = elim (node.get_block_chain_info) [
  | inl e ↦ inl (new_callback_error e)
  | inr n ↦ inr n
]

module _ (h : HexUtil) (node : Node) where
  unfoldable pub get_block_number_by_param : Text → Bool → JsonRpcError ⊎ ℤ
  get_block_number_by_param param default_val =
      if ltb (length param) 1
      then (if default_val
          then latest node
          else inl (new_invalid_params_error (codes "empty parameter value")))
      else if text_eq param (codes "latest")
      then latest node
      else if text_eq param (codes "earliest")
      then inr (pos 0)
      else if text_eq param (codes "pending")
      then inl (new_invalid_request_error (codes "TODO: tag is in implementation"))
      else if not (has_prefix param hex_prefix)
      then inl (new_invalid_params_error (codes "quantity values must start with 0x"))
      else elim (decode_big h.decode_big param) [
        | inl e ↦ inl (new_invalid_params_error (codes "couldn't decode hex number to big int"))
        | inr n ↦ inr (pos n)
      ]

  -- `raw[1 : len(raw)-1]`
  abbrev pub unquote : Text → Text
  unquote raw = take (length raw - 2) (drop 1 raw)

  unfoldable pub get_block_number_by_raw_param : Text → Bool → JsonRpcError ⊎ ℤ
  get_block_number_by_raw_param raw default_val =
      if is_bytes_of_string raw
      then get_block_number_by_param (unquote raw) default_val
      else elim (parse_int raw) [
        | some integer ↦ inr integer
        | none ↦ inl (
            new_invalid_params_error
              (codes "invalid parameter format - string or integer is expected"))
      ]
