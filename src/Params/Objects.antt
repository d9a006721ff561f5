-- ===== src/Params/Objects.antt =====
-- The requests of pkg/eth/rpc_types.go with an object among their parameters, and the integers of
-- pkg/eth/eth_int.go. Members of an object are set in their order, by names that are compared
-- without case.
use charon.Prelude.{
  ℕ, ◌⊎◌, inl, inr, Bool, Option, none, some, List, [], ◌∷◌, ◌++◌, Text, codes, text_eq, to_lower,
  if◌then◌else◌, ℤ, pos, neg,
}
use charon.Rpc.{wrap}
use charon.Blocks.{digits_from}
use charon.Hex.Prefix.{decode_big, add_hex_prefix}
use charon.Params.{◌>>=◌, Json, Members, kind, cannot_unmarshal, unmarshal_slice, raw_messages}

-- `json: cannot unmarshal` with the field in which it happens.
abbrev pub cannot_unmarshal_field : Json → Text → Text → Text
cannot_unmarshal_field v field type =
    codes "json: cannot unmarshal "
    ++ (kind v ++ (codes " into Go struct field " ++ (field ++ (codes " of type " ++ type))))

-- A struct while its members are decoded: an error that ends it at once, or what is set so far and
-- the first error of those that let it go on.
abbrev pub Progress : Type 0 → Type 0
Progress R = Text ⊎ (R × Option Text)

abbrev pub first_error : Option Text → Text → Option Text
first_error none e = some e
first_error (some e') e = some e'

-- A field that is a string: `null` leaves it as it is.
abbrev pub text_field : {R : Type 0} → Text → (Text → R → R) → Json → R × Option Text → Progress R
text_field field set_it Json.null (r, e) = inr (r, e)
text_field field set_it (Json.string s) (r, e) = inr (set_it s r, e)
text_field field set_it v (r, e) =
    inr (r, first_error e (cannot_unmarshal_field v field (codes "string")))

-- The members one after the other.
unfoldable pub each_member :
    {R : Type 0} → (Text → Json → R × Option Text → Progress R) → Members → Progress R → Progress R
each_member step Members.end p = p
each_member step (Members.member name v ms) (inl e) = inl e
each_member step (Members.member name v ms) (inr p) = each_member step ms (step name v p)

abbrev pub finished : {R : Type 0} → Progress R → Text ⊎ R
finished (inl e) = inl e
finished (inr (r, none)) = inr r
finished (inr (r, some e)) = inl e

-- `json.Unmarshal` into a struct of the name that is empty before.
unfoldable pub unmarshal_struct :
    {R : Type 0} → Text → (Text → Json → R × Option Text → Progress R) → R → Json → Text ⊎ R
unfolding each_member
unmarshal_struct type step empty Json.null = inr empty
unmarshal_struct type step empty (Json.object ms) =
    finished (each_member step ms (inr (empty, none)))
unmarshal_struct type step empty v = inl (cannot_unmarshal v type)

abbrev pub is_named : Text → Text → Bool
is_named name key = text_eq (to_lower key) (to_lower name)

-- The text of a big integer of base 10.
unfoldable pub big_literal : Text → Option ℤ
unfolding digits_from
big_literal [] = none
big_literal (c ∷ s) =
    if text_eq (c ∷ []) (codes "-")
    then negative s
    else (elim (digits_from 0 (c ∷ s)) [ none ↦ none | some n ↦ some (pos n) ])
  where
    negative : Text → Option ℤ
    negative [] = none
    negative (d ∷ t) = elim (digits_from 0 (d ∷ t)) [ none ↦ none | some n ↦ some (neg n) ]

-- What the decoders call: `hexutil.DecodeBig`, and the error of a big integer that is decoded from
-- a value.
pub record IntLibrary : Type 0 where
  pub hexutil_decode_big : Text → Text ⊎ ℕ
  pub big_error : Json → Text

module _ (l : IntLibrary) where
  -- `bigIntFromNumber`
  unfoldable pub big_int_from_number : Json → Text ⊎ ℤ
  unfolding big_literal
  big_int_from_number (Json.number s) = elim (big_literal s) [
    | none ↦ inl (wrap (codes "json unmarshal") (l.big_error (Json.number s)))
    | some n ↦ inr n
  ]
  big_int_from_number v = inl (wrap (codes "json unmarshal") (l.big_error v))

  -- `bigIntFromHex`, of a text
  unfoldable pub big_int_from_hex : Text → Text ⊎ ℤ
  unfolding decode_big add_hex_prefix
  big_int_from_hex val = elim (decode_big l.hexutil_decode_big val) [
    | inl e ↦ inl (wrap (codes "decoding error") e)
    | inr n ↦ inr (pos n)
  ]

  -- `ETHInt.UnmarshalJSON`, which is not called of `null`
  unfoldable pub unmarshal_eth_int : Json → Text ⊎ ℤ
  unfolding big_int_from_number big_int_from_hex
  unmarshal_eth_int (Json.string s) = big_int_from_hex s
  unmarshal_eth_int v = big_int_from_number v

pub record CallRequest : Type 0 where
  pub from : Text
  pub to : Text
  pub gas : Option ℤ
  pub gas_price : Option ℤ
  pub value : Text
  pub data_hex : Text

abbrev pub empty_call : CallRequest
empty_call = record { from = []; to = []; gas = none; gas_price = none; value = []; data_hex = [] }

module _ (l : IntLibrary) where
  -- A field that points to an integer; an error of it ends the decoding.
  abbrev int_field :
      (Option ℤ → CallRequest → CallRequest)
      → Json
      → CallRequest × Option Text
      → Progress CallRequest
  int_field set_it Json.null (r, e) = inr (set_it none r, e)
  int_field set_it v (r, e) = elim (unmarshal_eth_int l v) [
    | inl e' ↦ inl e'
    | inr n ↦ inr (set_it (some n) r, e)
  ]

  unfoldable pub call_member : Text → Json → CallRequest × Option Text → Progress CallRequest
  unfolding unmarshal_eth_int
  call_member name v p =
      if is_named (codes "from") name
      then text_field (codes "txCallObject.from") (λ s r. record r { from = s }) v p
      else if is_named (codes "to") name
      then text_field (codes "txCallObject.to") (λ s r. record r { to = s }) v p
      else if is_named (codes "gas") name
      then int_field (λ n r. record r { gas = n }) v p
      else if is_named (codes "gasPrice") name
      then int_field (λ n r. record r { gas_price = n }) v p
      else if is_named (codes "value") name
      then text_field (codes "txCallObject.value") (λ s r. record r { value = s }) v p
      else if is_named (codes "data") name
      then text_field (codes "txCallObject.data") (λ s r. record r { data_hex = s }) v p
      else inr p

  unfoldable pub call_params : List Json → Text ⊎ CallRequest
  unfolding call_member unmarshal_struct
  call_params [] = inl (codes "params must be set")
  call_params (v ∷ vs) = unmarshal_struct (codes "eth.txCallObject") call_member empty_call v

  unfoldable pub unmarshal_call : Json → Text ⊎ CallRequest
  unfolding call_params unmarshal_slice
  unmarshal_call v = unmarshal_slice raw_messages v >>= call_params
