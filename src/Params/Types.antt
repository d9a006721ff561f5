-- ===== src/Params/Types.antt =====
-- What parameters the decoders accept.
use charon.Prelude.{codes, ◌≡◌, ◌↔◌, refl, sym, ◌∙◌, true, List, [], ◌∷◌, Text}
use charon.Params.{
  interfaces, Json, succeeds, unmarshal_texts, unmarshal_strings, string_at, bool_at,
}
use charon.Params.Positional.{
  json_unmarshalling, parameters, data_note, message_at, account_at, sign_params, unmarshal_sign,
  by_hash_params, unmarshal_by_hash, by_block_hash_params, unmarshal_by_block_hash_and_index,
  by_block_number_params, unmarshal_by_block_number_and_index, first_text, unmarshal_receipt,
  unmarshal_uninstall_filter, unmarshal_filter_changes, get_code_params, unmarshal_get_code,
  block_by_number_params, unmarshal_block_by_number, block_by_hash_params, unmarshal_block_by_hash,
  sha3_params, unmarshal_sha3,
}
use charon.Params.Optional.{
  balance_params, unmarshal_balance, storage_params, unmarshal_storage, raw_transaction_params,
  unmarshal_raw_transaction, unmarshal_unsubscribe,
}
use charon.Params.Shapes.{
  text, nullable_text, message, anything, optional, rest, IsTyped, fits, has_types, is_typed,
  is_typed_iff,
}
use charon.Params.Kinds.{Kind, unmarshal, signature}
use charon.Params.Steps.{
  succeeds-string_at, succeeds-bool_at, succeeds-unmarshal_texts, slice_typed, wrapped_typed,
  texts_typed, false_behind, false_behind_two, true_behind, rest_anything, succeeds-account_at,
  succeeds-message_at, succeeds-transaction_hash_at, pair_typed, optional_typed,
}

module _ (hex_error : Text → Text) where
  sign_typed :
      (vs : List Json) → succeeds (sign_params hex_error vs) ≡ has_types (signature Kind.sign) vs
  unfolding sign_params
  sign_typed [] = refl
  sign_typed (a ∷ []) = false_behind (fits text a)
  sign_typed (a ∷ b ∷ []) =
      pair_typed (account_at a) (message_at hex_error b) _ _ _ _ (succeeds-account_at a)
        (succeeds-message_at hex_error b) refl
  sign_typed (a ∷ b ∷ c ∷ vs) = false_behind_two (fits text a) (fits message b)

by_hash_typed :
    (vs : List Json) → succeeds (by_hash_params vs) ≡ has_types (signature Kind.by_hash) vs
unfolding by_hash_params
by_hash_typed [] = refl
by_hash_typed (a ∷ []) = succeeds-transaction_hash_at a ∙ true_behind (fits text a)
by_hash_typed (a ∷ b ∷ vs) = false_behind (fits text a)

by_block_hash_typed :
    (vs : List Json)
    → succeeds (by_block_hash_params vs) ≡ has_types (signature Kind.by_block_hash_and_index) vs
unfolding by_block_hash_params
by_block_hash_typed [] = refl
by_block_hash_typed (a ∷ []) = false_behind (fits text a)
by_block_hash_typed (a ∷ b ∷ []) =
    pair_typed (string_at 1 a) (string_at 2 b) _ _ _ _ (succeeds-string_at 1 a)
      (succeeds-string_at 2 b) refl
by_block_hash_typed (a ∷ b ∷ c ∷ vs) = false_behind_two (fits text a) (fits text b)

by_block_number_typed :
    (vs : List Json)
    → succeeds (by_block_number_params vs) ≡ has_types (signature Kind.by_block_number_and_index) vs
unfolding by_block_number_params
by_block_number_typed [] = refl
by_block_number_typed (a ∷ []) = false_behind (fits text a)
by_block_number_typed (a ∷ b ∷ []) =
    pair_typed (string_at 1 a) (string_at 2 b) _ _ _ _ (succeeds-string_at 1 a)
      (succeeds-string_at 2 b) refl
by_block_number_typed (a ∷ b ∷ c ∷ vs) = false_behind_two (fits text a) (fits text b)

block_by_number_typed :
    (vs : List Json)
    → succeeds (block_by_number_params vs) ≡ has_types (signature Kind.block_by_number) vs
unfolding block_by_number_params
block_by_number_typed [] = refl
block_by_number_typed (a ∷ []) = false_behind (fits text a)
block_by_number_typed (a ∷ b ∷ vs) =
    pair_typed (string_at 1 a) (bool_at 2 b) _ _ _ _ (succeeds-string_at 1 a) (succeeds-bool_at 2 b)
      (rest_anything vs)

block_by_hash_typed :
    (vs : List Json)
    → succeeds (block_by_hash_params vs) ≡ has_types (signature Kind.block_by_hash) vs
unfolding block_by_hash_params
block_by_hash_typed [] = refl
block_by_hash_typed (a ∷ []) = false_behind (fits text a)
block_by_hash_typed (a ∷ b ∷ vs) =
    pair_typed (string_at 1 a) (bool_at 2 b) _ _ _ _ (succeeds-string_at 1 a) (succeeds-bool_at 2 b)
      (rest_anything vs)

sha3_typed : (vs : List Json) → succeeds (sha3_params vs) ≡ has_types (signature Kind.sha3) vs
unfolding sha3_params
sha3_typed [] = refl
sha3_typed (a ∷ []) = succeeds-string_at 1 a ∙ true_behind (fits text a)
sha3_typed (a ∷ b ∷ vs) = false_behind (fits text a)

balance_typed :
    (vs : List Json) → succeeds (balance_params vs) ≡ has_types (signature Kind.balance) vs
unfolding balance_params
balance_typed vs = optional_typed (rest anything) _ vs (λ t ws. sym (rest_anything ws)) refl

raw_transaction_typed :
    (vs : List Json)
    → succeeds (raw_transaction_params vs) ≡ has_types (signature Kind.raw_transaction) vs
unfolding raw_transaction_params
raw_transaction_typed vs = optional_typed (rest anything) _ vs (λ t ws. sym (rest_anything ws)) refl

storage_typed :
    (vs : List Json) → succeeds (storage_params vs) ≡ has_types (signature Kind.storage) vs
unfolding storage_params
storage_typed vs =
    optional_typed (optional nullable_text (optional nullable_text (rest anything))) _ vs
      (λ t ws.
        optional_typed (optional nullable_text (rest anything)) _ ws
          (λ t' us. optional_typed (rest anything) _ us (λ t'' us'. sym (rest_anything us')) refl)
          refl)
      refl

-- What the decoders accept, as tests.
accepted :
    (hex_error : Text → Text) (k : Kind) (v : Json)
    → succeeds (unmarshal hex_error k v) ≡ is_typed (signature k) v
unfolding unmarshal unmarshal_sign unmarshal_by_hash unmarshal_by_block_hash_and_index
    unmarshal_by_block_number_and_index unmarshal_receipt unmarshal_uninstall_filter
    unmarshal_filter_changes unmarshal_get_code unmarshal_block_by_number unmarshal_block_by_hash
    unmarshal_sha3 unmarshal_balance unmarshal_storage unmarshal_raw_transaction
    unmarshal_unsubscribe unmarshal_strings first_text get_code_params
accepted hex_error Kind.sign v =
    wrapped_typed (signature Kind.sign) (sign_params hex_error) json_unmarshalling interfaces v
      (sign_typed hex_error)
accepted hex_error Kind.by_hash v =
    slice_typed (signature Kind.by_hash) by_hash_params interfaces v by_hash_typed
accepted hex_error Kind.by_block_hash_and_index v =
    wrapped_typed (signature Kind.by_block_hash_and_index) by_block_hash_params parameters
      interfaces v by_block_hash_typed
accepted hex_error Kind.by_block_number_and_index v =
    wrapped_typed (signature Kind.by_block_number_and_index) by_block_number_params parameters
      interfaces v by_block_number_typed
accepted hex_error Kind.receipt v = texts_typed first_text json_unmarshalling v refl (λ s ss. refl)
accepted hex_error Kind.uninstall_filter v =
    texts_typed first_text json_unmarshalling v refl (λ s ss. refl)
accepted hex_error Kind.filter_changes v =
    texts_typed first_text json_unmarshalling v refl (λ s ss. refl)
accepted hex_error Kind.get_code v =
    texts_typed get_code_params json_unmarshalling v refl code_succeeds
  where
    code_succeeds : (s : Text) (ss : List Text) → succeeds (get_code_params (s ∷ ss)) ≡ true
    code_succeeds s [] = refl
    code_succeeds s (t ∷ ss) = refl
accepted hex_error Kind.block_by_number v =
    wrapped_typed (signature Kind.block_by_number) block_by_number_params data_note interfaces v
      block_by_number_typed
accepted hex_error Kind.block_by_hash v =
    wrapped_typed (signature Kind.block_by_hash) block_by_hash_params parameters interfaces v
      block_by_hash_typed
accepted hex_error Kind.sha3 v =
    wrapped_typed (signature Kind.sha3) sha3_params parameters interfaces v sha3_typed
accepted hex_error Kind.balance v =
    slice_typed (signature Kind.balance) balance_params interfaces v balance_typed
accepted hex_error Kind.storage v =
    slice_typed (signature Kind.storage) storage_params interfaces v storage_typed
accepted hex_error Kind.raw_transaction v =
    slice_typed (signature Kind.raw_transaction) raw_transaction_params (codes "[1]string") v
      raw_transaction_typed
accepted hex_error Kind.eth_unsubscribe v =
    slice_typed (signature Kind.eth_unsubscribe) unmarshal_texts (codes "[]string") v
      succeeds-unmarshal_texts

-- A decoder of a request with positional parameters succeeds just where the parameters are an
-- array, or null, that has the declared shape: as many values as there must and may be, each of its
-- type.
pub unmarshal_iff_IsTyped :
    (hex_error : Text → Text) (k : Kind) (v : Json)
    → (succeeds (unmarshal hex_error k v) ≡ true) ↔ IsTyped (signature k) v
unmarshal_iff_IsTyped hex_error k v = rw (accepted hex_error k v) (is_typed_iff (signature k) v)
