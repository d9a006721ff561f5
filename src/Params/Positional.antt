-- ===== src/Params/Positional.antt =====
-- The decoders of pkg/eth/rpc_types.go for methods whose parameters are told apart by their
-- position. `UnmarshalJSON` sets the fields of a request that is empty before.
use charon.Prelude.{
  ◌⊎◌, inl, inr, Bool, none, some, List, [], ◌∷◌, ◌++◌, Text, codes, has_prefix, if◌then◌else◌,
  length, pos,
}
use charon.Rpc.{wrap}
use charon.Amounts.{big_string}
use charon.Hex.Prefix.{hex_prefix, remove_hex_prefix}
use charon.Hex.Digits.{decode_string}
use charon.Params.{
  ◌>>=◌, Json, unmarshal_slice, unmarshal_strings, interfaces, go_type, string_at, bool_at,
}

-- `errors.Wrap` of the error, if there is one.
abbrev pub wrapped {ℓ} : {A : Type ℓ} → Text → Text ⊎ A → Text ⊎ A
wrapped message (inl e) = inl (wrap message e)
wrapped message (inr a) = inr a

abbrev params_must_be_set : Text
params_must_be_set = codes "params must be set"

abbrev pub json_unmarshalling : Text
json_unmarshalling = codes "json unmarshalling"

-- The spelling is the source's.
abbrev pub parameters : Text
parameters = codes "couldn't unmarhsal parameters"

abbrev pub data_note : Text
data_note = codes "couldn't unmarhsal data"

pub record SignRequest : Type 0 where
  pub account : Text
  pub message : Text

-- The bytes to be signed; the parameter has the message of the error that `hex.DecodeString` gives.
unfoldable pub message_bytes : (Text → Text) → Text → Text ⊎ Text
message_bytes hex_error s =
    if has_prefix s hex_prefix
    then (elim (decode_string (remove_hex_prefix s)) [
      | none ↦ inl (wrap (codes "invalid data format") (hex_error (remove_hex_prefix s)))
      | some msg ↦ inr msg
    ])
    else inr s

unfoldable pub message_at : (Text → Text) → Json → Text ⊎ Text
message_at hex_error (Json.string s) = message_bytes hex_error s
message_at hex_error v = inl (codes "data should be a hex string")

unfoldable pub account_at : Json → Text ⊎ Text
account_at (Json.string account) = inr account
account_at v = inl (codes "account address should be a hex string")

unfoldable pub sign_params : (Text → Text) → List Json → Text ⊎ SignRequest
sign_params hex_error (a ∷ d ∷ []) = do
  account ← account_at a
  msg ← message_at hex_error d
  inr (record { account = account; message = msg })
sign_params hex_error _ = inl (codes "expects 2 arguments")

unfoldable pub unmarshal_sign : (Text → Text) → Json → Text ⊎ SignRequest
unmarshal_sign hex_error v =
    wrapped json_unmarshalling (unmarshal_slice interfaces v) >>= sign_params hex_error

unfoldable pub transaction_hash_at : Json → Text ⊎ Text
transaction_hash_at (Json.string t) = inr t
transaction_hash_at v =
    inl (codes "invalid parameter type " ++ (go_type v ++ codes ", but string is expected"))

unfoldable pub by_hash_params : List Json → Text ⊎ Text
by_hash_params (v ∷ []) = transaction_hash_at v
by_hash_params vs =
    inl (codes "invalid parameters number - " ++ (big_string (pos (length vs)) ++ codes "/1"))

-- `GetTransactionByHashRequest`
unfoldable pub unmarshal_by_hash : Json → Text ⊎ Text
unmarshal_by_hash v = unmarshal_slice interfaces v >>= by_hash_params

pub record GetTransactionByBlockHashAndIndex : Type 0 where
  pub block_hash : Text
  pub transaction_index : Text

pub record GetTransactionByBlockNumberAndIndex : Type 0 where
  pub block_number : Text
  pub transaction_index : Text

abbrev missing_value_0 : Text
missing_value_0 = codes "missing value for required argument 0"

unfoldable pub by_block_hash_params : List Json → Text ⊎ GetTransactionByBlockHashAndIndex
by_block_hash_params [] = inl missing_value_0
by_block_hash_params (a ∷ []) = inl (codes "missing value for required argument 1")
by_block_hash_params (a ∷ b ∷ []) = do
  hash ← string_at 1 a
  index ← string_at 2 b
  inr (record { block_hash = hash; transaction_index = index })
by_block_hash_params (a ∷ b ∷ c ∷ vs) = inl (codes "too many arguments, want at most 2")

unfoldable pub unmarshal_by_block_hash_and_index : Json → Text ⊎ GetTransactionByBlockHashAndIndex
unmarshal_by_block_hash_and_index v =
    wrapped parameters (unmarshal_slice interfaces v) >>= by_block_hash_params

unfoldable pub by_block_number_params : List Json → Text ⊎ GetTransactionByBlockNumberAndIndex
by_block_number_params [] = inl missing_value_0
by_block_number_params (a ∷ []) = inl (codes "missing value for required argument 1")
by_block_number_params (a ∷ b ∷ []) = do
  number ← string_at 1 a
  index ← string_at 2 b
  inr (record { block_number = number; transaction_index = index })
by_block_number_params (a ∷ b ∷ c ∷ vs) = inl (codes "too many arguments, want at most 2")

unfoldable pub unmarshal_by_block_number_and_index :
    Json → Text ⊎ GetTransactionByBlockNumberAndIndex
unmarshal_by_block_number_and_index v =
    wrapped parameters (unmarshal_slice interfaces v) >>= by_block_number_params

-- The first of the texts, where there must be one.
unfoldable pub first_text : List Text → Text ⊎ Text
first_text [] = inl params_must_be_set
first_text (s ∷ ss) = inr s

-- `GetTransactionReceiptRequest`
unfoldable pub unmarshal_receipt : Json → Text ⊎ Text
unmarshal_receipt v = wrapped json_unmarshalling (unmarshal_strings v) >>= first_text

-- `UninstallFilterRequest`
unfoldable pub unmarshal_uninstall_filter : Json → Text ⊎ Text
unmarshal_uninstall_filter v = wrapped json_unmarshalling (unmarshal_strings v) >>= first_text

-- `GetFilterChangesRequest`
unfoldable pub unmarshal_filter_changes : Json → Text ⊎ Text
unmarshal_filter_changes v = wrapped json_unmarshalling (unmarshal_strings v) >>= first_text

pub record GetCodeRequest : Type 0 where
  pub address : Text
  pub block_number : Text

unfoldable pub get_code_params : List Text → Text ⊎ GetCodeRequest
get_code_params [] = inl params_must_be_set
get_code_params (a ∷ []) = inr (record { address = a; block_number = [] })
get_code_params (a ∷ b ∷ ss) = inr (record { address = a; block_number = b })

unfoldable pub unmarshal_get_code : Json → Text ⊎ GetCodeRequest
unmarshal_get_code v = wrapped json_unmarshalling (unmarshal_strings v) >>= get_code_params

-- The block is the text that was sent, in quotation marks again.
pub record GetBlockByNumberRequest : Type 0 where
  pub block_number : Text
  pub full_transaction : Bool

pub record GetBlockByHashRequest : Type 0 where
  pub block_hash : Text
  pub full_transaction : Bool

-- Fewer than two parameters.
abbrev too_few : List Json → Text
too_few vs = codes "invalid parameters number - " ++ (big_string (pos (length vs)) ++ codes "/2")

unfoldable pub block_by_number_params : List Json → Text ⊎ GetBlockByNumberRequest
block_by_number_params (a ∷ b ∷ vs) = do
  number ← string_at 1 a
  full ← bool_at 2 b
  inr (record { block_number = codes "\"" ++ (number ++ codes "\""); full_transaction = full })
block_by_number_params vs = inl (too_few vs)

unfoldable pub unmarshal_block_by_number : Json → Text ⊎ GetBlockByNumberRequest
unmarshal_block_by_number v =
    wrapped data_note (unmarshal_slice interfaces v) >>= block_by_number_params

unfoldable pub block_by_hash_params : List Json → Text ⊎ GetBlockByHashRequest
block_by_hash_params (a ∷ b ∷ vs) = do
  hash ← string_at 1 a
  full ← bool_at 2 b
  inr (record { block_hash = hash; full_transaction = full })
block_by_hash_params vs = inl (too_few vs)

unfoldable pub unmarshal_block_by_hash : Json → Text ⊎ GetBlockByHashRequest
unmarshal_block_by_hash v =
    wrapped parameters (unmarshal_slice interfaces v) >>= block_by_hash_params

unfoldable pub sha3_params : List Json → Text ⊎ Text
sha3_params [] = inl missing_value_0
sha3_params (a ∷ []) = string_at 1 a
sha3_params (a ∷ b ∷ vs) = inl (codes "too many arguments, want at most 1")

-- `Web3Sha3Request`
unfoldable pub unmarshal_sha3 : Json → Text ⊎ Text
unmarshal_sha3 v = wrapped parameters (unmarshal_slice interfaces v) >>= sha3_params
