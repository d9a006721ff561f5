-- ===== src/Params/Optional.antt =====
-- The requests of pkg/eth/rpc_types.go whose parameters may be left out: `json.Unmarshal` into a
-- slice of pointers to the fields, into an array and into a slice of strings.
use charon.Prelude.{◌⊎◌, inr, Option, none, some, List, [], ◌∷◌, Text, codes}
use charon.Params.{◌>>=◌, Json, unmarshal_slice, unmarshal_string, unmarshal_strings, interfaces}

-- An element with a place for it, which stays empty where there is no such element.
unfoldable pub text_or_empty : List Json → Text ⊎ (Text × List Json)
text_or_empty [] = inr ([], [])
text_or_empty (v ∷ vs) = do s ← unmarshal_string v; inr (s, vs)

-- The raw message of the next element; `null` clears the pointer and leaves the field without one.
abbrev raw_or_none : List Json → Option Json
raw_or_none [] = none
raw_or_none (Json.null ∷ vs) = none
raw_or_none (v ∷ vs) = some v

pub record GetBalanceRequest : Type 0 where
  pub address : Text
  pub block : Option Json

unfoldable pub balance_params : List Json → Text ⊎ GetBalanceRequest
balance_params vs = do
  (a, ws) ← text_or_empty vs
  inr (record { address = a; block = raw_or_none ws })

unfoldable pub unmarshal_balance : Json → Text ⊎ GetBalanceRequest
unmarshal_balance v = unmarshal_slice interfaces v >>= balance_params

pub record GetStorageRequest : Type 0 where
  pub address : Text
  pub index : Text
  pub block_number : Text

-- A value of the wrong kind is left out and the others are decoded, but the error is returned.
unfoldable pub storage_params : List Json → Text ⊎ GetStorageRequest
storage_params vs = do
  (a, ws) ← text_or_empty vs
  (i, us) ← text_or_empty ws
  (b, _) ← text_or_empty us
  inr (record { address = a; index = i; block_number = b })

unfoldable pub unmarshal_storage : Json → Text ⊎ GetStorageRequest
unmarshal_storage v = unmarshal_slice interfaces v >>= storage_params

-- `SendRawTransactionRequest`, an array of one string; further elements are skipped.
unfoldable pub raw_transaction_params : List Json → Text ⊎ Text
raw_transaction_params vs = do (s, _) ← text_or_empty vs; inr s

unfoldable pub unmarshal_raw_transaction : Json → Text ⊎ Text
unmarshal_raw_transaction v = unmarshal_slice (codes "[1]string") v >>= raw_transaction_params

-- `EthUnsubscribeRequest`
unfoldable pub unmarshal_unsubscribe : Json → Text ⊎ List Text
unfolding unmarshal_strings
unmarshal_unsubscribe v = unmarshal_strings v
