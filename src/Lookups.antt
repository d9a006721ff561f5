-- ===== src/Lookups.antt =====
-- The transactions that eth_getTransactionByHash and eth_getTransactionReceipt of pkg/transformer look
-- up: what the node tells of one (pkg/revo/rpc_types.go), and the response (pkg/eth/rpc_types.go).
pub mod Rewards
pub mod Totals
pub mod Values
pub mod Senders
pub mod Ends
pub mod ByHash
pub mod Receipts
use charon.Prelude.{
  ℕ, suc, ◌+◌, ◌⊎◌, inl, inr, Bool, true, false, Option, none, some, List, [], ◌∷◌, ◌++◌, Text,
  codes, text_eq, if◌then◌else◌,
}
use charon.Scripts.{DecodedOut}

-- The error of a call of the node, by its cause.
pub data Failure : Type 0 where
  invalid_address invalid_parameter empty_response : Failure
  other : Text → Failure

-- `Error`
abbrev pub failure_message : Failure → Text
failure_message Failure.invalid_address = codes "invalid address"
failure_message Failure.invalid_parameter = codes "invalid parameter"
failure_message Failure.empty_response = codes "result is empty"
failure_message (Failure.other e) = e

-- `RawTransactionVin`; an int64 stands as its 64 bits.
pub record Vin : Type 0 where
  pub id : Text
  pub vout_n : ℕ
  pub amount_satoshi : ℕ
  pub address : Text
  pub script_asm : Text

-- `RawTransactionVout` with its details.
pub record Vout : Type 0 where
  pub amount_satoshi : ℕ
  pub address : Text
  pub addresses : List Text
  pub hex : Text

-- `GetAddresses`
unfoldable pub get_addresses : Vout → List Text
get_addresses v = if text_eq v.address [] then v.addresses else v.address ∷ []

-- `GetRawTransactionResponse`
pub record RawTx : Type 0 where
  pub hex : Text
  pub id : Text
  pub block_hash : Text
  pub op_sender : Text
  pub vins : List Vin
  pub vouts : List Vout

-- `GetTransactionResponse`
pub record TxInfo : Type 0 where
  pub block_hash : Text
  pub block_index : ℕ
  pub hex : Text
  pub generated : Bool

-- `DecodedRawTransactionResponse`
pub record DecodedTx (D : Type 0) : Type 0 where
  pub id : Text
  pub vouts : List (DecodedOut D)

-- `GetBlockResponse`, as far as the code reads it; an int stands as its 64 bits.
pub record TxBlock : Type 0 where
  pub height : ℕ
  pub nonce : ℕ
  pub size : ℕ
  pub merkleroot : Text
  pub txs : List Text

-- `IsPending`, of both responses.
abbrev pub is_pending : Text → Bool
is_pending block_hash = text_eq block_hash []

-- The calls of the node; `get_transaction_out` gives only its error.
pub record TxNode (D : Type 0) : Type 0 where
  pub get_transaction : Text → Failure ⊎ TxInfo
  pub get_raw_transaction : Text → Failure ⊎ RawTx
  pub decode_raw_transaction : Text → Failure ⊎ DecodedTx D
  pub get_transaction_out : Text → ℕ → Bool → Option Failure
  pub get_block : Text → Failure ⊎ TxBlock
  pub base58_address_to_hex : Text → Failure ⊎ Text

-- `GetTransactionByHashResponse`, without the signature's constants.
pub record EthTransaction : Type 0 where
  pub block_hash : Text
  pub block_number : Text
  pub transaction_index : Text
  pub hash : Text
  pub nonce : Text
  pub value : Text
  pub input : Text
  pub from : Text
  pub to : Text
  pub gas : Text
  pub gas_price : Text

abbrev pub zero_address : Text
zero_address = codes "0000000000000000000000000000000000000000"

module _ {D : Type 0} (n : TxNode D) where
  unfoldable pub get_block_number_by_hash : Text → Failure ⊎ ℕ
  get_block_number_by_hash hash = elim (n.get_block hash) [
    | inl e ↦ inl e
    | inr block ↦ inr block.height
  ]

-- The place of a transaction in a list, from the place of its first.
unfoldable pub index_from : ℕ → Text → List Text → Failure ⊎ ℕ
index_from i hash [] = inl (Failure.other (codes "not found"))
index_from i hash (tx ∷ txs) =
    let rest = index_from (i + 1) hash txs in if text_eq hash tx then inr i else rest

module _ {D : Type 0} (n : TxNode D) where
  unfoldable pub get_transaction_index_in_block : Text → Text → Failure ⊎ ℕ
  get_transaction_index_in_block tx_hash block_hash = elim (n.get_block block_hash) [
    | inl e ↦ inl e
    | inr block ↦ index_from 0 tx_hash block.txs
  ]
