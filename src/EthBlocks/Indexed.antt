-- ===== src/EthBlocks/Indexed.antt =====
-- pkg/transformer/eth_getTransactionByBlockHashAndIndex.go and
-- eth_getTransactionByBlockNumberAndIndex.go: the transaction at an index of a block.
pub mod Known
use charon.Prelude.{
  ℕ, ◌^◌, ◌⊎◌, inl, inr, Bool, true, false, Option, none, some, List, Text, codes, text_eq,
  get_elem?, ltb, if◌then◌else◌, ℤ,
}
use charon.Rpc.{JsonRpcError, HexUtil, Node, new_callback_error, new_invalid_params_error}
use charon.Blocks.{get_block_number_by_param}
use charon.Lookups.{Failure, EthTransaction}
use charon.Lookups.ByHash.{Lookup}
use charon.EthBlocks.{BlockTransaction, BlockNode, get_block_by_hash}

abbrev pub or_null : Option BlockTransaction → Lookup BlockTransaction
or_null none = Lookup.null
or_null (some tx) = Lookup.result tx

-- An index of 2^63 or more is negative as an int, below every length.
unfoldable pub transaction_at : List BlockTransaction → ℕ → Lookup BlockTransaction
transaction_at txs i = if ltb i (2 ^ 63) then or_null (get_elem? txs i) else Lookup.panics

abbrev pub invalid_index : JsonRpcError
invalid_index = new_invalid_params_error (codes "invalid argument 1")

module _ (h : HexUtil) (get_transaction : Text → Lookup EthTransaction) (ignore_unknown_tx : Bool)
    (n : BlockNode) where
  -- `request` of eth_getTransactionByBlockHashAndIndex
  unfoldable pub by_block_hash_and_index : Text → Text → Lookup BlockTransaction
  by_block_hash_and_index block_hash index = elim (h.decode_uint64 index) [
    | inl e ↦ Lookup.refused invalid_index
    | inr i ↦
        elim (get_block_by_hash h.encode_uint64 get_transaction ignore_unknown_tx n block_hash
          true) [
            | (Lookup.result block) ↦ transaction_at block.transactions i
            | (Lookup.null) ↦ Lookup.null
            | (Lookup.refused e) ↦ Lookup.refused e
            | (Lookup.panics) ↦ Lookup.panics
            | (Lookup.out_of_fuel) ↦ Lookup.out_of_fuel
          ]
  ]

  abbrev pub empty_hex : JsonRpcError
  empty_hex = new_invalid_params_error (codes "invalid argument 0: empty hex string")

  -- `Request` of it, with the two parameters or the message of the decoder.
  unfoldable pub handle_by_block_hash_and_index : Text ⊎ (Text × Text) → Lookup BlockTransaction
  handle_by_block_hash_and_index (inl e) = Lookup.refused (new_invalid_params_error e)
  handle_by_block_hash_and_index (inr (block_hash, index)) =
      if text_eq block_hash (codes "")
      then Lookup.refused empty_hex
      else by_block_hash_and_index block_hash index

  -- `request` of eth_getTransactionByBlockNumberAndIndex, with `proxyETHGetBlockByHash`.
  unfoldable pub by_block_number_and_index : Node → Text → Text → Lookup BlockTransaction
  by_block_number_and_index node param index = elim (h.decode_uint64 index) [
    | inl e ↦ Lookup.refused invalid_index
    | inr i ↦ elim (get_block_number_by_param h node param false) [
      | inl e ↦ Lookup.refused (new_callback_error (codes "couldn't get block number by parameter"))
      | inr number ↦ elim (n.get_block_hash number) [
        | inl (Failure.invalid_parameter) ↦ Lookup.null
        | inl _ ↦ Lookup.refused (new_callback_error (codes "couldn't get block hash"))
        | inr block_hash ↦ by_block_hash_and_index block_hash index
      ]
    ]
  ]

  -- `Request` of it, with the two parameters, or `none` where they do not decode.
  unfoldable pub handle_by_block_number_and_index :
      Node → Option (Text × Text) → Lookup BlockTransaction
  handle_by_block_number_and_index node none =
      Lookup.refused (new_invalid_params_error (codes "couldn't unmarshal request"))
  handle_by_block_number_and_index node (some (param, index)) =
      if text_eq param (codes "")
      then Lookup.refused empty_hex
      else by_block_number_and_index node param index
