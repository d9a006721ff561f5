-- ===== src/EthBlocks/Handlers.antt =====
-- pkg/transformer/eth_getBlockByHash.go and eth_getBlockByNumber.go: the handlers, with the look up of
-- their transactions at the same node.
use charon.Prelude.{ℕ, ◌⊎◌, inl, inr, Bool, Option, Text, ℤ}
use charon.Rpc.{HexUtil, Node, new_invalid_params_error}
use charon.Amounts.{Decimals, BigHex}
use charon.Lookups.{Failure, TxNode}
use charon.Lookups.ByHash.{Lookup, get_transaction_by_hash}
use charon.EthBlocks.{BlockHeader, BlockNode, EthBlock, get_block_by_hash, get_block_by_number}
use charon.EthBlocks.Race.{Ending, request_get_block_by_hash}

module _ {D : Type 0} (d : Decimals D) (b : BigHex) (h : HexUtil)
    (convert disasm_script : Text → Text ⊎ Text) (n : TxNode D) (fuel : ℕ)
    (get_block_header : Text → Failure ⊎ BlockHeader) (get_block_hash : ℤ → Failure ⊎ Text)
    (ignore_unknown_tx : Bool) where
  abbrev pub block_node : BlockNode
  block_node = record {
    get_block_header = get_block_header;
    get_block = n.get_block;
    get_block_hash = get_block_hash;
  }

  -- `Request` of eth_getBlockByHash, of the hash and whether the transactions are wanted whole.
  unfoldable pub handle_get_block_by_hash :
      (Text → Option (Text ⊎ Option Text)) → Bool → Text ⊎ (Text × Bool) → Ending EthBlock
  handle_get_block_by_hash database main_first (inl e) =
      Ending.answers (Lookup.refused (new_invalid_params_error e))
  handle_get_block_by_hash database main_first (inr (block_hash, full)) =
      let tx = get_transaction_by_hash d b h.encode_uint64 convert disasm_script n fuel in
      request_get_block_by_hash
        (λ hash. get_block_by_hash h.encode_uint64 tx ignore_unknown_tx block_node hash full)
        database main_first block_hash

  -- `Request` of eth_getBlockByNumber
  unfoldable pub handle_get_block_by_number : Node → Text ⊎ (Text × Bool) → Lookup EthBlock
  handle_get_block_by_number node (inl e) = Lookup.refused (new_invalid_params_error e)
  handle_get_block_by_number node (inr (raw, full)) =
      let tx = get_transaction_by_hash d b h.encode_uint64 convert disasm_script n fuel in
      get_block_by_number h.encode_uint64 tx ignore_unknown_tx block_node h node raw full
