-- ===== src/EthBlocks.antt =====
-- pkg/transformer/eth_getBlockByHash.go and eth_getBlockByNumber.go: the response for a block, the
-- two requests that run side by side for a hash, and the block of a number.

pub mod Found
pub mod Race
pub mod Handlers
pub mod Indexed
use charon.Prelude.{
  ℕ, suc, zero, ◌-◌, ◌⊎◌, inl, inr, Bool, true, false, Option, none, some, List, [], ◌∷◌, ◌++◌,
  Text, codes, length, ◌==◌, if◌then◌else◌, map, ℤ,
}
use charon.Hex.Prefix.{add_hex_prefix, remove_hex_prefix}
use charon.Rpc.{JsonRpcError, HexUtil, Node, new_callback_error, new_invalid_params_error}
use charon.Blocks.{get_block_number_by_raw_param}
use charon.Lookups.{Failure, TxBlock, TxNode, EthTransaction, zero_address}
use charon.Lookups.ByHash.{Lookup}

-- `GetBlockHeaderResponse`, as far as the code reads it; the difficulty, a float, stands as the
-- uint64 that it is converted to.
pub record BlockHeader : Type 0 where
  pub height : ℕ
  pub time : ℕ
  pub difficulty : ℕ
  pub hash_state_root : Text
  pub previous_blockhash : Text

-- `IsGenesisBlock`
unfoldable pub is_genesis_block : BlockHeader → Bool
is_genesis_block header = header.height == 0

-- A transaction of the response, whole or as its hash.
pub data BlockTransaction : Type 0 where
  whole : EthTransaction → BlockTransaction
  hash : Text → BlockTransaction

-- `GetBlockByHashResponse`, less what is constant: the logs' bloom filter, the extra data, the gas
-- used and the uncles.
pub record EthBlock : Type 0 where
  pub number : Text
  pub hash : Text
  pub parent_hash : Text
  pub nonce : Text
  pub size : Text
  pub miner : Text
  pub timestamp : Text
  pub transactions : List BlockTransaction
  pub state_root : Text
  pub transactions_root : Text
  pub receipts_root : Text
  pub difficulty : Text
  pub total_difficulty : Text
  pub gas_limit : Text

-- The calls of the node for a block; an error that is compared itself stands by its cause.
pub record BlockNode : Type 0 where
  pub get_block_header : Text → Failure ⊎ BlockHeader
  pub get_block : Text → Failure ⊎ TxBlock
  pub get_block_hash : ℤ → Failure ⊎ Text

-- `DefaultBlockGasLimit`
abbrev pub default_block_gas_limit : Text
default_block_gas_limit = codes "2625A00"

-- `fmt.Sprintf("%016v", s)`
unfoldable pub zeros : ℕ → Text
zeros zero = []
zeros (suc n) = b'0' ∷ zeros n

unfoldable pub pad_nonce : Text → Text
pad_nonce s = zeros (16 - length s) ++ s

-- `getTransactionByHash` and the encoder are parameters here, and `ignore_unknown_tx` is the flag.
module _ (encode_uint64 : ℕ → Text) (get_transaction : Text → Lookup EthTransaction)
    (ignore_unknown_tx : Bool) (n : BlockNode) where
  -- The response but for its transactions.
  unfoldable pub block_response : Text → BlockHeader → TxBlock → List BlockTransaction → EthBlock
  block_response block_hash header block transactions = record {
    number = encode_uint64 block.height;
    hash = add_hex_prefix block_hash;
    parent_hash =
        if is_genesis_block header
        then codes "0x0000000000000000000000000000000000000000000000000000000000000000"
        else add_hex_prefix header.previous_blockhash;
    nonce = add_hex_prefix (pad_nonce (remove_hex_prefix (encode_uint64 block.nonce)));
    size = encode_uint64 block.size;
    miner = add_hex_prefix zero_address;
    timestamp = encode_uint64 header.time;
    transactions = transactions;
    state_root = add_hex_prefix header.hash_state_root;
    transactions_root = add_hex_prefix block.merkleroot;
    receipts_root = add_hex_prefix block.merkleroot;
    difficulty = encode_uint64 header.difficulty;
    total_difficulty = encode_uint64 header.difficulty;
    gas_limit = add_hex_prefix default_block_gas_limit;
  }

  -- The loop over the hashes of a block of a height, with the transactions so far.
  unfoldable pub full_transactions :
      ℕ → List Text → List BlockTransaction → Lookup (List BlockTransaction)
  full_transactions height [] sofar = Lookup.result sofar
  full_transactions height (tx_hash ∷ hashes) sofar = elim (get_transaction tx_hash) [
    | (Lookup.refused e) ↦
        Lookup.refused (new_callback_error (codes "couldn't get transaction by hash"))
    | (Lookup.null) ↦
        let rest = full_transactions height hashes sofar in
        if height == 0
        then rest
        else if ignore_unknown_tx
        then rest
        else Lookup.refused
            (new_callback_error (codes "couldn't get transaction by hash included in a block"))
    | (Lookup.result tx) ↦
        full_transactions height hashes (sofar ++ (BlockTransaction.whole tx ∷ []))
    | (Lookup.panics) ↦ Lookup.panics
    | (Lookup.out_of_fuel) ↦ Lookup.out_of_fuel
  ]

  unfoldable pub block_transactions : Bool → TxBlock → Lookup (List BlockTransaction)
  block_transactions true block = full_transactions block.height block.txs []
  block_transactions false block =
      Lookup.result (map (λ tx_hash. BlockTransaction.hash (add_hex_prefix tx_hash)) block.txs)

  -- `request`, of the hash and whether the transactions are wanted whole.
  unfoldable pub get_block_by_hash : Text → Bool → Lookup EthBlock
  get_block_by_hash block_hash full = elim (n.get_block_header block_hash) [
    | inl (Failure.invalid_address) ↦ Lookup.null
    | inl _ ↦ Lookup.refused (new_callback_error (codes "couldn't get block header"))
    | inr header ↦ elim (n.get_block block_hash) [
      | inl e ↦ Lookup.refused (new_callback_error (codes "couldn't get block"))
      | inr block ↦ elim (block_transactions full block) [
        | (Lookup.result txs) ↦ Lookup.result (block_response block_hash header block txs)
        | (Lookup.null) ↦ Lookup.null
        | (Lookup.refused e) ↦ Lookup.refused e
        | (Lookup.panics) ↦ Lookup.panics
        | (Lookup.out_of_fuel) ↦ Lookup.out_of_fuel
      ]
    ]
  ]

  abbrev pub of_number : Lookup EthBlock → Lookup EthBlock
  of_number (Lookup.refused e) =
      Lookup.refused (new_callback_error (codes "couldn't get block by hash"))
  of_number (Lookup.result b) = Lookup.result b
  of_number Lookup.null = Lookup.null
  of_number Lookup.panics = Lookup.panics
  of_number Lookup.out_of_fuel = Lookup.out_of_fuel

  -- `request` of eth_getBlockByNumber, with `proxyETHGetBlockByHash`.
  unfoldable pub get_block_by_number : HexUtil → Node → Text → Bool → Lookup EthBlock
  get_block_by_number h node raw full = elim (get_block_number_by_raw_param h node raw false) [
    | inl e ↦ Lookup.refused (new_callback_error (codes "couldn't get block number by parameter"))
    | inr number ↦ elim (n.get_block_hash number) [
      | inl (Failure.invalid_parameter) ↦ Lookup.null
      | inl _ ↦ Lookup.refused (new_callback_error (codes "couldn't get block hash"))
      | inr block_hash ↦ of_number (get_block_by_hash block_hash full)
    ]
  ]
