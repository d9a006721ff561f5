-- ===== src/Tests/EthBlocks.antt =====
-- Blocks at concrete inputs.
use charon.EthBlocks.Indexed.{by_block_hash_and_index}
use charon.EthBlocks.Indexed.Known.{AreKnown, looked_up, by_index_lem}
use charon.Rpc.{HexUtil, JsonRpcError, new_callback_error}
use charon.Prelude.{
  ◌^◌, ltb, get_elem?, inl, if◌then◌else◌, ℕ, ◌≡◌, ◌↔◌, ◌⊎◌, refl, inr, true, false, Option, some,
  [], ◌∷◌, Text, codes, text_eq, has_prefix,
}
use charon.Hex.Prefix.{remove_hex_prefix}
use charon.Lookups.{TxBlock, EthTransaction}
use charon.Lookups.ByHash.{Lookup, plain_transaction}
use charon.EthBlocks.{
  BlockHeader, BlockTransaction, EthBlock, BlockNode, get_block_by_hash, block_transactions,
  full_transactions, block_response,
}
use charon.EthBlocks.Found.{found, IsComplete, block_transactions_lem}
use charon.EthBlocks.Race.{
  Ending, receive, wait_for_second, offered, backup_of, request_get_block_by_hash, main_of,
  second_of, IsRefused, make_good, request_hangs_iff, request_made_good,
}

abbrev failed : JsonRpcError
failed = new_callback_error (codes "couldn't get block header")

-- The node fails for one hash and does not know the other, that of the database.
abbrev unknown_backup : Text → Lookup ℕ
unknown_backup hash = if text_eq hash (codes "aa") then Lookup.refused failed else Lookup.null

abbrev known_backup : Text → Lookup ℕ
known_backup hash = if text_eq hash (codes "aa") then Lookup.refused failed else Lookup.result 7

abbrev database : Text → Option (Text ⊎ Option Text)
database hash = some (inr (some (codes "0xbb")))

request_hangs_iff_example :
    (request_get_block_by_hash unknown_backup database false (codes "0xaa") ≡ Ending.hangs) ↔ (
      (false ≡ false)
      × (second_of unknown_backup database (codes "0xaa") ≡ some Lookup.null)
      × IsRefused unknown_backup database (main_of unknown_backup database (codes "0xaa")))
request_hangs_iff_example = request_hangs_iff unknown_backup database false (codes "0xaa")

hangs : request_get_block_by_hash unknown_backup database false (codes "0xaa") ≡ Ending.hangs
unfolding request_get_block_by_hash receive wait_for_second offered backup_of text_eq
    remove_hex_prefix has_prefix
hangs = refl

request_made_good_example :
    request_get_block_by_hash known_backup database false (codes "0xaa")
    ≡ Ending.answers (
        make_good known_backup database
          (second_of known_backup database (codes "0xaa"))
          (main_of known_backup database (codes "0xaa")))
unfolding backup_of text_eq remove_hex_prefix has_prefix
request_made_good_example =
    request_made_good known_backup database false (codes "0xaa") (inr (failed, refl))
      (inr (λ h. cc))

abbrev encode : ℕ → Text
encode n = codes "0x1"

abbrev transaction_of : Text → Lookup EthTransaction
transaction_of hash =
    if text_eq hash (codes "t1") then Lookup.result (plain_transaction hash) else Lookup.null

abbrev header : BlockHeader
header = record {
  height = 5;
  time = 1;
  difficulty = 1;
  hash_state_root = codes "5a";
  previous_blockhash = codes "b4";
}

abbrev block : TxBlock
block = record {
  height = 5;
  nonce = 66;
  size = 100;
  merkleroot = codes "3e";
  txs = codes "t0" ∷ codes "t1" ∷ [];
}

abbrev node : BlockNode
node = record {
  get_block_header = λ hash. inr header;
  get_block = λ hash. inr block;
  get_block_hash = λ number. inr (codes "b5");
}

abbrev response : EthBlock
response =
    block_response encode transaction_of true node (codes "b5") header block
      (BlockTransaction.whole (plain_transaction (codes "t1")) ∷ [])

block_transactions_lem_example :
    (answered : TxBlock) × (node.get_block (codes "b5") ≡ inr answered)
    × (response.transactions ≡ found encode transaction_of true node answered.txs)
    × IsComplete encode transaction_of true node answered.height answered.txs response.transactions
unfolding get_block_by_hash block_response block_transactions full_transactions text_eq
block_transactions_lem_example =
    block_transactions_lem encode transaction_of true node (codes "b5") response refl

abbrev hex : HexUtil
hex = record {
  encode_uint64 = encode;
  decode_uint64 = λ s. inr (if text_eq s (codes "0x0") then 0 else 2 ^ 63);
  decode_big = λ s. inl (codes "none");
}

abbrev known_node : BlockNode
known_node = record node { get_block = λ hash. inr (record block { txs = codes "t1" ∷ [] }) }

by_index_lem_example :
    by_block_hash_and_index hex transaction_of true known_node (codes "b5") (codes "0x0") ≡ (
      if ltb 0 (2 ^ 63)
      then looked_up hex transaction_of true known_node (get_elem? (codes "t1" ∷ []) 0)
      else Lookup.panics)
unfolding text_eq
by_index_lem_example =
    by_index_lem hex transaction_of true known_node (codes "b5") (codes "0x0") 0 header
      (record block { txs = codes "t1" ∷ [] }) refl refl refl
      (AreKnown.one_more (plain_transaction (codes "t1")) refl AreKnown.none_left)
