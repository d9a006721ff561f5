-- ===== src/Logs/Extract.antt =====
-- pkg/conversion/util.go, `ExtractETHLogsFromTransactionReceipt`.
use charon.Prelude.{List, [], ◌∷◌, ◌++◌, Text, map}
use charon.Rpc.{HexUtil}
use charon.Hex.Prefix.{add_hex_prefix}
use charon.Logs.{Log, TransactionReceipt}

-- `eth.Log`; `Removed` and `Type` are never set.
pub record EthLog : Type 0 where
  pub log_index : Text
  pub transaction_index : Text
  pub transaction_hash : Text
  pub block_hash : Text
  pub block_number : Text
  pub address : Text
  pub data_hex : Text
  pub topics : List Text

module _ (h : HexUtil) where
  unfoldable pub extract_log : TransactionReceipt → Log → EthLog
  extract_log block_data log = record {
    transaction_hash = add_hex_prefix block_data.transaction_hash;
    transaction_index = h.encode_uint64 block_data.transaction_index;
    block_hash = add_hex_prefix block_data.block_hash;
    block_number = h.encode_uint64 block_data.block_number;
    data_hex = add_hex_prefix log.data_hex;
    address = add_hex_prefix log.address;
    topics = map add_hex_prefix log.topics;
    log_index = h.encode_uint64 log.index;
  }

  -- The loop over the logs.
  unfoldable pub extract_from : TransactionReceipt → List Log → List EthLog → List EthLog
  extract_from block_data [] result = result
  extract_from block_data (log ∷ logs) result =
      extract_from block_data logs (result ++ (extract_log block_data log ∷ []))

  unfoldable pub extract_eth_logs_from_transaction_receipt :
      TransactionReceipt → List Log → List EthLog
  extract_eth_logs_from_transaction_receipt block_data logs = extract_from block_data logs []
