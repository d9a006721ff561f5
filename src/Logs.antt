-- ===== src/Logs.antt =====
-- The logs of pkg/revo/rpc_types.go and pkg/eth/rpc_types.go, and what pkg/conversion/util.go and
-- pkg/eth/util.go do with them.
pub mod Topics
pub mod Match
pub mod Search
pub mod Extract
use charon.Prelude.{ℕ, ℤ, Text, List}

-- `revo.Log`; `index` is not part of the JSON, so a decoded log has index 0.
pub record Log : Type 0 where
  pub address : Text
  pub topics : List Text
  pub data_hex : Text
  pub index : ℕ

-- `revo.SearchLogsTopic`: the alternatives for one position, none of them for any topic.
abbrev pub SearchLogsTopic : Type 0
SearchLogsTopic = List Text

-- `revo.TransactionReceipt`
pub record TransactionReceipt : Type 0 where
  pub block_hash : Text
  pub block_number : ℕ
  pub transaction_hash : Text
  pub transaction_index : ℕ
  pub from : Text
  pub to : Text
  pub cumulative_gas_used : ℕ
  pub gas_used : ℕ
  pub contract_address : Text
  pub excepted : Text
  pub logs : List Log

-- `revo.SearchLogsRequest`, without the confirmations that nothing sets.
pub record SearchLogsRequest : Type 0 where
  pub from_block : ℤ
  pub to_block : ℤ
  pub addresses : List Text
  pub topics : List SearchLogsTopic
