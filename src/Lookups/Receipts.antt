-- ===== src/Lookups/Receipts.antt =====
-- pkg/transformer/eth_getTransactionReceipt.go.
use charon.Prelude.{
  ◌⊎◌, inl, inr, Bool, true, false, none, some, List, [], Text, codes, text_eq, if◌then◌else◌,
}
use charon.Hex.Prefix.{add_hex_prefix, add_hex_prefix_if_not_empty, remove_hex_prefix}
use charon.Rpc.{HexUtil, new_callback_error, new_invalid_params_error}
use charon.Logs.{TransactionReceipt}
use charon.Logs.Extract.{EthLog, extract_eth_logs_from_transaction_receipt}
use charon.Scripts.{is_contract_creation}
use charon.Lookups.{Failure, failure_message, TxNode, EthTransaction}
use charon.Lookups.Rewards.{get_reward_transaction_by_hash}
use charon.Lookups.ByHash.{Lookup}

-- `GetTransactionReceiptResponse`, less the bloom filter, which is constant, and the effective price
-- of gas, which is 0.
pub record EthReceipt : Type 0 where
  pub transaction_hash : Text
  pub transaction_index : Text
  pub block_hash : Text
  pub block_number : Text
  pub from : Text
  pub to : Text
  pub cumulative_gas_used : Text
  pub gas_used : Text
  pub contract_address : Text
  pub logs : List EthLog
  pub status : Text

abbrev pub non_contract_vm_gas_limit : Text
non_contract_vm_gas_limit = codes "0x55f0"

-- The receipt that is made up for a reward.
unfoldable pub reward_receipt : EthTransaction → EthReceipt
reward_receipt t = record {
  transaction_hash = t.hash;
  transaction_index = t.transaction_index;
  block_hash = t.block_hash;
  block_number = t.block_number;
  from = t.from;
  to = t.to;
  cumulative_gas_used = non_contract_vm_gas_limit;
  gas_used = non_contract_vm_gas_limit;
  contract_address = [];
  logs = [];
  status = codes "0x1";
}

module _ {D : Type 0} (h : HexUtil) (n : TxNode D)
    (get_transaction_receipt : Text → Failure ⊎ TransactionReceipt) where
  -- Where the node has no receipt.
  unfoldable pub without_receipt : Failure → Text → Lookup EthReceipt
  without_receipt e hash = elim (get_reward_transaction_by_hash h.encode_uint64 n hash) [
    | inl _ ↦ elim e [
      | Failure.empty_response ↦ Lookup.null
      | other_failure ↦ Lookup.refused (new_callback_error (failure_message other_failure))
    ]
    | inr (none, raw) ↦ Lookup.null
    | inr (some t, raw) ↦ Lookup.result (reward_receipt t)
  ]

  -- The response before it is known whether a contract was created.
  unfoldable pub to_eth_receipt : TransactionReceipt → EthReceipt
  to_eth_receipt r = record {
    transaction_hash = add_hex_prefix r.transaction_hash;
    transaction_index = h.encode_uint64 r.transaction_index;
    block_hash = add_hex_prefix r.block_hash;
    block_number = h.encode_uint64 r.block_number;
    from = add_hex_prefix_if_not_empty r.from;
    to = add_hex_prefix_if_not_empty r.to;
    cumulative_gas_used = h.encode_uint64 r.cumulative_gas_used;
    gas_used = h.encode_uint64 r.gas_used;
    contract_address = add_hex_prefix_if_not_empty r.contract_address;
    logs = extract_eth_logs_from_transaction_receipt h r r.logs;
    status = if text_eq r.excepted (codes "None") then codes "0x1" else codes "0x0";
  }

  -- A creation has no receiver, and any other transaction no contract.
  unfoldable pub created_or_called : Bool → EthReceipt → EthReceipt
  created_or_called true r = record r { to = [] }
  created_or_called false r = record r { contract_address = [] }

  unfoldable pub with_receipt : TransactionReceipt → Lookup EthReceipt
  with_receipt r = elim (n.get_raw_transaction r.transaction_hash) [
    | inl e ↦ Lookup.refused (new_callback_error (codes "couldn't get transaction"))
    | inr raw ↦ elim (n.decode_raw_transaction raw.hex) [
      | inl e ↦ Lookup.refused (new_callback_error (codes "couldn't decode raw transaction"))
      | inr decoded ↦
          Lookup.result (created_or_called (is_contract_creation decoded.vouts) (to_eth_receipt r))
    ]
  ]

  unfoldable pub get_receipt : Text → Lookup EthReceipt
  get_receipt hash = elim (get_transaction_receipt hash) [
    | inl e ↦ without_receipt e hash
    | inr r ↦ with_receipt r
  ]

  -- The handler, with the hash or the message of the decoder.
  unfoldable pub request_get_transaction_receipt : Text ⊎ Text → Lookup EthReceipt
  request_get_transaction_receipt (inl e) = Lookup.refused (new_invalid_params_error e)
  request_get_transaction_receipt (inr hash) =
      if text_eq hash []
      then Lookup.refused (new_invalid_params_error (codes "empty transaction hash"))
      else get_receipt (remove_hex_prefix hash)
