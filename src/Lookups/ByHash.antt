-- ===== src/Lookups/ByHash.antt =====
-- pkg/transformer/eth_getTransactionByHash.go: `getTransactionByHash` and the handler.
use charon.Prelude.{
  ℕ, ◌⊎◌, inl, inr, Bool, true, false, Option, none, some, List, [], ◌∷◌, ◌++◌, Text, codes,
  text_eq, if◌then◌else◌, pos,
}
use charon.Hex.Prefix.{add_hex_prefix, remove_hex_prefix, decode_big}
use charon.Rpc.{JsonRpcError, new_callback_error, new_invalid_params_error}
use charon.Amounts.{Decimals, BigHex, format_revo_amount}
use charon.Scripts.{ContractInvokeInfo, ContractInfo, DecodedOut, extract_contract_info, trim_zeros}
use charon.Lookups.{
  Failure, failure_message, TxInfo, DecodedTx, TxNode, EthTransaction, is_pending, zero_address,
  get_block_number_by_hash,
}
use charon.Lookups.Rewards.{get_reward_transaction_by_hash, convert_from_satoshi_to_wei}
use charon.Lookups.Senders.{
  Search, get_non_contract_tx_sender_address, find_non_contract_tx_receiver_address,
}

-- How a lookup ends; `out_of_fuel` is that of the search for a sender.
pub data Lookup {ℓ} (A : Type ℓ) : Type ℓ where
  result : A → Lookup A
  null : Lookup A
  refused : JsonRpcError → Lookup A
  panics out_of_fuel : Lookup A

infixl 5 ◌>>=◌
abbrev pub ◌>>=◌ : {A B : Type 0} → Lookup A → (A → Lookup B) → Lookup B
Lookup.result a >>= f = f a
Lookup.null >>= f = Lookup.null
Lookup.refused e >>= f = Lookup.refused e
Lookup.panics >>= f = Lookup.panics
Lookup.out_of_fuel >>= f = Lookup.out_of_fuel

abbrev pub or_refused : {A B : Type 0} → JsonRpcError → A ⊎ B → Lookup B
or_refused e (inl x) = Lookup.refused e
or_refused e (inr b) = Lookup.result b

-- The contract of a transaction, if it is one; nothing is known of one that only spends.
abbrev pub contract_info : ContractInfo → Option ContractInvokeInfo
contract_info (ContractInfo.contract info) = some info
contract_info ContractInfo.spends =
    some (record { from = []; gas_limit = []; gas_price = []; call_data = []; to = [] })
contract_info ContractInfo.unreadable = none
contract_info ContractInfo.no_contract = none

abbrev pub or_else_text : Text → Text → Text
or_else_text t other = if text_eq t [] then other else t

-- The transaction that the handler begins with where the node knows one.
abbrev pub plain_transaction : Text → EthTransaction
plain_transaction id = record {
  block_hash = [];
  block_number = [];
  transaction_index = [];
  hash = add_hex_prefix id;
  nonce = codes "0x0";
  value = [];
  input = [];
  from = [];
  to = [];
  gas = codes "0x0";
  gas_price = codes "0x0";
}

-- `CalcAmount`
unfoldable pub calc_amount : {D : Type 0} → Decimals D → D → List (DecodedOut D) → D
calc_amount d sum [] = sum
calc_amount d sum (out ∷ outs) = calc_amount d (d.add sum out.value) outs

module _ {D : Type 0} (d : Decimals D) (h : BigHex) (encode_uint64 : ℕ → Text)
    (convert disasm_script : Text → Text ⊎ Text) (n : TxNode D) (fuel : ℕ) where
  -- What the node knows of a hash: where it is not a transaction of the wallet, one is made up of
  -- the raw transaction, with the response for a reward if that could be put together.
  unfoldable pub known_transaction : Text → Lookup (Option EthTransaction × TxInfo)
  known_transaction hash = elim (n.get_transaction hash) [
    | inr info ↦ Lookup.result (none, info)
    | inl (Failure.invalid_address) ↦ elim (get_reward_transaction_by_hash encode_uint64 n hash) [
      | inr (tx, raw) ↦ Lookup.result (
        tx,
        record { block_hash = raw.block_hash; block_index = 0; hex = raw.hex; generated = false },
      )
      | inl (Failure.invalid_address) ↦ Lookup.null
      | inl _ ↦ elim (n.get_raw_transaction hash) [
        | inl (Failure.invalid_address) ↦ Lookup.null
        | inl e ↦ Lookup.refused (new_callback_error (failure_message e))
        | inr raw ↦ Lookup.result (
          none,
          record { block_hash = raw.block_hash; block_index = 1; hex = raw.hex; generated = false },
        )
      ]
    ]
    | inl e ↦ Lookup.refused (new_callback_error (failure_message e))
  ]

  -- The block of a transaction that is not pending.
  unfoldable pub with_block : TxInfo → EthTransaction → Lookup EthTransaction
  with_block info t =
      if is_pending info.block_hash
      then Lookup.result t
      else elim (get_block_number_by_hash n info.block_hash) [
        | inl e ↦ Lookup.refused (new_callback_error (codes "couldn't get block number by hash"))
        | inr number ↦ Lookup.result (record t {
          block_number = encode_uint64 number;
          block_hash = add_hex_prefix info.block_hash;
          transaction_index = or_else_text t.transaction_index (encode_uint64 info.block_index);
        })
      ]

  unfoldable pub with_amount : List (DecodedOut D) → EthTransaction → Lookup EthTransaction
  with_amount outs t =
      if text_eq t.value []
      then elim (format_revo_amount d h (calc_amount d (d.from_int (pos 0)) outs)) [
        | inl e ↦ Lookup.refused (new_invalid_params_error (codes "couldn't format amount"))
        | inr amount ↦ Lookup.result (record t { value = amount })
      ]
      else Lookup.result t

  abbrev pub no_sender : Text → JsonRpcError
  no_sender e = new_callback_error (
      codes "Contract tx parsing found no sender address, and the fallback function also failed: "
      ++ e)

  -- The sender of a contract's transaction.
  unfoldable pub contract_from : Text → Text → Lookup Text
  contract_from id from =
      if text_eq from []
      then elim (get_non_contract_tx_sender_address convert disasm_script n fuel id) [
        | Search.found a ↦ Lookup.result a
        | Search.failed e ↦ Lookup.refused (no_sender e)
        | Search.panics ↦ Lookup.panics
        | Search.out_of_fuel ↦ Lookup.out_of_fuel
      ]
      else Lookup.result (add_hex_prefix from)

  unfoldable pub with_contract : Text → ContractInvokeInfo → EthTransaction → Lookup EthTransaction
  with_contract id info t = do
    from ← contract_from id info.from
    let price = or_else_text (trim_zeros info.gas_price) (codes "0")
    satoshis ←
        or_refused (new_callback_error (codes "Failed to parse gasPrice"))
          (decode_big h.hexutil_decode_big price)
    Lookup.result (record t {
      input = add_hex_prefix info.call_data;
      from = from;
      to = add_hex_prefix (or_else_text info.to zero_address);
      gas = add_hex_prefix (or_else_text info.gas_limit (codes "0"));
      gas_price = h.encode_big (convert_from_satoshi_to_wei (pos satoshis));
    })

  -- The sender of any other transaction, where a failure is passed over.
  unfoldable pub other_from : Text → Bool → Lookup Text
  other_from id true = Lookup.result (add_hex_prefix zero_address)
  other_from id false = elim (get_non_contract_tx_sender_address convert disasm_script n fuel id) [
    | Search.found a ↦ Lookup.result (or_else_text a (add_hex_prefix zero_address))
    | Search.failed e ↦ Lookup.result (add_hex_prefix zero_address)
    | Search.panics ↦ Lookup.panics
    | Search.out_of_fuel ↦ Lookup.out_of_fuel
  ]

  unfoldable pub other_to : List (DecodedOut D) → Text → Text
  other_to outs to =
      if text_eq to []
      then elim (find_non_contract_tx_receiver_address convert outs) [
        | inl e ↦ add_hex_prefix zero_address
        | inr a ↦ or_else_text a (add_hex_prefix zero_address)
      ]
      else to

  unfoldable pub with_others : DecodedTx D → TxInfo → EthTransaction → Lookup EthTransaction
  with_others decoded info t = do
    from ← other_from decoded.id info.generated
    Lookup.result (record t {
      from = from;
      to = other_to decoded.vouts t.to;
      input = add_hex_prefix info.hex;
    })

  unfoldable pub get_transaction_by_hash : Text → Lookup EthTransaction
  get_transaction_by_hash hash = do
    (reward, info) ← known_transaction hash
    decoded ←
        or_refused (new_callback_error (codes "couldn't get raw transaction"))
          (n.decode_raw_transaction info.hex)
    let t : EthTransaction = elim reward [ none ↦ plain_transaction decoded.id | some t ↦ t ]
    placed ← with_block info t
    valued ← with_amount decoded.vouts placed
    elim (contract_info (extract_contract_info disasm_script decoded.vouts)) [
      | some contract ↦ with_contract decoded.id contract valued
      | none ↦ with_others decoded info valued
    ]

  -- The handler, with the hash or the message of the decoder.
  unfoldable pub request_get_transaction_by_hash : Option Text → Lookup EthTransaction
  request_get_transaction_by_hash none =
      Lookup.refused (new_invalid_params_error (codes "couldn't unmarshal request"))
  request_get_transaction_by_hash (some hash) =
      if text_eq hash []
      then Lookup.refused (new_invalid_params_error (codes "transaction hash is empty"))
      else get_transaction_by_hash (remove_hex_prefix hash)
