-- ===== src/Transactions/Sending.antt =====
-- pkg/transformer/eth_sendTransaction.go, with `CanGenerate` and `GenerateIfPossible` of
-- pkg/revo/revo.go.
use charon.Prelude.{
  ◌⊎◌, inl, inr, Bool, false, not, ◌&&◌, some, pos, Text, codes, text_eq, if◌then◌else◌,
}
use charon.Rpc.{JsonRpcError, new_invalid_params_error}
use charon.Hex.Prefix.{remove_hex_prefix, add_hex_prefix, is_eth_hex_address}
use charon.Amounts.{Decimals, BigHex, zero_satoshi, eth_value_to_revo_amount, eth_gas_to_revo}
use charon.Transactions.{
  SendTransactionRequest, SendToContractRequest, CreateContractRequest, SendToAddressRequest,
  is_empty, is_send_ether, is_create_contract, is_call_contract, ◌>>=◌, or_callback_error,
  or_invalid_params, from_hex_address, get_revo_wallet_address,
}

-- The calls of the node; the last three give the identifier of the transaction.
pub record SendNode (D : Type 0) : Type 0 where
  pub chain : Text
  pub from_hex : Text → Text ⊎ Text
  pub send_to_contract : SendToContractRequest D → Text ⊎ Text
  pub send_to_address : SendToAddressRequest D → Text ⊎ Text
  pub create_contract : CreateContractRequest → Text ⊎ Text

module _ {D : Type 0} (d : Decimals D) (h : BigHex) (is_hex_address : Text → Bool)
    (n : SendNode D) where
  -- The sender of a call of a contract: none where the address is not one of Ethereum.
  unfoldable pub contract_sender : Text → JsonRpcError ⊎ Text
  contract_sender from =
      if not (is_empty from) && is_eth_hex_address is_hex_address from
      then or_callback_error (from_hex_address n.from_hex from)
      else inr (codes "")

  unfoldable pub amount_to_send : Text → JsonRpcError ⊎ D
  amount_to_send value =
      if is_empty value
      then inr (d.from_int (pos 0))
      else or_invalid_params (eth_value_to_revo_amount d h value (zero_satoshi d))

  unfoldable pub request_send_to_contract : SendTransactionRequest → JsonRpcError ⊎ Text
  request_send_to_contract req = do
    (gas_limit, gas_price) ← or_invalid_params (eth_gas_to_revo d h req.gas (some req.gas_price))
    amount ← amount_to_send req.value
    sender ← contract_sender req.from
    txid ← or_callback_error (
        n.send_to_contract (record {
          contract_address = remove_hex_prefix req.to;
          data_hex = remove_hex_prefix req.data_hex;
          amount = amount;
          gas_limit = gas_limit;
          gas_price = gas_price;
          sender_address = sender;
        }))
    inr (add_hex_prefix txid)

  unfoldable pub request_send_to_address : SendTransactionRequest → JsonRpcError ⊎ Text
  request_send_to_address req = do
    from ← or_invalid_params (get_revo_wallet_address n.from_hex is_hex_address req.from)
    to ← or_invalid_params (get_revo_wallet_address n.from_hex is_hex_address req.to)
    amount ← or_invalid_params (eth_value_to_revo_amount d h req.value (zero_satoshi d))
    txid ←
        or_callback_error
          (n.send_to_address (record { address = to; amount = amount; sender_address = from }))
    inr (add_hex_prefix txid)

  -- The sender that creates a contract, with or without a conversion.
  unfoldable pub creator : Text → JsonRpcError ⊎ Text
  creator from =
      if not (is_empty from) && is_eth_hex_address is_hex_address from
      then or_callback_error (from_hex_address n.from_hex from)
      else inr from

  unfoldable pub request_create_contract : SendTransactionRequest → JsonRpcError ⊎ Text
  request_create_contract req = do
    (gas_limit, gas_price) ← or_invalid_params (eth_gas_to_revo d h req.gas (some req.gas_price))
    sender ← creator req.from
    txid ← or_callback_error (
        n.create_contract (record {
          byte_code = remove_hex_prefix req.data_hex;
          gas_limit = gas_limit;
          gas_price = gas_price;
          sender_address = sender;
        }))
    inr (add_hex_prefix txid)

  unfoldable pub can_generate : Bool
  can_generate = text_eq n.chain (codes "regtest")

  abbrev pub unknown_operation : JsonRpcError
  unknown_operation = new_invalid_params_error (codes "Unknown operation")

  -- The handler behind the decoding: its response, and whether a block is generated.
  unfoldable pub request_send_transaction : SendTransactionRequest → (JsonRpcError ⊎ Text) × Bool
  request_send_transaction req =
      if is_create_contract req
      then (request_create_contract req, can_generate)
      else if is_send_ether req
      then (request_send_to_address req, can_generate)
      else if is_call_contract req
      then (request_send_to_contract req, can_generate)
      else (inl unknown_operation, false)
