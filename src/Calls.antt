-- ===== src/Calls.antt =====
-- The handlers of pkg/transformer that hand a call on to the node: eth_call, eth_estimateGas,
-- eth_getCode, eth_getStorageAt and eth_sendRawTransaction; the queries with no parameters are in
-- Queries and eth_sign in Signing. A handler takes the request, or the message of its decoder, which
-- `wrap` has marked.
pub mod Queries
pub mod Signing
pub mod Varint
pub mod Retried
use charon.Prelude.{
  ℕ, suc, ◌-◌, ◌⊎◌, inl, inr, Bool, true, false, Option, none, some, List, [], ◌∷◌, ◌++◌, Text,
  codes, text_eq, length, replicate, if◌then◌else◌, ltb, ◌==◌, ℤ, pos, negsuc, Map, lookup, text_Eq,
}
use charon.Rpc.{
  JsonRpcError, Node, HexUtil, wrap, new_json_rpc_error, new_invalid_params_error,
  new_callback_error,
}
use charon.Hex.Prefix.{remove_hex_prefix, add_hex_prefix, is_eth_hex_address}
use charon.Blocks.{get_block_number_by_param}
use charon.Lookups.{Failure, failure_message}
use charon.Transactions.{from_hex_address}
use charon.Params.Objects.{CallRequest}
use charon.Params.Positional.{GetCodeRequest}
use charon.Params.Optional.{GetStorageRequest}

-- `unmarshalRequest` with the error that the handlers make of its own.
abbrev pub decoded_params {ℓ} : {A : Type ℓ} → Text ⊎ A → JsonRpcError ⊎ A
decoded_params (inl e) = inl (new_invalid_params_error (wrap (codes "Invalid RPC input") e))
decoded_params (inr req) = inr req

infixl 5 ◌>>=◌
abbrev pub ◌>>=◌ {ℓ ℓ'} :
    {A : Type ℓ} {B : Type ℓ'} → JsonRpcError ⊎ A → (A → JsonRpcError ⊎ B) → JsonRpcError ⊎ B
inl e >>= f = inl e
inr a >>= f = f a

-- `revo.CallContractRequest`
pub record CallContractRequest : Type 0 where
  pub to : Text
  pub from : Text
  pub data_hex : Text
  pub gas_limit : Option ℤ

-- What is read of `revo.CallContractResponse`.
pub record ExecutionResult : Type 0 where
  pub output : Text
  pub excepted : Text
  pub gas_used : ℕ

pub record CallNode : Type 0 where
  pub from_hex : Text → Text ⊎ Text
  pub call_contract : CallContractRequest → Failure ⊎ ExecutionResult
  pub get_account_code : Text → Failure ⊎ Text
  -- `getstorage`: a list of maps from slots to values.
  pub get_storage : Text → ℤ → Failure ⊎ List (Map Text Text)
  pub send_raw_transaction : Text → Failure ⊎ Text
  -- the hash of `decoderawtransaction`
  pub decode_raw_transaction : Text → Failure ⊎ Text
  -- `true` is that the first call's error is `ErrVerifyAlreadyInChain`.
  pub already_in_chain : Failure → Bool

-- A result that is a value, or an error that the handler passes as its result.
pub data CallResult : Type 0 where
  value : Text → CallResult
  error_value : JsonRpcError → CallResult

-- 40,000,000
abbrev pub allowance : ℕ
allowance = 40000000

abbrev pub above_allowance : Option ℤ → Bool
above_allowance none = false
above_allowance (some (negsuc _)) = false
above_allowance (some (pos n)) = ltb allowance n

module _ (is_hex_address : Text → Bool) (n : CallNode) where
  -- `ToRequest` of eth_call; a limit that is too low is only logged.
  unfoldable pub call_to_request : CallRequest → JsonRpcError ⊎ CallContractRequest
  call_to_request ethreq =
      let revo_request : Text → CallContractRequest = λ from. record {
        to = ethreq.to;
        from = from;
        data_hex = ethreq.data_hex;
        gas_limit = ethreq.gas;
      } in
      if is_eth_hex_address is_hex_address ethreq.from
      then (elim (from_hex_address n.from_hex ethreq.from) [
        | inl e ↦ inl (new_callback_error e)
        | inr from ↦ inr (revo_request from)
      ])
      else inr (revo_request ethreq.from)

  -- `ToResponse` of eth_call.
  unfoldable pub call_to_response : ExecutionResult → CallResult
  call_to_response resp =
      if text_eq resp.output []
      then CallResult.error_value
          (new_json_rpc_error (negsuc 31999) (codes "Revert: executionResult output is empty"))
      else CallResult.value (add_hex_prefix resp.output)

  -- What eth_call makes of the node's reply.
  unfoldable pub call_reply : Failure ⊎ ExecutionResult → JsonRpcError ⊎ CallResult
  unfolding call_to_response
  call_reply (inl Failure.invalid_address) = inr (CallResult.value (codes "0x"))
  call_reply (inl e) = inl (new_callback_error (failure_message e))
  call_reply (inr resp) = inr (call_to_response resp)

  unfoldable pub request_call : Text ⊎ CallRequest → JsonRpcError ⊎ CallResult
  unfolding call_to_request call_reply
  request_call params = do
    ethreq ← decoded_params params
    revo_req ← call_to_request ethreq
    if above_allowance revo_req.gas_limit
        then inr (CallResult.value (codes "0x"))
        else call_reply (n.call_contract revo_req)

  -- eth_estimateGas, where `buffered` is the gas times 1.20 as a float64, in hexadecimal.
  unfoldable pub to_estimate : (ℕ → Text) → Failure ⊎ ExecutionResult → JsonRpcError ⊎ Text
  to_estimate buffered (inl e) = inl (new_callback_error (failure_message e))
  to_estimate buffered (inr resp) =
      if text_eq resp.excepted (codes "None")
      then inr (buffered resp.gas_used)
      else inl (new_callback_error (codes "execution reverted"))

  unfoldable pub request_estimate_gas : (ℕ → Text) → Text ⊎ CallRequest → JsonRpcError ⊎ Text
  unfolding call_to_request to_estimate
  request_estimate_gas buffered params = do
    ethreq ← decoded_params params
    if text_eq ethreq.data_hex []
        then inr (codes "0x55f0")
        else (call_to_request (record ethreq { gas = none }) >>= λ revo_req.
            to_estimate buffered (n.call_contract revo_req))

  unfoldable pub request_get_code : Text ⊎ GetCodeRequest → JsonRpcError ⊎ Text
  request_get_code params = do
    req ← decoded_params params
    elim (n.get_account_code (remove_hex_prefix req.address)) [
      | inl (Failure.invalid_address) ↦ inr (codes "0x")
      | inl e ↦ inl (new_callback_error (failure_message e))
      | inr code ↦ inr (add_hex_prefix code)
    ]

  -- eth_sendRawTransaction: a transaction that is in the chain already has its hash decoded. Beside the
  -- response, whether `GenerateIfPossible` is called, which only asks the node for a new block.
  unfoldable pub sent_hash : Text → Failure ⊎ Text → (JsonRpcError ⊎ Text) × Bool
  sent_hash raw (inr hash) = (inr (add_hex_prefix hash), true)
  sent_hash raw (inl e) = (
    if n.already_in_chain e
        then (elim (n.decode_raw_transaction raw) [
          | inl e' ↦ inl (new_callback_error (failure_message e'))
          | inr hash ↦ inr (add_hex_prefix hash)
        ])
        else inl (new_callback_error (failure_message e)),
    false,
  )

  abbrev pub empty_raw : JsonRpcError
  empty_raw =
      new_invalid_params_error (codes "invalid parameter: raw transaction hexed string is empty")

  unfoldable pub request_send_raw_transaction : Text ⊎ Text → (JsonRpcError ⊎ Text) × Bool
  unfolding sent_hash
  request_send_raw_transaction params = elim (decoded_params params) [
    | inl e ↦ (inl e, false)
    | inr raw ↦
        let raw' = remove_hex_prefix raw in
        if text_eq raw []
        then (inl empty_raw, false)
        else sent_hash raw' (n.send_raw_transaction raw')
  ]

-- `leftPadStringWithZerosTo64Bytes`
unfoldable pub left_pad : Text → Text
left_pad s = replicate (64 - length s) b'0' ++ s

-- `ToResponse` of eth_getStorageAt: the first of the maps that has the slot.
unfoldable pub find_slot : Text → List (Map Text Text) → Option Text
find_slot slot [] = none
find_slot slot (m ∷ ms) =
    let rest = find_slot slot ms in elim (lookup slot m) [ some v ↦ some v | none ↦ rest ]

unfoldable pub storage_value : Text → List (Map Text Text) → Text
unfolding left_pad find_slot
storage_value index maps =
    let slot = if length index == 64 then index else left_pad index in
    elim (find_slot slot maps) [
      | some v ↦ add_hex_prefix v
      | none ↦ codes "0x0000000000000000000000000000000000000000000000000000000000000000"
    ]

unfoldable pub request_get_storage_at :
    HexUtil → Node → CallNode → Text ⊎ GetStorageRequest → JsonRpcError ⊎ Text
unfolding storage_value
request_get_storage_at h node n params = do
  req ← decoded_params params
  number ← get_block_number_by_param h node req.block_number false
  elim (n.get_storage (remove_hex_prefix req.address) number) [
    | inl e ↦ inl (new_callback_error (failure_message e))
    | inr maps ↦ inr (storage_value (remove_hex_prefix req.index) maps)
  ]
