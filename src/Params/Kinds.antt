-- ===== src/Params/Kinds.antt =====
-- The requests that positional parameters decode to, all under one roof, with the shapes that
-- pkg/eth/rpc_types.go means their parameters to have.
use charon.Prelude.{◌⊎◌, List, Text}
use charon.Params.{Json}
use charon.Params.Positional.{
  SignRequest, GetTransactionByBlockHashAndIndex, GetTransactionByBlockNumberAndIndex,
  GetCodeRequest, GetBlockByNumberRequest, GetBlockByHashRequest, unmarshal_sign, unmarshal_by_hash,
  unmarshal_by_block_hash_and_index, unmarshal_by_block_number_and_index, unmarshal_receipt,
  unmarshal_uninstall_filter, unmarshal_filter_changes, unmarshal_get_code,
  unmarshal_block_by_number, unmarshal_block_by_hash, unmarshal_sha3,
}
use charon.Params.Optional.{
  GetBalanceRequest, GetStorageRequest, unmarshal_balance, unmarshal_storage,
  unmarshal_raw_transaction, unmarshal_unsubscribe,
}
use charon.Params.Shapes.{
  text, flag, nullable_text, message, anything, Signature, next, optional, rest, end,
}

-- The requests, by what is decoded.
pub data Kind : Type 0 where
  sign by_hash by_block_hash_and_index by_block_number_and_index receipt uninstall_filter
        filter_changes get_code block_by_number block_by_hash sha3 balance storage raw_transaction
        eth_unsubscribe :
      Kind

pub Request : Kind → Type 0
Request Kind.sign = SignRequest
Request Kind.by_block_hash_and_index = GetTransactionByBlockHashAndIndex
Request Kind.by_block_number_and_index = GetTransactionByBlockNumberAndIndex
Request Kind.get_code = GetCodeRequest
Request Kind.block_by_number = GetBlockByNumberRequest
Request Kind.block_by_hash = GetBlockByHashRequest
Request Kind.balance = GetBalanceRequest
Request Kind.storage = GetStorageRequest
Request Kind.eth_unsubscribe = List Text
Request _ = Text

-- `unmarshalRequest` of a request of the kind; the parameter has the messages of `hex.DecodeString`.
unfoldable pub unmarshal : (Text → Text) → (k : Kind) → Json → Text ⊎ Request k
unfolding Request
unmarshal hex_error Kind.sign v = unmarshal_sign hex_error v
unmarshal hex_error Kind.by_hash v = unmarshal_by_hash v
unmarshal hex_error Kind.by_block_hash_and_index v = unmarshal_by_block_hash_and_index v
unmarshal hex_error Kind.by_block_number_and_index v = unmarshal_by_block_number_and_index v
unmarshal hex_error Kind.receipt v = unmarshal_receipt v
unmarshal hex_error Kind.uninstall_filter v = unmarshal_uninstall_filter v
unmarshal hex_error Kind.filter_changes v = unmarshal_filter_changes v
unmarshal hex_error Kind.get_code v = unmarshal_get_code v
unmarshal hex_error Kind.block_by_number v = unmarshal_block_by_number v
unmarshal hex_error Kind.block_by_hash v = unmarshal_block_by_hash v
unmarshal hex_error Kind.sha3 v = unmarshal_sha3 v
unmarshal hex_error Kind.balance v = unmarshal_balance v
unmarshal hex_error Kind.storage v = unmarshal_storage v
unmarshal hex_error Kind.raw_transaction v = unmarshal_raw_transaction v
unmarshal hex_error Kind.eth_unsubscribe v = unmarshal_unsubscribe v

-- The shape of the parameters.
abbrev pub signature : Kind → Signature
signature Kind.sign = next text (next message end)
signature Kind.by_hash = next text end
signature Kind.by_block_hash_and_index = next text (next text end)
signature Kind.by_block_number_and_index = next text (next text end)
signature Kind.block_by_number = next text (next flag (rest anything))
signature Kind.block_by_hash = next text (next flag (rest anything))
signature Kind.sha3 = next text end
signature Kind.balance = optional nullable_text (rest anything)
signature Kind.storage =
    optional nullable_text (optional nullable_text (optional nullable_text (rest anything)))
signature Kind.raw_transaction = optional nullable_text (rest anything)
signature Kind.eth_unsubscribe = rest nullable_text
signature _ = next nullable_text (rest nullable_text)
