-- ===== src/Rpc.antt =====
-- The errors of pkg/eth/errors.go, and the libraries and the node that the handlers of
-- pkg/transformer call.
use charon.Prelude.{ℕ, ℤ, negsuc, ◌++◌, ◌⊎◌, List, Text, codes}
use charon.Logs.{SearchLogsRequest, TransactionReceipt}

pub record JsonRpcError : Type 0 where
  pub code : ℤ
  pub message : Text

abbrev pub method_not_found_error_code : ℤ
method_not_found_error_code = negsuc 32600

abbrev pub invalid_request_error_code : ℤ
invalid_request_error_code = negsuc 32599

abbrev pub invalid_message_error_code : ℤ
invalid_message_error_code = negsuc 32699

abbrev pub invalid_params_error_code : ℤ
invalid_params_error_code = negsuc 32601

abbrev pub callback_error_code : ℤ
callback_error_code = negsuc 31999

abbrev pub new_json_rpc_error : ℤ → Text → JsonRpcError
new_json_rpc_error code message = record { code = code; message = message }

abbrev pub new_method_not_found_error : Text → JsonRpcError
new_method_not_found_error method =
    new_json_rpc_error method_not_found_error_code
      (codes "The method " ++ (method ++ codes " does not exist/is not available"))

abbrev pub new_invalid_request_error : Text → JsonRpcError
new_invalid_request_error message = new_json_rpc_error invalid_request_error_code message

abbrev pub new_invalid_message_error : Text → JsonRpcError
new_invalid_message_error message = new_json_rpc_error invalid_message_error_code message

abbrev pub new_invalid_params_error : Text → JsonRpcError
new_invalid_params_error message = new_json_rpc_error invalid_params_error_code message

abbrev pub new_callback_error : Text → JsonRpcError
new_callback_error message = new_json_rpc_error callback_error_code message

-- `errors.Wrap(err, message).Error()`
abbrev pub wrap : Text → Text → Text
wrap message err = message ++ (codes ": " ++ err)

-- go-ethereum's `hexutil`; `inl` is an error with its message.
pub record HexUtil : Type 0 where
  pub encode_uint64 : ℕ → Text
  pub decode_uint64 : Text → Text ⊎ ℕ
  pub decode_big : Text → Text ⊎ ℕ

-- What the node answers while one request is handled; `inl` is an error with its message.
pub record Node : Type 0 where
  pub get_block_count : Text ⊎ ℤ
  -- the height of `getblockchaininfo`
  pub get_block_chain_info : Text ⊎ ℤ
  pub get_block_hash : ℕ → Text ⊎ Text
  pub search_logs : SearchLogsRequest → Text ⊎ List TransactionReceipt
  -- `Chain`
  pub chain : Text
