-- ===== src/NodeErrors.antt =====
-- pkg/revo/jsonrpc.go: the node's errors that are known by their codes, and how a reply of the node
-- is read.
pub mod Codes
use charon.Prelude.{
  zero, if◌then◌else◌, ◌⊎◌, inl, inr, Option, none, some, List, [], ◌∷◌, Map, Text, codes, ℤ, pos,
  negsuc, nat_eq, lookup, ℕ, Bool, true, false, ◌+◌,
}
use charon.Rpc.{JsonRpcError, new_json_rpc_error}

-- The error values of the package.
pub data NodeError : Type 0 where
  invalid_request method_not_found invalid_params internal_error parse_error misc_error type_error
        invalid_address out_of_memory invalid_parameter database_error deserialization_error
        verify_error verify_already_in_chain in_warmup method_deprecated client_not_connected
        client_in_initial_download node_already_added node_not_added node_not_connected
        invalid_ip_or_subnet p2p_disabled mempool_disabled wallet_error wallet_insufficient_funds
        wallet_invalid_label_name wallet_keypool_ran_out wallet_unlock_needed
        wallet_passphrase_incorrect wallet_wrong_encryption_state wallet_encryption_failed
        wallet_already_unlocked wallet_not_found wallet_not_specified forbidden_by_safe_mode
        revo_work_queue_depth try_again :
      NodeError

-- `Error()`
abbrev pub message_of : NodeError → Text
message_of NodeError.invalid_request = codes "invalid request"
message_of NodeError.method_not_found = codes "method not found"
message_of NodeError.invalid_params = codes "invalid parameters"
message_of NodeError.internal_error = codes "internal error"
message_of NodeError.parse_error = codes "parse error"
message_of NodeError.misc_error = codes "misc error"
message_of NodeError.type_error = codes "type error"
message_of NodeError.invalid_address = codes "invalid address"
message_of NodeError.out_of_memory = codes "oom"
message_of NodeError.invalid_parameter = codes "invalid parameter"
message_of NodeError.database_error = codes "database error"
message_of NodeError.deserialization_error = codes "deserialization error"
message_of NodeError.verify_error = codes "verify error"
message_of NodeError.verify_already_in_chain = codes "verify already in chain"
message_of NodeError.in_warmup = codes "in warmup"
message_of NodeError.method_deprecated = codes "method deprecated"
message_of NodeError.client_not_connected = codes "client not connected"
message_of NodeError.client_in_initial_download = codes "still downloading initial blocks"
message_of NodeError.node_already_added = codes "not already added"
message_of NodeError.node_not_added = codes "node not added"
message_of NodeError.node_not_connected = codes "not not connected"
message_of NodeError.invalid_ip_or_subnet = codes "invalid ip or subnet"
message_of NodeError.p2p_disabled = codes "p2p disabled"
message_of NodeError.mempool_disabled = codes "mempool disabled"
message_of NodeError.wallet_error = codes "wallet error"
message_of NodeError.wallet_insufficient_funds = codes "wallet insufficient funds"
message_of NodeError.wallet_invalid_label_name = codes "wallet invalid label name"
message_of NodeError.wallet_keypool_ran_out = codes "wallet keypool ran out"
message_of NodeError.wallet_unlock_needed = codes "wallet unlock needed"
message_of NodeError.wallet_passphrase_incorrect = codes "wallet passphrase incorrect"
message_of NodeError.wallet_wrong_encryption_state = codes "wallet wrong encryption state"
message_of NodeError.wallet_encryption_failed = codes "failed to encrypt the wallet"
message_of NodeError.wallet_already_unlocked = codes "wallet already unlocked"
message_of NodeError.wallet_not_found = codes "wallet not found"
message_of NodeError.wallet_not_specified = codes "wallet not specified"
message_of NodeError.forbidden_by_safe_mode =
    codes "server is in safe mode, and command is not allowed in safe mode"
message_of NodeError.revo_work_queue_depth = codes "Work queue depth exceeded"
message_of NodeError.try_again = codes "Try again"

-- `errorCodeMap`, by the absolute values of the codes, which are all below 0.
abbrev pub error_code_map : Map ℕ NodeError
error_code_map =
    (1, NodeError.misc_error)
    ∷ (2, NodeError.forbidden_by_safe_mode)
    ∷ (3, NodeError.type_error)
    ∷ (4, NodeError.wallet_error)
    ∷ (5, NodeError.invalid_address)
    ∷ (6, NodeError.wallet_insufficient_funds)
    ∷ (7, NodeError.out_of_memory)
    ∷ (8, NodeError.invalid_parameter)
    ∷ (9, NodeError.client_not_connected)
    ∷ (10, NodeError.client_in_initial_download)
    ∷ (11, NodeError.wallet_invalid_label_name)
    ∷ (12, NodeError.wallet_keypool_ran_out)
    ∷ (13, NodeError.wallet_unlock_needed)
    ∷ (14, NodeError.wallet_passphrase_incorrect)
    ∷ (15, NodeError.wallet_wrong_encryption_state)
    ∷ (16, NodeError.wallet_encryption_failed)
    ∷ (17, NodeError.wallet_already_unlocked)
    ∷ (18, NodeError.wallet_not_found)
    ∷ (19, NodeError.wallet_not_specified)
    ∷ (20, NodeError.database_error)
    ∷ (22, NodeError.deserialization_error)
    ∷ (23, NodeError.node_already_added)
    ∷ (24, NodeError.node_not_added)
    ∷ (25, NodeError.verify_error)
    ∷ (27, NodeError.verify_already_in_chain)
    ∷ (28, NodeError.in_warmup)
    ∷ (29, NodeError.method_deprecated)
    ∷ (30, NodeError.invalid_ip_or_subnet)
    ∷ (31, NodeError.p2p_disabled)
    ∷ (33, NodeError.mempool_disabled)
    ∷ (32600, NodeError.invalid_request)
    ∷ (32601, NodeError.method_not_found)
    ∷ (32602, NodeError.invalid_params)
    ∷ (32603, NodeError.internal_error)
    ∷ (32700, NodeError.parse_error)
    ∷ []

-- The map at a code; a code that is not below 0 is not in it.
unfoldable pub known_error : ℤ → Option NodeError
known_error (pos n) = none
known_error (negsuc n) = lookup (n + 1) error_code_map

-- `errorToCodeMap`, which `init` makes of the other map: it has no error twice.
abbrev pub error_to_code : NodeError → Option ℤ
error_to_code NodeError.invalid_request = some (negsuc 32599)
error_to_code NodeError.method_not_found = some (negsuc 32600)
error_to_code NodeError.invalid_params = some (negsuc 32601)
error_to_code NodeError.internal_error = some (negsuc 32602)
error_to_code NodeError.parse_error = some (negsuc 32699)
error_to_code NodeError.misc_error = some (negsuc 0)
error_to_code NodeError.type_error = some (negsuc 2)
error_to_code NodeError.invalid_address = some (negsuc 4)
error_to_code NodeError.out_of_memory = some (negsuc 6)
error_to_code NodeError.invalid_parameter = some (negsuc 7)
error_to_code NodeError.database_error = some (negsuc 19)
error_to_code NodeError.deserialization_error = some (negsuc 21)
error_to_code NodeError.verify_error = some (negsuc 24)
error_to_code NodeError.verify_already_in_chain = some (negsuc 26)
error_to_code NodeError.in_warmup = some (negsuc 27)
error_to_code NodeError.method_deprecated = some (negsuc 28)
error_to_code NodeError.client_not_connected = some (negsuc 8)
error_to_code NodeError.client_in_initial_download = some (negsuc 9)
error_to_code NodeError.node_already_added = some (negsuc 22)
error_to_code NodeError.node_not_added = some (negsuc 23)
error_to_code NodeError.node_not_connected = none
error_to_code NodeError.invalid_ip_or_subnet = some (negsuc 29)
error_to_code NodeError.p2p_disabled = some (negsuc 30)
error_to_code NodeError.mempool_disabled = some (negsuc 32)
error_to_code NodeError.wallet_error = some (negsuc 3)
error_to_code NodeError.wallet_insufficient_funds = some (negsuc 5)
error_to_code NodeError.wallet_invalid_label_name = some (negsuc 10)
error_to_code NodeError.wallet_keypool_ran_out = some (negsuc 11)
error_to_code NodeError.wallet_unlock_needed = some (negsuc 12)
error_to_code NodeError.wallet_passphrase_incorrect = some (negsuc 13)
error_to_code NodeError.wallet_wrong_encryption_state = some (negsuc 14)
error_to_code NodeError.wallet_encryption_failed = some (negsuc 15)
error_to_code NodeError.wallet_already_unlocked = some (negsuc 16)
error_to_code NodeError.wallet_not_found = some (negsuc 17)
error_to_code NodeError.wallet_not_specified = some (negsuc 18)
error_to_code NodeError.forbidden_by_safe_mode = some (negsuc 1)
error_to_code NodeError.revo_work_queue_depth = none
error_to_code NodeError.try_again = none

-- `GetErrorCode`: 0 for an error that has no code.
unfoldable pub get_error_code : NodeError → ℤ
get_error_code e = elim (error_to_code e) [ none ↦ pos 0 | some c ↦ c ]

abbrev pub is_zero : ℤ → Bool
is_zero (pos zero) = true
is_zero _ = false

-- `GetErrorResponse`; `none` is nil.
unfoldable pub get_error_response : NodeError → Option JsonRpcError
get_error_response e =
    if is_zero (get_error_code e)
    then none
    else some (new_json_rpc_error (get_error_code e) (message_of e))

-- What a reply of the node holds: a result, or an error with its code and message; or it is no JSON.
pub data ReplyBody : Type 0 where
  success : Text → ReplyBody
  error : ℤ → Text → ReplyBody
  malformed : Text → ReplyBody

-- An error value of the client: one of the package, an error of the node with no known meaning, or
-- any other with its message.
pub data ClientError : Type 0 where
  known : NodeError → ClientError
  unknown : ℤ → Text → ClientError
  other : Text → ClientError

-- `TryGetKnownError`
unfoldable pub try_get_known_error : ℤ → Text → ClientError
try_get_known_error code message = elim (known_error code) [
  | none ↦ ClientError.unknown code message
  | some e ↦ ClientError.known e
]

-- `responseBodyToResult`
unfoldable pub response_body_to_result : ReplyBody → ClientError ⊎ Text
response_body_to_result (ReplyBody.success result) = inr result
response_body_to_result (ReplyBody.error code message) = inl (try_get_known_error code message)
response_body_to_result (ReplyBody.malformed e) = inl (ClientError.other e)

-- `IsKnownError`
unfoldable pub is_known_error : ClientError → Bool
is_known_error (ClientError.known e) = elim (error_to_code e) [ none ↦ false | some _ ↦ true ]
is_known_error _ = false
