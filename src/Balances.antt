-- ===== src/Balances.antt =====
-- pkg/transformer/eth_getBalance.go: the balance of a contract or an account.
use charon.Prelude.{ℕ, ◌*◌, ◌^◌, ◌⊎◌, inl, inr, Text, codes}
use charon.Hex.Prefix.{remove_hex_prefix}
use charon.Rpc.{JsonRpcError, new_callback_error, new_invalid_params_error}
use charon.Lookups.{Failure, failure_message}
use charon.Transactions.{from_hex_address}

-- The calls of the node, with the balances in satoshis; the one of a contract, an int, stands as its
-- 64 bits.
pub record BalanceNode : Type 0 where
  pub get_account_info : Text → Failure ⊎ ℕ
  pub from_hex : Text → Text ⊎ Text
  pub get_address_balance : Text → Failure ⊎ ℕ

module _ (encode_uint64 encode_big : ℕ → Text) (n : BalanceNode) where
  -- The balance of an account; an address that the node does not take has none.
  unfoldable pub account_balance : Text → JsonRpcError ⊎ Text
  account_balance addr = elim (from_hex_address n.from_hex addr) [
    | inl e ↦ inl (new_callback_error e)
    | inr base58 ↦ elim (n.get_address_balance base58) [
      | inl (Failure.invalid_address) ↦ inr (codes "0x0")
      | inl e ↦ inl (new_callback_error (failure_message e))
      | inr satoshis ↦ inr (encode_big (satoshis * 10 ^ 10))
    ]
  ]

  -- The handler, with the address or the message of the decoder.
  unfoldable pub request_get_balance : Text ⊎ Text → JsonRpcError ⊎ Text
  request_get_balance (inl e) = inl (new_invalid_params_error e)
  request_get_balance (inr address) =
      let addr = remove_hex_prefix address in
      elim (n.get_account_info addr) [
        | inr satoshis ↦ inr (encode_uint64 satoshis)
        | inl e ↦ account_balance addr
      ]
