-- ===== src/Calls/Queries.antt =====
-- The queries of pkg/transformer whose parameters nothing reads, and web3_sha3. What the node
-- answers is an argument; `inl` is an error with its message.
use charon.Prelude.{
  ℕ, zero, suc, ◌⊎◌, inl, inr, Bool, true, List, [], Text, codes, text_eq, length, map,
  if◌then◌else◌, ℤ, pos,
}
use charon.Rpc.{JsonRpcError, HexUtil, new_invalid_params_error, new_callback_error}
use charon.Hex.Prefix.{add_hex_prefix}
use charon.Amounts.{BigHex}
use charon.Client.{contains}
use charon.Lookups.Rewards.{convert_from_satoshi_to_wei}
use charon.Chains.{chain_id}

-- A callback's error, or what is made of the answer.
abbrev pub answer {ℓ ℓ'} : {A : Type ℓ} {B : Type ℓ'} → (A → B) → Text ⊎ A → JsonRpcError ⊎ B
answer f (inl e) = inl (new_callback_error e)
answer f (inr a) = inr (f a)

-- `ErrTryAgain`
abbrev pub try_again : Text
try_again = codes "Try again"

module _ (h : BigHex) (u : HexUtil) where
  unfoldable pub request_gas_price : Text ⊎ ℤ → JsonRpcError ⊎ Text
  unfolding convert_from_satoshi_to_wei
  request_gas_price = answer (λ n. h.encode_big (convert_from_satoshi_to_wei n))

  -- The difficulty is given by the bits of the float64.
  unfoldable pub request_hashrate : Text ⊎ ℕ → JsonRpcError ⊎ Text
  request_hashrate = answer (λ bits. u.encode_uint64 bits)

  unfoldable pub request_transaction_count : Text ⊎ ℤ → JsonRpcError ⊎ Text
  request_transaction_count = answer (λ n. h.encode_big n)

  unfoldable pub request_peer_count : {P : Type 0} → Text ⊎ List P → JsonRpcError ⊎ Text
  request_peer_count = answer (λ peers. u.encode_uint64 (length peers))

  -- eth_chainId and net_version, by the node's chain.
  unfoldable pub request_chain_id : Text → JsonRpcError ⊎ Text
  unfolding chain_id
  request_chain_id chain = inr (h.encode_big (pos (chain_id chain)))

  unfoldable pub request_net_version : Text → JsonRpcError ⊎ Text
  unfolding chain_id
  request_net_version chain = inr (h.encode_big (pos (chain_id chain)))

  -- eth_blockNumber: the node's answers in the order of the tries, and whether the request is
  -- cancelled while it waits behind one. The result comes with the number of answers used.
  unfoldable pub ask_block_number : ℕ → (ℕ → Text ⊎ ℤ) → (ℕ → Bool) → ℕ → (JsonRpcError ⊎ Text) × ℕ
  ask_block_number zero answers cancelled i = (answer (λ n. h.encode_big n) (answers i), suc i)
  ask_block_number (suc retries) answers cancelled i =
      let again = ask_block_number retries answers cancelled (suc i) in
      elim (answers i) [
        | inr n ↦ (inr (h.encode_big n), suc i)
        | inl e ↦
            if contains e try_again
            then (if cancelled i then (inl (new_callback_error e), suc i) else again)
            else (inl (new_callback_error e), suc i)
      ]

  unfoldable pub request_block_number : (ℕ → Text ⊎ ℤ) → (ℕ → Bool) → (JsonRpcError ⊎ Text) × ℕ
  unfolding ask_block_number
  request_block_number answers cancelled = ask_block_number 5 answers cancelled 0

unfoldable pub request_mining : Text ⊎ Bool → JsonRpcError ⊎ Bool
request_mining = answer (λ staking. staking)

unfoldable pub request_listening : Text ⊎ Bool → JsonRpcError ⊎ Bool
request_listening = answer (λ active. active)

unfoldable pub request_unlock_account : JsonRpcError ⊎ Bool
request_unlock_account = inr true

-- eth_accounts, of the addresses in hexadecimal.
unfoldable pub request_accounts : List Text → JsonRpcError ⊎ List Text
request_accounts addresses = inr (map add_hex_prefix addresses)

-- web3_sha3, with `hexutil.Decode`, of which `inl` is an error, and the hash with its encoding.
unfoldable pub request_sha3 :
    (Text → Text ⊎ Text) → (Text → Text) → Text ⊎ Text → JsonRpcError ⊎ Text
request_sha3 decode keccak_hex (inl e) = inl (new_invalid_params_error e)
request_sha3 decode keccak_hex (inr message) =
    if text_eq message [] then inr (keccak_hex []) else (elim (decode message) [
      | inl _ ↦ inl (new_callback_error (codes "Failed to decode"))
      | inr decoded ↦ inr (keccak_hex decoded)
    ])
