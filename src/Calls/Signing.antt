-- ===== src/Calls/Signing.antt =====
-- eth_sign of pkg/transformer/eth_sign.go. An account is its address in hexadecimal and what its key
-- signs; the hash is a parameter.
use charon.Prelude.{
  ℕ, zero, suc, ◌+◌, ◌/◌, ◌%◌, ◌⊎◌, inl, inr, Option, none, some, List, [], ◌∷◌, ◌++◌, Text, codes,
  text_eq, length, if◌then◌else◌, ltb,
}
use charon.Rpc.{JsonRpcError, new_invalid_params_error, new_callback_error}
use charon.Hex.Prefix.{remove_hex_prefix}
use charon.Hex.Digits.{encode_to_string}
use charon.Params.Positional.{SignRequest}
use charon.Calls.{decoded_params, ◌>>=◌}

pub record SignAccount : Type 0 where
  pub hex_address : Text
  -- `btcec.SignCompact` of a hash
  pub sign_compact : Text → Text ⊎ Text

-- `FindByHexAddress`, with what is found.
unfoldable pub find_account : Text → List SignAccount → Option SignAccount
find_account addr [] = none
find_account addr (a ∷ as') =
    let rest = find_account addr as' in if text_eq addr a.hex_address then some a else rest

-- `binary.PutUvarint`, seven bits in a byte, the low ones first; a uint64 takes at most ten bytes.
unfoldable pub put_uvarint : ℕ → ℕ → Text
put_uvarint zero x = x ∷ []
put_uvarint (suc f) x =
    let rest = put_uvarint f (x / 128) in if ltb x 128 then x ∷ [] else (x % 128 + 128) ∷ rest

abbrev pub revo_sign_message_prefix : Text
revo_sign_message_prefix = 21 ∷ (codes "Revo Signed Message:" ++ (10 ∷ []))

unfoldable pub padded_message : Text → Text
unfolding put_uvarint
padded_message msg = revo_sign_message_prefix ++ (put_uvarint 9 (length msg) ++ msg)

module _ (double_hash : Text → Text) where
  unfoldable pub sign_message : SignAccount → Text → Text ⊎ Text
  unfolding padded_message
  sign_message acc msg = acc.sign_compact (double_hash (padded_message msg))

  unfoldable pub request_sign : List SignAccount → Text ⊎ SignRequest → JsonRpcError ⊎ Text
  unfolding find_account sign_message
  request_sign accounts params = do
    req ← decoded_params params
    elim (find_account (remove_hex_prefix req.account) accounts) [
      | none ↦
          inl
            (new_invalid_params_error (codes "No such account: " ++ remove_hex_prefix req.account))
      | some acc ↦ elim (sign_message acc req.message) [
        | inl e ↦ inl (new_callback_error e)
        | inr sig ↦ inr (codes "0x" ++ encode_to_string sig)
      ]
    ]
