-- ===== src/Transactions.antt =====
-- eth_sendTransaction and eth_signTransaction of pkg/transformer: their request (pkg/eth/rpc_types.go)
-- and what both use. The node and the library of decimal numbers are parameters.
pub mod Sending
pub mod Signing
pub mod Inputs
pub mod Change
use charon.Prelude.{
  ℕ, ◌⊎◌, inl, inr, Bool, true, false, not, ◌&&◌, Option, none, some, List, [], ◌∷◌, ◌++◌, Text,
  codes, text_eq, ℤ, pos, if◌then◌else◌,
}
use charon.Rpc.{JsonRpcError, new_callback_error, new_invalid_params_error}
use charon.Hex.Prefix.{remove_hex_prefix, is_eth_hex_address}

-- `SendTransactionRequest` after its decoding, which has put in the defaults.
pub record SendTransactionRequest : Type 0 where
  pub from : Text
  pub to : Text
  pub gas : ℤ
  pub gas_price : ℤ
  pub value : Text
  pub data_hex : Text
  pub nonce : Text

-- The request as it stands in the parameters.
pub record RawRequest : Type 0 where
  pub from : Text
  pub to : Text
  pub gas : Option ℤ
  pub gas_price : Option ℤ
  pub value : Text
  pub data_hex : Text
  pub nonce : Text

abbrev pub default_gas_amount_for_revo : ℤ
default_gas_amount_for_revo = pos 250000

abbrev pub default_gas_price_in_wei : ℤ
default_gas_price_in_wei = pos 40000000000

abbrev pub or_default : Option ℤ → ℤ → ℤ
or_default none n = n
or_default (some m) n = m

-- `UnmarshalJSON` behind the decoding of the list; `none` is a panic, at `params[0]`.
unfoldable pub unmarshal_send_transaction : List RawRequest → Option SendTransactionRequest
unmarshal_send_transaction [] = none
unmarshal_send_transaction (r ∷ rs) = some (record {
  from = r.from;
  to = r.to;
  gas = or_default r.gas default_gas_amount_for_revo;
  gas_price = or_default r.gas_price default_gas_price_in_wei;
  value = r.value;
  data_hex = r.data_hex;
  nonce = r.nonce;
})

abbrev pub is_empty : Text → Bool
is_empty t = text_eq t []

unfoldable pub is_send_ether : SendTransactionRequest → Bool
is_send_ether t =
    not (is_empty t.value)
    && (not (is_empty t.to) && (not (is_empty t.from) && is_empty t.data_hex))

unfoldable pub is_create_contract : SendTransactionRequest → Bool
is_create_contract t = is_empty t.to && not (is_empty t.data_hex)

unfoldable pub is_call_contract : SendTransactionRequest → Bool
is_call_contract t = not (is_empty t.to) && not (is_empty t.data_hex)

-- Steps that may fail, with the error that the handler makes of one.
infixl 5 ◌>>=◌
abbrev pub ◌>>=◌ : {A B : Type 0} → JsonRpcError ⊎ A → (A → JsonRpcError ⊎ B) → JsonRpcError ⊎ B
inl e >>= f = inl e
inr a >>= f = f a

abbrev pub or_callback_error : {A : Type 0} → Text ⊎ A → JsonRpcError ⊎ A
or_callback_error (inl e) = inl (new_callback_error e)
or_callback_error (inr a) = inr a

abbrev pub or_invalid_params : {A : Type 0} → Text ⊎ A → JsonRpcError ⊎ A
or_invalid_params (inl e) = inl (new_invalid_params_error e)
or_invalid_params (inr a) = inr a

-- `SendToContractRequest` and `SendToContractRawRequest` of pkg/revo/rpc_types.go.
pub record SendToContractRequest (D : Type 0) : Type 0 where
  pub contract_address : Text
  pub data_hex : Text
  pub amount : D
  pub gas_limit : ℤ
  pub gas_price : Text
  pub sender_address : Text

-- `CreateContractRequest` and `CreateContractRawRequest`
pub record CreateContractRequest : Type 0 where
  pub byte_code : Text
  pub gas_limit : ℤ
  pub gas_price : Text
  pub sender_address : Text

pub record SendToAddressRequest (D : Type 0) : Type 0 where
  pub address : Text
  pub amount : D
  pub sender_address : Text

-- `FromHexAddress` of pkg/revo/method.go, where `from_hex` is the call of the node.
unfoldable pub from_hex_address : (Text → Text ⊎ Text) → Text → Text ⊎ Text
from_hex_address from_hex addr = from_hex (remove_hex_prefix addr)

module _ (from_hex : Text → Text ⊎ Text) (is_hex_address : Text → Bool) where
  -- `getRevoWalletAddress`
  unfoldable pub get_revo_wallet_address : Text → Text ⊎ Text
  get_revo_wallet_address addr =
      if is_eth_hex_address is_hex_address addr
      then from_hex_address from_hex (remove_hex_prefix addr)
      else inr addr
