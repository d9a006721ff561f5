-- ===== src/Transactions/Signing.antt =====
-- pkg/transformer/eth_signTransaction.go: the transaction that is put together, and its signing.
use charon.Prelude.{
  ℕ, ◌⊎◌, inl, inr, Bool, true, false, not, ◌&&◌, Option, none, some, List, [], ◌∷◌, ◌++◌, Text,
  codes, text_eq, to_lower, pos, if◌then◌else◌, Map, insert, text_Eq,
}
use charon.Rpc.{JsonRpcError, new_callback_error, new_invalid_params_error}
use charon.Hex.Prefix.{remove_hex_prefix, add_hex_prefix, is_eth_hex_address}
use charon.Amounts.{
  Decimals, BigHex, zero_satoshi, eth_value_to_revo_amount, eth_gas_to_revo,
  convert_from_revo_to_satoshis,
}
use charon.Utxos.{Utxo}
use charon.Transactions.{
  SendTransactionRequest, SendToContractRequest, CreateContractRequest, is_empty, is_send_ether,
  is_create_contract, is_call_contract, ◌>>=◌, or_callback_error, or_invalid_params,
  from_hex_address, get_revo_wallet_address,
}

pub record RawTxInputs : Type 0 where
  pub txid : Text
  pub vout : ℕ

-- The outputs of a raw transaction: a call or a creation of a contract with the sender's change, or
-- amounts by address.
pub data Outputs (D : Type 0) : Type 0 where
  call : SendToContractRequest D → Map Text D → Outputs D
  create : CreateContractRequest → Map Text D → Outputs D
  pay : Map Text D → Outputs D

pub record RawTransaction (D : Type 0) : Type 0 where
  pub inputs : List RawTxInputs
  pub outputs : Outputs D

pub record SignRawTxResponse : Type 0 where
  pub hex : Text
  pub complete : Bool

-- The calls of the node, and the addresses of the accounts that charon holds.
pub record SignNode (D : Type 0) : Type 0 where
  pub from_hex : Text → Text ⊎ Text
  pub get_address_utxos : List Text → Text ⊎ List Utxo
  pub create_raw_tx : RawTransaction D → Text ⊎ Text
  pub sign_raw_tx : Text → Text ⊎ SignRawTxResponse
  pub accounts : List Text

-- `FindByHexAddress`, by the addresses of the accounts.
unfoldable pub find_by_hex_address : Text → List Text → Bool
find_by_hex_address addr [] = false
find_by_hex_address addr (a ∷ as') =
    let rest = find_by_hex_address addr as' in if text_eq addr a then true else rest

abbrev pub input_of : Utxo → RawTxInputs
input_of u = record { txid = u.txid; vout = u.output_index }

module _ {D : Type 0} (d : Decimals D) where
  -- The loop over the unspent outputs, with the sum and the inputs so far; `none` is that they do
  -- not reach the minimum.
  unfoldable pub sum_up : D → List Utxo → D → List RawTxInputs → Option (List RawTxInputs × D)
  sum_up minimum [] sum inputs = none
  sum_up minimum (u ∷ us) sum inputs =
      let sum' = d.add sum (d.from_int (pos u.satoshis)) in
      let inputs' = inputs ++ (input_of u ∷ []) in
      let rest = sum_up minimum us sum' inputs' in
      if d.at_least sum' minimum then some (inputs', sum') else rest

  unfoldable pub calculate_change : D → D → Text ⊎ D
  calculate_change balance needed =
      if d.less_than balance needed
      then inl (codes "insufficient funds to create fee to chain")
      else inr (d.sub balance needed)

  unfoldable pub calculate_needed_amount : D → D → D → D
  calculate_needed_amount value gas_limit gas_price = d.add value (d.mul gas_limit gas_price)

  module _ (h : BigHex) (is_hex_address : Text → Bool) (n : SignNode D) where
    -- `getRequiredUtxos`
    unfoldable pub get_required_utxos : Text → D → Text ⊎ (List RawTxInputs × D)
    get_required_utxos from needed = elim (from_hex_address n.from_hex (remove_hex_prefix from)) [
      | inl e ↦ inl e
      | inr address ↦ elim (n.get_address_utxos (address ∷ [])) [
        | inl e ↦ inl e
        | inr utxos ↦
            elim (sum_up (convert_from_revo_to_satoshis d needed) utxos (d.from_int (pos 0)) []) [
              | none ↦ inl (codes "Insufficient UTXO value attempted to be sent")
              | some found ↦ inr found
            ]
      ]
    ]

    -- The amount to send; a map literal whose keys are equal keeps the value of the later one.
    unfoldable pub raw_send_to_address : SendTransactionRequest → JsonRpcError ⊎ RawTransaction D
    raw_send_to_address req = do
      to ← or_callback_error (get_revo_wallet_address n.from_hex is_hex_address req.to)
      from ← or_callback_error (get_revo_wallet_address n.from_hex is_hex_address req.from)
      amount ← or_invalid_params (eth_value_to_revo_amount d h req.value (zero_satoshi d))
      (inputs, balance) ← or_callback_error (get_required_utxos req.from amount)
      change ← or_callback_error (calculate_change balance amount)
      inr (record {
        inputs = inputs;
        outputs = Outputs.pay (insert from change (insert to amount []));
      })

    unfoldable pub raw_sender : Text → JsonRpcError ⊎ Text
    raw_sender from =
        if not (is_empty from) && is_eth_hex_address is_hex_address from
        then or_invalid_params (from_hex_address n.from_hex from)
        else inr (codes "")

    abbrev pub amount_of : Text → JsonRpcError ⊎ D
    amount_of value =
        if is_empty value
        then inr (d.from_int (pos 0))
        else or_invalid_params (eth_value_to_revo_amount d h value (zero_satoshi d))

    -- There must be an account of the sender, whose key is not used.
    abbrev pub check_account : Text → JsonRpcError ⊎ Bool
    check_account from =
        let addr = remove_hex_prefix from in
        if find_by_hex_address (to_lower addr) n.accounts
        then inr true
        else inl (new_invalid_params_error (codes "No such account: " ++ addr))

    unfoldable pub raw_send_to_contract : SendTransactionRequest → JsonRpcError ⊎ RawTransaction D
    raw_send_to_contract req = do
      (gas_limit, gas_price) ← or_invalid_params (eth_gas_to_revo d h req.gas (some req.gas_price))
      amount ← amount_of req.value
      price ← or_invalid_params (d.from_string gas_price)
      let needed = calculate_needed_amount amount (d.from_int gas_limit) price
      (inputs, balance) ← or_callback_error (get_required_utxos req.from needed)
      change ← or_callback_error (calculate_change balance needed)
      sender ← raw_sender req.from
      found ← check_account req.from
      inr (record {
        inputs = inputs;
        outputs =
            Outputs.call
              (record {
                contract_address = remove_hex_prefix req.to;
                data_hex = remove_hex_prefix req.data_hex;
                amount = amount;
                gas_limit = gas_limit;
                gas_price = gas_price;
                sender_address = sender;
              })
              ((sender, change) ∷ []);
      })

    unfoldable pub raw_creator : Text → JsonRpcError ⊎ Text
    raw_creator from =
        if is_eth_hex_address is_hex_address from
        then or_invalid_params (from_hex_address n.from_hex from)
        else inr from

    unfoldable pub raw_create_contract : SendTransactionRequest → JsonRpcError ⊎ RawTransaction D
    raw_create_contract req = do
      (gas_limit, gas_price) ← or_invalid_params (eth_gas_to_revo d h req.gas (some req.gas_price))
      from ← raw_creator req.from
      price ← or_invalid_params (d.from_string gas_price)
      let needed = calculate_needed_amount (d.from_int (pos 0)) (d.from_int gas_limit) price
      (inputs, balance) ← or_callback_error (get_required_utxos req.from needed)
      change ← or_callback_error (calculate_change balance needed)
      inr (record {
        inputs = inputs;
        outputs =
            Outputs.create
              (record {
                byte_code = remove_hex_prefix req.data_hex;
                gas_limit = gas_limit;
                gas_price = gas_price;
                sender_address = from;
              })
              ((from, change) ∷ []);
      })

    unfoldable pub sign : RawTransaction D → JsonRpcError ⊎ Text
    sign tx = do
      raw ← or_callback_error (n.create_raw_tx tx)
      resp ← or_callback_error (n.sign_raw_tx raw)
      if resp.complete
          then inr (add_hex_prefix resp.hex)
          else inl (
              new_callback_error
                (codes "something went wrong with signing the transaction; transaction incomplete"))

    -- The transaction of a request, if it is one.
    unfoldable pub raw_transaction : SendTransactionRequest → JsonRpcError ⊎ RawTransaction D
    raw_transaction req =
        if is_create_contract req
        then raw_create_contract req
        else if is_send_ether req
        then raw_send_to_address req
        else if is_call_contract req
        then raw_send_to_contract req
        else inl (new_invalid_params_error (codes "Unknown operation"))

    -- The handler behind the decoding.
    unfoldable pub request_sign_transaction : SendTransactionRequest → JsonRpcError ⊎ Text
    request_sign_transaction req = do tx ← raw_transaction req; sign tx
