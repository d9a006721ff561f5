-- ===== src/Lookups/Rewards.antt =====
-- pkg/transformer/eth_getTransactionByHash.go, `getRewardTransactionByHash`. An int64 stands as its
-- 64 bits, and its sums wrap.
use charon.Prelude.{
  ℕ, ◌+◌, ◌*◌, ◌%◌, ◌^◌, ◌⊎◌, inl, inr, Bool, Option, none, some, List, [], ◌∷◌, Text, codes,
  text_eq, if◌then◌else◌, ◌==◌, ltb, ◌&&◌, not, length, ℤ, pos, negsuc, neg, word, suc, to_int64,
  to_uint64, sub_uint64,
}
use charon.Hex.Prefix.{add_hex_prefix}
use charon.Lookups.{
  Failure, Vin, Vout, get_addresses, RawTx, TxNode, EthTransaction, is_pending, zero_address,
  get_block_number_by_hash, get_transaction_index_in_block,
}

abbrev pub add_int64 : ℕ → ℕ → ℕ
add_int64 a b = (a + b) % word

-- What the loop over the outputs sums up, and the receiver.
pub record Sums : Type 0 where
  pub value_out : ℕ
  pub refund : ℕ
  pub sent : ℕ
  pub sent_to : ℕ
  pub to : Text

abbrev pub no_sums : Sums
no_sums = record { value_out = 0; refund = 0; sent = 0; sent_to = 0; to = [] }

-- `addresses[0]`, if there is one.
unfoldable pub first_address : Vout → Option Text
unfolding get_addresses
first_address v = elim (get_addresses v) [ [] ↦ none | a ∷ as' ↦ some a ]

-- Something sent to an address, which is the receiver if there is none yet.
unfoldable pub add_sent_to : Text → ℕ → Sums → Sums
add_sent_to a amount s =
    let to = if text_eq s.to [] then a else s.to in
    record s { to = to; sent_to = if text_eq to a then add_int64 s.sent_to amount else s.sent_to }

unfoldable pub add_sent : Option Text → ℕ → Sums → Sums
add_sent none amount s = record s { sent = add_int64 s.sent amount }
add_sent (some a) amount s =
    let s' = if text_eq a [] then s else add_sent_to a amount s in
    record s' { sent = add_int64 s.sent amount }

-- The output by its first address, which may be the sender's.
unfoldable pub add_by : Option Text → Text → ℕ → Sums → Sums
add_by none from amount s = add_sent none amount s
add_by (some a) from amount s =
    if text_eq a from
    then record s { refund = add_int64 s.refund amount }
    else add_sent (some a) amount s

unfoldable pub add_output : Text → Vout → Sums → Sums
add_output from v s =
    let s' = record s { value_out = add_int64 s.value_out v.amount_satoshi } in
    add_by (first_address v) from v.amount_satoshi s'

unfoldable pub add_outputs : Text → List Vout → Sums → Sums
add_outputs from [] s = s
add_outputs from (v ∷ vs) s = add_outputs from vs (add_output from v s)

unfoldable pub add_inputs : List Vin → ℕ → ℕ
add_inputs [] sum = sum
add_inputs (v ∷ vs) sum = add_inputs vs (add_int64 sum v.amount_satoshi)

-- A fee below 0, of a coinbase, counts as 0.
unfoldable pub fee_of : ℕ → ℕ → ℕ
fee_of value_in value_out =
    let fee = sub_uint64 value_in value_out in if ltb fee (2 ^ 63) then fee else 0

-- What was sent to the receiver, less the fee where nothing came back.
unfoldable pub sent_less_fee : ℕ → Sums → ℕ
sent_less_fee fee s =
    if s.refund == 0 && s.sent == 0
    then s.sent_to
    else if s.refund == 0
    then sub_uint64 s.sent_to fee
    else s.sent_to

-- `convertFromSatoshiToWei`
unfoldable pub convert_from_satoshi_to_wei : ℤ → ℤ
convert_from_satoshi_to_wei (pos n) = pos (n * 10 ^ 10)
convert_from_satoshi_to_wei (negsuc n) = neg (suc n * 10 ^ 10)

-- `addr` of the first input
abbrev pub first_sender : List Vin → Text
first_sender [] = []
first_sender (v ∷ vs) = v.address

-- With two outputs or more: the wei that are reported, as a uint64, and the receiver.
unfoldable pub sent_value : RawTx → Option (ℕ × Text)
sent_value tx =
    let s = add_outputs (first_sender tx.vins) tx.vouts no_sums in
    let fee = fee_of (add_inputs tx.vins 0) s.value_out in
    if ltb (length tx.vouts) 2
    then none
    else some (to_uint64 (convert_from_satoshi_to_wei (to_int64 (sent_less_fee fee s))), s.to)

module _ {D : Type 0} (encode_uint64 : ℕ → Text) (n : TxNode D) where
  -- The outputs that are looked at, up to the first error.
  unfoldable pub look_at_outputs : Text → ℕ → Bool → List Vout → Option Failure
  look_at_outputs hash i pending [] = none
  look_at_outputs hash i pending (v ∷ vs) =
      let rest = look_at_outputs hash (i + 1) pending vs in
      elim (n.get_transaction_out hash i pending) [ some e ↦ some e | none ↦ rest ]

  -- An address in hexadecimal, or what there was.
  abbrev pub to_hex_or : Text → Text → Text
  to_hex_or address before = elim (n.base58_address_to_hex address) [
    | inl e ↦ before
    | inr hex ↦ add_hex_prefix hex
  ]

  unfoldable pub reward_sender : RawTx → Text
  reward_sender tx =
      let from = add_hex_prefix zero_address in
      if not (text_eq tx.op_sender [])
      then to_hex_or tx.op_sender from
      else if not (text_eq (first_sender tx.vins) [])
      then to_hex_or (first_sender tx.vins) from
      else from

  -- The value that was sent and the receiver, where they are reported.
  unfoldable pub with_value : RawTx → EthTransaction → EthTransaction
  with_value tx t = elim (sent_value tx) [
    | none ↦ t
    | some (value, to) ↦ record t {
      value = encode_uint64 value;
      to = if text_eq to [] then t.to else to_hex_or to t.to;
    }
  ]

  -- The transaction with the place, the block and the number given.
  unfoldable pub reward_transaction : Text → RawTx → ℕ → ℕ → EthTransaction
  reward_transaction hash tx index number = with_value tx (record {
    block_hash = add_hex_prefix tx.block_hash;
    block_number = encode_uint64 number;
    transaction_index = encode_uint64 index;
    hash = add_hex_prefix hash;
    nonce = codes "0x0";
    value = if length tx.vouts == 0 then codes "" else codes "0x0";
    input = codes "0x";
    from = reward_sender tx;
    to = add_hex_prefix zero_address;
    gas = codes "0x0";
    gas_price = codes "0x0";
  })

  -- The transaction, none of one that is pending, and the node's answer.
  unfoldable pub get_reward_transaction_by_hash : Text → Failure ⊎ (Option EthTransaction × RawTx)
  get_reward_transaction_by_hash hash = elim (n.get_raw_transaction hash) [
    | inl e ↦ inl e
    | inr tx ↦
        if is_pending tx.block_hash
        then inr (none, tx)
        else elim (get_transaction_index_in_block n hash tx.block_hash) [
          | inl e ↦ inl e
          | inr index ↦ elim (get_block_number_by_hash n tx.block_hash) [
            | inl e ↦ inl e
            | inr number ↦ elim (look_at_outputs hash 0 (is_pending tx.block_hash) tx.vouts) [
              | some e ↦ inl e
              | none ↦ inr (some (reward_transaction hash tx index number), tx)
            ]
          ]
        ]
  ]
