-- ===== src/Transactions/Change.antt =====
-- pkg/transformer/eth_signTransaction.go: what the outputs of a transaction add up to.
use charon.Prelude.{
  append_assoc, lookup-insert, ℕ, ◌+◌, ◌*◌, ◌^◌, ◌≤◌, ◌≡◌, ◌≢◌, ◌⊎◌, inl, inr, refl, ap, sym, ◌∙◌,
  Bool-cases, ltb, some, List, [], ◌∷◌, ◌++◌, map, Text, arith, Bool, Map, insert, lookup, text_Eq,
  text_eq_iff, text_eq_refl,
}
use charon.Rpc.{JsonRpcError}
use charon.Amounts.{Decimals, BigHex, zero_satoshi, eth_value_to_revo_amount}
use charon.Amounts.Exact.{AreExact, unit}
use charon.Utxos.{Utxo}
use charon.Hex.Prefix.{remove_hex_prefix}
use charon.Transactions.{
  SendTransactionRequest, from_hex_address, get_revo_wallet_address, ◌>>=◌, or_callback_error,
  or_invalid_params,
}
use charon.Transactions.Signing.{
  RawTransaction, Outputs, RawTxInputs, SignNode, input_of, get_required_utxos, raw_send_to_address,
  calculate_change,
}
use charon.Transactions.Inputs.{total-append, total, required_utxos_shortest}

-- What is known of a chain of steps that ended well.
bind-eq-inr :
    {A B : Type 0} (m : JsonRpcError ⊎ A) (f : A → JsonRpcError ⊎ B) (b : B)
    → (m >>= f) ≡ inr b
    → (a : A) × (m ≡ inr a) × (f a ≡ inr b)
bind-eq-inr (inl e) f b h = absurd (ground arith)
bind-eq-inr (inr a) f b h = (a, refl, h)

callback-eq-inr : {A : Type 0} (m : Text ⊎ A) (a : A) → or_callback_error m ≡ inr a → m ≡ inr a
callback-eq-inr (inl e) a h = absurd (ground arith)
callback-eq-inr (inr b) a h = ground arith

params-eq-inr : {A : Type 0} (m : Text ⊎ A) (a : A) → or_invalid_params m ≡ inr a → m ≡ inr a
params-eq-inr (inl e) a h = absurd (ground arith)
params-eq-inr (inr b) a h = ground arith

paid-from :
    {D : Type 0} (to from : Text) (amount change : D)
    → lookup from (insert from change (insert to amount [])) ≡ some change
paid-from to from amount change =
    ground (arith, lookup-insert from from change (insert to amount []), text_eq_refl from)

paid-to :
    {D : Type 0} (to from : Text) (amount change : D)
    → to ≢ from
    → lookup to (insert from change (insert to amount [])) ≡ some amount
paid-to to from amount change ne = ground (
  arith,
  lookup-insert from to change (insert to amount []),
  lookup-insert to to amount [],
  text_eq_iff from to,
  text_eq_refl to,
)

module _ {D : Type 0} (d : Decimals D) (value : D → ℕ) (x : AreExact d value) where
  open x use {sub, less_than}

  change-value :
      (balance needed change : D)
      → calculate_change d balance needed ≡ inr change
      → value change + value needed ≡ value balance
  unfolding calculate_change
  change-value balance needed change e =
      let l = less_than balance needed in
      elim (Bool-cases (ltb (value balance) (value needed))) [
        | inl b ↦ absurd (ground (arith, l, b))
        | inr b ↦
            let same : d.sub balance needed ≡ change = ground (arith, l, b, e) in
            let le : value needed ≤ value balance = ground arith in
            let s = sub balance needed le in omega (arith, s, le, ap value same)
      ]

  module _ (h : BigHex) (is_hex_address : Text → Bool) (n : SignNode D)
      (req : SendTransactionRequest) (to from : Text) (tx : RawTransaction D) where
    -- The steps of putting a payment together that ended well.
    record Payment : Type 0 where
      amount : D
      inputs : List RawTxInputs
      balance : D
      change : D
      value_read : eth_value_to_revo_amount d h req.value (zero_satoshi d) ≡ inr amount
      found : get_required_utxos d h is_hex_address n req.from amount ≡ inr (inputs, balance)
      changed : calculate_change d balance amount ≡ inr change
      made : tx ≡ record {
        inputs = inputs;
        outputs = Outputs.pay (insert from change (insert to amount []));
      }

    payment :
        get_revo_wallet_address n.from_hex is_hex_address req.to ≡ inr to
        → get_revo_wallet_address n.from_hex is_hex_address req.from ≡ inr from
        → raw_send_to_address d h is_hex_address n req ≡ inr tx
        → Payment
    unfolding raw_send_to_address
    payment t f r =
        let r' = (rw (t, f) at r) in
        let (amount, a, r1) =
          bind-eq-inr (or_invalid_params (eth_value_to_revo_amount d h req.value (zero_satoshi d)))
            _ tx r' in
        let ((inputs, balance), i, r2) =
          bind-eq-inr (or_callback_error (get_required_utxos d h is_hex_address n req.from amount))
            _ tx r1 in
        let (change, c, r3) =
          bind-eq-inr (or_callback_error (calculate_change d balance amount)) _ tx r2 in
        record {
          amount = amount;
          inputs = inputs;
          balance = balance;
          change = change;
          value_read = params-eq-inr _ amount a;
          found = callback-eq-inr _ (inputs, balance) i;
          changed = callback-eq-inr _ change c;
          made = ground (arith, r3);
        }

    -- Where the addresses of a request to send REVO are converted, to two different ones, the sender's
    -- outputs are listed by the node, and a transaction is put together: its inputs are the first of
    -- these outputs, and it pays the amount to the receiver and the change to the sender, and these
    -- two make as many REVO as the inputs have satoshis, which is 10^8 times what the inputs have,
    -- as the change is a number of satoshis less one of REVO.
    pub signed_outputs :
        (address : Text) (utxos : List Utxo)
        → from_hex_address n.from_hex (remove_hex_prefix req.from) ≡ inr address
        → n.get_address_utxos (address ∷ []) ≡ inr utxos
        → get_revo_wallet_address n.from_hex is_hex_address req.to ≡ inr to
        → get_revo_wallet_address n.from_hex is_hex_address req.from ≡ inr from
        → to ≢ from
        → raw_send_to_address d h is_hex_address n req ≡ inr tx
        → (spent rest : List Utxo) × (amount change : D) × (paid : Map Text D) × (utxos
            ≡ spent ++ rest)
          × (tx.inputs ≡ map input_of spent)
          × (eth_value_to_revo_amount d h req.value (zero_satoshi d) ≡ inr amount)
          × (tx.outputs ≡ Outputs.pay paid)
          × (lookup to paid ≡ some amount)
          × (lookup from paid ≡ some change)
          × (value amount + value change ≡ total spent * unit)
          × (value amount ≤ total spent * 10 ^ 10)
    signed_outputs address utxos e l t f ne r =
        let p = payment t f r in
        elim (required_utxos_shortest d value x h is_hex_address n req.from address utxos p.amount e
          l) [
            | inl (bad, _) ↦ absurd (cc (bad, p.found))
            | inr (spent, last, rest, balance, good, listed, worth, enough, few) ↦
                let same_inputs : p.inputs ≡ map input_of (spent ++ (last ∷ [])) =
                  ground (arith, good, p.found) in
                let same_balance : p.balance ≡ balance = ground (arith, good, p.found) in
                let made = p.made in
                let paid = insert from p.change (insert to p.amount []) in
                (
                  spent ++ (last ∷ []),
                  rest,
                  p.amount,
                  p.change,
                  paid,
                  listed ∙ sym (append_assoc spent (last ∷ []) rest),
                  ap (λ (t : RawTransaction D). t.inputs) made ∙ same_inputs,
                  p.value_read,
                  ap (λ (t : RawTransaction D). t.outputs) made,
                  paid-to to from p.amount p.change ne,
                  paid-from to from p.amount p.change,
                  omega (
                    arith,
                    change-value p.balance p.amount p.change p.changed,
                    ap value same_balance,
                    worth,
                    total-append spent last,
                  ),
                  omega (arith, enough, total-append spent last),
                )
          ]
