-- ===== src/Transactions/Inputs.antt =====
-- pkg/transformer/eth_signTransaction.go, `getRequiredUtxos`: which unspent outputs are spent.
use charon.Prelude.{
  Option-cases, leb→le, ℕ, ◌+◌, ◌*◌, ◌^◌, ◌≤◌, ◌<◌, ◌≡◌, ◌⊎◌, inl, inr, refl, ap, ◌∙◌, Bool-cases,
  leb, Option, some, none, List, [], ◌∷◌, ◌++◌, append_assoc, map, Text, codes, pos, arith, Bool,
}
use charon.Amounts.{Decimals, BigHex, convert_from_revo_to_satoshis}
use charon.Amounts.Exact.{AreExact, unit}
use charon.Utxos.{Utxo}
use charon.Transactions.{from_hex_address}
use charon.Transactions.Signing.{RawTxInputs, SignNode, input_of, sum_up, get_required_utxos}
use charon.Hex.Prefix.{remove_hex_prefix}

-- The satoshis of some outputs.
pub total : List Utxo → ℕ
total [] = 0
total (u ∷ us) = u.satoshis + total us

pub total-append : (us : List Utxo) (u : Utxo) → total (us ++ (u ∷ [])) ≡ total us + u.satoshis
unfolding total
total-append [] u = omega arith
total-append (v ∷ us) u = omega (arith, total-append us u)

abbrev pub insufficient : Text
insufficient = codes "Insufficient UTXO value attempted to be sent"

module _ {D : Type 0} (d : Decimals D) (value : D → ℕ) (x : AreExact d value) where
  open x use {from_int, add, at_least, mul_up}

  -- The outputs up to the first with which the sum reaches the minimum, or too few.
  abbrev Reaches : D → D → List RawTxInputs → List Utxo → Option (List RawTxInputs × D) → Type 0
  Reaches minimum sum inputs us none = (us ≡ []) ⊎ (value sum + total us * unit < value minimum)
  Reaches minimum sum inputs us (some (out, balance)) =
      (spent : List Utxo) × (last : Utxo) × (rest : List Utxo) × (us ≡ spent ++ (last ∷ rest))
      × (out ≡ inputs ++ map input_of (spent ++ (last ∷ [])))
      × (value balance ≡ value sum + (total spent + last.satoshis) * unit)
      × (value minimum ≤ value balance)
      × ((spent ≡ []) ⊎ (value sum + total spent * unit < value minimum))

  later-Reaches :
      (u : Utxo) (us : List Utxo) (sum sum' minimum : D) (inputs : List RawTxInputs)
      (r : Option (List RawTxInputs × D))
      → value sum' ≡ value sum + u.satoshis * unit
      → value sum' < value minimum
      → Reaches minimum sum' (inputs ++ (input_of u ∷ [])) us r
      → Reaches minimum sum inputs (u ∷ us) r
  unfolding total
  later-Reaches u us sum sum' minimum inputs none e lt (inl n) = inr (rw n (omega (arith, e)))
  later-Reaches u us sum sum' minimum inputs none e lt (inr n) = inr (omega (arith, e))
  later-Reaches u us sum sum' minimum inputs (some (out, balance)) e lt
        (spent, last, rest, s, o, v, m, f) =
      (
        u ∷ spent,
        last,
        rest,
        ap (λ t. u ∷ t) s,
        o ∙ append_assoc inputs (input_of u ∷ []) (map input_of (spent ++ (last ∷ []))),
        omega (arith, v, e),
        m,
        inr (elim f [ inl n ↦ rw n (omega (arith, e)) | inr n ↦ omega (arith, e) ]),
      )

  sum_up-Reaches :
      (minimum : D) (us : List Utxo) (sum : D) (inputs : List RawTxInputs)
      → Reaches minimum sum inputs us (sum_up d minimum us sum inputs)
  unfolding sum_up total
  sum_up-Reaches minimum [] sum inputs = inl refl
  sum_up-Reaches minimum (u ∷ us) sum inputs =
      let sum' = d.add sum (d.from_int (pos u.satoshis)) in
      let a = add sum (d.from_int (pos u.satoshis)) in
      let i = from_int u.satoshis in
      let l = at_least sum' minimum in
      elim (Bool-cases (leb (value minimum) (value sum'))) [
        | inl e ↦
            rw (l, e)
              (
                [],
                u,
                us,
                refl,
                refl,
                omega (arith, a, i),
                leb→le (value minimum) (value sum') e,
                inl refl,
              )
        | inr e ↦
            rw (l, e)
              (later-Reaches u us sum sum' minimum inputs
                (sum_up d minimum us sum' (inputs ++ (input_of u ∷ []))) (omega (arith, a, i))
                (ground arith) (sum_up-Reaches minimum us sum' (inputs ++ (input_of u ∷ []))))
      ]

  -- What the handler makes of the loop's end.
  abbrev required : Option (List RawTxInputs × D) → Text ⊎ (List RawTxInputs × D)
  required none = inl insufficient
  required (some found) = inr found

  module _ (h : BigHex) (is_hex_address : Text → Bool) (n : SignNode D) (from address : Text) where
    pub get_required_utxos_lem :
        (utxos : List Utxo) (needed : D)
        → from_hex_address n.from_hex (remove_hex_prefix from) ≡ inr address
        → n.get_address_utxos (address ∷ []) ≡ inr utxos
        → get_required_utxos d h is_hex_address n from needed
          ≡ required
              (sum_up d (convert_from_revo_to_satoshis d needed) utxos (d.from_int (pos 0)) [])
    unfolding get_required_utxos
    get_required_utxos_lem utxos needed e l =
        elim (Option-cases
          (sum_up d (convert_from_revo_to_satoshis d needed) utxos (d.from_int (pos 0)) [])) [
            | inl r ↦ rw (e, get_required_utxos) (rw (l, r))
            | inr (found, r) ↦ rw (e, get_required_utxos) (rw (l, r))
          ]

    -- Where the address is converted and the node lists its unspent outputs: these are refused exactly
    -- if there are none or their satoshis, as REVO, are less than what is needed; otherwise those up
    -- to the first are spent with which they reach it, in the order of the node, the first one in any
    -- case, and the balance is the sum of their satoshis.
    pub required_utxos_shortest :
        (utxos : List Utxo) (needed : D)
        → from_hex_address n.from_hex (remove_hex_prefix from) ≡ inr address
        → n.get_address_utxos (address ∷ []) ≡ inr utxos
        → let found = get_required_utxos d h is_hex_address n from needed in
          ((found ≡ inl insufficient) × ((utxos ≡ []) ⊎ (total utxos * 10 ^ 10 < value needed)))
          ⊎ ((spent : List Utxo) × (last : Utxo) × (rest : List Utxo) × (balance : D) × (found
                ≡ inr (map input_of (spent ++ (last ∷ [])), balance))
              × (utxos ≡ spent ++ (last ∷ rest))
              × (value balance ≡ (total spent + last.satoshis) * unit)
              × (value needed ≤ (total spent + last.satoshis) * 10 ^ 10)
              × ((spent ≡ []) ⊎ (total spent * 10 ^ 10 < value needed)))
    unfolding convert_from_revo_to_satoshis
    required_utxos_shortest utxos needed e l =
        let minimum = d.mul needed (d.numeral 1 (pos 8)) in
        let zero_sum = d.from_int (pos 0) in
        let r = sum_up-Reaches minimum utxos zero_sum [] in
        let m = mul_up needed in
        let z = from_int 0 in
        let known = get_required_utxos_lem utxos needed e l in
        elim (Option-cases (sum_up d minimum utxos zero_sum [])) [
          | inl o ↦
              inl (
                known ∙ rw o,
                elim (rw o at r) [ inl a ↦ inl a | inr a ↦ inr (omega (arith, m, z)) ],
              )
          | inr ((out, balance), o) ↦
              let (spent, last, rest, s, i, v, reached, few) = (rw o at r) in
              inr (
                spent,
                last,
                rest,
                balance,
                known ∙ rw o (rw i),
                s,
                omega (arith, v, z),
                omega (arith, v, z, reached, m),
                elim few [ inl a ↦ inl a | inr a ↦ inr (omega (arith, z, m)) ],
              )
        ]
