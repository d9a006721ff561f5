-- ===== src/Tests/Utxos.antt =====
-- Unspent outputs at concrete inputs.
use charon.Prelude.{
  refl, inr, ◌*◌, text_eq, to_lower, ℕ, ◌≤◌, ◌≡◌, false, List, [], ◌∷◌, codes, arith,
}
use charon.Utxos.{choose, confirm, is_immature, Utxo, RevoUtxo, Query, Selected, select}
use charon.Utxos.Request.{utxos_params, utxos_params-misspelt, named_type, script_type_string}
use charon.Tests.Transactions.{decimals}
use charon.Amounts.Exact.{unit}
use charon.Utxos.Selection.{AreMined, IsShortest, eligible, safe_sum, select-IsShortest}

abbrev utxo : ℕ → Utxo
utxo n = record {
  address = codes "R1";
  txid = codes "c1";
  output_index = 0;
  script = codes "6a";
  satoshis = n;
  height = 10;
  is_stake = false;
}

abbrev utxos : List Utxo
utxos = utxo 5 ∷ utxo 7 ∷ utxo 9 ∷ []

abbrev query : ℕ → Query
query minimum = record {
  types = [];
  minimum_sum = minimum;
  block_count = 20;
  mature_block_height = 2000;
}

utxos-AreMined : (minimum : ℕ) → AreMined (query minimum) utxos
utxos-AreMined minimum = (omega arith, (omega arith, (omega arith, tt)))

enough : 11 ≤ safe_sum (eligible (query 11) utxos)
unfolding choose confirm is_immature
enough = omega arith

select-IsShortest_example :
    (out : List RevoUtxo) × (select (query 11) utxos 0 [] ≡ Selected.utxos out)
    × IsShortest 11 0 (eligible (query 11) utxos) out
select-IsShortest_example =
    select-IsShortest utxos (query 11) (omega arith) (utxos-AreMined 11) enough

-- An address, a sum and a type that is misspelt: the request has no types and asks for all.
utxos_params-misspelt_example :
    utxos_params decimals (codes "0xa1" ∷ codes "2000000001" ∷ codes "p2pkx" ∷ [])
    ≡ inr (record { address = codes "0xa1"; min_sum_amount = 2000000001 * unit; types = [] })
unfolding named_type text_eq to_lower script_type_string
utxos_params-misspelt_example =
    utxos_params-misspelt decimals (codes "0xa1") (codes "2000000001") (2000000001 * unit) refl
      (codes "p2pkx" ∷ []) refl
