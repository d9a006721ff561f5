-- ===== src/Tests/Transactions.antt =====
-- Amounts and the signing of a transaction at concrete inputs, with decimals of 18 digits behind the
-- point as the library.
use charon.Prelude.{
  Bool, insert, ℕ, ◌+◌, ◌-◌, ◌*◌, ◌/◌, ◌%◌, ◌^◌, ◌≤◌, ◌<◌, ◌≡◌, ◌⊎◌, refl, inl, inr, true, false,
  some, List, [], ◌∷◌, ◌++◌, map, Text, codes, ltb, leb, ◌==◌, text_eq, if◌then◌else◌, ℤ, pos,
  negsuc, max, arith, Map, lookup, text_Eq, has_prefix,
}
use charon.Hex.Prefix.{decode_big, add_hex_prefix, remove_hex_prefix, is_eth_hex_address}
use charon.Amounts.{
  Decimals, BigHex, big_string, digits_before, zero_satoshi, eth_value_to_revo_amount,
  value_to_amount, eth_decimal_value_to_revo_amount, convert_from_revo_to_satoshis,
  gas_price_decimal,
}
use charon.Amounts.Exact.{AreExact, unit}
use charon.Amounts.Bounds.{eth_value_bounds}
use charon.Utxos.{Utxo}
use charon.Transactions.{SendTransactionRequest, from_hex_address, get_revo_wallet_address}
use charon.Transactions.Signing.{
  RawTransaction, Outputs, SignNode, input_of, sum_up, calculate_change, get_required_utxos,
  raw_send_to_address,
}
use charon.Transactions.Inputs.{total, insufficient, required_utxos_shortest}
use charon.Transactions.Change.{signed_outputs}

-- m * 10^e
abbrev numeral : ℕ → ℤ → ℕ
numeral m (pos e) = m * unit * 10 ^ e
numeral m (negsuc e) = m * unit / 10 ^ (e + 1)

abbrev from_int : ℤ → ℕ
from_int (pos n) = n * unit
from_int (negsuc n) = 0

-- One number is enough here.
abbrev from_string : Text → Text ⊎ ℕ
from_string s =
    if text_eq s (codes "2000000001") then inr (2000000001 * unit) else inl (codes "not a number")

abbrev pub decimals : Decimals ℕ
decimals = record {
  numeral = numeral;
  from_int = from_int;
  from_string = from_string;
  add = ◌+◌;
  sub = ◌-◌;
  mul = λ x y. x * y / unit;
  div = λ x y. x * unit / y;
  floor = λ x. x / unit * unit;
  big_int = λ x. pos (x / unit);
  less_than = ltb;
  at_least = λ x y. leb y x;
  equals = ◌==◌;
  show = λ x. codes "0.0000004";
}

decimals-AreExact : AreExact decimals (λ x. x)
decimals-AreExact = record {
  from_int = λ n. refl;
  minimum_gas = refl;
  add = λ x y. refl;
  sub = λ x y h. refl;
  mul_up = λ x. omega arith;
  mul_down = λ x h. omega arith;
  floor = λ x. refl;
  less_than = λ x y. refl;
  at_least = λ x y. refl;
}

-- 2000000001 in hexadecimal.
abbrev wei : Text
wei = codes "0x77359401"

abbrev pub big_hex : BigHex
big_hex = record {
  encode_big = λ n. wei;
  hexutil_decode_big = λ s. if text_eq s wei then inr 2000000001 else inl (codes "invalid");
}

wei_decodes : decode_big big_hex.hexutil_decode_big wei ≡ inr 2000000001
unfolding decode_big add_hex_prefix has_prefix text_eq
wei_decodes = refl

wei_read : from_string (big_string (pos 2000000001)) ≡ inr (2000000001 * unit)
unfolding big_string digits_before text_eq
wei_read = refl

eth_value_bounds_example :
    (amount : ℕ) × (price : ℕ) × (eth_value_to_revo_amount decimals big_hex wei
        (zero_satoshi decimals)
      ≡ inr amount)
    × (amount % 10 ^ 9 ≡ 0)
    × (amount ≤ 2000000001)
    × (2000000001 < amount + 10 ^ 9)
    × (gas_price_decimal decimals big_hex (some (pos 2000000001)) ≡ inr price)
    × (price ≡ max (4 * 10 ^ 11) amount)
unfolding text_eq
eth_value_bounds_example =
    eth_value_bounds decimals (λ x. x) decimals-AreExact big_hex wei 2000000001 (2000000001 * unit)
      (pos 2000000001) refl wei_decodes wei_read refl refl

abbrev utxo : ℕ → Utxo
utxo n = record {
  address = codes "Ra";
  txid = codes "c1";
  output_index = 0;
  script = codes "6a";
  satoshis = n;
  height = 10;
  is_stake = false;
}

abbrev utxos : List Utxo
utxos = utxo 0 ∷ utxo 5 ∷ utxo 7 ∷ []

abbrev node : SignNode ℕ
node = record {
  from_hex = λ s. inr (b'R' ∷ s);
  get_address_utxos = λ addresses. inr utxos;
  create_raw_tx = λ tx. inr (codes "f0");
  sign_raw_tx = λ raw. inr (record { hex = raw; complete = true });
  accounts = codes "aa" ∷ [];
}

abbrev payment_request : SendTransactionRequest
payment_request = record {
  from = codes "0xaa";
  to = codes "0xbb";
  gas = pos 250000;
  gas_price = pos 40000000000;
  value = wei;
  data_hex = codes "";
  nonce = codes "";
}

abbrev never_hex : Text → Bool
never_hex s = false

sender_converted :
    from_hex_address node.from_hex (remove_hex_prefix (codes "0xaa")) ≡ inr (codes "Raa")
unfolding from_hex_address remove_hex_prefix has_prefix
sender_converted = refl

sender_address : get_revo_wallet_address node.from_hex never_hex (codes "0xaa") ≡ inr (codes "Raa")
unfolding get_revo_wallet_address is_eth_hex_address from_hex_address remove_hex_prefix has_prefix
sender_address = refl

receiver_address :
    get_revo_wallet_address node.from_hex never_hex (codes "0xbb") ≡ inr (codes "Rbb")
unfolding get_revo_wallet_address is_eth_hex_address from_hex_address remove_hex_prefix has_prefix
receiver_address = refl

required_utxos_shortest_example :
    let found = get_required_utxos decimals big_hex never_hex node (codes "0xaa") 2000000000 in
    ((found ≡ inl insufficient) × ((utxos ≡ []) ⊎ (total utxos * 10 ^ 10 < 2000000000)))
    ⊎ ((spent : List Utxo) × (last : Utxo) × (rest : List Utxo) × (balance : ℕ) × (found
          ≡ inr (map input_of (spent ++ (last ∷ [])), balance))
        × (utxos ≡ spent ++ (last ∷ rest))
        × (balance ≡ (total spent + last.satoshis) * unit)
        × (2000000000 ≤ (total spent + last.satoshis) * 10 ^ 10)
        × ((spent ≡ []) ⊎ (total spent * 10 ^ 10 < 2000000000)))
required_utxos_shortest_example =
    required_utxos_shortest decimals (λ x. x) decimals-AreExact big_hex never_hex node
      (codes "0xaa") (codes "Raa") utxos 2000000000 sender_converted refl

abbrev transaction : RawTransaction ℕ
transaction = record {
  inputs = input_of (utxo 0) ∷ input_of (utxo 5) ∷ [];
  outputs = Outputs.pay ((codes "Rbb", 2000000000) ∷ (codes "Raa", 4999999998000000000) ∷ []);
}

put_together : raw_send_to_address decimals big_hex never_hex node payment_request ≡ inr transaction
unfolding raw_send_to_address get_revo_wallet_address is_eth_hex_address from_hex_address
    remove_hex_prefix has_prefix eth_value_to_revo_amount value_to_amount
    eth_decimal_value_to_revo_amount decode_big add_hex_prefix big_string digits_before text_eq
    get_required_utxos sum_up convert_from_revo_to_satoshis calculate_change insert
put_together = refl

signed_outputs_example :
    (spent rest : List Utxo) × (amount change : ℕ) × (paid : Map Text ℕ) × (utxos ≡ spent ++ rest)
    × (transaction.inputs ≡ map input_of spent)
    × (eth_value_to_revo_amount decimals big_hex wei (zero_satoshi decimals) ≡ inr amount)
    × (transaction.outputs ≡ Outputs.pay paid)
    × (lookup (codes "Rbb") paid ≡ some amount)
    × (lookup (codes "Raa") paid ≡ some change)
    × (amount + change ≡ total spent * unit)
    × (amount ≤ total spent * 10 ^ 10)
signed_outputs_example =
    signed_outputs decimals (λ x. x) decimals-AreExact big_hex never_hex node payment_request
      (codes "Rbb") (codes "Raa") transaction (codes "Raa") utxos sender_converted refl
      receiver_address sender_address (λ e. ground arith) put_together
