-- ===== src/Tests/Lookups.antt =====
-- Values, scripts and senders of transactions at concrete inputs.
use charon.Prelude.{ℕ, ◌≡◌, ◌≢◌, refl, inl, inr, none, some, [], ◌∷◌, Text, codes, text_eq, arith}
use charon.Lookups.{Failure, Vin, Vout, RawTx, TxNode}
use charon.Lookups.Senders.{Search, spending_input, search_sender_address}
use charon.Lookups.Ends.{IsOrdered, search_ends}

abbrev output : ℕ → Text → Vout
output amount address = record {
  amount_satoshi = amount;
  address = address;
  addresses = [];
  hex = codes "6a";
}

abbrev input : Text → Text → Vin
input id asm = record {
  id = id;
  vout_n = 0;
  amount_satoshi = 1000;
  address = codes "Ra";
  script_asm = asm;
}

-- 1000 satoshis of which 700 are sent, 200 come back, and 100 are the fee.
abbrev payment : RawTx
payment = record {
  hex = codes "f0";
  id = codes "c1";
  block_hash = codes "b1";
  op_sender = [];
  vins = input (codes "c0") (codes "") ∷ [];
  vouts = output 700 (codes "Rb") ∷ output 200 (codes "Ra") ∷ [];
}

-- A transaction that spends an output of the first one, which spends none.
abbrev second : RawTx
second = record payment { id = codes "c2"; vins = input (codes "c1") (codes "OP_SPEND") ∷ [] }

abbrev node : TxNode ℕ
node = record {
  get_transaction = λ hash. inl Failure.invalid_address;
  get_raw_transaction = λ id. inr payment;
  decode_raw_transaction = λ hex. inl Failure.invalid_parameter;
  get_transaction_out = λ hash i pending. none;
  get_block = λ hash. inl Failure.invalid_parameter;
  base58_address_to_hex = λ a. inl Failure.invalid_address;
}

-- 1 for a transaction that spends a contract's output, and 0 for any other.
abbrev rank : RawTx → ℕ
rank tx = elim (spending_input tx.vins) [ none ↦ 0 | some v ↦ 1 ]

node-IsOrdered : IsOrdered inr inr node rank
unfolding spending_input text_eq
node-IsOrdered tx prev v e r =
    let same : payment ≡ prev = ground arith in
    let first : rank prev ≡ 0 = rw (← same) refl in
    let later : rank tx ≡ 1 = rw (e, rank) refl in omega (arith, first, later)

search_ends_example :
    (search_sender_address inr inr node 2 second ≢ Search.out_of_fuel)
    × (search_sender_address inr inr node 5 second ≡ search_sender_address inr inr node 2 second)
unfolding spending_input text_eq
search_ends_example =
    search_ends inr inr node rank 2 5 second node-IsOrdered (omega arith) (omega arith)
