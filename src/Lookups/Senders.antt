-- ===== src/Lookups/Senders.antt =====
-- pkg/transformer/util.go: the sender and the receiver of a transaction that is not a contract's.
use charon.Prelude.{
  word, ◌-◌, ◌==◌, ℕ, zero, suc, ◌⊎◌, inl, inr, Option, none, some, List, [], ◌∷◌, ◌++◌, Text,
  codes, text_eq, if◌then◌else◌, get_elem?,
}
use charon.Hex.Prefix.{add_hex_prefix}
use charon.Scripts.{
  ContractInvokeInfo, DecodedOut, parse_call, parse_create, split_spaces, last_word,
}
use charon.Lookups.{failure_message, Vin, RawTx, TxNode}

-- How the search for an address ends.
pub data Search : Type 0 where
  found : Text → Search
  failed : Text → Search
  panics out_of_fuel : Search

abbrev pub found_or_failed : Text ⊎ Text → Search
found_or_failed (inl e) = Search.failed e
found_or_failed (inr a) = Search.found a

-- The first input that spends an output of a contract.
unfoldable pub spending_input : List Vin → Option Vin
spending_input [] = none
spending_input (v ∷ vs) =
    let rest = spending_input vs in if text_eq v.script_asm (codes "OP_SPEND") then some v else rest

-- The sender of a creation, and the contract of a call.
abbrev pub from_of : Text ⊎ ContractInvokeInfo → Search
from_of (inl e) = Search.failed (codes "couldn't parse create sender ASM")
from_of (inr info) = Search.found info.from

abbrev pub to_of : Text ⊎ ContractInvokeInfo → Search
to_of (inl e) = Search.failed (codes "couldn't parse call sender ASM")
to_of (inr info) = Search.found info.to

-- The first address that is not empty.
unfoldable pub first_input_address : List Vin → Option Text
first_input_address [] = none
first_input_address (v ∷ vs) =
    let rest = first_input_address vs in if text_eq v.address [] then rest else some v.address

-- The first of some addresses that is not empty.
unfoldable pub first_of : List Text → Option Text
first_of [] = none
first_of (a ∷ as') = let rest = first_of as' in if text_eq a [] then rest else some a

unfoldable pub first_output_address : {D : Type 0} → List (DecodedOut D) → Option Text
first_output_address [] = none
first_output_address (v ∷ vs) =
    let rest = first_output_address vs in
    elim (first_of v.addresses) [ none ↦ rest | some a ↦ some a ]

-- `findNonContractTxReceiverAddress`
unfoldable pub find_non_contract_tx_receiver_address :
    {D : Type 0} → (Text → Text ⊎ Text) → List (DecodedOut D) → Text ⊎ Text
find_non_contract_tx_receiver_address convert vouts = elim (first_output_address vouts) [
  | none ↦ inl (codes "not found")
  | some a ↦ elim (convert a) [ inl e ↦ inl e | inr hex ↦ inr (add_hex_prefix hex) ]
]

-- The bits of -1.
abbrev pub minus_one : ℕ
minus_one = word - 1

module _ {D : Type 0} (convert disasm_script : Text → Text ⊎ Text) (n : TxNode D) where
  -- What the script of an output says, where `again` searches on from its transaction.
  unfoldable pub read_script : Search → Text → Search
  read_script again hex = elim (disasm_script hex) [
    | inl e ↦ Search.failed (codes "Couldn't disasmbly the hex script: " ++ e)
    | inr asm ↦
        let script = split_spaces asm in
        let final_op = last_word script in
        if text_eq final_op (codes "OP_SPEND")
        then again
        else if text_eq final_op (codes "OP_CREATE")
        then from_of (parse_create script)
        else if text_eq final_op (codes "OP_CALL")
        then to_of (parse_call script)
        else Search.failed (codes "couldn't find sender address")
  ]

  -- Through the transactions before, with fuel for each; `-1` is no place of an output.
  unfoldable pub search_sender_address : ℕ → RawTx → Search
  search_sender_address zero tx = Search.out_of_fuel
  search_sender_address (suc f) tx = elim (spending_input tx.vins) [
    | none ↦ Search.failed (codes "Couldn't find OP_SPEND in transaction Vins")
    | some v ↦
        if v.vout_n == minus_one
        then Search.failed (codes "Couldn't find OP_SPEND in transaction Vins")
        else elim (n.get_raw_transaction v.id) [
          | inl e ↦ Search.failed (codes "Couldn't get raw transaction: " ++ failure_message e)
          | inr prev ↦ elim (get_elem? prev.vouts v.vout_n) [
            | none ↦ Search.panics
            | some out ↦ read_script (search_sender_address f prev) out.hex
          ]
        ]
  ]

  abbrev pub with_prefix : Search → Search
  with_prefix (Search.found a) = Search.found (add_hex_prefix a)
  with_prefix (Search.failed e) =
      Search.failed (codes "Couldn't find sender address in previous transactions: " ++ e)
  with_prefix Search.panics = Search.panics
  with_prefix Search.out_of_fuel = Search.out_of_fuel

  -- `getNonContractTxSenderAddress` of a transaction by its identifier.
  unfoldable pub get_non_contract_tx_sender_address : ℕ → Text → Search
  get_non_contract_tx_sender_address f id = elim (n.get_raw_transaction id) [
    | inl e ↦
        Search.failed
          (codes "Couldn't get raw Transaction data from Transaction ID: " ++ failure_message e)
    | inr raw ↦ elim raw.vins [
      | [] ↦ Search.failed (codes "Transaction has 0 Vins and thus no valid sender address")
      | v ∷ vs ↦ elim (first_input_address (v ∷ vs)) [
        | some a ↦ elim (convert a) [
          | inl e ↦ Search.failed e
          | inr hex ↦ Search.found (add_hex_prefix hex)
        ]
        | none ↦ with_prefix (search_sender_address f raw)
      ]
    ]
  ]
