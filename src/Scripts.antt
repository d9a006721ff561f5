-- ===== src/Scripts.antt =====
-- pkg/revo/btcasm.go, with what pkg/revo/rpc_types.go and pkg/transformer/util.go read out of the
-- scripts of a transaction. `encoding/hex` with txscript's `DisasmString` is a parameter.
pub mod Endian
use charon.Prelude.{
  ℕ, ◌⊎◌, inl, inr, Bool, true, false, Option, none, some, List, [], ◌∷◌, ◌++◌, Text, codes,
  text_eq, length, drop, ◌==◌, if◌then◌else◌, suc, zero, ◌-◌, ltb, ◌&&◌, not,
}

-- `ContractInvokeInfo`
pub record ContractInvokeInfo : Type 0 where
  pub from : Text
  pub gas_limit : Text
  pub gas_price : Text
  pub call_data : Text
  pub to : Text

-- The digits in pairs, from the last pair to the first, before what was collected; a digit that is
-- left over is dropped.
unfoldable pub pairs_before : Text → Text → Text
pairs_before (c ∷ d ∷ hex) after = pairs_before hex (c ∷ d ∷ after)
pairs_before (c ∷ []) after = after
pairs_before [] after = after

unfoldable pub is_even : Text → Bool
is_even [] = true
is_even (c ∷ []) = false
is_even (c ∷ d ∷ hex) = is_even hex

-- `strings.TrimLeft(s, "0")`
unfoldable pub trim_zeros : Text → Text
trim_zeros [] = []
trim_zeros (c ∷ s) = let rest = trim_zeros s in if c == b'0' then rest else c ∷ s

unfoldable pub convert_to_big_endian : Text → Text ⊎ Text
convert_to_big_endian hex =
    if is_even hex then inr (trim_zeros (pairs_before hex [])) else inl (codes "invalid hex string")

-- The words of a script, by number; the number of words is checked before.
abbrev pub word_at : List Text → ℕ → Text
word_at [] i = []
word_at (w ∷ ws) zero = w
word_at (w ∷ ws) (suc i) = word_at ws i

-- The reading of a script of a number of words, with the places of the sender, the limit and the
-- price of gas, the data and the contract; no place where the script has none.
abbrev pub place : List Text → Option ℕ → Text
place parts none = []
place parts (some i) = word_at parts i

unfoldable pub parse_parts :
    ℕ → Option ℕ → ℕ → ℕ → ℕ → Option ℕ → Text → List Text → Text ⊎ ContractInvokeInfo
parse_parts count from gas_limit gas_price call_data to message parts =
    if length parts == count
    then elim (convert_to_big_endian (word_at parts gas_limit)) [
      | inl e ↦ inl e
      | inr limit ↦ inr (record {
        from = place parts from;
        gas_limit = limit;
        gas_price = word_at parts gas_price;
        call_data = word_at parts call_data;
        to = place parts to;
      })
    ]
    else inl message

-- The messages name the parts, or their number, too; nothing reads them.
unfoldable pub parse_call_asm : List Text → Text ⊎ ContractInvokeInfo
parse_call_asm = parse_parts 6 none 1 2 3 (some 4) (codes "invalid OP_CALL script for parts 6")

unfoldable pub parse_call_sender_asm : List Text → Text ⊎ ContractInvokeInfo
parse_call_sender_asm =
    parse_parts 10 (some 1) 5 6 7 (some 8) (codes "invalid create_sender script for parts 10")

unfoldable pub parse_create_asm : List Text → Text ⊎ ContractInvokeInfo
parse_create_asm = parse_parts 5 none 1 2 3 none (codes "invalid OP_CREATE script for parts 5")

unfoldable pub parse_create_sender_asm : List Text → Text ⊎ ContractInvokeInfo
parse_create_sender_asm =
    parse_parts 9 (some 1) 5 6 7 none (codes "invalid create_sender script for parts 9")

-- `strings.Split(s, " ")`, with the word that is being read.
unfoldable pub split_from : Text → Text → List Text
split_from read [] = read ∷ []
split_from read (c ∷ s) =
    if c == b' ' then read ∷ split_from [] s else split_from (read ++ (c ∷ [])) s

unfoldable pub split_spaces : Text → List Text
split_spaces s = split_from [] s

unfoldable pub last_word : List Text → Text
last_word [] = []
last_word (w ∷ []) = w
last_word (w ∷ v ∷ ws) = last_word (v ∷ ws)

-- `strings.HasSuffix`
unfoldable pub has_suffix : Text → Text → Bool
has_suffix s t =
    if ltb (length s) (length t) then false else text_eq (drop (length s - length t) s) t

-- One reading, and where it fails the other.
abbrev pub or_else : {A : Type 0} → Text ⊎ A → Text ⊎ A → Text ⊎ A
or_else (inr a) other = inr a
or_else (inl e) other = other

-- A call or a creation with OP_SENDER, or else without.
unfoldable pub parse_call : List Text → Text ⊎ ContractInvokeInfo
parse_call script = or_else (parse_call_sender_asm script) (parse_call_asm script)

unfoldable pub parse_create : List Text → Text ⊎ ContractInvokeInfo
parse_create script = or_else (parse_create_sender_asm script) (parse_create_asm script)

-- An output of a decoded transaction (`DecodedRawTransactionOutV`), as far as the code reads it; its
-- value is of the library of decimals.
pub record DecodedOut (D : Type 0) : Type 0 where
  pub value : D
  pub asm : Text
  pub hex : Text
  pub addresses : List Text

-- `IsContractCreation`
unfoldable pub is_contract_creation : {D : Type 0} → List (DecodedOut D) → Bool
is_contract_creation [] = false
is_contract_creation (out ∷ outs) =
    let rest = is_contract_creation outs in
    if has_suffix out.asm (codes "OP_CREATE") then true else rest

-- `GetOpSenderAddress`: what the first script with OP_SENDER says, or `none` to go on.
unfoldable pub op_sender_of : Text → Option (Text ⊎ Text)
op_sender_of asm =
    let chunks = split_spaces asm in
    let creates = length chunks == 9 in
    let calls = length chunks == 10 in
    if not (has_suffix asm (codes "OP_CREATE")) && not (has_suffix asm (codes "OP_CALL"))
    then none
    else if not creates && not calls
    then none
    else if not (text_eq (word_at chunks 0) (codes "1"))
    then some (inl (codes "OP_SENDER address if of invalid type"))
    else if not (text_eq (word_at chunks 3) (codes "OP_SENDER"))
    then some (inl (codes "Expected opcode OP_SENDER missing or malformatted"))
    else if creates && not (text_eq (word_at chunks 8) (codes "OP_CREATE"))
    then some (inl (codes "Expected opcode OP_CREATE missing or malformatted"))
    else if calls && not (text_eq (word_at chunks 9) (codes "OP_CALL"))
    then some (inl (codes "Expected opcode OP_CALL missing or malformatted"))
    else some (inr (word_at chunks 1))

unfoldable pub get_op_sender_address : {D : Type 0} → List (DecodedOut D) → Text ⊎ Text
get_op_sender_address [] = inl (codes "No script with OP_SENDER found in Vouts")
get_op_sender_address (out ∷ outs) =
    let rest = get_op_sender_address outs in
    elim (op_sender_of out.asm) [ none ↦ rest | some found ↦ found ]

-- What a script is read as: its contract, one that is only begun to be understood, an error, or
-- nothing.
pub data ContractInfo : Type 0 where
  contract : ContractInvokeInfo → ContractInfo
  spends : ContractInfo
  unreadable : ContractInfo
  no_contract : ContractInfo

abbrev pub read_as : Text ⊎ ContractInvokeInfo → ContractInfo
read_as (inl e) = ContractInfo.unreadable
read_as (inr info) = ContractInfo.contract info

module _ (disasm_script : Text → Text ⊎ Text) where
  -- The switch on the last operation of a script.
  unfoldable pub contract_of : Text → ContractInfo
  contract_of hex = elim (disasm_script hex) [
    | inl e ↦ ContractInfo.unreadable
    | inr asm ↦
        let script = split_spaces asm in
        let final_op = last_word script in
        if text_eq final_op (codes "OP_CALL")
        then read_as (parse_call script)
        else if text_eq final_op (codes "OP_CREATE")
        then read_as (parse_create script)
        else if text_eq final_op (codes "OP_SPEND")
        then ContractInfo.spends
        else ContractInfo.no_contract
  ]

  -- `ExtractContractInfo`: the first output with a contract, or that cannot be read.
  unfoldable pub extract_contract_info : {D : Type 0} → List (DecodedOut D) → ContractInfo
  extract_contract_info [] = ContractInfo.no_contract
  extract_contract_info (out ∷ outs) =
      let rest = extract_contract_info outs in
      elim (contract_of out.hex) [
        | contract info ↦ ContractInfo.contract info
        | spends ↦ ContractInfo.spends
        | unreadable ↦ ContractInfo.unreadable
        | no_contract ↦ rest
      ]
