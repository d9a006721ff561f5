-- ===== src/Utxos.antt =====
-- pkg/transformer/revo_getUTXOs.go with the types of pkg/eth/rpc_types.go: the unspent outputs of an
-- address, up to a sum. Amounts are numbers of one unit, such that all of them are whole.
pub mod Scripts
pub mod Selection
pub mod Request
use charon.Prelude.{
  ℕ, ◌+◌, ◌-◌, ◌⊎◌, inl, inr, Bool, true, false, not, ◌&&◌, List, [], ◌∷◌, ◌++◌, Text, codes,
  text_eq, to_lower, length, take, drop, leb, ltb, ◌==◌, if◌then◌else◌,
}
use charon.Rpc.{JsonRpcError, new_callback_error}

pub data UtxoScriptType : Type 0 where
  all_utxo_types unknown_utxo opreturn_utxo immature p2pk p2pkh p2sh p2wpkh p2wsh p2sh_p2wpkh
        p2sh_p2wsh p2ms :
      UtxoScriptType

-- The number of the constant, by `iota`.
abbrev pub number_of : UtxoScriptType → ℕ
number_of UtxoScriptType.all_utxo_types = 0
number_of UtxoScriptType.unknown_utxo = 1
number_of UtxoScriptType.opreturn_utxo = 2
number_of UtxoScriptType.immature = 3
number_of UtxoScriptType.p2pk = 4
number_of UtxoScriptType.p2pkh = 5
number_of UtxoScriptType.p2sh = 6
number_of UtxoScriptType.p2wpkh = 7
number_of UtxoScriptType.p2wsh = 8
number_of UtxoScriptType.p2sh_p2wpkh = 9
number_of UtxoScriptType.p2sh_p2wsh = 10
number_of UtxoScriptType.p2ms = 11

-- `s[i:j]`, where the caller has checked the length.
abbrev pub slice : ℕ → ℕ → Text → Text
slice i j s = take (j - i) (drop i s)

unfoldable pub is_p2pk : Text → Bool
is_p2pk s = length s == 70 && text_eq (to_lower (slice 0 2 s ++ slice 68 70 s)) (codes "21ac")

unfoldable pub is_p2pkh : Text → Bool
is_p2pkh s =
    length s == 50 && text_eq (to_lower (slice 0 6 s ++ slice 46 50 s)) (codes "76a91488ac")

unfoldable pub is_p2sh : Text → Bool
is_p2sh s = length s == 46 && text_eq (to_lower (slice 0 4 s ++ slice 44 46 s)) (codes "a91487")

unfoldable pub is_p2wpkh : Text → Bool
is_p2wpkh s = length s == 44 && text_eq (to_lower (slice 0 4 s)) (codes "0014")

unfoldable pub is_p2wsh : Text → Bool
is_p2wsh s = length s == 68 && text_eq (to_lower (slice 0 4 s)) (codes "0020")

unfoldable pub is_p2sh_p2wpkh : Text → Bool
is_p2sh_p2wpkh s =
    is_p2sh s && (length s == 46 && text_eq (to_lower (slice 0 6 s)) (codes "160014"))

unfoldable pub is_p2sh_p2wsh : Text → Bool
is_p2sh_p2wsh s = is_p2sh s && (length s == 70 && text_eq (to_lower (slice 0 6 s)) (codes "220020"))

-- `GetType`
unfoldable pub get_type : Text → UtxoScriptType
get_type s =
    if is_p2pk s
    then UtxoScriptType.p2pk
    else if is_p2pkh s
    then UtxoScriptType.p2pkh
    else if is_p2sh s
    then (if is_p2sh_p2wpkh s
        then UtxoScriptType.p2sh_p2wpkh
        else if is_p2sh_p2wsh s
        then UtxoScriptType.p2sh_p2wsh
        else UtxoScriptType.p2sh)
    else if is_p2wpkh s
    then UtxoScriptType.p2wpkh
    else if is_p2wsh s
    then UtxoScriptType.p2wsh
    else UtxoScriptType.unknown_utxo

-- `revo.UTXO`
pub record Utxo : Type 0 where
  pub address : Text
  pub txid : Text
  pub output_index : ℕ
  pub script : Text
  pub satoshis : ℕ
  pub height : ℕ
  pub is_stake : Bool

-- `eth.RevoUTXO`, with the amount as a number where the source prints it divided by 10^8.
pub record RevoUtxo : Type 0 where
  pub address : Text
  pub txid : Text
  pub vout : ℕ
  pub amount : ℕ
  pub safe : Bool
  pub spendable : Bool
  pub confirmations : ℕ
  pub height : ℕ
  pub type : UtxoScriptType
  pub script_pub_key : Text

-- What is asked of the outputs, and where the chain stands.
pub record Query : Type 0 where
  pub types : List UtxoScriptType
  pub minimum_sum : ℕ
  pub block_count : ℕ
  pub mature_block_height : ℕ

abbrev pub all_types : List UtxoScriptType → Bool
all_types [] = true
all_types (t ∷ ts) = number_of t == 0

-- `utxoTypes[t]`
unfoldable pub has_type : List UtxoScriptType → UtxoScriptType → Bool
has_type [] t = false
has_type (u ∷ us) t = let rest = has_type us t in if number_of u == number_of t then true else rest

-- What a round of the loop does with an output.
pub data Choice : Type 0 where
  skip : Choice
  use_it : RevoUtxo → Choice
  panic : Choice

-- `toEthResponseType`, with what the loop sets.
abbrev pub to_revo_utxo : Query → Utxo → Bool → RevoUtxo
to_revo_utxo q utxo safe = record {
  address = utxo.address;
  txid = utxo.txid;
  vout = utxo.output_index;
  amount = utxo.satoshis;
  safe = safe;
  spendable = true;
  confirmations = q.block_count - utxo.height;
  height = utxo.height;
  type = get_type utxo.script;
  script_pub_key = utxo.script;
}

-- The number of confirmations must not be below 0.
unfoldable pub confirm : Query → Utxo → Bool → Choice
confirm q utxo safe =
    if ltb q.block_count utxo.height then Choice.panic else Choice.use_it (to_revo_utxo q utxo safe)

-- A stake that has not matured.
unfoldable pub is_immature : Query → Utxo → Bool
is_immature q utxo = utxo.is_stake && leb q.block_count (utxo.height + q.mature_block_height)

unfoldable pub choose : Query → Utxo → Choice
choose q utxo =
    if not (all_types q.types) && not (has_type q.types (get_type utxo.script))
    then Choice.skip
    else if is_immature q utxo
    then (if not (all_types q.types) && not (has_type q.types UtxoScriptType.immature)
        then Choice.skip
        else confirm q utxo false)
    else confirm q utxo true

-- How the loop ends.
pub data Selected : Type 0 where
  utxos : List RevoUtxo → Selected
  failure : JsonRpcError → Selected
  panics : Selected

abbrev pub add_safe : RevoUtxo → ℕ → ℕ
add_safe e sum = if e.safe then sum + e.amount else sum

-- The loop, with what was selected and its safe sum so far.
unfoldable pub select : Query → List Utxo → ℕ → List RevoUtxo → Selected
select q [] sum out =
    if q.minimum_sum == 0
    then Selected.utxos out
    else Selected.failure
        (new_callback_error (codes "required minimum amount is greater than total amount of UTXOs"))
select q (utxo ∷ rest) sum out = elim (choose q utxo) [
  | skip ↦ select q rest sum out
  | panic ↦ Selected.panics
  | use_it e ↦
      let more = select q rest (add_safe e sum) (out ++ (e ∷ [])) in
      if not (q.minimum_sum == 0) && leb q.minimum_sum (add_safe e sum)
      then Selected.utxos (out ++ (e ∷ []))
      else more
]

-- The handler behind the address: the answers of the node for its outputs and for its height.
unfoldable pub request_utxos : List UtxoScriptType → ℕ → ℕ → Text ⊎ List Utxo → Text ⊎ ℕ → Selected
request_utxos types minimum_sum mature (inl e) count = Selected.failure (new_callback_error e)
request_utxos types minimum_sum mature (inr resp) (inl e) = Selected.failure (new_callback_error e)
request_utxos types minimum_sum mature (inr resp) (inr count) =
    let q : Query = record {
      types = types;
      minimum_sum = minimum_sum;
      block_count = count;
      mature_block_height = mature;
    } in
    select q resp 0 []
