-- ===== src/Utxos/Request.antt =====
-- `GetUTXOsRequest` of pkg/eth/rpc_types.go: what its parameters ask for.
use charon.Prelude.{
  ℕ, ◌+◌, ◌≡◌, refl, arith, sym, ap, ◌∙◌, ◌⊎◌, inl, inr, Bool, true, false, ◌||◌, Option, none,
  some, List, [], ◌∷◌, ◌++◌, Text, codes, text_eq, to_lower, length, ltb, if◌then◌else◌, pos,
  append_assoc, append-nil,
}
use mathlib.Core.Path.{ap₂}
use mathlib.Core.Bool.{or-false, or_assoc}
use charon.Amounts.{Decimals}
use charon.Params.{Json, unmarshal_strings, ◌>>=◌}
use charon.Utxos.{UtxoScriptType}

-- `AllUTXOScriptTypes`
abbrev pub all_utxo_script_types : List UtxoScriptType
all_utxo_script_types =
    UtxoScriptType.all_utxo_types ∷ UtxoScriptType.unknown_utxo ∷ UtxoScriptType.opreturn_utxo
    ∷ UtxoScriptType.immature ∷ UtxoScriptType.p2pk ∷ UtxoScriptType.p2pkh ∷ UtxoScriptType.p2sh
    ∷ UtxoScriptType.p2wpkh ∷ UtxoScriptType.p2wsh ∷ UtxoScriptType.p2sh_p2wpkh
    ∷ UtxoScriptType.p2sh_p2wsh ∷ UtxoScriptType.p2ms ∷ []

-- `String`
unfoldable pub script_type_string : UtxoScriptType → Text
script_type_string UtxoScriptType.all_utxo_types = codes "all"
script_type_string UtxoScriptType.unknown_utxo = codes "unknown"
script_type_string UtxoScriptType.opreturn_utxo = codes "opreturn"
script_type_string UtxoScriptType.immature = codes "immature"
script_type_string UtxoScriptType.p2pk = codes "P2PK"
script_type_string UtxoScriptType.p2pkh = codes "P2PKH"
script_type_string UtxoScriptType.p2sh = codes "P2SH"
script_type_string UtxoScriptType.p2wpkh = codes "P2WPKH"
script_type_string UtxoScriptType.p2wsh = codes "P2WSH"
script_type_string UtxoScriptType.p2sh_p2wpkh = codes "P2SHP2WPKH"
script_type_string UtxoScriptType.p2sh_p2wsh = codes "P2SHP2WSH"
script_type_string UtxoScriptType.p2ms = codes "P2MS"

-- `validTypes[parameter]`, of the map from the names in lower case.
unfoldable pub valid_type : List UtxoScriptType → Text → Option UtxoScriptType
valid_type [] parameter = none
valid_type (t ∷ ts) parameter =
    let rest = valid_type ts parameter in
    if text_eq (to_lower (script_type_string t)) parameter then some t else rest

-- The type that a parameter names, in whatever case.
unfoldable pub named_type : Text → Option UtxoScriptType
unfolding valid_type
named_type parameter = valid_type all_utxo_script_types (to_lower parameter)

abbrev pub is_all : UtxoScriptType → Bool
is_all UtxoScriptType.all_utxo_types = true
is_all _ = false

-- A round of it, where the parameter may name a type.
abbrev pub add_type :
    Option UtxoScriptType → Bool × List UtxoScriptType → Bool × List UtxoScriptType
add_type none found = found
add_type (some t) (all, types) = (all || is_all t, types ++ (t ∷ []))

-- The loop over the parameters that name types: is `all` among them, and the types.
unfoldable pub add_types : List Text → Bool × List UtxoScriptType → Bool × List UtxoScriptType
add_types [] found = found
add_types (p ∷ ps) found = add_types ps (add_type (named_type p) found)

pub record GetUtxosRequest (D : Type 0) : Type 0 where
  pub address : Text
  pub min_sum_amount : D
  pub types : List UtxoScriptType

module _ {D : Type 0} (d : Decimals D) where
  -- What follows the loop, with the number of all the parameters.
  unfoldable pub with_types : Text → D → ℕ → Bool × List UtxoScriptType → Text ⊎ GetUtxosRequest D
  with_types address sum count (all, types) =
      let types' = if all then UtxoScriptType.all_utxo_types ∷ [] else types in
      elim types' [
        | [] ↦
            if ltb 3 count
            then inl (codes "unknown script type requested")
            else inr (record { address = address; min_sum_amount = sum; types = [] })
        | t ∷ ts ↦ inr (record { address = address; min_sum_amount = sum; types = t ∷ ts })
      ]

  -- A second parameter that is no number may be the first type.
  unfoldable pub utxos_params : List Text → Text ⊎ GetUtxosRequest D
  unfolding with_types
  utxos_params [] = inl (codes "Address required")
  utxos_params (address ∷ []) = with_types address (d.from_int (pos 0)) 1 (true, [])
  utxos_params (address ∷ second ∷ ps) = elim (d.from_string second) [
    | inr sum ↦ with_types address sum (length ps + 2) (add_types ps (false, []))
    | inl e ↦ elim (named_type second) [
      | none ↦ inl e
      | some _ ↦
          with_types address (d.from_int (pos 0)) (length ps + 2)
            (add_types (second ∷ ps) (false, []))
    ]
  ]

  -- `UnmarshalJSON`; a valid text of one byte is a digit.
  unfoldable pub unmarshal_utxos : Json → Text ⊎ GetUtxosRequest D
  unfolding utxos_params
  unmarshal_utxos (Json.number (c ∷ [])) = inl (codes "bytes number < 2")
  unmarshal_utxos v = unmarshal_strings v >>= utxos_params

-- The types that parameters name, without those that name none, and whether one is `all`.
abbrev pub with_type : Option UtxoScriptType → List UtxoScriptType → List UtxoScriptType
with_type none types = types
with_type (some t) types = t ∷ types

abbrev pub named_types : List Text → List UtxoScriptType
named_types [] = []
named_types (p ∷ ps) = with_type (named_type p) (named_types ps)

abbrev pub any_all : List UtxoScriptType → Bool
any_all [] = false
any_all (t ∷ ts) = is_all t || any_all ts

add_types_lem :
    (ps : List Text) (all : Bool) (types : List UtxoScriptType)
    → add_types ps (all, types) ≡ (all || any_all (named_types ps), types ++ named_types ps)
unfolding add_types
add_types_lem [] all types = sym (ap₂ (λ a ts. (a, ts)) (or-false all) (append-nil types))
add_types_lem (p ∷ ps) all types = round (named_type p) (λ a ts. add_types_lem ps a ts)
  where
    round :
        (o : Option UtxoScriptType)
        → ((a : Bool) (ts : List UtxoScriptType)
            → add_types ps (a, ts) ≡ (a || any_all (named_types ps), ts ++ named_types ps))
        → add_types ps (add_type o (all, types))
          ≡ (all || any_all (with_type o (named_types ps)), types ++ with_type o (named_types ps))
    round none h = h all types
    round (some t) h =
        h (all || is_all t) (types ++ (t ∷ []))
        ∙ ap₂ (λ a ts. (a, ts)) (or_assoc all (is_all t) (any_all (named_types ps)))
            (append_assoc types (t ∷ []) (named_types ps))

ltb_three : (n : ℕ) → ltb 3 (n + 2) ≡ ltb 1 n
ltb_three n = ground arith

module _ {D : Type 0} (d : Decimals D) (address second : Text) (sum : D)
    (is_sum : d.from_string second ≡ inr sum) (ps : List Text) where
  utxos_params-sum :
      utxos_params d (address ∷ second ∷ ps)
      ≡ with_types d address sum (length ps + 2) (any_all (named_types ps), named_types ps)
  unfolding utxos_params
  utxos_params-sum =
      rw (is_sum, utxos_params)
        (ap (with_types d address sum (length ps + 2)) (add_types_lem ps false []))

  -- The request has the sum, and `all` alone if one of the parameters behind it names all types in
  -- whatever case.
  pub utxos_params-all :
      any_all (named_types ps) ≡ true
      → utxos_params d (address ∷ second ∷ ps)
        ≡ inr (record {
          address = address;
          min_sum_amount = sum;
          types = UtxoScriptType.all_utxo_types ∷ [];
        })
  unfolding with_types
  utxos_params-all h = utxos_params-sum ∙ rw h refl

  -- A request whose parameters behind the sum name no type at all is refused if there are two of
  -- them or more. A single one that is misspelt is let through, and the request then has no types.
  pub utxos_params-misspelt :
      named_types ps ≡ []
      → utxos_params d (address ∷ second ∷ ps) ≡ (
          if ltb 1 (length ps)
          then inl (codes "unknown script type requested")
          else inr (record { address = address; min_sum_amount = sum; types = [] }))
  unfolding with_types
  utxos_params-misspelt h =
      utxos_params-sum
      ∙ ap (λ ts. with_types d address sum (length ps + 2) (any_all ts, ts)) h
      ∙ rw (ltb_three (length ps)) refl
