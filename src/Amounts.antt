-- ===== src/Amounts.antt =====
-- pkg/transformer/util.go: conversions between wei, satoshis and REVO. The library of decimal numbers
-- is a parameter; `Decimals` lists what the source calls of it.
pub mod Exact
pub mod Bounds
use charon.Prelude.{
  ℕ, ◌+◌, ◌/◌, ◌%◌, ◌⊎◌, inl, inr, Bool, true, false, Option, none, some, List, [], ◌∷◌, ◌++◌, Text,
  codes, text_eq, if◌then◌else◌, ltb, ℤ, pos, negsuc, suc, zero,
}
use charon.Hex.Prefix.{decode_big}

-- `shopspring/decimal`; a float literal is given as the decimal that it is written as.
pub record Decimals (D : Type 0) : Type 0 where
  -- `NewFromFloat` of a numeral
  pub numeral : ℕ → ℤ → D
  -- `NewFromBigInt(n, 0)`, `NewFromInt`
  pub from_int : ℤ → D
  -- `inl` is an error with its message.
  pub from_string : Text → Text ⊎ D
  pub add : D → D → D
  pub sub : D → D → D
  pub mul : D → D → D
  pub div : D → D → D
  pub floor : D → D
  pub big_int : D → ℤ
  pub less_than : D → D → Bool
  pub at_least : D → D → Bool
  pub equals : D → D → Bool
  -- `fmt.Sprintf("%v", d)`
  pub show : D → Text

-- The decimal digits of a number, the last one behind those in front; the fuel is the number and
-- one more, and it has fewer digits than that.
unfoldable pub digits_before : ℕ → ℕ → Text → Text
digits_before zero n after = after
digits_before (suc f) n after =
    let rest = digits_before f (n / 10) ((b'0' + n % 10) ∷ after) in
    if ltb n 10 then (b'0' + n) ∷ after else rest

-- `String` of a `big.Int`
unfoldable pub big_string : ℤ → Text
big_string (pos n) = digits_before (n + 1) n []
big_string (negsuc n) = b'-' ∷ digits_before (n + 2) (n + 1) []

-- hexutil's `EncodeBig` and `DecodeBig`; `inl` is an error with its message.
pub record BigHex : Type 0 where
  pub encode_big : ℤ → Text
  pub hexutil_decode_big : Text → Text ⊎ ℕ

module _ {D : Type 0} (d : Decimals D) where
  abbrev pub zero_satoshi : D
  zero_satoshi = d.from_int (pos 0)

  abbrev pub one_satoshi : D
  one_satoshi = d.numeral 1 (negsuc 7)

  -- 0.0000004
  abbrev pub minimum_gas : D
  minimum_gas = d.numeral 4 (negsuc 6)

  unfoldable pub eth_decimal_value_to_revo_amount : D → D
  eth_decimal_value_to_revo_amount wei =
      let maximum_precision = d.floor (d.mul wei (d.numeral 1 (negsuc 8))) in
      d.mul maximum_precision (d.numeral 1 (negsuc 8))

  unfoldable pub revo_decimal_value_to_eth_amount : D → D
  revo_decimal_value_to_eth_amount revo = d.div revo (d.numeral 1 (negsuc 17))

  abbrev pub not_a_success : Text
  not_a_success = codes "decimal.NewFromString was not a success"

  -- What `EthValueToRevoAmount` and `RevoValueToETHAmount` have in common.
  unfoldable pub value_to_amount : BigHex → (D → D) → Text → D → Text ⊎ D
  value_to_amount h convert val default_value =
      if text_eq val [] then inr default_value else elim (decode_big h.hexutil_decode_big val) [
        | inl e ↦ inl e
        | inr n ↦ elim (d.from_string (big_string (pos n))) [
          | inl _ ↦ inl not_a_success
          | inr value ↦ inr (convert value)
        ]
      ]

  unfoldable pub eth_value_to_revo_amount : BigHex → Text → D → Text ⊎ D
  eth_value_to_revo_amount h = value_to_amount h eth_decimal_value_to_revo_amount

  unfoldable pub revo_value_to_eth_amount : BigHex → Text → D → Text ⊎ D
  revo_value_to_eth_amount h = value_to_amount h revo_decimal_value_to_eth_amount

  -- The price of gas in REVO, no less than the minimum; `GasPriceHex` of a request whose price is
  -- missing is no text. `RevoGasToEth` has the same body.
  unfoldable pub gas_price_decimal : BigHex → Option ℤ → Text ⊎ D
  gas_price_decimal h gas_price =
      let hex : Text = elim gas_price [ none ↦ [] | some n ↦ h.encode_big n ] in
      elim (eth_value_to_revo_amount h hex minimum_gas) [
        | inl e ↦ inl e
        | inr price ↦ inr (if d.less_than price minimum_gas then minimum_gas else price)
      ]

  -- `EthGasToRevo`: the limit and the price as a text.
  unfoldable pub eth_gas_to_revo : BigHex → ℤ → Option ℤ → Text ⊎ (ℤ × Text)
  eth_gas_to_revo h gas gas_price = elim (gas_price_decimal h gas_price) [
    | inl e ↦ inl e
    | inr price ↦ inr (gas, d.show price)
  ]

  -- The amount in wei in hexadecimal, where it is a whole number.
  unfoldable pub format_revo_amount : BigHex → D → Text ⊎ Text
  format_revo_amount h amount =
      let decimal_amount = d.mul amount (d.numeral 1 (pos 18)) in
      let result = d.big_int decimal_amount in
      if d.equals decimal_amount (d.from_int result)
      then inr (h.encode_big result)
      else inl (codes "decimal.BigInt() was not a success")

  unfoldable pub convert_from_satoshis_to_revo : D → D
  convert_from_satoshis_to_revo satoshis = d.div satoshis (d.numeral 1 (pos 8))

  unfoldable pub convert_from_revo_to_satoshis : D → D
  convert_from_revo_to_satoshis revo = d.mul revo (d.numeral 1 (pos 8))
