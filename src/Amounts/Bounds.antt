-- ===== src/Amounts/Bounds.antt =====
-- pkg/transformer/util.go: how much of an amount in wei is left in REVO.
use charon.Prelude.{
  max, some, ◌∙◌, if◌then◌else◌, ℕ, ◌+◌, ◌*◌, ◌/◌, ◌%◌, ◌^◌, ◌≡◌, ◌≤◌, ◌<◌, inl, inr, Bool-cases,
  ltb, Text, ℤ, pos, negsuc, arith, text_eq, [], false,
}
use charon.Hex.Prefix.{decode_big}
use charon.Amounts.{
  big_string, zero_satoshi, Decimals, BigHex, eth_decimal_value_to_revo_amount,
  eth_value_to_revo_amount, value_to_amount, gas_price_decimal, minimum_gas,
}
use charon.Amounts.Exact.{AreExact, unit}

module _ {D : Type 0} (d : Decimals D) (value : D → ℕ) (x : AreExact d value) where
  open x use {mul_down, floor, less_than}

  -- An amount in wei without what a billion does not divide.
  decimal_value :
      (wei : D) (n : ℕ)
      → value wei ≡ n * unit
      → value (eth_decimal_value_to_revo_amount d wei) ≡ n / 10 ^ 9 * 10 ^ 9
  unfolding eth_decimal_value_to_revo_amount
  decimal_value wei n e =
      let shifted = mul_down wei (omega (arith, e)) in
      let whole = floor (d.mul wei (d.numeral 1 (negsuc 8))) in
      mul_down (d.floor (d.mul wei (d.numeral 1 (negsuc 8)))) (omega (arith, whole))
      ∙ omega (arith, whole, shifted, e)

  read_value :
      (h : BigHex) (val : Text) (n : ℕ) (wei default_value : D)
      → text_eq val [] ≡ false
      → decode_big h.hexutil_decode_big val ≡ inr n
      → d.from_string (big_string (pos n)) ≡ inr wei
      → eth_value_to_revo_amount d h val default_value
        ≡ inr (eth_decimal_value_to_revo_amount d wei)
  unfolding eth_value_to_revo_amount value_to_amount
  read_value h val n wei default_value v e s = rw v (rw (e, value_to_amount) (rw s))

  -- A price or the minimum.
  abbrev at_least_minimum : D → D
  at_least_minimum price = if d.less_than price (minimum_gas d) then minimum_gas d else price

  read_price :
      (h : BigHex) (gas_price : ℤ) (price : D)
      → eth_value_to_revo_amount d h (h.encode_big gas_price) (minimum_gas d) ≡ inr price
      → gas_price_decimal d h (some gas_price) ≡ inr (at_least_minimum price)
  unfolding gas_price_decimal
  read_price h gas_price price e = rw (e, gas_price_decimal)

  at_least_minimum-max :
      (price : D) → value (at_least_minimum price) ≡ max (4 * 10 ^ 11) (value price)
  at_least_minimum-max price =
      let low = less_than price (minimum_gas d) in
      let least = x.minimum_gas in
      elim (Bool-cases (ltb (value price) (value (minimum_gas d)))) [
        | inl l ↦ rw (low, l) (ground arith)
        | inr l ↦ rw (low, l) (ground arith)
      ]

  -- For a library of exact decimals, a text that stands for n wei and is read as that: the amount in
  -- REVO is the greatest multiple of 10^9 wei that is not above n, so that up to 10^9 - 1 wei are
  -- lost, a tenth of a satoshi less 1 wei; the least amount that is not 0 is a tenth of a satoshi.
  -- As a price of gas, it is that amount or the minimum of 4 * 10^11 wei, whichever is greater.
  pub eth_value_bounds :
      (h : BigHex) (val : Text) (n : ℕ) (wei : D) (gas_price : ℤ)
      → text_eq val [] ≡ false
      → decode_big h.hexutil_decode_big val ≡ inr n
      → d.from_string (big_string (pos n)) ≡ inr wei
      → value wei ≡ n * unit
      → h.encode_big gas_price ≡ val
      → (amount : D) × (price : D) × (eth_value_to_revo_amount d h val (zero_satoshi d)
          ≡ inr amount)
        × (value amount % 10 ^ 9 ≡ 0)
        × (value amount ≤ n)
        × (n < value amount + 10 ^ 9)
        × (gas_price_decimal d h (some gas_price) ≡ inr price)
        × (value price ≡ max (4 * 10 ^ 11) (value amount))
  eth_value_bounds h val n wei gas_price v e s w g =
      let amount = eth_decimal_value_to_revo_amount d wei in
      let known = decimal_value wei n w in
      (
        amount,
        at_least_minimum amount,
        read_value h val n wei (zero_satoshi d) v e s,
        omega (arith, known),
        omega (arith, known),
        omega (arith, known),
        read_price h gas_price amount (rw g (read_value h val n wei (minimum_gas d) v e s)),
        at_least_minimum-max amount,
      )
