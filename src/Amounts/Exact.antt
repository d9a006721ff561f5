-- ===== src/Amounts/Exact.antt =====
-- What the conversions rely on of the library of decimal numbers: its operations are exact.
use charon.Prelude.{◌≤◌, ℕ, ◌+◌, ◌-◌, ◌*◌, ◌/◌, ◌%◌, ◌^◌, ◌≡◌, ltb, leb, pos, negsuc}
use charon.Amounts.{Decimals}

-- 10^18: the wei of a REVO.
abbrev pub unit : ℕ
unit = 10 ^ 18

-- The value of a decimal that is not below 0 and has at most 18 digits behind the point, in units of
-- the last of these; and the operations as documented, where their results are such decimals.
pub record AreExact {D : Type 0} (d : Decimals D) (value : D → ℕ) : Type 0 where
  pub from_int : (n : ℕ) → value (d.from_int (pos n)) ≡ n * unit
  pub minimum_gas : value (d.numeral 4 (negsuc 6)) ≡ 4 * 10 ^ 11
  pub add : (x y : D) → value (d.add x y) ≡ value x + value y
  pub sub : (x y : D) → value y ≤ value x → value (d.sub x y) ≡ value x - value y
  pub mul_up : (x : D) → value (d.mul x (d.numeral 1 (pos 8))) ≡ value x * 10 ^ 8
  pub mul_down :
      (x : D) → value x % 10 ^ 9 ≡ 0 → value (d.mul x (d.numeral 1 (negsuc 8))) ≡ value x / 10 ^ 9
  pub floor : (x : D) → value (d.floor x) ≡ value x / unit * unit
  pub less_than : (x y : D) → d.less_than x y ≡ ltb (value x) (value y)
  pub at_least : (x y : D) → d.at_least x y ≡ leb (value y) (value x)
