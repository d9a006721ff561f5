-- ===== src/Prelude/Int.antt =====
-- Signed integers over the native numbers, and Go's conversions between them and 64-bit words.
use Prim.Native.Nat.{ℕ, zero, suc, ◌+◌, ◌-◌, ◌%◌, ◌^◌, ◌≤◌, ◌<◌}
use mathlib.Core.Path.{◌≡◌}
use native.Mathlib.Omega.{arith}
use charon.Prelude.Bools.{ltb, if◌then◌else◌}

-- `negsuc n` is -(n + 1).
pub data ℤ : Type 0 where
  pos : ℕ → ℤ
  negsuc : ℕ → ℤ

-- -n
abbrev pub neg : ℕ → ℤ
neg zero = pos 0
neg (suc n) = negsuc n

abbrev pub word : ℕ
word = 2 ^ 64

-- `int64(u)` of a uint64.
unfoldable pub to_int64 : ℕ → ℤ
to_int64 u = if ltb u (2 ^ 63) then pos u else negsuc (word - u - 1)

-- `Uint64` of a big integer: the low word of its absolute value.
unfoldable pub to_uint64 : ℤ → ℕ
to_uint64 (pos n) = n % word
to_uint64 (negsuc n) = suc n % word

-- Subtraction of uint64 wraps.
unfoldable pub sub_uint64 : ℕ → ℕ → ℕ
sub_uint64 a b = (a + word - b) % word

pub sub_uint64-le : (a b : ℕ) → b ≤ a → a < word → sub_uint64 a b ≡ a - b
unfolding sub_uint64
sub_uint64-le a b h k = omega arith

pub sub_uint64-lt : (a b : ℕ) → a < b → b < word → sub_uint64 a b ≡ word - (b - a)
unfolding sub_uint64
sub_uint64-lt a b h k = omega arith

pub to_int64-lt : (a : ℕ) → a < 2 ^ 63 → to_int64 a ≡ pos a
unfolding to_int64
to_int64-lt a h = ground arith
