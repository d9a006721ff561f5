-- ===== src/Scripts/Endian.antt =====
-- pkg/revo/btcasm.go, `convertToBigEndian`: what number the result is.
use charon.Prelude.{
  codes, ◌⊎◌, ℕ, ◌+◌, ◌-◌, ◌*◌, ◌≡◌, ◌≢◌, refl, ap, ◌∙◌, sym, inl, inr, Bool-cases, true, false, [],
  ◌∷◌, Text, arith, ◌==◌, leb, if◌then◌else◌,
}
use charon.Scripts.{convert_to_big_endian, pairs_before, trim_zeros, is_even}

-- The value of a hexadecimal digit.
abbrev pub nibble : ℕ → ℕ
nibble c = if leb c b'9' then c - b'0' else if leb c b'F' then c - b'A' + 10 else c - b'a' + 10

-- The number that digits stand for, behind n.
pub big_endian : ℕ → Text → ℕ
big_endian n [] = n
big_endian n (c ∷ s) = big_endian (n * 16 + nibble c) s

-- The number of bytes of two digits, the least significant byte first.
pub little_endian : Text → ℕ
little_endian (c ∷ d ∷ hex) = nibble c * 16 + nibble d + 256 * little_endian hex
little_endian (c ∷ []) = 0
little_endian [] = 0

pairs_before-value :
    (hex after : Text)
    → is_even hex ≡ true
    → big_endian 0 (pairs_before hex after) ≡ big_endian (little_endian hex) after
unfolding pairs_before is_even big_endian little_endian
pairs_before-value [] after h = refl
pairs_before-value (c ∷ []) after h = cc
pairs_before-value (c ∷ d ∷ hex) after h =
    pairs_before-value hex (c ∷ d ∷ after) h ∙ ap (λ n. big_endian n after) (omega arith)

trim_zeros-value : (s : Text) → big_endian 0 (trim_zeros s) ≡ big_endian 0 s
unfolding trim_zeros big_endian
trim_zeros-value [] = refl
trim_zeros-value (c ∷ s) = elim (Bool-cases (c == b'0')) [
  | inl e ↦
      let zero_digit : 0 * 16 + nibble c ≡ 0 = ground (arith, e) in
      rw e (trim_zeros-value s ∙ ap (λ n. big_endian n s) (sym zero_digit))
  | inr e ↦ rw e refl
]

trim_zeros-head : (s t : Text) (c : ℕ) → trim_zeros s ≡ c ∷ t → c ≢ b'0'
unfolding trim_zeros
trim_zeros-head [] t c h = absurd (ground (arith, h))
trim_zeros-head (d ∷ s) t c h = elim (Bool-cases (d == b'0')) [
  | inl e ↦ trim_zeros-head s t c (rw e at h)
  | inr e ↦ ground (arith, e, (rw e at h))
]

-- For every text, an odd number of digits is refused; of an even number, as the bytes of a number
-- with the least significant first, the result is that number with the most significant digit
-- first, and no zero in front.
pub convert_to_big_endian_lem :
    (hex : Text)
    → ((is_even hex ≡ false) × (convert_to_big_endian hex ≡ inl (codes "invalid hex string")))
      ⊎ ((result : Text) × (convert_to_big_endian hex ≡ inr result)
          × (big_endian 0 result ≡ little_endian hex)
          × ((c : ℕ) (t : Text) → result ≡ c ∷ t → c ≢ b'0'))
unfolding convert_to_big_endian big_endian
convert_to_big_endian_lem hex = elim (Bool-cases (is_even hex)) [
  | inr e ↦ inl (e, rw e)
  | inl e ↦ inr (
    trim_zeros (pairs_before hex []),
    rw e,
    trim_zeros-value (pairs_before hex []) ∙ pairs_before-value hex [] e,
    λ c t. trim_zeros-head (pairs_before hex []) t c,
  )
]
