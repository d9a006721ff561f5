-- ===== src/Hex/Digits.antt =====
-- Go's encoding/hex, as pkg/utils/hex.go and pkg/transformer/util.go use it: `EncodeToString`
-- writes two lower-case digits for a byte, `DecodeString` refuses a byte that is no digit and an odd
-- length.
use charon.Prelude.{
  ℕ, zero, suc, inl, inr, ◌⊎◌, ◌+◌, ◌-◌, ◌*◌, ◌/◌, ◌%◌, ◌≤◌, ◌<◌, ◌≡◌, refl, Option, none, some, [],
  ◌∷◌, arith, leb, ltb, ◌&&◌, if◌then◌else◌, Text, length,
}

unfoldable pub digit : ℕ → ℕ
digit n = if ltb n 10 then b'0' + n else b'a' + n - 10

unfoldable pub digit_value : ℕ → Option ℕ
digit_value c =
    if leb b'0' c && leb c b'9'
    then some (c - b'0')
    else if leb b'a' c && leb c b'f'
    then some (c - b'a' + 10)
    else if leb b'A' c && leb c b'F'
    then some (c - b'A' + 10)
    else none

unfoldable pub encode_to_string : Text → Text
encode_to_string [] = []
encode_to_string (b ∷ bs) = digit (b / 16) ∷ digit (b % 16) ∷ encode_to_string bs

unfoldable pub put_byte : Option ℕ → Option ℕ → Option Text → Option Text
put_byte (some h) (some l) (some bs) = some ((h * 16 + l) ∷ bs)
put_byte _ _ _ = none

unfoldable pub decode_string : Text → Option Text
unfolding put_byte digit_value
decode_string [] = some []
decode_string (c ∷ []) = none
decode_string (c ∷ d ∷ s) = put_byte (digit_value c) (digit_value d) (decode_string s)

-- Every byte is below 256.
abbrev pub IsBytes : Text → Type 0
IsBytes [] = Unit
IsBytes (b ∷ bs) = (b < 256) × IsBytes bs

digit_value-digit : (n : ℕ) → n < 16 → digit_value (digit n) ≡ some n
unfolding digit_value digit
digit_value-digit n h = ground arith

pub decode_string-encode_to_string :
    (bs : Text) → IsBytes bs → decode_string (encode_to_string bs) ≡ some bs
unfolding decode_string encode_to_string
decode_string-encode_to_string [] h = refl
decode_string-encode_to_string (b ∷ bs) (h, hs) = ground (
  arith,
  digit_value-digit (b / 16) (omega arith),
  digit_value-digit (b % 16) (omega arith),
  decode_string-encode_to_string bs hs,
)

pub length-encode_to_string : (bs : Text) → length (encode_to_string bs) ≡ 2 * length bs
unfolding encode_to_string
length-encode_to_string [] = omega arith
length-encode_to_string (b ∷ bs) = omega (arith, length-encode_to_string bs)

-- A lower-case hexadecimal text.
abbrev pub IsLowerHex : Text → Type 0
IsLowerHex [] = Unit
IsLowerHex (c ∷ s) = (((b'0' ≤ c) × (c ≤ b'9')) ⊎ ((b'a' ≤ c) × (c ≤ b'f'))) × IsLowerHex s

digit-digit_value :
    (c : ℕ)
    → ((b'0' ≤ c) × (c ≤ b'9')) ⊎ ((b'a' ≤ c) × (c ≤ b'f'))
    → (n : ℕ) × (digit_value c ≡ some n) × (n < 16) × (digit n ≡ c)
unfolding digit digit_value
digit-digit_value c (inl h) = (c - b'0', ground arith, ground arith, ground arith)
digit-digit_value c (inr h) = (c - b'a' + 10, ground arith, ground arith, ground arith)

-- An even number of lower-case digits is decoded to half as many bytes, which encode to it.
pub encode_to_string-decode_string :
    (n : ℕ) (s : Text)
    → IsLowerHex s
    → length s ≡ 2 * n
    → (bs : Text) × (decode_string s ≡ some bs)
      × (encode_to_string bs ≡ s)
      × IsBytes bs
      × (length bs ≡ n)
unfolding decode_string encode_to_string
encode_to_string-decode_string n [] h e = ([], refl, refl, tt, omega arith)
encode_to_string-decode_string n (c ∷ []) h e = absurd (omega arith)
encode_to_string-decode_string zero (c ∷ d ∷ s) h e = absurd (omega arith)
encode_to_string-decode_string (suc n) (c ∷ d ∷ s) (h, (k, hs)) e =
    let (x, ex, lx, gx) = digit-digit_value c h in
    let (y, ey, ly, gy) = digit-digit_value d k in
    let (bs, eb, gb, bb, lb) = encode_to_string-decode_string n s hs (omega arith) in
    let hi : (x * 16 + y) / 16 ≡ x = omega arith in
    let lo : (x * 16 + y) % 16 ≡ y = omega arith in
    ((x * 16 + y) ∷ bs, rw (ex, ey, eb), rw (hi, lo, gx, gy, gb), (omega arith, bb), omega arith)
