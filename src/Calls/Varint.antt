-- ===== src/Calls/Varint.antt =====
-- The message that eth_sign hashes can be read back: pkg/transformer/eth_sign.go.
use charon.Prelude.{
  ℕ, zero, suc, ◌+◌, ◌-◌, ◌*◌, ◌/◌, ◌<◌, ◌^◌, ◌≡◌, Option, none, some, [], ◌∷◌, ◌++◌, Text, length,
  drop, if◌then◌else◌, ltb, arith,
}
use charon.Calls.Signing.{put_uvarint, padded_message}

-- `binary.Uvarint`: the number in front of a text, and the text behind it.
abbrev pub with_low : ℕ → Option (ℕ × Text) → Option (ℕ × Text)
with_low c none = none
with_low c (some (n, s)) = some (n * 128 + (c - 128), s)

abbrev pub uvarint : Text → Option (ℕ × Text)
uvarint [] = none
uvarint (c ∷ s) = if ltb c 128 then some (c, s) else with_low c (uvarint s)

-- So many bytes are enough for the number.
abbrev FitsIn : ℕ → ℕ → Type 0
FitsIn zero x = x < 128
FitsIn (suc f) x = FitsIn f (x / 128)

uvarint-put_uvarint :
    (f x : ℕ) (s : Text) → FitsIn f x → uvarint (put_uvarint f x ++ s) ≡ some (x, s)
unfolding put_uvarint
uvarint-put_uvarint zero x s h = ground arith
uvarint-put_uvarint (suc f) x s h = ground (arith, uvarint-put_uvarint f (x / 128) s h)

FitsIn-word : (x : ℕ) → x < 2 ^ 64 → FitsIn 9 x
FitsIn-word x h = omega arith

-- A message of fewer than 2^64 bytes is behind its length and the prefix in what eth_sign hashes:
-- whoever drops the prefix and reads a length has the message.
pub uvarint-padded_message :
    (msg : Text)
    → length msg < 2 ^ 64
    → uvarint (drop 22 (padded_message msg)) ≡ some (length msg, msg)
unfolding padded_message
uvarint-padded_message msg h = uvarint-put_uvarint 9 (length msg) msg (FitsIn-word (length msg) h)
