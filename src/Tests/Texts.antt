-- ===== src/Tests/Texts.antt =====
-- Hexadecimal texts, addresses and block parameters at concrete inputs.
use charon.Prelude.{ℕ, ◌≡◌, refl, inl, inr, true, arith, Text, codes, replicate, length-replicate}
use charon.Hex.Digits.{IsLowerHex}
use charon.Hex.Address.{
  Codec, IsBase58, convert_revo_address, convert_eth_address, convert_address_roundtrip,
}

-- A base 58 that writes a byte as it is.
abbrev codec : Codec
codec = record {
  base58_encode = λ bs. bs;
  base58_decode = λ s. s;
  check_decodes = λ s. true;
  sha256 = λ s. replicate 32 7;
}

codec-IsBase58 : IsBase58 codec
codec-IsBase58 = record {
  decode-encode = λ bs. refl;
  encode_length = λ bs. omega arith;
  hash_length = λ bs. length-replicate {A = ℕ} 32 7;
  check_accepts = λ b bs. refl;
}

abbrev digits : Text
digits = codes "00112233445566778899aabbccddeeff00112233"

digits-IsLowerHex : IsLowerHex digits
digits-IsLowerHex = ground arith

convert_address_roundtrip_example :
    (revo : Text) × (convert_eth_address codec digits (codes "test") ≡ inr revo)
    × (convert_revo_address codec revo ≡ inr digits)
convert_address_roundtrip_example =
    convert_address_roundtrip codec codec-IsBase58 digits (codes "test") digits-IsLowerHex refl
      (inr (inl refl))
