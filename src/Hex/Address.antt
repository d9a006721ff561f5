-- ===== src/Hex/Address.antt =====
-- Addresses: `ConvertRevoAddress` of pkg/utils/hex.go, `convertETHAddress` of
-- pkg/transformer/util.go with the chain prefixes and the checksum of pkg/revo/revo.go, and the
-- check of pkg/eth/eth_address.go. base58 of btcutil, SHA-256 and `hexutil.Decode` are parameters.
use charon.Prelude.{
  ℕ, ◌≢◌, ◌↔◌, ◌+◌, ◌≤◌, ◌≡◌, refl, sym, ap, ◌∙◌, ◌⊎◌, inl, inr, Bool, true, false, Option, none,
  some, [], ◌∷◌, ◌++◌, arith, if◌then◌else◌, ltb, ◌==◌, ◌||◌, Text, codes, drop, take, length,
  has_prefix, text_eq, length-append, not, length-take,
}
use charon.Hex.Digits.{encode_to_string, decode_string, IsLowerHex, encode_to_string-decode_string}
use charon.Hex.Prefix.{hex_prefix}

pub data AddressError : Type 0 where
  no_hex_prefix invalid_length invalid_hexadecimal : AddressError

-- `validateAddress`; `true` of the parameter is that `hexutil.Decode` gives no error.
unfoldable pub validate_address : (Text → Bool) → Text → Option AddressError
validate_address hexutil_decodes address =
    if not (has_prefix address hex_prefix)
    then some AddressError.no_hex_prefix
    else if not (length address == 42)
    then some AddressError.invalid_length
    else if hexutil_decodes address
    then none
    else some AddressError.invalid_hexadecimal

pub data ConvertError : Type 0 where
  too_short : ℕ → ConvertError
  invalid_address : ConvertError
  not_hex : ConvertError
  unsupported_chain : ConvertError

-- The libraries that the conversion calls.
pub record Codec : Type 0 where
  pub base58_encode : Text → Text
  pub base58_decode : Text → Text
  -- `CheckDecode` gives no error
  pub check_decodes : Text → Bool
  pub sha256 : Text → Text

-- `s[1:21]`, where the caller has checked that there are that many bytes.
abbrev pub payload : Text → Text
payload s = take 20 (drop 1 s)

module _ (c : Codec) where
  open c use {base58_encode, base58_decode, check_decodes, sha256}

  unfoldable pub convert_revo_address : Text → ConvertError ⊎ Text
  convert_revo_address address =
      if ltb (length address) 22
      then inl (ConvertError.too_short (length address))
      else if check_decodes address
      then inr (encode_to_string (payload (base58_decode address)))
      else inl ConvertError.invalid_address

  -- `CalcAddressChecksum`
  unfoldable pub calc_address_checksum : Text → Text
  calc_address_checksum prefixed = take 4 (sha256 (sha256 prefixed))

  -- `HexAddressPrefix.AsBytes` of the prefix that `chain` selects.
  unfoldable pub chain_prefix : Text → Option (Option Text)
  chain_prefix chain =
      if text_eq chain (codes "main")
      then some (decode_string (codes "3c"))
      else if text_eq chain (codes "test") || text_eq chain (codes "regtest")
      then some (decode_string (codes "41"))
      else none

  unfoldable pub with_prefix : Text → Option (Option Text) → ConvertError ⊎ Text
  with_prefix addr_bytes (some (some prefix)) =
      let prefixed = prefix ++ addr_bytes in
      inr (base58_encode (prefixed ++ calc_address_checksum prefixed))
  with_prefix addr_bytes (some none) = inl ConvertError.not_hex
  with_prefix addr_bytes none = inl ConvertError.unsupported_chain

  unfoldable pub convert_eth_address : Text → Text → ConvertError ⊎ Text
  convert_eth_address address chain = elim (decode_string address) [
    | none ↦ inl ConvertError.not_hex
    | some addr_bytes ↦ with_prefix addr_bytes (chain_prefix chain)
  ]

-- What base58 with a checksum is documented to do: decoding inverts encoding, an encoding has at
-- least as many characters as the input has bytes, and `CheckDecode` accepts the encoding of a text
-- that ends in the first four bytes of the double SHA-256 of the rest, if a version byte and a
-- checksum are there.
pub record IsBase58 (c : Codec) : Type 0 where
  pub decode-encode : (bs : Text) → c.base58_decode (c.base58_encode bs) ≡ bs
  pub encode_length : (bs : Text) → length bs ≤ length (c.base58_encode bs)
  pub hash_length : (bs : Text) → length (c.sha256 bs) ≡ 32
  pub check_accepts :
      (b : ℕ) (bs : Text)
      → c.check_decodes (c.base58_encode ((b ∷ bs) ++ take 4 (c.sha256 (c.sha256 (b ∷ bs))))) ≡ true

take-append : (bs cs : Text) → take (length bs) (bs ++ cs) ≡ bs
take-append [] cs = refl
take-append (b ∷ bs) cs = ap (λ l. b ∷ l) (take-append bs cs)

abbrev pub IsChain : Text → Type 0
IsChain chain = (chain ≡ codes "main") ⊎ (chain ≡ codes "test") ⊎ (chain ≡ codes "regtest")

module _ (c : Codec) where
  open c use {base58_encode, base58_decode, sha256}

  chain_prefix-IsChain :
      (chain : Text) → IsChain chain → (p : ℕ) × (chain_prefix c chain ≡ some (some (p ∷ [])))
  unfolding chain_prefix text_eq decode_string
  chain_prefix-IsChain chain (inl e) = (60, rw e)
  chain_prefix-IsChain chain (inr (inl e)) = (65, rw e)
  chain_prefix-IsChain chain (inr (inr e)) = (65, rw e)

  abbrev with_checksum : ℕ → Text → Text
  with_checksum p bs = (p ∷ bs) ++ take 4 (sha256 (sha256 (p ∷ bs)))

  module _ (laws : IsBase58 c) where
    length-with_checksum : (p : ℕ) (bs : Text) → length (with_checksum p bs) ≡ length bs + 5
    length-with_checksum p bs = omega (
      arith,
      length-append (p ∷ bs) (take 4 (sha256 (sha256 (p ∷ bs)))),
      length-take 4 (sha256 (sha256 (p ∷ bs))),
      laws.hash_length (sha256 (p ∷ bs)),
    )

    payload-with_checksum : (p : ℕ) (bs : Text) → length bs ≡ 20 → payload (with_checksum p bs) ≡ bs
    payload-with_checksum p bs e =
        ap (λ n. take n (bs ++ take 4 (sha256 (sha256 (p ∷ bs))))) (sym e)
        ∙ take-append bs (take 4 (sha256 (sha256 (p ∷ bs))))

    convert_revo_address-encode :
        (p : ℕ) (bs : Text)
        → length bs ≡ 20
        → convert_revo_address c (base58_encode (with_checksum p bs)) ≡ inr (encode_to_string bs)
    unfolding convert_revo_address
    convert_revo_address-encode p bs e =
        let long : ltb (length (base58_encode (with_checksum p bs))) 22 ≡ false =
          ground (arith, length-with_checksum p bs, laws.encode_length (with_checksum p bs)) in
        rw (long, laws.check_accepts p bs, laws.decode-encode (with_checksum p bs))
          (ap (λ t. inr (encode_to_string t)) (payload-with_checksum p bs e))

    -- For base58 and SHA-256 as documented, an Ethereum address of 40 lower-case hexadecimal
    -- digits is converted to a Revo address of the main, test or regtest chain, and converting
    -- that Revo address back gives the same 40 digits.
    pub convert_address_roundtrip :
        (address chain : Text)
        → IsLowerHex address
        → length address ≡ 40
        → IsChain chain
        → (revo : Text) × (convert_eth_address c address chain ≡ inr revo)
          × (convert_revo_address c revo ≡ inr address)
    unfolding convert_eth_address with_prefix calc_address_checksum
    convert_address_roundtrip address chain h e k =
        let (p, ep) = chain_prefix-IsChain chain k in
        let (bs, eb, back, small, n) = encode_to_string-decode_string 20 address h e in
        (
          base58_encode (with_checksum p bs),
          rw (eb, ep, convert_eth_address),
          convert_revo_address-encode p bs n ∙ ap inr back,
        )

-- For every text and every behaviour of `hexutil.Decode`: the check of an address passes exactly
-- if the text starts with `0x`, has 42 bytes and is decoded; otherwise the error names the first of
-- the three that fails.
pub validate_address_iff :
    (decodes : Text → Bool) (s : Text)
    → ((validate_address decodes s ≡ none)
        ↔ ((has_prefix s hex_prefix ≡ true) × (length s ≡ 42) × (decodes s ≡ true)))
      × ((validate_address decodes s ≡ some AddressError.no_hex_prefix)
          ↔ (has_prefix s hex_prefix ≡ false))
      × ((validate_address decodes s ≡ some AddressError.invalid_length)
          ↔ ((has_prefix s hex_prefix ≡ true) × (length s ≢ 42)))
unfolding validate_address
validate_address_iff decodes s = (
  (λ h. ground arith, λ h. ground arith),
  (λ h. ground arith, λ h. ground arith),
  (λ h. ground arith, λ h. ground arith),
)
