-- ===== src/Utxos/Scripts.antt =====
-- The types that a script can have.
use charon.Prelude.{
  ◌≡◌, ◌≢◌, ◌↔◌, inl, inr, true, false, [], ◌∷◌, Text, text_eq, arith, Bool-cases, codes, ◌++◌,
  to_lower, lower_byte, ℕ,
}
use charon.Utxos.{
  UtxoScriptType, get_type, is_p2sh, is_p2pk, is_p2pkh, is_p2wpkh, is_p2wsh, is_p2sh_p2wpkh,
  is_p2sh_p2wsh, slice,
}

starts_a9 :
    (c : ℕ) (s t : Text)
    → text_eq (to_lower (slice 0 4 (c ∷ s) ++ t)) (codes "a91487") ≡ true
    → lower_byte c ≡ b'a'
unfolding text_eq to_lower
starts_a9 c s t h = ground arith

starts_16 :
    (c : ℕ) (s : Text)
    → text_eq (to_lower (slice 0 6 (c ∷ s))) (codes "160014") ≡ true
    → lower_byte c ≡ b'1'
unfolding text_eq to_lower
starts_16 c s h = ground arith

-- No script starts both ways.
not_p2sh_p2wpkh : (s : Text) → is_p2sh_p2wpkh s ≡ false
unfolding is_p2sh_p2wpkh is_p2sh
not_p2sh_p2wpkh [] = ground arith
not_p2sh_p2wpkh (c ∷ s) = elim (Bool-cases (is_p2sh_p2wpkh (c ∷ s))) [
  | inr e ↦ e
  | inl e ↦ absurd (ground (arith, starts_a9 c s (slice 44 46 (c ∷ s)), starts_16 c s, e))
]

-- No script has both lengths.
not_p2sh_p2wsh : (s : Text) → is_p2sh_p2wsh s ≡ false
unfolding is_p2sh_p2wsh is_p2sh
not_p2sh_p2wsh s = ground arith

lengths : (s : Text) → is_p2sh s ≡ true → (is_p2pk s ≡ false) × (is_p2pkh s ≡ false)
unfolding is_p2sh is_p2pk is_p2pkh
lengths s h = (ground arith, ground arith)

-- For every script: its type is never one of a pay-to-script-hash that wraps a witness, although the
-- source has cases for both; it is that of a plain one exactly if the script has its form; and it is
-- unknown exactly if the script has none of the five forms.
pub get_type_cases :
    (s : Text)
    → (get_type s ≢ UtxoScriptType.p2sh_p2wpkh)
      × (get_type s ≢ UtxoScriptType.p2sh_p2wsh)
      × ((get_type s ≡ UtxoScriptType.p2sh) ↔ (is_p2sh s ≡ true))
      × ((get_type s ≡ UtxoScriptType.unknown_utxo) ↔ (
          (is_p2pk s ≡ false)
          × (is_p2pkh s ≡ false)
          × (is_p2sh s ≡ false)
          × (is_p2wpkh s ≡ false)
          × (is_p2wsh s ≡ false)))
unfolding get_type
get_type_cases s =
    let a = not_p2sh_p2wpkh s in
    let b = not_p2sh_p2wsh s in
    (
      λ h. ground (arith, a, b, h),
      λ h. ground (arith, a, b, h),
      (λ h. ground (arith, a, b, h), λ h. ground (arith, a, b, h, lengths s h)),
      (λ h. ground (arith, a, b, h), λ h. ground (arith, a, b, h)),
    )
