-- ===== src/Hex/Prefix.antt =====
-- pkg/utils/hex.go: the `0x` prefix. `common.IsHexAddress` and `hexutil.DecodeBig` of go-ethereum
-- are parameters.
use charon.Prelude.{
  ℕ, ◌⊎◌, ◌≡◌, sym, ap, Bool, true, false, [], ◌++◌, if◌then◌else◌, ◌||◌, Text, codes, drop,
  has_prefix, has_prefix-append, has_prefix-split, text_eq, Bool-cases, inl, inr, ◌∙◌,
}

abbrev pub hex_prefix : Text
hex_prefix = codes "0x"

unfoldable pub remove_hex_prefix : Text → Text
remove_hex_prefix hex = if has_prefix hex hex_prefix then drop 2 hex else hex

unfoldable pub add_hex_prefix : Text → Text
add_hex_prefix hex = if has_prefix hex hex_prefix then hex else hex_prefix ++ hex

unfoldable pub add_hex_prefix_if_not_empty : Text → Text
add_hex_prefix_if_not_empty hex = if text_eq hex [] then hex else add_hex_prefix hex

module _ (is_hex_address : Text → Bool) where
  unfoldable pub is_eth_hex_address : Text → Bool
  is_eth_hex_address str = has_prefix str hex_prefix || is_hex_address (hex_prefix ++ str)

module _ {ℓ} {E : Type ℓ} (hexutil_decode_big : Text → E ⊎ ℕ) where
  unfoldable pub decode_big : Text → E ⊎ ℕ
  decode_big input =
      let input' = add_hex_prefix input in
      if text_eq input' (codes "0x00") then inr 0 else hexutil_decode_big input'

pub add_hex_prefix_present : (s : Text) → has_prefix s hex_prefix ≡ true → add_hex_prefix s ≡ s
unfolding add_hex_prefix
add_hex_prefix_present s e = rw e

pub add_hex_prefix_absent :
    (s : Text) → has_prefix s hex_prefix ≡ false → add_hex_prefix s ≡ hex_prefix ++ s
unfolding add_hex_prefix
add_hex_prefix_absent s e = rw e

pub remove_hex_prefix_present :
    (s : Text) → has_prefix s hex_prefix ≡ true → remove_hex_prefix s ≡ drop 2 s
unfolding remove_hex_prefix
remove_hex_prefix_present s e = rw e

pub remove_hex_prefix_absent :
    (s : Text) → has_prefix s hex_prefix ≡ false → remove_hex_prefix s ≡ s
unfolding remove_hex_prefix
remove_hex_prefix_absent s e = rw e

pub has_prefix-add_hex_prefix : (s : Text) → has_prefix (add_hex_prefix s) hex_prefix ≡ true
has_prefix-add_hex_prefix s = elim (Bool-cases (has_prefix s hex_prefix)) [
  | inl e ↦ rw (add_hex_prefix_present s e) e
  | inr e ↦ rw (add_hex_prefix_absent s e) (has_prefix-append hex_prefix s)
]

remove-add_hex_prefix : (s : Text) → remove_hex_prefix (add_hex_prefix s) ≡ remove_hex_prefix s
remove-add_hex_prefix s = elim (Bool-cases (has_prefix s hex_prefix)) [
  | inl e ↦ ap remove_hex_prefix (add_hex_prefix_present s e)
  | inr e ↦
      remove_hex_prefix_present (add_hex_prefix s) (has_prefix-add_hex_prefix s)
      ∙ ap (drop 2) (add_hex_prefix_absent s e)
      ∙ sym (remove_hex_prefix_absent s e)
]

add-remove_hex_prefix :
    (s : Text)
    → has_prefix (remove_hex_prefix s) hex_prefix ≡ false
    → add_hex_prefix (remove_hex_prefix s) ≡ add_hex_prefix s
add-remove_hex_prefix s h = elim (Bool-cases (has_prefix s hex_prefix)) [
  | inl e ↦
      add_hex_prefix_absent (remove_hex_prefix s) h
      ∙ ap (λ t. hex_prefix ++ t) (remove_hex_prefix_present s e)
      ∙ has_prefix-split s hex_prefix e
      ∙ sym (add_hex_prefix_present s e)
  | inr e ↦ ap add_hex_prefix (remove_hex_prefix_absent s e)
]

-- For every text: adding the prefix gives a text that has it, and adding it again changes nothing;
-- removing it after that gives what removing it from the text gives; and where the text without
-- its prefix has no second one, adding the prefix back gives what adding it to the text gives.
pub hex_prefix_laws :
    (s : Text)
    → (has_prefix (add_hex_prefix s) hex_prefix ≡ true)
      × (add_hex_prefix (add_hex_prefix s) ≡ add_hex_prefix s)
      × (remove_hex_prefix (add_hex_prefix s) ≡ remove_hex_prefix s)
      × (has_prefix (remove_hex_prefix s) hex_prefix ≡ false
          → add_hex_prefix (remove_hex_prefix s) ≡ add_hex_prefix s)
hex_prefix_laws s = (
  has_prefix-add_hex_prefix s,
  add_hex_prefix_present (add_hex_prefix s) (has_prefix-add_hex_prefix s),
  remove-add_hex_prefix s,
  add-remove_hex_prefix s,
)
