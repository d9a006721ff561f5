-- ===== src/Prelude/Keys.antt =====
-- Maps with one entry for a key, and how many entries they have.
use Prim.Native.Nat.{◌+◌}
use mathlib.Core.Path.{◌≡◌, refl, sym, ap, ◌∙◌}
use mathlib.Core.Logic.{inl, inr}
use mathlib.Core.Bool.{false}
use mathlib.Core.Option.{none, some}
use mathlib.Core.List.{[], ◌∷◌}
use native.Mathlib.Omega.{arith}
use charon.Prelude.Bools.{Bool-cases}
use charon.Prelude.Lists.{length}
use charon.Prelude.Maps.{Eq, Map, lookup, insert, remove, lookup-insert, lookup-remove}

module _ {ℓ} {K : Type ℓ} {V : Type 0} ⦃e : Eq K⦄ where
  abbrev pub IsUnique : Map K V → Type 0
  IsUnique [] = Unit
  IsUnique ((k, v) ∷ m) = (lookup k m ≡ none) × IsUnique m

  pub length-insert_absent :
      (k : K) (v : V) (m : Map K V) → lookup k m ≡ none → length (insert k v m) ≡ length m + 1
  unfolding lookup insert
  length-insert_absent k v [] h = omega arith
  length-insert_absent k v ((j, w) ∷ m) h = ground (arith, length-insert_absent k v m)

  pub length-insert_present :
      (k : K) (v w : V) (m : Map K V) → lookup k m ≡ some w → length (insert k v m) ≡ length m
  unfolding lookup insert
  length-insert_present k v w [] h = absurd (ground arith)
  length-insert_present k v w ((j, u) ∷ m) h = ground (arith, length-insert_present k v w m)

  pub remove_absent : (k : K) (m : Map K V) → lookup k m ≡ none → remove k m ≡ m
  unfolding lookup remove
  remove_absent k [] h = refl
  remove_absent k ((j, w) ∷ m) h = ground (arith, remove_absent k m)

  pub length-remove_present :
      (k : K) (w : V) (m : Map K V)
      → IsUnique m
      → lookup k m ≡ some w
      → length (remove k m) + 1 ≡ length m
  unfolding lookup remove
  length-remove_present k w [] u h = absurd (ground arith)
  length-remove_present k w ((j, v) ∷ m) (a, u) h = elim (Bool-cases (e.beq j k)) [
    | inl same ↦
        let here : lookup k m ≡ none = ap (λ i. lookup i m) (sym ((e.beq_iff j k).0 same)) ∙ a in
        rw same (ap (λ l. length l + 1) (remove_absent k m here) ∙ omega arith)
    | inr other ↦
        let there : lookup k m ≡ some w = (rw other at h) in
        rw other (omega (arith, length-remove_present k w m u there))
  ]

  pub insert-IsUnique : (k : K) (v : V) (m : Map K V) → IsUnique m → IsUnique (insert k v m)
  unfolding insert lookup
  insert-IsUnique k v [] u = (refl, u)
  insert-IsUnique k v ((j, w) ∷ m) (a, u) = elim (Bool-cases (e.beq j k)) [
    | inl same ↦ rw same (ap (λ i. lookup i m) (sym ((e.beq_iff j k).0 same)) ∙ a, u)
    | inr other ↦
        let apart : e.beq k j ≡ false = ground (arith, e.beq_iff j k, e.beq_iff k j) in
        rw other (lookup-insert k j v m ∙ (rw apart a), insert-IsUnique k v m u)
  ]

  pub remove-IsUnique : (k : K) (m : Map K V) → IsUnique m → IsUnique (remove k m)
  unfolding remove
  remove-IsUnique k [] u = u
  remove-IsUnique k ((j, w) ∷ m) (a, u) = elim (Bool-cases (e.beq j k)) [
    | inl same ↦ rw same (remove-IsUnique k m u)
    | inr other ↦ rw other (ground (arith, lookup-remove k j m, a), remove-IsUnique k m u)
  ]

  pub remove-insert_absent :
      (k : K) (v : V) (m : Map K V) → lookup k m ≡ none → remove k (insert k v m) ≡ m
  unfolding lookup insert remove
  remove-insert_absent k v [] h = ground (arith, e.beq_iff k k)
  remove-insert_absent k v ((j, w) ∷ m) h = ground (arith, remove-insert_absent k v m)
