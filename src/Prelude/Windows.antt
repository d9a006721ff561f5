-- ===== src/Prelude/Windows.antt =====
-- Ring arrays: the entries in the order in which they are overwritten, and the last entries of a
-- history.
use Prim.Native.Nat.{ℕ, zero, suc, ◌+◌, ◌-◌, ◌%◌, ◌≤◌, ◌<◌}
use mathlib.Core.Path.{◌≡◌, refl, sym, ap, ◌∙◌}
use mathlib.Core.List.{List, [], ◌∷◌, ◌++◌, append-nil, append_assoc}
use native.Mathlib.Decide.{dec_lt}
use native.Mathlib.Nat.{mod-eq_of_lt}
use native.Mathlib.Numerals.{add-one}
use native.Mathlib.Omega.{arith}
use charon.Prelude.Lists.{
  length, get_elem?, set, take, drop, length-append, length-drop, length-take, length-set,
}

module _ {ℓ} {A : Type ℓ} where
  -- The entries from index `i` on, going round: the oldest first, where `i` is written next.
  abbrev pub spin : ℕ → List A → List A
  spin i xs = drop i xs ++ take i xs

  -- A window moved on by one entry.
  abbrev pub slide : A → List A → List A
  slide x w = drop 1 w ++ (x ∷ [])

  -- The last `n` entries.
  abbrev pub last_n : ℕ → List A → List A
  last_n n xs = drop (length xs - n) xs

  pub drop-append : (k : ℕ) (xs ys : List A) → k ≤ length xs → drop k (xs ++ ys) ≡ drop k xs ++ ys
  drop-append zero xs ys h = refl
  drop-append (suc k) [] ys h = absurd (omega arith)
  drop-append (suc k) (x ∷ xs) ys h = drop-append k xs ys (omega arith)

  drop-one-drop :
      (k : ℕ) (xs ys : List A) → k < length xs → drop 1 (drop k xs ++ ys) ≡ drop (suc k) xs ++ ys
  drop-one-drop zero [] ys h = absurd (omega arith)
  drop-one-drop zero (x ∷ xs) ys h = refl
  drop-one-drop (suc k) [] ys h = absurd (omega arith)
  drop-one-drop (suc k) (x ∷ xs) ys h = drop-one-drop k xs ys (omega arith)

  drop-set : (i : ℕ) (xs : List A) (v : A) → drop (suc i) (set xs i v) ≡ drop (suc i) xs
  drop-set i [] v = refl
  drop-set zero (x ∷ xs) v = refl
  drop-set (suc i) (x ∷ xs) v = drop-set i xs v

  take-set :
      (i : ℕ) (xs : List A) (v : A)
      → i < length xs
      → take (suc i) (set xs i v) ≡ take i xs ++ (v ∷ [])
  take-set i [] v h = absurd (omega arith)
  take-set zero (x ∷ xs) v h = refl
  take-set (suc i) (x ∷ xs) v h = ap (λ t. x ∷ t) (take-set i xs v (omega arith))

  take_all : (n : ℕ) (xs : List A) → length xs ≤ n → take n xs ≡ xs
  take_all zero [] h = refl
  take_all zero (x ∷ xs) h = absurd (omega arith)
  take_all (suc n) [] h = refl
  take_all (suc n) (x ∷ xs) h = ap (λ t. x ∷ t) (take_all n xs (omega arith))

  drop_all : (n : ℕ) (xs : List A) → length xs ≤ n → drop n xs ≡ []
  drop_all zero [] h = refl
  drop_all zero (x ∷ xs) h = absurd (omega arith)
  drop_all (suc n) [] h = refl
  drop_all (suc n) (x ∷ xs) h = drop_all n xs (omega arith)

  pub length-spin : (i : ℕ) (xs : List A) → i ≤ length xs → length (spin i xs) ≡ length xs
  length-spin i xs h =
      omega (arith, length-append (drop i xs) (take i xs), length-drop i xs, length-take i xs)

  spin_last :
      (i : ℕ) (xs : List A) (v : A) → suc i ≡ length xs → spin 0 (set xs i v) ≡ slide v (spin i xs)
  spin_last i xs v h =
      append-nil (set xs i v)
      ∙ sym (take_all (suc i) (set xs i v) (omega (arith, length-set xs i v)))
      ∙ take-set i xs v (omega arith)
      ∙ ap (λ t. t ++ (v ∷ []))
          (sym (
            drop-one-drop i xs (take i xs) (omega arith)
            ∙ ap (λ t. t ++ take i xs) (drop_all (suc i) xs (omega arith))))

  spin_next :
      (i : ℕ) (xs : List A) (v : A)
      → suc i < length xs
      → spin (suc i) (set xs i v) ≡ slide v (spin i xs)
  spin_next i xs v h =
      rw
        (
          drop-set i xs v,
          take-set i xs v (omega arith),
          drop-one-drop i xs (take i xs) (omega arith),
        )
        (sym (append_assoc (drop (suc i) xs) (take i xs) (v ∷ [])))

  -- Writing at `i` and stepping round moves the window on by the entry written.
  pub spin-set :
      (i : ℕ) (xs : List A) (v : A)
      → i < length xs
      → spin ((i + 1) % length xs) (set xs i v) ≡ slide v (spin i xs)
  spin-set i xs v h = elim (dec_lt (i + 1) (length xs)) [
    | yes p ↦ rw (mod-eq_of_lt p, add-one) (spin_next i xs v (omega arith))
    | no p ↦ let e : (i + 1) % length xs ≡ 0 = grind arith in rw e (spin_last i xs v (omega arith))
  ]

  get_elem?-spin :
      (i : ℕ) (xs ys : List A) → i < length xs → get_elem? (drop i xs ++ ys) 0 ≡ get_elem? xs i
  get_elem?-spin i [] ys h = absurd (omega arith)
  get_elem?-spin zero (x ∷ xs) ys h = refl
  get_elem?-spin (suc i) (x ∷ xs) ys h = get_elem?-spin i xs ys (omega arith)

  -- The entry that is overwritten next is the oldest.
  pub spin_head : (i : ℕ) (xs : List A) → i < length xs → get_elem? (spin i xs) 0 ≡ get_elem? xs i
  spin_head i xs h = get_elem?-spin i xs (take i xs) h

  -- A longer history has the window moved on by its last entry.
  pub last_n-append :
      (n : ℕ) (xs : List A) (x : A)
      → 0 < n
      → n ≤ length xs
      → last_n n (xs ++ (x ∷ [])) ≡ slide x (last_n n xs)
  last_n-append n xs x h k =
      rw (length-append xs (x ∷ []), step)
        (drop-append (suc (length xs - n)) xs (x ∷ []) (omega arith)
          ∙ ap (λ t. t ++ (x ∷ [])) (sym (drop_one (length xs - n) xs (omega arith))))
    where
      step : length xs + 1 - n ≡ suc (length xs - n)
      step = omega arith

      drop_one : (k : ℕ) (xs : List A) → k < length xs → drop 1 (drop k xs) ≡ drop (suc k) xs
      drop_one zero [] h = absurd (omega arith)
      drop_one zero (x ∷ xs) h = refl
      drop_one (suc k) [] h = absurd (omega arith)
      drop_one (suc k) (x ∷ xs) h = drop_one k xs (omega arith)

  pub length-last_n : (n : ℕ) (xs : List A) → n ≤ length xs → length (last_n n xs) ≡ n
  length-last_n n xs h = omega (arith, length-drop (length xs - n) xs)

  -- A history no longer than the window is all of it.
  pub last_n_all : (n : ℕ) (xs : List A) → length xs ≤ n → last_n n xs ≡ xs
  last_n_all n xs h = rw e
    where
      e : length xs - n ≡ 0
      e = omega arith

  pub last_n_pad : (n : ℕ) (ps xs : List A) → n ≤ length xs → last_n n (ps ++ xs) ≡ last_n n xs
  last_n_pad n [] xs h = refl
  last_n_pad n (p ∷ ps) xs h = rw e (last_n_pad n ps xs h)
    where
      e : suc (length (ps ++ xs)) - n ≡ suc (length (ps ++ xs) - n)
      e = omega (arith, length-append ps xs)

  pub spin_zero : (xs : List A) → spin 0 xs ≡ xs
  spin_zero xs = append-nil xs

  pub get_elem?-drop : (k : ℕ) (xs : List A) → get_elem? (drop k xs) 0 ≡ get_elem? xs k
  get_elem?-drop zero xs = refl
  get_elem?-drop (suc k) [] = refl
  get_elem?-drop (suc k) (x ∷ xs) = get_elem?-drop k xs
