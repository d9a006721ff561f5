-- ===== src/Analytics/Counts.antt =====
-- How often an outcome stands in a history.
use charon.Prelude.{
  ℕ, suc, ◌+◌, ◌≡◌, Bool, true, false, List, [], ◌∷◌, ◌++◌, arith, some, length, get_elem?, drop,
}

abbrev pub tally : Bool → List Bool → ℕ
tally b [] = 0
tally true (true ∷ xs) = suc (tally true xs)
tally true (false ∷ xs) = tally true xs
tally false (true ∷ xs) = tally false xs
tally false (false ∷ xs) = suc (tally false xs)

-- 1 for an entry that counts.
abbrev pub weight : Bool → Bool → ℕ
weight true true = 1
weight false false = 1
weight _ _ = 0

tally-cons : (b x : Bool) (xs : List Bool) → tally b (x ∷ xs) ≡ weight b x + tally b xs
tally-cons true true xs = omega arith
tally-cons true false xs = omega arith
tally-cons false true xs = omega arith
tally-cons false false xs = omega arith

pub tally-append :
    (b : Bool) (xs : List Bool) (x : Bool) → tally b (xs ++ (x ∷ [])) ≡ tally b xs + weight b x
tally-append true [] true = omega arith
tally-append true [] false = omega arith
tally-append false [] true = omega arith
tally-append false [] false = omega arith
tally-append b (y ∷ xs) x =
    omega (arith, tally-cons b y xs, tally-cons b y (xs ++ (x ∷ [])), tally-append b xs x)

pub tally_total : (xs : List Bool) → tally true xs + tally false xs ≡ length xs
tally_total [] = omega arith
tally_total (true ∷ xs) = omega (arith, tally_total xs)
tally_total (false ∷ xs) = omega (arith, tally_total xs)

-- Without its first entry a history has that entry's count less.
pub tally-drop :
    (b x : Bool) (xs : List Bool)
    → get_elem? xs 0 ≡ some x
    → tally b (drop 1 xs) + weight b x ≡ tally b xs
tally-drop b x [] h = absurd (ground arith)
tally-drop b x (y ∷ xs) h = ground (arith, tally-cons b y xs)
