-- ===== src/Utxos/Selection.antt =====
-- The selection of outputs, against the shortest start of those that come into question.
use charon.Rpc.{new_callback_error}
use charon.Prelude.{
  take, ◌≤◌, ◌<◌, ◌+◌, suc, zero, codes, false, true, ap, sym, ◌∙◌, not, ◌&&◌, ◌==◌, leb,
  append_assoc, append-nil, Bool, Bool-cases, ℕ, ◌≡◌, ◌≢◌, refl, ◌⊎◌, inl, inr, List, [], ◌∷◌, ◌++◌,
  if◌then◌else◌, arith,
}
use charon.Utxos.{Utxo, RevoUtxo, Query, Choice, Selected, choose, confirm, add_safe, select}

-- The safe amounts of some outputs.
abbrev pub safe_sum : List RevoUtxo → ℕ
safe_sum [] = 0
safe_sum (e ∷ es) = add_safe e (safe_sum es)

abbrev pub chosen_then : Choice → List RevoUtxo → List RevoUtxo
chosen_then Choice.skip rest = rest
chosen_then (Choice.use_it e) rest = e ∷ rest
chosen_then Choice.panic rest = rest

-- The outputs that come into question, in order.
abbrev pub eligible : Query → List Utxo → List RevoUtxo
eligible q [] = []
eligible q (u ∷ us) = chosen_then (choose q u) (eligible q us)

-- No output is from above the node's height.
abbrev pub AreMined : Query → List Utxo → Type 0
AreMined q [] = Unit
AreMined q (u ∷ us) = (u.height ≤ q.block_count) × AreMined q us

choose_mined : (q : Query) (u : Utxo) → u.height ≤ q.block_count → choose q u ≢ Choice.panic
unfolding choose confirm
choose_mined q u h e = ground arith

Choice-cases :
    (c : Choice) → c ≢ Choice.panic → (c ≡ Choice.skip) ⊎ ((e : RevoUtxo) × (c ≡ Choice.use_it e))
Choice-cases Choice.skip n = inl refl
Choice-cases (Choice.use_it e) n = inr (e, refl)
Choice-cases Choice.panic n = absurd (n refl)

-- An output that is not from above the node's height is passed over or taken.
choices :
    (q : Query) (u : Utxo)
    → u.height ≤ q.block_count
    → (choose q u ≡ Choice.skip) ⊎ ((e : RevoUtxo) × (choose q u ≡ Choice.use_it e))
choices q u h = Choice-cases (choose q u) (choose_mined q u h)

add_safe-add : (e : RevoUtxo) (a b : ℕ) → add_safe e a + b ≡ a + add_safe e b
add_safe-add e a b = ground arith

select-skip :
    (q : Query) (u : Utxo) (us : List Utxo) (sum : ℕ) (out : List RevoUtxo)
    → choose q u ≡ Choice.skip
    → select q (u ∷ us) sum out ≡ select q us sum out
unfolding select
select-skip q u us sum out c = rw (c, select)

select-use_it :
    (q : Query) (u : Utxo) (us : List Utxo) (sum : ℕ) (out : List RevoUtxo) (e : RevoUtxo)
    → choose q u ≡ Choice.use_it e
    → select q (u ∷ us) sum out ≡ (
        if not (q.minimum_sum == 0) && leb q.minimum_sum (add_safe e sum)
        then Selected.utxos (out ++ (e ∷ []))
        else select q us (add_safe e sum) (out ++ (e ∷ [])))
unfolding select
select-use_it q u us sum out e c = rw (c, select)

abbrev stops_at : Query → RevoUtxo → ℕ → Bool
stops_at q e sum = not (q.minimum_sum == 0) && leb q.minimum_sum (add_safe e sum)

select_on :
    (q : Query) (u : Utxo) (us : List Utxo) (sum : ℕ) (out : List RevoUtxo) (e : RevoUtxo)
    → choose q u ≡ Choice.use_it e
    → stops_at q e sum ≡ false
    → select q (u ∷ us) sum out ≡ select q us (add_safe e sum) (out ++ (e ∷ []))
select_on q u us sum out e c s = select-use_it q u us sum out e c ∙ rw s

select_stop :
    (q : Query) (u : Utxo) (us : List Utxo) (sum : ℕ) (out : List RevoUtxo) (e : RevoUtxo)
    → choose q u ≡ Choice.use_it e
    → stops_at q e sum ≡ true
    → select q (u ∷ us) sum out ≡ Selected.utxos (out ++ (e ∷ []))
select_stop q u us sum out e c s = select-use_it q u us sum out e c ∙ rw s

abbrev pub too_little : Selected
too_little =
    Selected.failure
      (new_callback_error (codes "required minimum amount is greater than total amount of UTXOs"))

select_everything :
    (us : List Utxo) (q : Query) (sum : ℕ) (out : List RevoUtxo)
    → q.minimum_sum ≡ 0
    → AreMined q us
    → select q us sum out ≡ Selected.utxos (out ++ eligible q us)
unfolding select
select_everything [] q sum out m h = ground (arith, append-nil out)
select_everything (u ∷ us) q sum out m (k, h) = elim (choices q u k) [
  | inl c ↦
      select-skip q u us sum out c
      ∙ select_everything us q sum out m h
      ∙ ap (λ x. Selected.utxos (out ++ chosen_then x (eligible q us))) (sym c)
  | inr (e, c) ↦
      let on : stops_at q e sum ≡ false = ground arith in
      select_on q u us sum out e c on
      ∙ select_everything us q (add_safe e sum) (out ++ (e ∷ [])) m h
      ∙ ap Selected.utxos (append_assoc out (e ∷ []) (eligible q us))
      ∙ ap (λ x. Selected.utxos (out ++ chosen_then x (eligible q us))) (sym c)
]

select-too_little :
    (us : List Utxo) (q : Query) (sum : ℕ) (out : List RevoUtxo)
    → 0 < q.minimum_sum
    → AreMined q us
    → sum + safe_sum (eligible q us) < q.minimum_sum
    → select q us sum out ≡ too_little
unfolding select
select-too_little [] q sum out m h l = ground arith
select-too_little (u ∷ us) q sum out m (k, h) l = elim (choices q u k) [
  | inl c ↦
      let less = ap (λ x. sum + safe_sum (chosen_then x (eligible q us))) c in
      select-skip q u us sum out c ∙ select-too_little us q sum out m h (omega (arith, less))
  | inr (e, c) ↦
      let less = ap (λ x. sum + safe_sum (chosen_then x (eligible q us))) c in
      let more = add_safe-add e sum (safe_sum (eligible q us)) in
      let on : stops_at q e sum ≡ false = ground (arith, less, more) in
      select_on q u us sum out e c on
      ∙ select-too_little us q (add_safe e sum) (out ++ (e ∷ [])) m h (omega (arith, less, more))
]

-- The start of `all` that is as short as reaches the minimum from `sum` on.
pub record IsShortest (minimum sum : ℕ) (all start : List RevoUtxo) : Type 0 where
  pub k : ℕ
  pub is_start : start ≡ take k all
  pub reaches : minimum ≤ sum + safe_sum start
  pub shortest : (j : ℕ) → j < k → sum + safe_sum (take j all) < minimum

IsShortest-here :
    (minimum sum : ℕ) (e : RevoUtxo) (all : List RevoUtxo)
    → sum < minimum
    → minimum ≤ add_safe e sum
    → IsShortest minimum sum (e ∷ all) (e ∷ [])
IsShortest-here minimum sum e all m r = record {
  k = 1;
  is_start = refl;
  reaches = omega (arith, add_safe-add e sum 0, r);
  shortest = first;
}
  where
    first : (j : ℕ) → j < 1 → sum + safe_sum (take j (e ∷ all)) < minimum
    first zero h = omega arith
    first (suc j) h = absurd (omega arith)

IsShortest-later :
    (minimum sum : ℕ) (e : RevoUtxo) (all start : List RevoUtxo)
    → sum < minimum
    → IsShortest minimum (add_safe e sum) all start
    → IsShortest minimum sum (e ∷ all) (e ∷ start)
IsShortest-later minimum sum e all start m s = record {
  k = suc s.k;
  is_start = ap (λ l. e ∷ l) s.is_start;
  reaches = omega (arith, add_safe-add e sum (safe_sum start), s.reaches);
  shortest = before;
}
  where
    before : (j : ℕ) → j < suc s.k → sum + safe_sum (take j (e ∷ all)) < minimum
    before zero h = omega arith
    before (suc j) h =
        omega (arith, add_safe-add e sum (safe_sum (take j all)), s.shortest j (omega arith))

select_enough :
    (us : List Utxo) (q : Query) (sum : ℕ) (out : List RevoUtxo)
    → sum < q.minimum_sum
    → AreMined q us
    → q.minimum_sum ≤ sum + safe_sum (eligible q us)
    → (start : List RevoUtxo) × (select q us sum out ≡ Selected.utxos (out ++ start))
      × IsShortest q.minimum_sum sum (eligible q us) start
select_enough [] q sum out m h l = absurd (omega arith)
select_enough (u ∷ us) q sum out m (k, h) l = elim (choices q u k) [
  | inl c ↦
      let enough = ap (λ x. sum + safe_sum (chosen_then x (eligible q us))) c in
      let (start, r, s) = select_enough us q sum out m h (omega (arith, enough)) in
      (start, select-skip q u us sum out c ∙ r, rw c s)
  | inr (e, c) ↦ elim (Bool-cases (stops_at q e sum)) [
    | inl stop ↦ (
      e ∷ [],
      select_stop q u us sum out e c stop,
      rw c (IsShortest-here q.minimum_sum sum e (eligible q us) m (ground arith)),
    )
    | inr on ↦
        let enough = ap (λ x. sum + safe_sum (chosen_then x (eligible q us))) c in
        let more = add_safe-add e sum (safe_sum (eligible q us)) in
        let (start, r, s) =
          select_enough us q (add_safe e sum) (out ++ (e ∷ [])) (ground arith) h
            (omega (arith, enough, more)) in
        (
          e ∷ start,
          select_on q u us sum out e c on ∙ r ∙ ap Selected.utxos (append_assoc out (e ∷ []) start),
          rw c (IsShortest-later q.minimum_sum sum e (eligible q us) start m s),
        )
  ]
]

-- For every query with a minimum above 0 and all outputs from no higher than the node stands, whose
-- eligible ones have safe amounts that sum up to the minimum: the outputs that are returned are the
-- shortest start of the eligible ones whose safe amounts reach the minimum.
pub select-IsShortest :
    (us : List Utxo) (q : Query)
    → 0 < q.minimum_sum
    → AreMined q us
    → q.minimum_sum ≤ safe_sum (eligible q us)
    → (out : List RevoUtxo) × (select q us 0 [] ≡ Selected.utxos out)
      × IsShortest q.minimum_sum 0 (eligible q us) out
select-IsShortest us q m h l = select_enough us q 0 [] m h (omega arith)

-- For all outputs from no higher than the node stands: a query for the minimum 0 returns all
-- eligible ones, in order, and one for a minimum above their safe amounts is refused.
pub select_extremes :
    (us : List Utxo) (q : Query)
    → AreMined q us
    → (q.minimum_sum ≡ 0 → select q us 0 [] ≡ Selected.utxos (eligible q us))
      × (safe_sum (eligible q us) < q.minimum_sum → select q us 0 [] ≡ too_little)
select_extremes us q h = (
  λ m. select_everything us q 0 [] m h,
  λ l. select-too_little us q 0 [] (omega arith) h (omega arith),
)
