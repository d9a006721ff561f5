-- ===== src/Health/Heights.antt =====
-- What the checks of the height report.
use charon.Prelude.{
  inl, inr, Bool-cases, ltb, ◌==◌, ◌-◌, ap, sym, ◌∙◌, false, ◌+◌, ◌↔◌, ◌⊎◌, Text, true, some, ℕ,
  ◌≤◌, ◌<◌, ◌≡◌, Option, none, List, [], ◌∷◌, arith,
}
use charon.Health.{look, is_due, check_all, Server, HealthError, test_blocks_syncing}

-- No check reports anything.
abbrev pub AreQuiet : List (Option HealthError) → Type 0
AreQuiet [] = Unit
AreQuiet (r ∷ rs) = (r ≡ none) × AreQuiet rs

-- The heights go up from check to check.
abbrev pub Grows : ℕ → List (ℕ × ℕ) → Type 0
Grows last [] = Unit
Grows last ((now, blocks) ∷ checks) = (last < blocks) × Grows blocks checks

test_quiet :
    (now blocks : ℕ) (s : Server)
    → s.last_block < blocks
    → s.last_block_status ≡ none
    → let (s', report) = test_blocks_syncing now (inr blocks) s in
      (report ≡ none) × (s'.last_block_status ≡ none) × (s'.last_block ≤ blocks)
unfolding test_blocks_syncing look
test_quiet now blocks s h e = ground arith

Grows-le : (checks : List (ℕ × ℕ)) (a b : ℕ) → a ≤ b → Grows b checks → Grows a checks
Grows-le [] a b h g = tt
Grows-le ((now, blocks) ∷ checks) a b h (up, g) = (omega arith, g)

-- For every series of checks, at whatever times, of a node whose height goes up from each check to
-- the next: where nothing was reported before and the last height that was seen is below the first
-- one, no check reports anything.
pub growing_node_quiet :
    (checks : List (ℕ × ℕ)) (s : Server)
    → s.last_block_status ≡ none
    → Grows s.last_block checks
    → AreQuiet (check_all checks s)
unfolding check_all
growing_node_quiet [] s e g = tt
growing_node_quiet ((now, blocks) ∷ checks) s e (up, g) =
    let (report, status, last) = test_quiet now blocks s up e in
    let s' = (test_blocks_syncing now (inr blocks) s).0 in
    (report, growing_node_quiet checks s' status (Grows-le checks s'.last_block blocks last g))

look_next :
    (now blocks : ℕ) (s : Server)
    → (t : ℕ) × ((look now blocks s).next_block_check ≡ some t) × (now + 10 ≤ t)
unfolding look
look_next now blocks s = elim (Bool-cases (blocks == s.last_block)) [
  | inl e ↦ (now + 15, rw (e, look), omega arith)
  | inr e ↦ elim (Bool-cases (ltb blocks s.last_block)) [
    | inr f ↦ (now + 90, rw (e, f, look), omega arith)
    | inl f ↦ elim (Bool-cases (ltb 10 (s.last_block - blocks))) [
      | inl g ↦ (now + 60, rw (e, f, g, look), omega arith)
      | inr g ↦ (now + 10, rw (e, f, g, look), omega arith)
    ]
  ]
]

not_due :
    (later t : ℕ) (other : Text ⊎ ℕ) (s : Server)
    → s.next_block_check ≡ some t
    → later < t
    → test_blocks_syncing later other s ≡ (s, s.last_block_status)
unfolding test_blocks_syncing
not_due later t other s e h =
    let waits : is_due later (some t) ≡ false = ground arith in
    let waits' : is_due later s.next_block_check ≡ false = ap (is_due later) e ∙ waits in
    simp (waits', test_blocks_syncing)

looked :
    (now blocks : ℕ) (s : Server)
    → is_due now s.next_block_check ≡ true
    → test_blocks_syncing now (inr blocks) s
      ≡ (look now blocks s, (look now blocks s).last_block_status)
unfolding test_blocks_syncing
looked now blocks s d = simp (d, test_blocks_syncing)

-- For every state in which a look at the node is due, and every height that the node then gives:
-- nothing is reported exactly if the height is above the last one; a stall is reported exactly if it
-- is the same; a loss of many blocks exactly if it is more than 10 below; and a loss of a few
-- otherwise. Each check in the 10 seconds after that reports the same without a look at the node.
pub due_check :
    (now blocks later : ℕ) (s : Server) (other : Text ⊎ ℕ)
    → is_due now s.next_block_check ≡ true
    → now ≤ later
    → later < now + 10
    → let (s', report) = test_blocks_syncing now (inr blocks) s in
      ((report ≡ none) ↔ (s.last_block < blocks))
      × ((report ≡ some HealthError.block_syncing_seems_stalled) ↔ (blocks ≡ s.last_block))
      × ((report ≡ some HealthError.lost_lots_of_blocks) ↔ (blocks + 10 < s.last_block))
      × ((report ≡ some HealthError.lost_few_blocks)
          ↔ ((blocks < s.last_block) × (s.last_block ≤ blocks + 10)))
      × (test_blocks_syncing later other s' ≡ (s', report))
unfolding test_blocks_syncing look
due_check now blocks later s other d h k = (
  (λ e. ground arith, λ e. ground arith),
  (λ e. ground arith, λ e. ground arith),
  (λ e. ground arith, λ e. ground arith),
  (λ e. ground arith, λ e. ground arith),
  same,
)
  where
    same :
        test_blocks_syncing later other (test_blocks_syncing now (inr blocks) s).0
        ≡ test_blocks_syncing now (inr blocks) s
    same =
        let (t, e, far) = look_next now blocks s in
        let first = looked now blocks s d in
        ap (λ r. test_blocks_syncing later other r.0) first
        ∙ not_due later t other (look now blocks s) e (omega arith)
        ∙ sym first
