-- ===== src/Chains/Detection.antt =====
-- pkg/revo/revo.go: the chain is known once the node answers, and not before.
use charon.Prelude.{
  inr_injective, ℕ, zero, suc, ◌+◌, ◌*◌, ◌≤◌, ◌≡◌, refl, sym, ap, inl, inr, true, false, Bool-cases,
  ◌&&◌, ◌||◌, not, none, some, List, ◌∷◌, ◌++◌, replicate, Text, codes, text_eq, to_lower, arith,
}
use charon.Chains.{
  ChainState, Attempt, all_chains, in_str_slice, detect_chain, new_revo, detected,
  detecting_backoff, detecting_chain, current_chain,
}

-- Tries that all fail.
abbrev pub failures : ℕ → List Attempt
failures k = replicate k Attempt.fails

backoff_le : (i : ℕ) → detecting_backoff i ≤ 2500
unfolding detecting_backoff
backoff_le i = omega arith

detecting-failures :
    (k i : ℕ) (s : ChainState) (tries : List Attempt)
    → ((detecting_chain i (failures k ++ tries) s).0 ≡ (detecting_chain (i + k) tries s).0)
      × ((detecting_chain i (failures k ++ tries) s).1
          ≤ k * 2500 + (detecting_chain (i + k) tries s).1)
unfolding detecting_chain detecting_backoff
detecting-failures zero i s tries = let e : i + 0 ≡ i = omega arith in rw e (refl, omega arith)
detecting-failures (suc k) i s tries =
    let (same, le) = detecting-failures k (i + 1) s tries in
    let b = backoff_le i in
    let e : i + suc k ≡ i + 1 + k = omega arith in rw e (same, omega (arith, le, b))

started :
    (t s : ChainState)
    → detect_chain t ≡ (s, true)
    → (s.querying_chain ≡ true) × (s.querying_complete ≡ true)
unfolding detect_chain
started t s h =
    elim (Bool-cases (
      t.querying_chain
      || (not (text_eq t.chain (codes "auto")) && not (text_eq t.chain (codes ""))))) [
        | inl e ↦ absurd (ground (arith, (ap (λ p. p.1) (rw (e, detect_chain) at h))))
        | inr e ↦
            let same = ap (λ p. p.0) (rw (e, detect_chain) at h) in
            (sym (ap (λ x. x.querying_chain) same), sym (ap (λ x. x.querying_complete) same))
      ]

new_revo-started :
    (chain : Text) (s : ChainState)
    → new_revo chain ≡ inr (s, true)
    → (s.querying_chain ≡ true) × (s.querying_complete ≡ true)
unfolding new_revo
new_revo-started chain s h =
    let fresh : ChainState = record {
      chain = chain;
      querying_chain = false;
      querying_complete = false;
    } in
    elim (Bool-cases (in_str_slice all_chains chain)) [
      | inl e ↦
          started fresh s (inr_injective (new_revo chain) _ (s, true) (rw (e, new_revo) refl) h)
      | inr e ↦ absurd (ground (arith, (rw (e, new_revo) at h)))
    ]

detecting-nothing : (k i : ℕ) (s : ChainState) → (detecting_chain i (failures k) s).0 ≡ s
unfolding detecting_chain
detecting-nothing zero i s = refl
detecting-nothing (suc k) i s = detecting-nothing k (i + 1) s

-- Of a chain that is to be detected, for every number of failures of the node: while it fails nobody
-- is told a chain, and once it answers everybody is told that chain in lower case, after a wait of
-- no more than 2.5 s for each failure.
pub chain_detected :
    (chain answer : Text) (s : ChainState) (k : ℕ) (tries : List Attempt)
    → new_revo chain ≡ inr (s, true)
    → (current_chain false (detecting_chain 0 (failures k) s).0 ≡ none)
      × (current_chain false
            (detecting_chain 0 (failures k ++ (Attempt.answers answer ∷ tries)) s).0
          ≡ some (to_lower answer))
      × ((detecting_chain 0 (failures k ++ (Attempt.answers answer ∷ tries)) s).1 ≤ k * 2500)
unfolding detecting_chain detected current_chain
chain_detected chain answer s k tries h =
    let (asking, open_still) = new_revo-started chain s h in
    let (same, le) = detecting-failures k 0 s (Attempt.answers answer ∷ tries) in
    (
      rw (detecting-nothing k 0 s) (rw (asking, open_still, current_chain) refl),
      rw same refl,
      omega (arith, le),
    )
