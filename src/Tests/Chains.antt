-- ===== src/Tests/Chains.antt =====
-- The detection of the chain at concrete inputs.
use charon.Prelude.{
  ◌*◌, ◌≤◌, ◌≡◌, refl, true, false, none, some, [], ◌∷◌, ◌++◌, codes, text_eq, to_lower,
}
use charon.Chains.{
  ChainState, Attempt, in_str_slice, detect_chain, new_revo, detecting_chain, current_chain,
  chain_id,
}
use charon.Chains.Detection.{failures, chain_detected}

abbrev asking : ChainState
asking = record { chain = codes "auto"; querying_chain = true; querying_complete = true }

chain_detected_example :
    (current_chain false (detecting_chain 0 (failures 2) asking).0 ≡ none)
    × (current_chain false
          (detecting_chain 0 (failures 2 ++ (Attempt.answers (codes "Main") ∷ [])) asking).0
        ≡ some (to_lower (codes "Main")))
    × ((detecting_chain 0 (failures 2 ++ (Attempt.answers (codes "Main") ∷ [])) asking).1
        ≤ 2 * 2500)
unfolding new_revo detect_chain in_str_slice text_eq
chain_detected_example = chain_detected (codes "auto") (codes "Main") asking 2 [] refl

main_id : chain_id (codes "Main") ≡ 81
unfolding chain_id to_lower text_eq
main_id = refl
