-- ===== src/NodeErrors/Codes.antt =====
-- The codes of the node's errors, forth and back.
use charon.Prelude.{
  ℕ, suc, ◌+◌, ◌≡◌, ◌↔◌, refl, sym, ap, ◌∙◌, inl, inr, Option, none, some, [], ◌∷◌, Map, lookup,
  nat_eq, ℤ, pos, negsuc, neg, arith, Bool-cases, ◌==◌, ==_iff,
}
use charon.Rpc.{new_json_rpc_error}
use charon.NodeErrors.{
  NodeError, message_of, error_code_map, known_error, error_to_code, get_error_code,
  get_error_response,
}

-- Every error in a part of the map has its code in the other map.
abbrev AreCoded : Map ℕ NodeError → Type 0
AreCoded [] = Unit
AreCoded ((n, e) ∷ m) = (error_to_code e ≡ some (neg n)) × AreCoded m

lookup-AreCoded :
    (n : ℕ) (e : NodeError) (m : Map ℕ NodeError)
    → AreCoded m
    → lookup n m ≡ some e
    → error_to_code e ≡ some (neg n)
unfolding lookup
lookup-AreCoded n e [] a h = absurd (cc)
lookup-AreCoded n e ((k, x) ∷ m) (c, a) h = elim (Bool-cases (k == n)) [
  | inl same ↦
      let here : some x ≡ some e = (rw same at h) in
      let value : x ≡ e = cc in
      ap error_to_code (sym value) ∙ c ∙ ap (λ i. some (neg i)) ((==_iff k n).0 same)
  | inr apart ↦ lookup-AreCoded n e m a (rw apart at h)
]

map-AreCoded : AreCoded error_code_map
map-AreCoded = ground arith

-- An error with a code is in the map under it.
abbrev IsListed : NodeError → Option ℤ → Type 0
IsListed e none = Unit
IsListed e (some c) = known_error c ≡ some e

error_to_code-IsListed : (e : NodeError) → IsListed e (error_to_code e)
unfolding known_error lookup
error_to_code-IsListed NodeError.invalid_request = refl
error_to_code-IsListed NodeError.method_not_found = refl
error_to_code-IsListed NodeError.invalid_params = refl
error_to_code-IsListed NodeError.internal_error = refl
error_to_code-IsListed NodeError.parse_error = refl
error_to_code-IsListed NodeError.misc_error = refl
error_to_code-IsListed NodeError.type_error = refl
error_to_code-IsListed NodeError.invalid_address = refl
error_to_code-IsListed NodeError.out_of_memory = refl
error_to_code-IsListed NodeError.invalid_parameter = refl
error_to_code-IsListed NodeError.database_error = refl
error_to_code-IsListed NodeError.deserialization_error = refl
error_to_code-IsListed NodeError.verify_error = refl
error_to_code-IsListed NodeError.verify_already_in_chain = refl
error_to_code-IsListed NodeError.in_warmup = refl
error_to_code-IsListed NodeError.method_deprecated = refl
error_to_code-IsListed NodeError.client_not_connected = refl
error_to_code-IsListed NodeError.client_in_initial_download = refl
error_to_code-IsListed NodeError.node_already_added = refl
error_to_code-IsListed NodeError.node_not_added = refl
error_to_code-IsListed NodeError.node_not_connected = tt
error_to_code-IsListed NodeError.invalid_ip_or_subnet = refl
error_to_code-IsListed NodeError.p2p_disabled = refl
error_to_code-IsListed NodeError.mempool_disabled = refl
error_to_code-IsListed NodeError.wallet_error = refl
error_to_code-IsListed NodeError.wallet_insufficient_funds = refl
error_to_code-IsListed NodeError.wallet_invalid_label_name = refl
error_to_code-IsListed NodeError.wallet_keypool_ran_out = refl
error_to_code-IsListed NodeError.wallet_unlock_needed = refl
error_to_code-IsListed NodeError.wallet_passphrase_incorrect = refl
error_to_code-IsListed NodeError.wallet_wrong_encryption_state = refl
error_to_code-IsListed NodeError.wallet_encryption_failed = refl
error_to_code-IsListed NodeError.wallet_already_unlocked = refl
error_to_code-IsListed NodeError.wallet_not_found = refl
error_to_code-IsListed NodeError.wallet_not_specified = refl
error_to_code-IsListed NodeError.forbidden_by_safe_mode = refl
error_to_code-IsListed NodeError.revo_work_queue_depth = tt
error_to_code-IsListed NodeError.try_again = tt

has_code :
    (e : NodeError) (o : Option ℤ) (c : ℤ) → IsListed e o → o ≡ some c → known_error c ≡ some e
has_code e none c l h = absurd (cc)
has_code e (some d) c l h = let same : d ≡ c = cc in rw same at l

known_error-code : (e : NodeError) (c : ℤ) → known_error c ≡ some e → error_to_code e ≡ some c
unfolding known_error
known_error-code e (pos n) h = absurd (cc)
known_error-code e (negsuc n) h =
    let one : n + 1 ≡ suc n = omega arith in
    lookup-AreCoded (n + 1) e error_code_map map-AreCoded h ∙ ap (λ i. some (neg i)) one

response_of :
    (e : NodeError) (c : ℤ)
    → known_error c ≡ some e
    → get_error_response e ≡ some (new_json_rpc_error c (message_of e))
unfolding get_error_response get_error_code known_error
response_of e (pos n) h = absurd (cc)
response_of e (negsuc n) h =
    rw (known_error-code e (negsuc n) h, get_error_code, get_error_response)

-- For every code and every error of the package: the node's code means the error exactly if it is
-- the code that the error is answered with; an error with a code, and no other, has a response,
-- which carries that code and the error's message.
pub error_codes_roundtrip :
    (e : NodeError) (c : ℤ)
    → ((known_error c ≡ some e) ↔ (error_to_code e ≡ some c))
      × (known_error c ≡ some e → get_error_response e ≡ some (new_json_rpc_error c (message_of e)))
      × (error_to_code e ≡ none → get_error_response e ≡ none)
unfolding get_error_response get_error_code
error_codes_roundtrip e c = (
  (known_error-code e c, has_code e (error_to_code e) c (error_to_code-IsListed e)),
  λ h. response_of e c h,
  λ h. rw (h, get_error_code, get_error_response),
)
