-- ===== src/Tests/Params.antt =====
-- The decoders of parameters, applied.
use charon.Prelude.{
  ◌≡◌, ◌↔◌, refl, true, pos, if◌then◌else◌, some, inl, inr, [], ◌∷◌, codes, text_eq, to_lower,
  has_prefix,
}
use charon.Params.{Json, Jsons, Members, succeeds, jsons}
use charon.Params.Kinds.{Kind, unmarshal, signature}
use charon.Params.Shapes.{IsTyped}
use charon.Params.Types.{unmarshal_iff_IsTyped}
use charon.Params.Objects.{IntLibrary, unmarshal_call, empty_call}
use charon.Params.Subscription.{
  EthSubscriptionRequest, Decoded, unmarshal_subscription, marshal_subscription,
  unmarshal-marshal_subscription,
}

-- A hash and an index.
abbrev two_texts : Json
two_texts = Json.array (jsons (Json.string (codes "0xab") ∷ Json.string (codes "0x1") ∷ []))

unmarshal_iff_IsTyped_example :
    (succeeds (unmarshal (λ s. s) Kind.by_block_hash_and_index two_texts) ≡ true)
    ↔ IsTyped (signature Kind.by_block_hash_and_index) two_texts
unmarshal_iff_IsTyped_example =
    unmarshal_iff_IsTyped (λ s. s) Kind.by_block_hash_and_index two_texts

abbrev logs_subscription : EthSubscriptionRequest
logs_subscription = record {
  method = codes "logs";
  params = some (record { address = Json.string (codes "0xa1"); topics = some (Json.null ∷ []) });
}

unmarshal-marshal_subscription_example :
    unmarshal_subscription (λ v. v) (marshal_subscription logs_subscription)
    ≡ Decoded.decoded logs_subscription
unmarshal-marshal_subscription_example =
    unmarshal-marshal_subscription (λ v. v) logs_subscription (λ p h. refl)

-- No parameters at all.
subscription_panics : unmarshal_subscription (λ v. v) (Json.array Jsons.nil) ≡ Decoded.panics
unfolding unmarshal_subscription
subscription_panics = refl

abbrev int_library : IntLibrary
int_library = record {
  hexutil_decode_big = λ s. if text_eq s (codes "0x10") then inr 16 else inl (codes "invalid");
  big_error = λ v. codes "not a number";
}

call_example :
    unmarshal_call int_library (
      Json.array (
        jsons (
          Json.object (
            Members.member
              (codes "To")
              (Json.string (codes "0xa1"))
              (Members.member (codes "gas") (Json.string (codes "0x10")) Members.end))
          ∷ [])))
    ≡ inr (record empty_call { to = codes "0xa1"; gas = some (pos 16) })
unfolding unmarshal_call text_eq to_lower has_prefix
call_example = refl
