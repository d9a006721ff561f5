-- ===== src/Params/Subscription.antt =====
-- `EthSubscriptionRequest` of pkg/eth/rpc_types.go, decoded and encoded. What `json.Marshal` prints
-- of a decoded value is a parameter.
use charon.Prelude.{
  ◌≡◌, refl, ap, ◌∙◌, ◌⊎◌, inl, inr, Option, none, some, List, [], ◌∷◌, Text, codes, if◌then◌else◌,
  to_lower, lower_byte, text_eq,
}
use charon.Params.{
  Json, Members, unmarshal_slice, interfaces, string_at, elements, jsons, elements-jsons,
}
use charon.Params.Positional.{wrapped, data_note}
use charon.Params.Objects.{
  Progress, unmarshal_struct, is_named, cannot_unmarshal_field, first_error,
}

-- The address is any value, and `null` where there is none. A list of topics may be missing.
pub record EthLogSubscriptionParameter : Type 0 where
  pub address : Json
  pub topics : Option (List Json)

pub record EthSubscriptionRequest : Type 0 where
  pub method : Text
  pub params : Option EthLogSubscriptionParameter

pub data Decoded : Type 0 where
  decoded : EthSubscriptionRequest → Decoded
  failed : Text → Decoded
  panics : Decoded

abbrev topics_field :
    Json → EthLogSubscriptionParameter × Option Text → Progress EthLogSubscriptionParameter
topics_field Json.null (r, e) = inr (record r { topics = none }, e)
topics_field (Json.array vs) (r, e) = inr (record r { topics = some (elements vs) }, e)
topics_field v (r, e) = inr (
  r,
  first_error e (cannot_unmarshal_field v (codes "EthLogSubscriptionParameter.topics") interfaces),
)

unfoldable pub log_parameter_member :
    Text → Json → EthLogSubscriptionParameter × Option Text → Progress EthLogSubscriptionParameter
log_parameter_member name v (r, e) =
    if is_named (codes "address") name
    then inr (record r { address = v }, e)
    else if is_named (codes "topics") name
    then topics_field v (r, e)
    else inr (r, e)

unfoldable pub unmarshal_log_parameter : Json → Text ⊎ EthLogSubscriptionParameter
unfolding unmarshal_struct log_parameter_member
unmarshal_log_parameter v =
    unmarshal_struct (codes "eth.EthLogSubscriptionParameter") log_parameter_member
      (record { address = Json.null; topics = none }) v

abbrev pub with_parameter : Text → Text ⊎ EthLogSubscriptionParameter → Decoded
with_parameter method (inl e) = Decoded.failed e
with_parameter method (inr p) = Decoded.decoded (record { method = method; params = some p })

-- The second parameter is printed and decoded again.
unfoldable pub with_params : (Json → Json) → Text → List Json → Decoded
unfolding unmarshal_log_parameter
with_params reprint method [] = Decoded.decoded (record { method = method; params = none })
with_params reprint method (v ∷ vs) = with_parameter method (unmarshal_log_parameter (reprint v))

-- The first parameter is read with no look at how many there are.
unfoldable pub subscription_params : (Json → Json) → List Json → Decoded
unfolding string_at with_params
subscription_params reprint [] = Decoded.panics
subscription_params reprint (v ∷ vs) = elim (string_at 1 v) [
  | inl e ↦ Decoded.failed e
  | inr method ↦ with_params reprint method vs
]

-- `UnmarshalJSON`
unfoldable pub unmarshal_subscription : (Json → Json) → Json → Decoded
unfolding unmarshal_slice subscription_params
unmarshal_subscription reprint v = elim (wrapped data_note (unmarshal_slice interfaces v)) [
  | inl e ↦ Decoded.failed e
  | inr vs ↦ subscription_params reprint vs
]

abbrev pub topics_value : Option (List Json) → Json
topics_value none = Json.null
topics_value (some vs) = Json.array (jsons vs)

-- `EthLogSubscriptionParameter` as `json.Marshal` prints it.
abbrev pub marshal_log_parameter : EthLogSubscriptionParameter → Json
marshal_log_parameter p = Json.object (
    Members.member (codes "address") p.address
      (Members.member (codes "topics") (topics_value p.topics) Members.end))

abbrev pub params_values : Option EthLogSubscriptionParameter → List Json
params_values none = []
params_values (some p) = marshal_log_parameter p ∷ []

-- `MarshalJSON`
unfoldable pub marshal_subscription : EthSubscriptionRequest → Json
marshal_subscription r = Json.array (jsons (Json.string r.method ∷ params_values r.params))

abbrev log_parameter : Json → Option (List Json) → EthLogSubscriptionParameter
log_parameter a ts = record { address = a; topics = ts }

unmarshal-marshal_log_parameter :
    (a : Json) (ts : Option (List Json))
    → unmarshal_log_parameter (marshal_log_parameter (log_parameter a ts))
      ≡ inr (log_parameter a ts)
unfolding unmarshal_log_parameter to_lower lower_byte text_eq
unmarshal-marshal_log_parameter a none = refl
unmarshal-marshal_log_parameter a (some vs) =
    ap (λ ts. inr (log_parameter a (some ts))) (elements-jsons vs)

with_params-known :
    (reprint : Json → Json) (m : Text) (v : Json) (p : EthLogSubscriptionParameter)
    → reprint v ≡ v
    → unmarshal_log_parameter v ≡ inr p
    → with_params reprint m (v ∷ []) ≡ Decoded.decoded (record { method = m; params = some p })
unfolding with_params
with_params-known reprint m v p h k = ap (with_parameter m) (ap unmarshal_log_parameter h ∙ k)

-- A request that is encoded and decoded is the same again, where what is printed of it stays as it
-- is when its decoded values are printed.
pub unmarshal-marshal_subscription :
    (reprint : Json → Json) (r : EthSubscriptionRequest)
    → ((p : EthLogSubscriptionParameter)
        → r.params ≡ some p
        → reprint (marshal_log_parameter p) ≡ marshal_log_parameter p)
    → unmarshal_subscription reprint (marshal_subscription r) ≡ Decoded.decoded r
unfolding unmarshal_subscription marshal_subscription
unmarshal-marshal_subscription reprint r h = of_parts r.params h
  where
    of_parts :
        (o : Option EthLogSubscriptionParameter)
        → ((p : EthLogSubscriptionParameter)
            → o ≡ some p
            → reprint (marshal_log_parameter p) ≡ marshal_log_parameter p)
        → let r' : EthSubscriptionRequest = record { method = r.method; params = o } in
          unmarshal_subscription reprint (marshal_subscription r') ≡ Decoded.decoded r'
    of_parts none k = refl
    of_parts (some p) k =
        with_params-known reprint r.method (marshal_log_parameter p) p (k p refl)
          (unmarshal-marshal_log_parameter p.address p.topics)
