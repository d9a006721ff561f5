-- ===== src/Logs/Topics.antt =====
-- pkg/eth/util.go, `TranslateTopics`, and `NewSearchLogsTopics` of pkg/revo/rpc_types.go.
use charon.Prelude.{
  ◌≡◌, refl, sym, ap, ◌∙◌, append-nil, inl, inr, Option-cases, Option, none, some, List, [], ◌∷◌,
  ◌++◌, append_assoc, Text, map,
}
use mathlib.Core.Path.{ap₂}
use mathlib.Core.Option
use charon.Logs.{SearchLogsTopic}
use charon.Hex.Prefix.{remove_hex_prefix}

-- An entry of a `[]interface{}` that stands for a list of alternatives.
pub data Alternative : Type 0 where
  text : Text → Alternative
  other_value : Alternative

-- An entry of the topics of a request: the cases of the type switch, and any other type.
pub data EthTopic : Type 0 where
  strings : List Text → EthTopic
  string : Text → EthTopic
  null : EthTopic
  items : List Alternative → EthTopic
  other_topic : EthTopic

unfoldable pub translate_strings : List Text → List Text → List Text
translate_strings out [] = out
translate_strings out (t ∷ ts) = translate_strings (out ++ (remove_hex_prefix t ∷ [])) ts

-- `none` is `ErrInvalidTopics`.
unfoldable pub translate_items : List Text → List Alternative → Option (List Text)
translate_items out [] = some out
translate_items out (Alternative.text t ∷ ts) =
    translate_items (out ++ (remove_hex_prefix t ∷ [])) ts
translate_items out (Alternative.other_value ∷ ts) = none

-- The loop over the topics; a topic of another type adds nothing.
unfoldable pub translate_from : List (List Text) → List EthTopic → Option (List (List Text))
translate_from out [] = some out
translate_from out (EthTopic.strings ts ∷ rest) =
    translate_from (out ++ (translate_strings [] ts ∷ [])) rest
translate_from out (EthTopic.string t ∷ rest) =
    translate_from (out ++ ((remove_hex_prefix t ∷ []) ∷ [])) rest
translate_from out (EthTopic.null ∷ rest) = translate_from (out ++ ([] ∷ [])) rest
translate_from out (EthTopic.items ts ∷ rest) = elim (translate_items [] ts) [
  | none ↦ none
  | some ss ↦ translate_from (out ++ (ss ∷ [])) rest
]
translate_from out (EthTopic.other_topic ∷ rest) = translate_from out rest

unfoldable pub translate_topics : List EthTopic → Option (List (List Text))
translate_topics topics = translate_from [] topics

-- `NewSearchLogsTopic` and `NewSearchLogsTopics`: copies.
unfoldable pub new_search_logs_topic : List Text → List Text → SearchLogsTopic
new_search_logs_topic result [] = result
new_search_logs_topic result (t ∷ ts) = new_search_logs_topic (result ++ (t ∷ [])) ts

unfoldable pub new_search_logs_topics : List (List Text) → List SearchLogsTopic
new_search_logs_topics topics = map (new_search_logs_topic []) topics

abbrev prepend {ℓ} : {A : Type ℓ} → A → Option (List A) → Option (List A)
prepend x none = none
prepend x (some l) = some (x ∷ l)

-- What one topic of a request means: the alternatives for its position; `none` if
-- one of them is no text.
abbrev pub alternatives : List Alternative → Option (List Text)
alternatives [] = some []
alternatives (Alternative.text t ∷ ts) = elim (alternatives ts) [
  | none ↦ none
  | some ss ↦ some (remove_hex_prefix t ∷ ss)
]
alternatives (Alternative.other_value ∷ ts) = none

abbrev listed : Option (List Text) → Option (List SearchLogsTopic) → Option (List SearchLogsTopic)
listed none rest = none
listed (some ss) rest = prepend ss rest

-- One topic in front of the meaning of the rest; `none` if it is refused.
abbrev pub meaning_then : EthTopic → Option (List SearchLogsTopic) → Option (List SearchLogsTopic)
meaning_then (EthTopic.strings ts) rest = prepend (map remove_hex_prefix ts) rest
meaning_then (EthTopic.string t) rest = prepend (remove_hex_prefix t ∷ []) rest
meaning_then EthTopic.null rest = prepend [] rest
meaning_then (EthTopic.items ts) rest = listed (alternatives ts) rest
meaning_then EthTopic.other_topic rest = rest

-- The topics of a request, one after the other.
abbrev pub meanings : List EthTopic → Option (List SearchLogsTopic)
meanings [] = some []
meanings (t ∷ ts) = meaning_then t (meanings ts)

-- An accumulator in front.
abbrev behind {ℓ} : {A : Type ℓ} → List A → Option (List A) → Option (List A)
behind out none = none
behind out (some l) = some (out ++ l)

behind-prepend {ℓ} :
    {A : Type ℓ} (out : List A) (x : A) (o : Option (List A))
    → behind (out ++ (x ∷ [])) o ≡ behind out (prepend x o)
behind-prepend out x none = refl
behind-prepend out x (some l) = ap some (append_assoc out (x ∷ []) l)

behind-nil {ℓ} : {A : Type ℓ} (o : Option (List A)) → behind [] o ≡ o
behind-nil none = refl
behind-nil (some l) = refl

translate_strings_lem :
    (out ts : List Text) → translate_strings out ts ≡ out ++ map remove_hex_prefix ts
unfolding translate_strings
translate_strings_lem out [] = sym (append-nil out)
translate_strings_lem out (t ∷ ts) =
    translate_strings_lem (out ++ (remove_hex_prefix t ∷ [])) ts
    ∙ append_assoc out (remove_hex_prefix t ∷ []) (map remove_hex_prefix ts)

translate_items_lem :
    (out : List Text) (ts : List Alternative)
    → translate_items out ts ≡ behind out (alternatives ts)
unfolding translate_items
translate_items_lem out [] = ap some (sym (append-nil out))
translate_items_lem out (Alternative.text t ∷ ts) =
    translate_items_lem (out ++ (remove_hex_prefix t ∷ [])) ts
    ∙ behind-prepend out (remove_hex_prefix t) (alternatives ts)
translate_items_lem out (Alternative.other_value ∷ ts) = refl

translate_from_lem :
    (out : List (List Text)) (ts : List EthTopic) → translate_from out ts ≡ behind out (meanings ts)
unfolding translate_from
translate_from_lem out [] = ap some (sym (append-nil out))
translate_from_lem out (EthTopic.strings ss ∷ ts) =
    ap (λ l. translate_from (out ++ (l ∷ [])) ts) (translate_strings_lem [] ss)
    ∙ translate_from_lem (out ++ (map remove_hex_prefix ss ∷ [])) ts
    ∙ behind-prepend out (map remove_hex_prefix ss) (meanings ts)
translate_from_lem out (EthTopic.string t ∷ ts) =
    translate_from_lem (out ++ ((remove_hex_prefix t ∷ []) ∷ [])) ts
    ∙ behind-prepend out (remove_hex_prefix t ∷ []) (meanings ts)
translate_from_lem out (EthTopic.null ∷ ts) =
    translate_from_lem (out ++ ([] ∷ [])) ts ∙ behind-prepend out [] (meanings ts)
translate_from_lem out (EthTopic.items is ∷ ts) = elim (Option-cases (alternatives is)) [
  | inl e ↦ rw (translate_items_lem [] is ∙ ap (behind []) e, translate_from, e, listed)
  | inr w ↦
      rw (translate_items_lem [] is ∙ ap (behind []) w.1, translate_from, w.1, listed)
        (translate_from_lem (out ++ (w.0 ∷ [])) ts ∙ behind-prepend out w.0 (meanings ts))
]
translate_from_lem out (EthTopic.other_topic ∷ ts) = translate_from_lem out ts

new_search_logs_topic_lem : (out ts : List Text) → new_search_logs_topic out ts ≡ out ++ ts
unfolding new_search_logs_topic
new_search_logs_topic_lem out [] = sym (append-nil out)
new_search_logs_topic_lem out (t ∷ ts) =
    new_search_logs_topic_lem (out ++ (t ∷ [])) ts ∙ append_assoc out (t ∷ []) ts

pub new_search_logs_topics_lem :
    (topics : List (List Text)) → new_search_logs_topics topics ≡ topics
unfolding new_search_logs_topics
new_search_logs_topics_lem [] = refl
new_search_logs_topics_lem (t ∷ ts) =
    ap₂ ◌∷◌ (new_search_logs_topic_lem [] t) (new_search_logs_topics_lem ts)

copies : (o : Option (List (List Text))) → Option.map new_search_logs_topics o ≡ o
copies none = refl
copies (some l) = ap some (new_search_logs_topics_lem l)

-- For every list of topics of a request: translating it and copying the result for the node gives
-- the topics one after the other, each with its alternatives in order and without `0x`, null as
-- no alternatives and a topic of another type left out; it is refused exactly if a topic is a
-- list with an entry that is no text.
pub translate_topics_lem :
    (ts : List EthTopic) → Option.map new_search_logs_topics (translate_topics ts) ≡ meanings ts
unfolding translate_topics
translate_topics_lem ts =
    ap (Option.map new_search_logs_topics) (translate_from_lem [] ts ∙ behind-nil (meanings ts))
    ∙ copies (meanings ts)
