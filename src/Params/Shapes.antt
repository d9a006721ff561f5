-- ===== src/Params/Shapes.antt =====
-- The shapes that the parameters of a request may have, declared and tested.
use charon.Prelude.{
  ◌≡◌, ◌↔◌, refl, Bool, true, false, ◌&&◌, none, some, List, [], ◌∷◌, Text, has_prefix,
}
use charon.Hex.Prefix.{hex_prefix, remove_hex_prefix}
use charon.Hex.Digits.{decode_string}
use charon.Params.{Json, Jsons, elements}

-- `message` is a text that is hexadecimal if it has the prefix.
pub data ParamType : Type 0 where
  anything text flag nullable_text message : ParamType

abbrev pub is_message : Text → Bool
is_message s = elim (has_prefix s hex_prefix) [
  | false ↦ true
  | true ↦ elim (decode_string (remove_hex_prefix s)) [ none ↦ false | some _ ↦ true ]
]

pub data HasType : ParamType → Json → Type 0 where
  any_value : (v : Json) → HasType ParamType.anything v
  a_text : (s : Text) → HasType ParamType.text (Json.string s)
  a_flag : (b : Bool) → HasType ParamType.flag (Json.bool b)
  no_text : HasType ParamType.nullable_text Json.null
  some_text : (s : Text) → HasType ParamType.nullable_text (Json.string s)
  a_message : (s : Text) → is_message s ≡ true → HasType ParamType.message (Json.string s)

-- The parameters of a method: none more, any number of one type, one that must be given, or one
-- that may be left out with all behind it.
pub data Signature : Type 0 where
  end : Signature
  rest : ParamType → Signature
  next : ParamType → Signature → Signature
  optional : ParamType → Signature → Signature

pub data HasTypes : Signature → List Json → Type 0 where
  end_nil : HasTypes Signature.end []
  rest_nil : {t : ParamType} → HasTypes (Signature.rest t) []
  rest_cons :
      {t : ParamType} {v : Json} {vs : List Json}
      → HasType t v
      → HasTypes (Signature.rest t) vs
      → HasTypes (Signature.rest t) (v ∷ vs)
  next_cons :
      {t : ParamType} {s : Signature} {v : Json} {vs : List Json}
      → HasType t v
      → HasTypes s vs
      → HasTypes (Signature.next t s) (v ∷ vs)
  optional_nil : {t : ParamType} {s : Signature} → HasTypes (Signature.optional t s) []
  optional_cons :
      {t : ParamType} {s : Signature} {v : Json} {vs : List Json}
      → HasType t v
      → HasTypes s vs
      → HasTypes (Signature.optional t s) (v ∷ vs)

-- The parameters are an array, and `null` counts as an empty one.
pub data IsTyped : Signature → Json → Type 0 where
  as_null : {s : Signature} → HasTypes s [] → IsTyped s Json.null
  as_array : {s : Signature} {vs : Jsons} → HasTypes s (elements vs) → IsTyped s (Json.array vs)

-- The tests.
abbrev pub fits : ParamType → Json → Bool
fits ParamType.anything v = true
fits ParamType.text (Json.string s) = true
fits ParamType.text _ = false
fits ParamType.flag (Json.bool b) = true
fits ParamType.flag _ = false
fits ParamType.nullable_text Json.null = true
fits ParamType.nullable_text (Json.string s) = true
fits ParamType.nullable_text _ = false
fits ParamType.message (Json.string s) = is_message s
fits ParamType.message _ = false

abbrev pub has_types : Signature → List Json → Bool
has_types Signature.end [] = true
has_types Signature.end (v ∷ vs) = false
has_types (Signature.rest t) [] = true
has_types (Signature.rest t) (v ∷ vs) = fits t v && has_types (Signature.rest t) vs
has_types (Signature.next t s) [] = false
has_types (Signature.next t s) (v ∷ vs) = fits t v && has_types s vs
has_types (Signature.optional t s) [] = true
has_types (Signature.optional t s) (v ∷ vs) = fits t v && has_types s vs

abbrev pub is_typed : Signature → Json → Bool
is_typed s Json.null = has_types s []
is_typed s (Json.array vs) = has_types s (elements vs)
is_typed s _ = false

fits-HasType : (t : ParamType) (v : Json) → fits t v ≡ true → HasType t v
fits-HasType ParamType.anything v h = HasType.any_value v
fits-HasType ParamType.text (Json.string s) h = HasType.a_text s
fits-HasType ParamType.text Json.null h = cc
fits-HasType ParamType.text (Json.bool _) h = cc
fits-HasType ParamType.text (Json.number _) h = cc
fits-HasType ParamType.text (Json.array _) h = cc
fits-HasType ParamType.text (Json.object _) h = cc
fits-HasType ParamType.flag (Json.bool b) h = HasType.a_flag b
fits-HasType ParamType.flag Json.null h = cc
fits-HasType ParamType.flag (Json.number _) h = cc
fits-HasType ParamType.flag (Json.string _) h = cc
fits-HasType ParamType.flag (Json.array _) h = cc
fits-HasType ParamType.flag (Json.object _) h = cc
fits-HasType ParamType.nullable_text Json.null h = HasType.no_text
fits-HasType ParamType.nullable_text (Json.string s) h = HasType.some_text s
fits-HasType ParamType.nullable_text (Json.bool _) h = cc
fits-HasType ParamType.nullable_text (Json.number _) h = cc
fits-HasType ParamType.nullable_text (Json.array _) h = cc
fits-HasType ParamType.nullable_text (Json.object _) h = cc
fits-HasType ParamType.message (Json.string s) h = HasType.a_message s h
fits-HasType ParamType.message Json.null h = cc
fits-HasType ParamType.message (Json.bool _) h = cc
fits-HasType ParamType.message (Json.number _) h = cc
fits-HasType ParamType.message (Json.array _) h = cc
fits-HasType ParamType.message (Json.object _) h = cc

HasType-fits : {t : ParamType} {v : Json} → HasType t v → fits t v ≡ true
HasType-fits (HasType.any_value v) = refl
HasType-fits (HasType.a_text s) = refl
HasType-fits (HasType.a_flag b) = refl
HasType-fits HasType.no_text = refl
HasType-fits (HasType.some_text s) = refl
HasType-fits (HasType.a_message s h) = h

both : (a b : Bool) → a && b ≡ true → (a ≡ true) × (b ≡ true)
both true true h = (refl, refl)
both true false h = cc
both false b h = cc

has_types-HasTypes : (s : Signature) (vs : List Json) → has_types s vs ≡ true → HasTypes s vs
has_types-HasTypes Signature.end [] h = HasTypes.end_nil
has_types-HasTypes Signature.end (v ∷ vs) h = cc
has_types-HasTypes (Signature.rest t) [] h = HasTypes.rest_nil
has_types-HasTypes (Signature.rest t) (v ∷ vs) h =
    let (a, b) = both (fits t v) (has_types (Signature.rest t) vs) h in
    HasTypes.rest_cons (fits-HasType t v a) (has_types-HasTypes (Signature.rest t) vs b)
has_types-HasTypes (Signature.next t s) [] h = cc
has_types-HasTypes (Signature.next t s) (v ∷ vs) h =
    let (a, b) = both (fits t v) (has_types s vs) h in
    HasTypes.next_cons (fits-HasType t v a) (has_types-HasTypes s vs b)
has_types-HasTypes (Signature.optional t s) [] h = HasTypes.optional_nil
has_types-HasTypes (Signature.optional t s) (v ∷ vs) h =
    let (a, b) = both (fits t v) (has_types s vs) h in
    HasTypes.optional_cons (fits-HasType t v a) (has_types-HasTypes s vs b)

HasTypes-has_types : {s : Signature} {vs : List Json} → HasTypes s vs → has_types s vs ≡ true
HasTypes-has_types HasTypes.end_nil = refl
HasTypes-has_types HasTypes.rest_nil = refl
HasTypes-has_types (HasTypes.rest_cons a b) = rw (HasType-fits a) (HasTypes-has_types b)
HasTypes-has_types (HasTypes.next_cons a b) = rw (HasType-fits a) (HasTypes-has_types b)
HasTypes-has_types HasTypes.optional_nil = refl
HasTypes-has_types (HasTypes.optional_cons a b) = rw (HasType-fits a) (HasTypes-has_types b)

pub is_typed_iff : (s : Signature) (v : Json) → (is_typed s v ≡ true) ↔ IsTyped s v
is_typed_iff s v = (sound v, complete)
  where
    sound : (w : Json) → is_typed s w ≡ true → IsTyped s w
    sound Json.null h = IsTyped.as_null (has_types-HasTypes s [] h)
    sound (Json.array vs) h = IsTyped.as_array (has_types-HasTypes s (elements vs) h)
    sound (Json.bool _) h = cc
    sound (Json.number _) h = cc
    sound (Json.string _) h = cc
    sound (Json.object _) h = cc

    complete : {w : Json} → IsTyped s w → is_typed s w ≡ true
    complete (IsTyped.as_null h) = HasTypes-has_types h
    complete (IsTyped.as_array h) = HasTypes-has_types h
