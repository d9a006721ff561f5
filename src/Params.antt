-- ===== src/Params.antt =====
-- The JSON that a client sends, and what Go's encoding/json and the helpers of
-- pkg/eth/rpc_types.go make of it.
pub mod Shapes
pub mod Positional
pub mod Optional
pub mod Kinds
pub mod Steps
pub mod Types
pub mod Objects
pub mod Subscription
use charon.Prelude.{
  ℕ, ◌≡◌, refl, ap, ◌⊎◌, inl, inr, Bool, true, false, List, [], ◌∷◌, ◌++◌, Text, codes, pos,
}
use charon.Amounts.{big_string}

-- A value of JSON. A number is the literal that Go prints for the float64 that it denotes.
mutual
  pub data Json : Type 0 where
    null : Json
    bool : Bool → Json
    number : Text → Json
    string : Text → Json
    array : Jsons → Json
    object : Members → Json

  pub data Jsons : Type 0 where
    nil : Jsons
    cons : Json → Jsons → Jsons

  pub data Members : Type 0 where
    end : Members
    member : Text → Json → Members → Members

abbrev pub elements : Jsons → List Json
elements Jsons.nil = []
elements (Jsons.cons v vs) = v ∷ elements vs

abbrev pub jsons : List Json → Jsons
jsons [] = Jsons.nil
jsons (v ∷ vs) = Jsons.cons v (jsons vs)

pub elements-jsons : (vs : List Json) → elements (jsons vs) ≡ vs
elements-jsons [] = refl
elements-jsons (v ∷ vs) = ap (◌∷◌ v) (elements-jsons vs)

infixl 5 ◌>>=◌
abbrev pub ◌>>=◌ {ℓ ℓ'} : {A : Type ℓ} {B : Type ℓ'} → Text ⊎ A → (A → Text ⊎ B) → Text ⊎ B
inl e >>= f = inl e
inr a >>= f = f a

abbrev pub succeeds {ℓ} : {A : Type ℓ} → Text ⊎ A → Bool
succeeds (inl _) = false
succeeds (inr _) = true

-- The kind of a value, as the errors of encoding/json name it.
abbrev pub kind : Json → Text
kind Json.null = codes "null"
kind (Json.bool _) = codes "bool"
kind (Json.number _) = codes "number"
kind (Json.string _) = codes "string"
kind (Json.array _) = codes "array"
kind (Json.object _) = codes "object"

-- `UnmarshalTypeError`
abbrev pub cannot_unmarshal : Json → Text → Text
cannot_unmarshal v type =
    codes "json: cannot unmarshal " ++ (kind v ++ (codes " into Go value of type " ++ type))

-- `json.Unmarshal` into a slice whose elements take every value.
unfoldable pub unmarshal_slice : Text → Json → Text ⊎ List Json
unmarshal_slice type Json.null = inr []
unmarshal_slice type (Json.array vs) = inr (elements vs)
unmarshal_slice type v = inl (cannot_unmarshal v type)

abbrev pub interfaces : Text
interfaces = codes "[]interface {}"

abbrev pub raw_messages : Text
raw_messages = codes "[]json.RawMessage"

-- `json.Unmarshal` into a string that is empty, which `null` leaves as it is.
unfoldable pub unmarshal_string : Json → Text ⊎ Text
unmarshal_string Json.null = inr []
unmarshal_string (Json.string s) = inr s
unmarshal_string v = inl (cannot_unmarshal v (codes "string"))

-- All the elements are decoded, and the first error is the one returned.
unfoldable pub unmarshal_texts : List Json → Text ⊎ List Text
unfolding unmarshal_string
unmarshal_texts [] = inr []
unmarshal_texts (v ∷ vs) = do s ← unmarshal_string v; ss ← unmarshal_texts vs; inr (s ∷ ss)

-- `json.Unmarshal` into a `[]string`.
unfoldable pub unmarshal_strings : Json → Text ⊎ List Text
unfolding unmarshal_slice unmarshal_texts
unmarshal_strings v = unmarshal_slice (codes "[]string") v >>= unmarshal_texts

-- The type of a decoded value, as `%T` prints it.
abbrev pub go_type : Json → Text
go_type Json.null = codes "<nil>"
go_type (Json.bool _) = codes "bool"
go_type (Json.number _) = codes "float64"
go_type (Json.string _) = codes "string"
go_type (Json.array _) = interfaces
go_type (Json.object _) = codes "map[string]interface {}"

-- `newErrInvalidParameterType`, where the type wanted is given by its name.
abbrev pub new_err_invalid_parameter_type : ℕ → Json → Text → Text
new_err_invalid_parameter_type idx got wanted =
    codes "invalid "
    ++ (big_string (pos idx)
        ++ (codes " parameter of "
            ++ (go_type got ++ (codes " type, but " ++ (wanted ++ codes " type is expected")))))

-- `params[i].(string)` and `params[i].(bool)` with the error where the value is another.
unfoldable pub string_at : ℕ → Json → Text ⊎ Text
string_at idx (Json.string s) = inr s
string_at idx v = inl (new_err_invalid_parameter_type idx v (codes "string"))

unfoldable pub bool_at : ℕ → Json → Text ⊎ Bool
bool_at idx (Json.bool b) = inr b
bool_at idx v = inl (new_err_invalid_parameter_type idx v (codes "bool"))
