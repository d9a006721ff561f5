-- ===== src/Params/Steps.antt =====
-- When a step of a decoder succeeds.
use charon.Prelude.{
  ℕ, ◌≡◌, refl, sym, ◌∙◌, ◌⊎◌, inl, inr, Bool, true, false, ◌&&◌, List, [], ◌∷◌, Text, Option-cases,
  Bool-cases, has_prefix,
}
use charon.Hex.Prefix.{hex_prefix, remove_hex_prefix}
use charon.Hex.Digits.{decode_string}
use charon.Params.{
  ◌>>=◌, Json, succeeds, unmarshal_string, unmarshal_texts, unmarshal_strings, unmarshal_slice,
  string_at, bool_at, elements,
}
use charon.Params.Positional.{wrapped, message_bytes, message_at, account_at, transaction_hash_at}
use charon.Params.Optional.{text_or_empty}
use charon.Params.Shapes.{
  text, flag, nullable_text, message, anything, Signature, next, optional, rest, fits, has_types,
  is_typed, is_message,
}

-- A step succeeds if its parts do.
pub succeeds->>= {ℓ ℓ'} :
    {A : Type ℓ} {B : Type ℓ'} (r : Text ⊎ A) (f : A → Text ⊎ B) (b c : Bool)
    → succeeds r ≡ b
    → ((a : A) → succeeds (f a) ≡ c)
    → succeeds (r >>= f) ≡ b && c
succeeds->>= (inl e) f b c h k = rw (sym h) refl
succeeds->>= (inr a) f b c h k = rw (sym h) (k a)

pub succeeds-string_at : (i : ℕ) (v : Json) → succeeds (string_at i v) ≡ fits text v
unfolding string_at
succeeds-string_at i (Json.string s) = refl
succeeds-string_at i Json.null = refl
succeeds-string_at i (Json.bool _) = refl
succeeds-string_at i (Json.number _) = refl
succeeds-string_at i (Json.array _) = refl
succeeds-string_at i (Json.object _) = refl

pub succeeds-bool_at : (i : ℕ) (v : Json) → succeeds (bool_at i v) ≡ fits flag v
unfolding bool_at
succeeds-bool_at i (Json.bool _) = refl
succeeds-bool_at i Json.null = refl
succeeds-bool_at i (Json.string s) = refl
succeeds-bool_at i (Json.number _) = refl
succeeds-bool_at i (Json.array _) = refl
succeeds-bool_at i (Json.object _) = refl

pub succeeds-unmarshal_string : (v : Json) → succeeds (unmarshal_string v) ≡ fits nullable_text v
unfolding unmarshal_string
succeeds-unmarshal_string (Json.string s) = refl
succeeds-unmarshal_string Json.null = refl
succeeds-unmarshal_string (Json.bool _) = refl
succeeds-unmarshal_string (Json.number _) = refl
succeeds-unmarshal_string (Json.array _) = refl
succeeds-unmarshal_string (Json.object _) = refl

pub succeeds-last {ℓ ℓ'} :
    {A : Type ℓ} {B : Type ℓ'} (r : Text ⊎ A) (f : A → B) (b : Bool)
    → succeeds r ≡ b
    → succeeds (r >>= λ a. inr (f a)) ≡ b
succeeds-last (inl e) f b h = h
succeeds-last (inr a) f b h = h

pub succeeds-unmarshal_texts :
    (vs : List Json) → succeeds (unmarshal_texts vs) ≡ has_types (rest nullable_text) vs
unfolding unmarshal_texts
succeeds-unmarshal_texts [] = refl
succeeds-unmarshal_texts (v ∷ vs) =
    succeeds->>= (unmarshal_string v) _ _ _ (succeeds-unmarshal_string v)
      (λ s. succeeds-last (unmarshal_texts vs) _ _ (succeeds-unmarshal_texts vs))

pub succeeds-wrapped :
    {A B : Type 0} (note : Text) (r : Text ⊎ A) (f : A → Text ⊎ B)
    → succeeds (wrapped note r >>= f) ≡ succeeds (r >>= f)
succeeds-wrapped note (inl e) f = refl
succeeds-wrapped note (inr a) f = refl

-- A decoder of the elements makes one of the whole.
module _ {A : Type 0} (s : Signature) (p : List Json → Text ⊎ A) where
  pub slice_typed :
      (type : Text) (v : Json)
      → ((vs : List Json) → succeeds (p vs) ≡ has_types s vs)
      → succeeds (unmarshal_slice type v >>= p) ≡ is_typed s v
  unfolding unmarshal_slice
  slice_typed type Json.null h = h []
  slice_typed type (Json.array vs) h = h (elements vs)
  slice_typed type (Json.bool _) h = refl
  slice_typed type (Json.number _) h = refl
  slice_typed type (Json.string _) h = refl
  slice_typed type (Json.object _) h = refl

  pub wrapped_typed :
      (note type : Text) (v : Json)
      → ((vs : List Json) → succeeds (p vs) ≡ has_types s vs)
      → succeeds (wrapped note (unmarshal_slice type v) >>= p) ≡ is_typed s v
  wrapped_typed note type v h =
      succeeds-wrapped note (unmarshal_slice type v) p ∙ slice_typed type v h

pub some_texts :
    {A : Type 0} (q : List Text → Text ⊎ A) (vs : List Json)
    → succeeds (q []) ≡ false
    → ((s : Text) (ss : List Text) → succeeds (q (s ∷ ss)) ≡ true)
    → succeeds (unmarshal_texts vs >>= q) ≡ has_types (next nullable_text (rest nullable_text)) vs
unfolding unmarshal_texts
some_texts q [] none_ more = none_
some_texts q (v ∷ vs) none_ more =
    after (unmarshal_string v) (unmarshal_texts vs) (succeeds-unmarshal_string v)
      (succeeds-unmarshal_texts vs)
  where
    after :
        (r : Text ⊎ Text) (rs : Text ⊎ List Text) {b c : Bool}
        → succeeds r ≡ b
        → succeeds rs ≡ c
        → succeeds ((do s ← r; ss ← rs; inr (s ∷ ss)) >>= q) ≡ b && c
    after (inl e) rs h k = rw (sym h) refl
    after (inr s) (inl e) h k = rw (sym h, sym k) refl
    after (inr s) (inr ss) h k = rw (sym h, sym k) (more s ss)

-- At least one text.
pub texts_typed :
    {A : Type 0} (q : List Text → Text ⊎ A) (note : Text) (v : Json)
    → succeeds (q []) ≡ false
    → ((s : Text) (ss : List Text) → succeeds (q (s ∷ ss)) ≡ true)
    → succeeds (wrapped note (unmarshal_strings v) >>= q)
      ≡ is_typed (next nullable_text (rest nullable_text)) v
unfolding unmarshal_strings unmarshal_slice
texts_typed q note Json.null none_ more = none_
texts_typed q note (Json.array vs) none_ more =
    succeeds-wrapped note (unmarshal_texts (elements vs)) q ∙ some_texts q (elements vs) none_ more
texts_typed q note (Json.bool _) none_ more = refl
texts_typed q note (Json.number _) none_ more = refl
texts_typed q note (Json.string _) none_ more = refl
texts_typed q note (Json.object _) none_ more = refl

pub false_behind : (b : Bool) → false ≡ b && false
false_behind true = refl
false_behind false = refl

pub false_behind_two : (b c : Bool) → false ≡ b && (c && false)
false_behind_two true c = false_behind c
false_behind_two false c = refl

pub true_behind : (b : Bool) → b ≡ b && true
true_behind true = refl
true_behind false = refl

pub rest_anything : (vs : List Json) → has_types (rest anything) vs ≡ true
rest_anything [] = refl
rest_anything (v ∷ vs) = rest_anything vs

pub succeeds-account_at : (v : Json) → succeeds (account_at v) ≡ fits text v
unfolding account_at
succeeds-account_at (Json.string s) = refl
succeeds-account_at Json.null = refl
succeeds-account_at (Json.bool _) = refl
succeeds-account_at (Json.number _) = refl
succeeds-account_at (Json.array _) = refl
succeeds-account_at (Json.object _) = refl

pub succeeds-message_bytes :
    (hex_error : Text → Text) (s : Text) → succeeds (message_bytes hex_error s) ≡ is_message s
unfolding message_bytes has_prefix
succeeds-message_bytes hex_error s = elim (Bool-cases (has_prefix s hex_prefix)) [
  | inl e ↦ elim (Option-cases (decode_string (remove_hex_prefix s))) [
    | inl d ↦ rw (e, d) refl
    | inr (m, d) ↦ rw (e, d) refl
  ]
  | inr e ↦ rw e refl
]

pub succeeds-message_at :
    (hex_error : Text → Text) (v : Json) → succeeds (message_at hex_error v) ≡ fits message v
unfolding message_at
succeeds-message_at hex_error (Json.string s) = succeeds-message_bytes hex_error s
succeeds-message_at hex_error Json.null = refl
succeeds-message_at hex_error (Json.bool _) = refl
succeeds-message_at hex_error (Json.number _) = refl
succeeds-message_at hex_error (Json.array _) = refl
succeeds-message_at hex_error (Json.object _) = refl

pub succeeds-transaction_hash_at : (v : Json) → succeeds (transaction_hash_at v) ≡ fits text v
unfolding transaction_hash_at
succeeds-transaction_hash_at (Json.string s) = refl
succeeds-transaction_hash_at Json.null = refl
succeeds-transaction_hash_at (Json.bool _) = refl
succeeds-transaction_hash_at (Json.number _) = refl
succeeds-transaction_hash_at (Json.array _) = refl
succeeds-transaction_hash_at (Json.object _) = refl

-- The two steps behind one another.
pub pair_typed :
    {A B C : Type 0} (r : Text ⊎ A) (q : Text ⊎ B) (f : A → B → C) (b c d : Bool)
    → succeeds r ≡ b
    → succeeds q ≡ c
    → d ≡ true
    → succeeds (do x ← r; y ← q; inr (f x y)) ≡ b && (c && d)
pair_typed (inl e) q f b c d h k l = rw (sym h) refl
pair_typed (inr x) (inl e) f b c d h k l = rw (sym h, sym k) refl
pair_typed (inr x) (inr y) f b c d h k l = rw (sym h, sym k, l) refl

-- An element that may be left out, and what is done with those behind it.
pub optional_typed :
    {A : Type 0} (s : Signature) (f : Text × List Json → Text ⊎ A) (vs : List Json)
    → ((t : Text) (ws : List Json) → succeeds (f (t, ws)) ≡ has_types s ws)
    → has_types s [] ≡ true
    → succeeds (text_or_empty vs >>= f) ≡ has_types (optional nullable_text s) vs
unfolding text_or_empty
optional_typed s f [] h k = h [] [] ∙ k
optional_typed s f (v ∷ vs) h k = after (unmarshal_string v) (succeeds-unmarshal_string v)
  where
    after :
        (r : Text ⊎ Text) {b : Bool}
        → succeeds r ≡ b
        → succeeds ((do t ← r; inr (t, vs)) >>= f) ≡ b && has_types s vs
    after (inl e) g = rw (sym g) refl
    after (inr t) g = rw (sym g) (h t vs)
