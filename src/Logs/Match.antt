-- ===== src/Logs/Match.antt =====
-- pkg/conversion/util.go, `DoFiltersMatch`, against what a filter for positions means.
use charon.Prelude.{
  ℕ, zero, suc, ◌+◌, ◌≡◌, ◌↔◌, ◌⊎◌, refl, sym, ap, ◌∙◌, inl, inr, Bool, true, false, none, some,
  List, [], ◌∷◌, arith, Text, get_elem?, length, text_eq, text_eq_iff, to_lower, if◌then◌else◌,
  Bool-cases, Option-cases, get_elem?-none_beyond, get_elem?-append, ◌≤◌, ◌++◌,
}
use native.Mathlib.Nat.{add-zero, add-suc, suc-add, zero-add}
use charon.Logs.{SearchLogsTopic}

-- `strings.ToLower(a) == strings.ToLower(b)`
unfoldable pub equal_fold : Text → Text → Bool
equal_fold a b = text_eq (to_lower a) (to_lower b)

-- The loop over the alternatives, which stops at a match.
unfoldable pub or_match : List Text → Text → Bool
or_match [] topic = false
or_match (f ∷ fs) topic = if equal_fold f topic then true else or_match fs topic

-- The body of the loop over the topics: whether it goes on.
unfoldable pub topic_matches : SearchLogsTopic → Text → Bool
topic_matches [] topic = true
topic_matches (f ∷ []) topic = equal_fold f topic
topic_matches (f ∷ g ∷ fs) topic = or_match (f ∷ g ∷ fs) topic

-- The loop over the topics from index `i` on; it breaks where there is no filter.
unfoldable pub filters_from : List SearchLogsTopic → List Text → ℕ → Bool
filters_from filters [] i = true
filters_from filters (topic ∷ topics) i =
    let rest = filters_from filters topics (suc i) in
    elim (get_elem? filters i) [
      | none ↦ true
      | some filter ↦ if topic_matches filter topic then rest else false
    ]

unfoldable pub do_filters_match : List SearchLogsTopic → List Text → Bool
do_filters_match filters topics = filters_from filters topics 0

-- One of the texts is the topic, up to case.
abbrev pub HasTopic : Text → List Text → Type 0
HasTopic topic [] = ⊥
HasTopic topic (f ∷ fs) = (to_lower f ≡ to_lower topic) ⊎ HasTopic topic fs

-- A filter takes any topic if it has no alternatives, else one of its alternatives.
abbrev pub Accepts : SearchLogsTopic → Text → Type 0
Accepts filter topic = (filter ≡ []) ⊎ HasTopic topic filter

or_match_iff : (fs : List Text) (t : Text) → (or_match fs t ≡ true) ↔ HasTopic t fs
unfolding or_match equal_fold
or_match_iff [] t = (λ h. cc, λ h. absurd h)
or_match_iff (f ∷ fs) t = (
  λ h. elim (Bool-cases (text_eq (to_lower f) (to_lower t))) [
    | inl e ↦ inl ((text_eq_iff (to_lower f) (to_lower t)).0 e)
    | inr e ↦ inr ((or_match_iff fs t).0 (rw e at h))
  ],
  λ h. elim h [
    | inl e ↦ rw ((text_eq_iff (to_lower f) (to_lower t)).1 e)
    | inr k ↦ ground (arith, (or_match_iff fs t).1 k)
  ],
)

pub topic_matches_iff : (f : SearchLogsTopic) (t : Text) → (topic_matches f t ≡ true) ↔ Accepts f t
unfolding topic_matches equal_fold
topic_matches_iff [] t = (λ h. inl refl, λ h. refl)
topic_matches_iff (f ∷ []) t = (
  λ h. inr (inl ((text_eq_iff (to_lower f) (to_lower t)).0 h)),
  λ h. elim h [
    | inl e ↦ cc
    | inr k ↦ elim k [ inl e ↦ (text_eq_iff (to_lower f) (to_lower t)).1 e | inr b ↦ absurd b ]
  ],
)
topic_matches_iff (f ∷ g ∷ fs) t = (
  λ h. inr ((or_match_iff (f ∷ g ∷ fs) t).0 h),
  λ h. elim h [ inl e ↦ cc | inr k ↦ (or_match_iff (f ∷ g ∷ fs) t).1 k ],
)

-- Every topic of the log that has a filter at its position is accepted by it.
abbrev pub AcceptsFrom : List SearchLogsTopic → List Text → ℕ → Type 0
AcceptsFrom filters topics i =
    (j : ℕ) (f : SearchLogsTopic) (t : Text)
    → get_elem? filters (i + j) ≡ some f
    → get_elem? topics j ≡ some t
    → Accepts f t

filters_from-step :
    (fs : List SearchLogsTopic) (x : Text) (ts : List Text) (i : ℕ)
    → filters_from fs (x ∷ ts) i ≡ true
    → (get_elem? fs i ≡ none)
      ⊎ ((f : SearchLogsTopic) × (get_elem? fs i ≡ some f)
          × (topic_matches f x ≡ true)
          × (filters_from fs ts (suc i) ≡ true))
unfolding filters_from
filters_from-step fs x ts i h = elim (Option-cases (get_elem? fs i)) [
  | inl e ↦ inl e
  | inr w ↦ inr (w.0, w.1, ground (arith, w.1), ground (arith, w.1))
]

filters_from_sound :
    (fs : List SearchLogsTopic) (ts : List Text) (i : ℕ)
    → filters_from fs ts i ≡ true
    → AcceptsFrom fs ts i
filters_from_sound fs [] i h j f t e k = cc
filters_from_sound fs (x ∷ ts) i h zero f t e k = elim (filters_from-step fs x ts i h) [
  | inl n ↦ cc (sym (get_elem?-none_beyond fs i 0 n) ∙ e)
  | inr w ↦
      let same : w.0 ≡ f = cc (sym w.1, ap (get_elem? fs) (add-zero i), e) in
      let here : x ≡ t = cc in rw (sym here, sym same) ((topic_matches_iff w.0 x).0 w.2)
]
filters_from_sound fs (x ∷ ts) i h (suc j) f t e k = elim (filters_from-step fs x ts i h) [
  | inl n ↦ cc (sym (get_elem?-none_beyond fs i (suc j) n) ∙ e)
  | inr w ↦
      filters_from_sound fs ts (suc i) w.3 j f t
        (ap (get_elem? fs) (suc-add i j ∙ sym (add-suc i j)) ∙ e) k
]

filters_from_complete :
    (fs : List SearchLogsTopic) (ts : List Text) (i : ℕ)
    → AcceptsFrom fs ts i
    → filters_from fs ts i ≡ true
unfolding filters_from
filters_from_complete fs [] i h = refl
filters_from_complete fs (x ∷ ts) i h = elim (Option-cases (get_elem? fs i)) [
  | inl e ↦ rw (e, filters_from)
  | inr w ↦
      let first = h 0 w.0 x (ap (get_elem? fs) (add-zero i) ∙ w.1) refl in
      let rest =
        filters_from_complete fs ts (suc i) (λ j f t e k.
          h (suc j) f t (ap (get_elem? fs) (add-suc i j ∙ sym (suc-add i j)) ∙ e) k) in
      rw (w.1, filters_from, (topic_matches_iff w.0 x).1 first) rest
]

-- For every list of filters and of topics of a log: they match exactly if every topic of the log
-- that has a filter at its position is accepted by that filter, which takes any topic if it has no
-- alternatives and otherwise one that equals an alternative up to the case of letters. Filters past
-- the last topic of the log, and topics past the last filter, are not looked at.
pub do_filters_match_iff :
    (fs : List SearchLogsTopic) (ts : List Text)
    → (do_filters_match fs ts ≡ true) ↔ (
        (j : ℕ) (f : SearchLogsTopic) (t : Text)
        → get_elem? fs j ≡ some f
        → get_elem? ts j ≡ some t
        → Accepts f t)
unfolding do_filters_match
do_filters_match_iff fs ts = (
  λ h j f t e k. filters_from_sound fs ts 0 h j f t (ap (get_elem? fs) (zero-add j) ∙ e) k,
  λ h.
      filters_from_complete fs ts 0
        (λ j f t e k. h j f t (ap (get_elem? fs) (sym (zero-add j)) ∙ e) k),
)

filters_from-drop_filters :
    (fs more : List SearchLogsTopic) (ts : List Text) (i : ℕ)
    → i + length ts ≤ length fs
    → filters_from (fs ++ more) ts i ≡ filters_from fs ts i
unfolding filters_from
filters_from-drop_filters fs more [] i h = refl
filters_from-drop_filters fs more (x ∷ ts) i h = ground (
  arith,
  get_elem?-append fs more i (omega arith),
  filters_from-drop_filters fs more ts (suc i) (omega arith),
)

-- A log with no more topics than there are filters matches or not whatever filters follow: a filter
-- for a position that the log does not have never excludes the log.
pub do_filters_match-append :
    (fs more : List SearchLogsTopic) (ts : List Text)
    → length ts ≤ length fs
    → do_filters_match (fs ++ more) ts ≡ do_filters_match fs ts
unfolding do_filters_match
do_filters_match-append fs more ts h = filters_from-drop_filters fs more ts 0 (omega arith)
