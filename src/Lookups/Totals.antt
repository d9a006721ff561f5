-- ===== src/Lookups/Totals.antt =====
-- pkg/transformer/eth_getTransactionByHash.go: what the loop over the outputs of a transaction sums up.
use charon.Prelude.{
  ℕ, ◌+◌, ◌^◌, ◌≤◌, ◌<◌, ◌≡◌, refl, ap, ◌∙◌, inl, inr, Bool, true, false, Bool-cases, Option, none,
  some, List, [], ◌∷◌, Text, text_eq, text_eq_iff, text_eq_refl, if◌then◌else◌, not, arith,
}
use charon.Lookups.{Vin, Vout}
use charon.Lookups.Rewards.{
  Sums, first_address, add_by, add_sent_to, add_sent, add_output, add_outputs, add_int64,
}

-- The address that an output is sent to: its first one, if there is one that is not the sender's and
-- not empty.
abbrev pub sent_address : Text → Option Text → Option Text
sent_address from none = none
sent_address from (some a) = if text_eq a from then none else if text_eq a [] then none else some a

abbrev pub amount_if : Bool → ℕ → ℕ
amount_if b amount = if b then amount else 0

abbrev pub is_some_of : Text → Option Text → Bool
is_some_of t none = false
is_some_of t (some a) = text_eq t a

abbrev pub comes_back : Text → Option Text → Bool
comes_back from none = false
comes_back from (some a) = text_eq a from

abbrev pub or_empty : Option Text → Text
or_empty none = []
or_empty (some a) = a

-- The receiver after an output, if there was one before or not.
abbrev pub receiver_after : Text → Text → Option Text → Text
receiver_after from t first = if text_eq t [] then or_empty (sent_address from first) else t

-- The first address that something is sent to.
unfoldable pub receiver : Text → Text → List Vout → Text
receiver from t [] = t
receiver from t (v ∷ vs) = receiver from (receiver_after from t (first_address v)) vs

-- The satoshis of the outputs to an address, of those that come back, and of all.
unfoldable pub paid_to : Text → Text → List Vout → ℕ
paid_to from t [] = 0
paid_to from t (v ∷ vs) =
    amount_if (is_some_of t (sent_address from (first_address v))) v.amount_satoshi
    + paid_to from t vs

unfoldable pub kept : Text → List Vout → ℕ
kept from [] = 0
kept from (v ∷ vs) = amount_if (comes_back from (first_address v)) v.amount_satoshi + kept from vs

unfoldable pub total_out : List Vout → ℕ
total_out [] = 0
total_out (v ∷ vs) = v.amount_satoshi + total_out vs

unfoldable pub total_in : List Vin → ℕ
total_in [] = 0
total_in (v ∷ vs) = v.amount_satoshi + total_in vs

-- The sums are below 2^63 with what is still to come.
pub record IsSmall (s : Sums) (more : ℕ) : Type 0 where
  pub out : s.value_out + more < 2 ^ 63
  pub refund : s.refund ≤ s.value_out
  pub sent : s.sent ≤ s.value_out
  pub sent_to : s.sent_to ≤ s.value_out

-- The sums after an output of an amount.
pub record Adds (from : Text) (first : Option Text) (amount : ℕ) (s r : Sums) : Type 0 where
  pub refund : r.refund ≡ s.refund + amount_if (comes_back from first) amount
  pub sent : r.sent ≡ s.sent + amount_if (not (comes_back from first)) amount
  pub to : r.to ≡ receiver_after from s.to first
  pub sent_to : r.sent_to ≡ s.sent_to + amount_if (is_some_of r.to (sent_address from first)) amount
  pub out : r.value_out ≡ s.value_out

add_by-Adds :
    (first : Option Text) (from : Text) (amount : ℕ) (s : Sums)
    → s.refund + amount < 2 ^ 63
    → s.sent + amount < 2 ^ 63
    → s.sent_to + amount < 2 ^ 63
    → Adds from first amount s (add_by first from amount s)
unfolding add_by add_sent add_sent_to
add_by-Adds none from amount s h1 h2 h3 = ground (arith, text_eq_iff s.to [])
add_by-Adds (some a) from amount s h1 h2 h3 = ground (arith, text_eq_iff s.to [], text_eq_refl a)

-- The sums after outputs, where none of them wraps.
pub record AddsAll (from : Text) (vs : List Vout) (s r : Sums) : Type 0 where
  pub refund : r.refund ≡ s.refund + kept from vs
  pub out : r.value_out ≡ s.value_out + total_out vs
  pub all_sent : r.sent + r.refund ≡ s.sent + s.refund + total_out vs
  pub to : r.to ≡ receiver from s.to vs
  pub sent_to : r.sent_to ≡ s.sent_to + paid_to from r.to vs

pub amount_if-le : (b : Bool) (amount : ℕ) → amount_if b amount ≤ amount
amount_if-le b amount = ground arith

amount_if-not : (b : Bool) (amount : ℕ) → amount_if b amount + amount_if (not b) amount ≡ amount
amount_if-not true amount = omega arith
amount_if-not false amount = omega arith

-- A receiver stays.
receiver_stays : (from t : Text) (vs : List Vout) → text_eq t [] ≡ false → receiver from t vs ≡ t
unfolding receiver
receiver_stays from t [] h = refl
receiver_stays from t (v ∷ vs) h = rw h (receiver_stays from t vs h)

no_receiver :
    (from t : Text) (first : Option Text)
    → text_eq (receiver_after from t first) [] ≡ true
    → sent_address from first ≡ none
no_receiver from t none h = refl
no_receiver from t (some a) h =
    ground (arith, h, text_eq_iff t [], text_eq_iff a [], text_eq_refl [])

same_receiver :
    (from t : Text) (first : Option Text) (vs : List Vout)
    → is_some_of (receiver from (receiver_after from t first) vs) (sent_address from first)
      ≡ is_some_of (receiver_after from t first) (sent_address from first)
same_receiver from t first vs = elim (Bool-cases (text_eq (receiver_after from t first) [])) [
  | inl e ↦ rw (no_receiver from t first e) refl
  | inr e ↦ rw (receiver_stays from (receiver_after from t first) vs e) refl
]

pub add_outputs-AddsAll :
    (from : Text) (vs : List Vout) (s : Sums)
    → IsSmall s (total_out vs)
    → AddsAll from vs s (add_outputs from vs s)
unfolding add_outputs add_output kept paid_to total_out receiver
add_outputs-AddsAll from [] s h = ground arith
add_outputs-AddsAll from (v ∷ vs) s h =
    let amount = v.amount_satoshi in
    let first = first_address v in
    let s1 = record s { value_out = add_int64 s.value_out amount } in
    let s2 = add_by first from amount s1 in
    let a = add_by-Adds first from amount s1 (omega arith) (omega arith) (omega arith) in
    let le = amount_if-le (comes_back from first) amount in
    let le' = amount_if-le (is_some_of s2.to (sent_address from first)) amount in
    let split = amount_if-not (comes_back from first) amount in
    let out : s2.value_out ≡ s.value_out + amount = omega (arith, a.out) in
    let small : IsSmall s2 (total_out vs) = record {
      out = omega (arith, out);
      refund = omega (arith, out, a.refund, le);
      sent = omega (arith, out, a.sent, split);
      sent_to = omega (arith, out, a.sent_to, le');
    } in
    let ih = add_outputs-AddsAll from vs s2 small in
    let r = add_outputs from vs s2 in
    let same : is_some_of r.to (sent_address from first)
        ≡ is_some_of s2.to (sent_address from first) =
      rw (ih.to, a.to) (same_receiver from s.to first vs) in
    record {
      refund = omega (arith, ih.refund, a.refund);
      out = omega (arith, ih.out, out);
      all_sent = omega (arith, ih.all_sent, a.sent, a.refund, split);
      to = ih.to ∙ ap (λ t. receiver from t vs) a.to;
      sent_to = omega (arith, ih.sent_to, a.sent_to, ap (λ b. amount_if b amount) same);
    }
