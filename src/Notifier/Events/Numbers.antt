-- ===== src/Notifier/Events/Numbers.antt =====
-- pkg/notifier/notifier.go: the channels of the responses, by their numbers.
use charon.Prelude.{
  ℕ, ◌<◌, ◌≡◌, refl, inl, inr, Bool, true, false, Bool-cases, some, Option-cases, List, List-cases,
  arith, ◌==◌,
}
use charon.Notifier.Events.{
  Event, Loop, new_notifier, enqueue, response_required, response_sent, take_event, handle, finish,
  is_closed, Step, Run,
}

-- What the numbers of the channels keep to: a closed one has been made, and the pending one is made
-- and open.
pub record IsNumbered (s : Loop) : Type 0 where
  pub closed_made : (c : ℕ) → is_closed c s.closed ≡ true → c < s.made
  pub pending_made : (c : ℕ) → s.pending ≡ some c → c < s.made
  pub pending_open : (c : ℕ) → s.pending ≡ some c → is_closed c s.closed ≡ false

pub new_notifier-IsNumbered : IsNumbered new_notifier
unfolding is_closed
new_notifier-IsNumbered = record {
  closed_made = λ c h. absurd (cc);
  pending_made = λ c h. ground arith;
  pending_open = λ c h. refl;
}

response_required-IsNumbered : (s : Loop) → IsNumbered s → IsNumbered (response_required s)
unfolding response_required
response_required-IsNumbered s i = record {
  closed_made = λ c h. let l = i.closed_made c h in omega (arith, l);
  pending_made = λ c h. ground (arith, h);
  pending_open = λ c h. elim (Bool-cases (is_closed c s.closed)) [
    | inl o ↦ let l = i.closed_made c o in absurd (ground (arith, h, l))
    | inr o ↦ o
  ];
}

response_sent-IsNumbered : (s : Loop) → IsNumbered s → IsNumbered (response_sent s)
unfolding response_sent is_closed
response_sent-IsNumbered s i = elim (Option-cases s.pending) [
  | inl e ↦ rw (e, response_sent) i
  | inr (d, e) ↦
      rw (e, response_sent)
        (record {
          closed_made = λ c h. elim (Bool-cases (c == d)) [
            | inl o ↦ let l = i.pending_made d e in ground (arith, o, l)
            | inr o ↦ i.closed_made c (rw o at h)
          ];
          pending_made = λ c h. absurd (cc);
          pending_open = λ c h. absurd (cc);
        })
]

-- A step that leaves the channels as they are.
same-IsNumbered :
    (s t : Loop)
    → t.pending ≡ s.pending
    → t.made ≡ s.made
    → t.closed ≡ s.closed
    → IsNumbered s
    → IsNumbered t
same-IsNumbered s t p m c i = record {
  closed_made = λ d h. rw m (i.closed_made d (rw c at h));
  pending_made = λ d h. rw m (i.pending_made d (rw p at h));
  pending_open = λ d h. rw c (i.pending_open d (rw p at h));
}

-- The channels after an event is taken, and after one is handled.
take_event-channels :
    (s : Loop)
    → ((take_event s).pending ≡ s.pending)
      × ((take_event s).made ≡ s.made)
      × ((take_event s).closed ≡ s.closed)
unfolding take_event
take_event-channels s = elim (List-cases s.queue) [
  | inl e ↦ rw (e, take_event) (refl, refl, refl)
  | inr (e, es, q) ↦ rw (q, take_event) (refl, refl, refl)
]

handle-channels :
    (s : Loop) (ok : Bool)
    → ((handle ok s).pending ≡ s.pending)
      × ((handle ok s).made ≡ s.made)
      × ((handle ok s).closed ≡ s.closed)
unfolding handle finish
handle-channels s ok = elim (Option-cases s.waiting) [
  | inl e ↦ rw (e, handle) (refl, refl, refl)
  | inr ((Event.unsub_signal, c), e) ↦ rw (e, handle) (refl, refl, refl)
  | inr ((Event.message t, c), e) ↦ elim (Bool-cases ok) [
    | inl b ↦ rw (e, handle) (rw b (refl, refl, refl))
    | inr b ↦ rw (e, handle) (rw b (refl, refl, refl))
  ]
]

Step-IsNumbered : {s t : Loop} {es : List Event} → Step s es t → IsNumbered s → IsNumbered t
unfolding finish
Step-IsNumbered {s} (Step.enqueues e h room) i = same-IsNumbered s (enqueue e s) refl refl refl i
Step-IsNumbered {s} Step.requires i = response_required-IsNumbered s i
Step-IsNumbered {s} Step.responds i = response_sent-IsNumbered s i
Step-IsNumbered {s} (Step.takes h free) i =
    let (p, m, c) = take_event-channels s in same-IsNumbered s (take_event s) p m c i
Step-IsNumbered {s} (Step.handles ok h r) i =
    let (p, m, c) = handle-channels s ok in same-IsNumbered s (handle ok s) p m c i
Step-IsNumbered {s} (Step.cancels h w) i = same-IsNumbered s (finish s) refl refl refl i

pub Run-IsNumbered : {s t : Loop} {es : List Event} → Run s es t → IsNumbered s → IsNumbered t
Run-IsNumbered Run.start i = i
Run-IsNumbered (Run.later run step) i = Step-IsNumbered step (Run-IsNumbered run i)
