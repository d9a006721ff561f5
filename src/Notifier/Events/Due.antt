-- ===== src/Notifier/Events/Due.antt =====
-- pkg/notifier/notifier.go: an event that waits for a response, and one that waits for ever.
use charon.Prelude.{
  ◌⊎◌, ℕ, ◌<◌, ◌≡◌, ◌≢◌, refl, ap, ◌∙◌, inl, inr, true, false, Bool-cases, some, Option-cases, List,
  arith, ◌==◌,
}
use charon.Notifier.Events.{
  Event, Loop, new_notifier, response_required, response_sent, is_closed, ready, finish, Step, Run,
}
use charon.Notifier.Events.Numbers.{new_notifier-IsNumbered, Run-IsNumbered}

-- The loop has an event whose channel is open, and no longer the pending one.
record IsStuck (e : Event) (c : ℕ) (s : Loop) : Type 0 where
  waits : s.waiting ≡ some (e, some c)
  open_still : is_closed c s.closed ≡ false
  made_before : c < s.made
  not_pending : s.pending ≢ some c

stuck-ready : (e : Event) (c : ℕ) (s : Loop) → IsStuck e c s → ready s ≡ false
unfolding ready
stuck-ready e c s i = rw (i.waits, ready) (i.open_still)

responds-IsStuck :
    (e : Event) (c : ℕ) (s : Loop)
    → IsStuck e c s
    → IsStuck e c (response_sent s) × ((response_sent s).sent ≡ s.sent)
unfolding response_sent is_closed
responds-IsStuck e c s i = elim (Option-cases s.pending) [
  | inl p ↦ rw (p, response_sent) (i, refl)
  | inr (d, p) ↦
      let other : (c == d) ≡ false = elim (Bool-cases (c == d)) [
        | inl o ↦
            let same : d ≡ c = ground (arith, o) in
            absurd (i.not_pending (p ∙ ap (λ x. some x) same))
        | inr o ↦ o
      ] in
      rw (p, response_sent)
        (
          record {
            waits = i.waits;
            open_still = rw other (i.open_still);
            made_before = i.made_before;
            not_pending = λ h. cc;
          },
          refl,
        )
]

-- The loop stays stuck with the event, or has ended, and sends nothing.
abbrev IsStill : Event → ℕ → Loop → Loop → Type 0
IsStill e c s t = (IsStuck e c t ⊎ (t.ended ≡ true)) × (t.sent ≡ s.sent)

Step-IsStuck :
    {s t : Loop} {es : List Event} (e : Event) (c : ℕ)
    → Step s es t
    → IsStuck e c s
    → IsStill e c s t
unfolding response_required finish
Step-IsStuck e c (Step.enqueues e' h room) i = (
  inl (record {
    waits = i.waits;
    open_still = i.open_still;
    made_before = i.made_before;
    not_pending = i.not_pending;
  }),
  refl,
)
Step-IsStuck e c Step.requires i = (
  inl (record {
    waits = i.waits;
    open_still = i.open_still;
    made_before = let l = i.made_before in omega (arith, l);
    not_pending = λ h. let l = i.made_before in ground (arith, h, l);
  }),
  refl,
)
Step-IsStuck {s} e c Step.responds i = let (j, same) = responds-IsStuck e c s i in (inl j, same)
Step-IsStuck e c (Step.takes h free) i = let w = i.waits in absurd (ground (arith, w, free))
Step-IsStuck {s} e c (Step.handles ok h r) i = absurd (ground (arith, r, (stuck-ready e c s i)))
Step-IsStuck e c (Step.cancels h r) i = (inr refl, refl)

response_sent-ended :
    (s : Loop) → ((response_sent s).ended ≡ s.ended) × ((response_sent s).sent ≡ s.sent)
unfolding response_sent
response_sent-ended s = elim (Option-cases s.pending) [
  | inl p ↦ rw (p, response_sent) (refl, refl)
  | inr (d, p) ↦ rw (p, response_sent) (refl, refl)
]

Step-ended :
    {s t : Loop} {es : List Event}
    → Step s es t
    → s.ended ≡ true
    → (t.ended ≡ true) × (t.sent ≡ s.sent)
unfolding response_required
Step-ended (Step.enqueues e' h room) ended = absurd (ground (arith, h, ended))
Step-ended Step.requires ended = (ended, refl)
Step-ended {s} Step.responds ended = let (e, same) = response_sent-ended s in (e ∙ ended, same)
Step-ended (Step.takes h free) ended = absurd (ground (arith, h, ended))
Step-ended (Step.handles ok h r) ended = absurd (ground (arith, h, ended))
Step-ended (Step.cancels h r) ended = absurd (ground (arith, h, ended))

Run-IsStuck :
    {s t : Loop} {es : List Event} (e : Event) (c : ℕ)
    → Run s es t
    → IsStuck e c s
    → IsStill e c s t
Run-IsStuck e c Run.start i = (inl i, refl)
Run-IsStuck e c (Run.later run step) i =
    let (still, same) = Run-IsStuck e c run i in
    elim still [
      | inl j ↦ let (k, same') = Step-IsStuck e c step j in (k, same' ∙ same)
      | inr ended ↦ let (k, same') = Step-ended step ended in (inr k, same' ∙ same)
    ]

eqb_refl : (c : ℕ) → (c == c) ≡ true
eqb_refl c = ground arith

-- In every run from a new connection, where the loop has taken an event and the response that was due
-- then is still due: it is not ready to send the event, and it is once the response is sent.
pub due_then_ready :
    {es : List Event} {s : Loop} (e : Event) (c : ℕ)
    → Run new_notifier es s
    → s.waiting ≡ some (e, some c)
    → s.pending ≡ some c
    → (ready s ≡ false) × (ready (response_sent s) ≡ true)
unfolding is_closed response_sent ready
due_then_ready e c run w p =
    let i = Run-IsNumbered run new_notifier-IsNumbered in
    (
      rw (w, ready) (i.pending_open c p),
      rw (p, response_sent) (rw (w, ready) (rw (eqb_refl c) refl)),
    )

-- In every run from a new connection, where the loop has taken an event and the response that was due
-- then is still due: if another response is required before that one is sent, then in every run
-- from there nothing is sent any more, and the loop keeps the event until the connection ends.
pub stuck_for_ever :
    {es fs : List Event} {s t : Loop} (e : Event) (c : ℕ)
    → Run new_notifier es s
    → s.waiting ≡ some (e, some c)
    → s.pending ≡ some c
    → Run (response_required s) fs t
    → (t.sent ≡ s.sent) × ((t.waiting ≡ some (e, some c)) ⊎ (t.ended ≡ true))
unfolding response_required
stuck_for_ever {s = s} e c run w p more =
    let i = Run-IsNumbered run new_notifier-IsNumbered in
    let m = i.pending_made c p in
    let (still, same) = Run-IsStuck e c more (record {
      waits = w;
      open_still = i.pending_open c p;
      made_before = omega (arith, m);
      not_pending = λ h. ground (arith, h, m);
    }) in
    (same, elim still [ inl k ↦ inl (k.waits) | inr ended ↦ inr ended ])
