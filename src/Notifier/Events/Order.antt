-- ===== src/Notifier/Events/Order.antt =====
-- pkg/notifier/notifier.go: the order in which the events of a connection are sent.
use mathlib.Core.Path.{subst}
use charon.Prelude.{
  arith, ◌⊎◌, true, false, ◌≡◌, refl, sym, ap, ◌∙◌, inl, inr, Bool, Bool-cases, none, Option-cases,
  List, [], ◌∷◌, ◌++◌, append-nil, append_assoc, List-cases, Text,
}
use charon.Notifier.Events.{
  Event, Loop, new_notifier, enqueue, response_required, response_sent, take_event, handle, finish,
  in_hand, Step, Run,
}

-- The messages among some events.
unfoldable pub messages : List Event → List Text
messages [] = []
messages (Event.message t ∷ es) = t ∷ messages es
messages (Event.unsub_signal ∷ es) = messages es

messages-append : (es fs : List Event) → messages (es ++ fs) ≡ messages es ++ messages fs
unfolding messages
messages-append [] fs = refl
messages-append (Event.message t ∷ es) fs = ap (λ l. t ∷ l) (messages-append es fs)
messages-append (Event.unsub_signal ∷ es) fs = messages-append es fs

-- Those that the loop has still to send.
abbrev pub to_send : Loop → List Text
to_send s = messages (in_hand s.waiting ++ s.queue)

-- What a step has sent and has still to send is what it had, and the messages it put in.
abbrev pub Keeps : Loop → List Event → Loop → Type 0
Keeps s es t = t.sent ++ to_send t ≡ (s.sent ++ to_send s) ++ messages es

enqueue-Keeps : (e : Event) (s : Loop) → Keeps s (e ∷ []) (enqueue e s)
enqueue-Keeps e s =
    ap (λ l. s.sent ++ messages l) (sym (append_assoc (in_hand s.waiting) s.queue (e ∷ [])))
    ∙ ap (λ l. s.sent ++ l) (messages-append (in_hand s.waiting ++ s.queue) (e ∷ []))
    ∙ sym (append_assoc s.sent (to_send s) (messages (e ∷ [])))

-- A step that puts nothing in.
same-Keeps : (s t : Loop) → t.sent ++ to_send t ≡ s.sent ++ to_send s → Keeps s [] t
unfolding messages
same-Keeps s t h = h ∙ sym (append-nil (s.sent ++ to_send s))

take_event-Keeps : (s : Loop) → s.waiting ≡ none → Keeps s [] (take_event s)
unfolding take_event in_hand
take_event-Keeps s h = elim (List-cases s.queue) [
  | inl e ↦ same-Keeps s (take_event s) (rw (e, take_event) (rw e refl))
  | inr (e, es, q) ↦ same-Keeps s (take_event s) (rw (q, take_event) (rw h refl))
]

handle-Keeps :
    (s : Loop) (ok : Bool)
    → Keeps s [] (handle ok s)
        × ((handle ok s).ended ≡ s.ended)
        × ((handle ok s).dropped ≡ s.dropped)
      ⊎ (handle ok s ≡ finish s)
unfolding handle finish in_hand messages
handle-Keeps s ok = elim (Option-cases s.waiting) [
  | inl e ↦ inl (
    same-Keeps s (handle ok s) (rw (e, handle) (rw e refl)),
    rw (e, handle) refl,
    rw (e, handle) refl,
  )
  | inr ((Event.unsub_signal, c), e) ↦
      inl
        (same-Keeps s (handle ok s) (rw (e, handle) refl), rw (e, handle) refl, rw (e, handle) refl)
  | inr ((Event.message t, c), e) ↦ elim (Bool-cases ok) [
    | inl b ↦ inl (
      same-Keeps s (handle ok s)
          (rw (e, handle) (rw b (append_assoc s.sent (t ∷ []) (messages s.queue)))),
      rw (e, handle) (rw b refl),
      rw (e, handle) (rw b refl),
    )
    | inr b ↦ inr (rw (e, handle) (rw (b, finish, e) refl))
  ]
]

-- A loop that runs has dropped nothing, and one that has ended has nothing to send.
abbrev pub IsWhole : Loop → Type 0
IsWhole s =
    ((s.ended ≡ false) × (s.dropped ≡ []))
    ⊎ ((s.ended ≡ true) × (s.waiting ≡ none) × (s.queue ≡ []))

-- What has been put in: it is sent, still to send, or lost.
abbrev total : Loop → List Text
total s = s.sent ++ (to_send s ++ messages s.dropped)

running_total : (s : Loop) → s.dropped ≡ [] → total s ≡ s.sent ++ to_send s
unfolding messages
running_total s d = rw d (ap (λ l. s.sent ++ l) (append-nil (to_send s)))

running_dropped : (s : Loop) → s.ended ≡ false → IsWhole s → s.dropped ≡ []
running_dropped s h (inl (r, d)) = d
running_dropped s h (inr (r, w, q)) = absurd (ground (arith, h, r))

-- A step, from a loop that runs to one that runs.
runs_on :
    (s t : Loop) (es : List Event)
    → s.ended ≡ false
    → IsWhole s
    → t.ended ≡ s.ended
    → t.dropped ≡ s.dropped
    → Keeps s es t
    → (total t ≡ total s ++ messages es) × IsWhole t
runs_on s t es h w e d k =
    let none_lost = running_dropped s h w in
    (
      running_total t (d ∙ none_lost)
          ∙ k
          ∙ ap (λ l. l ++ messages es) (sym (running_total s none_lost)),
      inl (e ∙ h, d ∙ none_lost),
    )

finishes :
    (s : Loop)
    → s.ended ≡ false
    → IsWhole s
    → (total (finish s) ≡ total s ++ messages []) × IsWhole (finish s)
unfolding finish in_hand messages
finishes s h w =
    (sym (append-nil (total s) ∙ running_total s (running_dropped s h w)), inr (refl, refl, refl))

-- A step that changes only the channels.
same_events :
    (s t : Loop)
    → t.sent ≡ s.sent
    → t.waiting ≡ s.waiting
    → t.queue ≡ s.queue
    → t.dropped ≡ s.dropped
    → t.ended ≡ s.ended
    → IsWhole s
    → (total t ≡ total s ++ messages []) × IsWhole t
unfolding messages
same_events s t a b c d e w = (
  rw (a, b, c, d) (sym (append-nil (total s))),
  elim w [ inl (r, l) ↦ inl (e ∙ r, d ∙ l) | inr (r, l, q) ↦ inr (e ∙ r, b ∙ l, c ∙ q) ],
)

response_sent-IsWhole :
    (s : Loop)
    → IsWhole s
    → (total (response_sent s) ≡ total s ++ messages []) × IsWhole (response_sent s)
unfolding response_sent
response_sent-IsWhole s w = elim (Option-cases s.pending) [
  | inl e ↦ rw (e, response_sent) (same_events s s refl refl refl refl refl w)
  | inr (c, e) ↦
      rw (e, response_sent)
        (same_events s (record s { pending = none; closed = c ∷ s.closed }) refl refl refl refl refl
          w)
]

take_event-running :
    (s : Loop) → ((take_event s).ended ≡ s.ended) × ((take_event s).dropped ≡ s.dropped)
unfolding take_event
take_event-running s = elim (List-cases s.queue) [
  | inl e ↦ rw (e, take_event) (refl, refl)
  | inr (e, es, q) ↦ rw (q, take_event) (refl, refl)
]

Step-IsWhole :
    {s t : Loop} {es : List Event}
    → Step s es t
    → IsWhole s
    → (total t ≡ total s ++ messages es) × IsWhole t
unfolding response_required
Step-IsWhole {s} (Step.enqueues e h room) w =
    runs_on s (enqueue e s) (e ∷ []) h w refl refl (enqueue-Keeps e s)
Step-IsWhole {s} Step.requires w = same_events s (response_required s) refl refl refl refl refl w
Step-IsWhole {s} Step.responds w = response_sent-IsWhole s w
Step-IsWhole {s} (Step.takes h free) w =
    let (e, d) = take_event-running s in
    runs_on s (take_event s) [] h w e d (take_event-Keeps s free)
Step-IsWhole {s} (Step.handles ok h r) w = elim (handle-Keeps s ok) [
  | inl (k, e, d) ↦ runs_on s (handle ok s) [] h w e d k
  | inr f ↦ subst (λ t. (total t ≡ total s ++ messages []) × IsWhole t) (sym f) (finishes s h w)
]
Step-IsWhole {s} (Step.cancels h r) w = finishes s h w

Run-IsWhole :
    {s t : Loop} {es : List Event}
    → Run s es t
    → IsWhole s
    → (total t ≡ total s ++ messages es) × IsWhole t
unfolding messages
Run-IsWhole {s} Run.start w = (sym (append-nil (total s)), w)
Run-IsWhole {s} (Run.later {es} {fs} {t} {u} run step) w =
    let (e, w') = Run-IsWhole run w in
    let (f, w'') = Step-IsWhole step w' in
    (
      f
          ∙ ap (λ l. l ++ messages fs) e
          ∙ append_assoc (total s) (messages es) (messages fs)
          ∙ ap (λ l. total s ++ l) (sym (messages-append es fs)),
      w'',
    )

-- In every run from a new connection, the messages that were put into the queue are the ones sent, in
-- the order of the queue, then those that the loop has still to send, and then those that it dropped
-- when it ended. While it runs none is dropped, and once it has ended none is to send: so none is
-- doubled or overtaken, and none is lost but by a write that fails or the end of the connection.
pub sent_in_order :
    {es : List Event} {s : Loop}
    → Run new_notifier es s
    → (messages es ≡ s.sent ++ (messages (in_hand s.waiting ++ s.queue) ++ messages s.dropped))
      × (((s.ended ≡ false) × (s.dropped ≡ []))
          ⊎ ((s.ended ≡ true) × (s.waiting ≡ none) × (s.queue ≡ [])))
unfolding in_hand messages
sent_in_order run = let (e, w) = Run-IsWhole run (inl (refl, refl)) in (sym e, w)
