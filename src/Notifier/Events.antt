-- ===== src/Notifier/Events.antt =====
-- pkg/notifier/notifier.go: the queue of events of a connection, its loop (`run`), and the wait for a
-- response that is to be sent before the next event.
pub mod Order
pub mod Numbers
pub mod Due
use charon.Prelude.{
  ℕ, suc, ◌+◌, ◌<◌, ◌≡◌, Bool, true, false, Option, none, some, List, [], ◌∷◌, ◌++◌, Text, length,
  ◌==◌, if◌then◌else◌,
}

-- What is put into the queue, by the bytes that are sent for it.
pub data Event : Type 0 where
  message : Text → Event
  unsub_signal : Event

-- The loop and what it shares with the requests of its connection. The channels that a response
-- closes have numbers: `pending` is that of `subscriptionIdPending`, `made` the number of those made,
-- and `closed` the ones that are closed. `waiting` is the event that the loop has taken off the
-- queue, with the channel that was pending then. `dropped` is what it had when it ended: nothing reads
-- a queue that is closed.
pub record Loop : Type 0 where
  pub queue : List Event
  pub pending : Option ℕ
  pub made : ℕ
  pub closed : List ℕ
  pub waiting : Option (Event × Option ℕ)
  pub flushed : Bool
  pub sent : List Text
  pub dropped : List Event
  pub ended : Bool

-- `NewNotifier`
abbrev pub new_notifier : Loop
new_notifier = record {
  queue = [];
  pending = some 0;
  made = 1;
  closed = [];
  waiting = none;
  flushed = false;
  sent = [];
  dropped = [];
  ended = false;
}

-- `Send`
abbrev pub enqueue : Event → Loop → Loop
enqueue e s = record s { queue = s.queue ++ (e ∷ []) }

unfoldable pub response_required : Loop → Loop
response_required s = record s { pending = some s.made; made = s.made + 1 }

unfoldable pub response_sent : Loop → Loop
response_sent s = elim s.pending [
  | none ↦ s
  | some c ↦ record s { pending = none; closed = c ∷ s.closed }
]

-- An event comes off the queue.
unfoldable pub take_event : Loop → Loop
take_event s = elim s.queue [
  | [] ↦ s
  | e ∷ es ↦ record s { queue = es; waiting = some (e, s.pending) }
]

unfoldable pub is_closed : ℕ → List ℕ → Bool
is_closed c [] = false
is_closed c (d ∷ ds) = let rest = is_closed c ds in if c == d then true else rest

-- Whether the loop goes on from its inner `select`.
unfoldable pub ready : Loop → Bool
ready s = elim s.waiting [
  | none ↦ false
  | some (e, none) ↦ true
  | some (e, some c) ↦ is_closed c s.closed
]

-- Whether the loop stands in a `select`, where it sees that the context has ended.
unfoldable pub selects : Loop → Bool
selects s = elim s.waiting [ none ↦ true | some (e, none) ↦ false | some (e, some c) ↦ true ]

-- The event that the loop has taken.
unfoldable pub in_hand : Option (Event × Option ℕ) → List Event
in_hand none = []
in_hand (some (e, c)) = e ∷ []

-- The loop returns, and with it its deferred function: its event and what is in the queue are lost.
unfoldable pub finish : Loop → Loop
unfolding in_hand
finish s = record s {
  flushed = true;
  ended = true;
  dropped = in_hand s.waiting ++ s.queue;
  waiting = none;
  queue = [];
}

-- What is done with the event, where `true` is that the write succeeds. A write that fails ends the
-- loop.
unfoldable pub handle : Bool → Loop → Loop
unfolding finish
handle ok s = elim s.waiting [
  | none ↦ s
  | some (Event.unsub_signal, c) ↦ record s { flushed = true; waiting = none }
  | some (Event.message t, c) ↦
      if ok then record s { sent = s.sent ++ (t ∷ []); waiting = none } else finish s
]

-- One step, with the events that it puts into the queue, whose buffer holds 50; `Send` on the queue
-- of a loop that has ended panics and puts nothing in. `cancels` is the end of the connection's
-- context.
pub data Step (s : Loop) : List Event → Loop → Type 0 where
  enqueues : (e : Event) → s.ended ≡ false → length s.queue < 50 → Step s (e ∷ []) (enqueue e s)
  requires : Step s [] (response_required s)
  responds : Step s [] (response_sent s)
  takes : s.ended ≡ false → s.waiting ≡ none → Step s [] (take_event s)
  handles : (ok : Bool) → s.ended ≡ false → ready s ≡ true → Step s [] (handle ok s)
  cancels : s.ended ≡ false → selects s ≡ true → Step s [] (finish s)

pub data Run (s : Loop) : List Event → Loop → Type 0 where
  start : Run s [] s
  later : {es fs : List Event} {t u : Loop} → Run s es t → Step t fs u → Run s (es ++ fs) u
