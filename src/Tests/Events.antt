-- ===== src/Tests/Events.antt =====
-- The queue of a connection's events at concrete inputs.
use charon.Prelude.{◌≡◌, refl, ◌⊎◌, true, false, none, some, [], ◌∷◌, ◌++◌, codes, arith}
use charon.Notifier.Events.{
  Event, Loop, new_notifier, enqueue, response_required, response_sent, take_event, handle, ready,
  Step, Run, in_hand, finish, selects,
}
use charon.Notifier.Events.Order.{messages, sent_in_order}
use charon.Notifier.Events.Due.{due_then_ready, stuck_for_ever}

abbrev head : Event
head = Event.message (codes "head")

-- An event is put into the queue and taken off it before any response is sent.
abbrev taken : Loop
taken = take_event (enqueue head new_notifier)

taken-Run : Run new_notifier (([] ++ (head ∷ [])) ++ []) taken
taken-Run =
    Run.later (Run.later Run.start (Step.enqueues head refl (omega arith))) (Step.takes refl refl)

sent_in_order_example :
    (messages (head ∷ [])
      ≡ taken.sent ++ (messages (in_hand taken.waiting ++ taken.queue) ++ messages taken.dropped))
    × (((taken.ended ≡ false) × (taken.dropped ≡ []))
        ⊎ ((taken.ended ≡ true) × (taken.waiting ≡ none) × (taken.queue ≡ [])))
sent_in_order_example = sent_in_order taken-Run

due_then_ready_example : (ready taken ≡ false) × (ready (response_sent taken) ≡ true)
unfolding take_event
due_then_ready_example = due_then_ready head 0 taken-Run refl refl

stuck_for_ever_example :
    ((response_sent (response_required taken)).sent ≡ taken.sent)
    × (((response_sent (response_required taken)).waiting ≡ some (head, some 0))
        ⊎ ((response_sent (response_required taken)).ended ≡ true))
unfolding take_event
stuck_for_ever_example =
    stuck_for_ever head 0 taken-Run refl refl (Run.later Run.start Step.responds)

-- The event is sent once the response is.
sends : (handle true (response_sent taken)).sent ≡ codes "head" ∷ []
unfolding take_event response_sent handle
sends = refl

-- A write that fails loses the event, and the end of the connection what is in the queue.
lost :
    ((handle false (response_sent taken)).dropped ≡ head ∷ [])
    × ((finish (enqueue head new_notifier)).dropped ≡ head ∷ [])
    × (selects taken ≡ true)
unfolding take_event response_sent handle finish selects
lost = (refl, refl, refl)
