-- ===== src/Tests/Buses.antt =====
-- The event bus at concrete buses.
use ttasks.Common.{ℕ, ◌-◌, ◌≡◌, refl, none, some, [], ◌∷◌, map, ◌==◌, if◌then◌else◌}
use ttasks.Common.Values.{typed}
use ttasks.Status.{pending}
use ttasks.Errors.{Exn, text, Result, ok}
use ttasks.Events.{
  TaskEventType, TaskEvent, EventBus, React, join, leave, emits, emit, subscribe, unsubscribe,
  subscribed,
}
use ttasks.Executor.Emission.{lifecycle_event}
use ttasks.Events.Delivery.{raised_by, Grew, IsCalm, Exactly, emit_lem}
use ttasks.Events.Subscription.{count, count-unsubscribe, unsubscribe_twice, subscribed_lem}
use ttasks.Tests.Samples.{sample}

abbrev bus : EventBus
bus = record { subscribers = 1 ∷ 2 ∷ []; errors = []; delivered = [] }

-- Subscriber 1 takes 2 off the bus, adds 3 and raises.
abbrev rude : React
rude s e =
    if s == 1 then (leave 2 ∷ join 3 ∷ [], some (Exn.exception (text "boom"))) else ([], none)

abbrev event : TaskEvent
event = lifecycle_event (sample 1 pending) TaskEventType.started none none

abbrev ended_event : TaskEvent
ended_event = lifecycle_event (sample 1 pending) TaskEventType.cancelled none none

emit_lem_example :
    Grew bus
      (emit rude 2 bus event)
      (map (λ s. (s, event)) (1 ∷ 2 ∷ []))
      (raised_by rude event (1 ∷ 2 ∷ []))
    × (IsCalm rude event
        → Exactly bus
            (emit rude 2 bus event)
            (map (λ s. (s, event)) (1 ∷ 2 ∷ []))
            (raised_by rude event (1 ∷ 2 ∷ [])))
emit_lem_example = emit_lem rude 1 bus event

-- 1 emits a further event when it is told of one that has started.
abbrev chatty : React
chatty s e = elim e.type [
  | TaskEventType.started ↦ if s == 1 then (emits ended_event ∷ [], none) else ([], none)
  | _ ↦ ([], none)
]

-- The further event is delivered to both before 2 is told of the first one.
emit-chatty :
    (emit chatty 2 bus event).delivered
    ≡ (1, event) ∷ (1, ended_event) ∷ (2, ended_event) ∷ (2, event) ∷ []
unfolding emit
emit-chatty = refl

-- The subscriber that joined and the one that left.
emit-rude : (emit rude 2 bus event).subscribers ≡ 1 ∷ 3 ∷ []
unfolding emit
emit-rude = refl

count-unsubscribe_example :
    count 2 (unsubscribe bus 2).subscribers
    ≡ (if 2 == 2 then count 2 bus.subscribers - 1 else count 2 bus.subscribers)
count-unsubscribe_example = count-unsubscribe bus 2 2

unsubscribe_twice_example :
    count 1
      (unsubscribe (unsubscribe (record bus { subscribers = 1 ∷ 2 ∷ 1 ∷ [] }) 1) 1).subscribers
    ≡ count 1 bus.subscribers - 1
unsubscribe_twice_example =
    unsubscribe_twice bus (record bus { subscribers = 1 ∷ 2 ∷ 1 ∷ [] }) 1 (unfold subscribe in refl)

abbrev body : EventBus → Result ℕ × EventBus
body b = (ok 7, b)

subscribed_lem_example :
    ((subscribed bus (typed 5) body).1.subscribers ≡ 1 ∷ 2 ∷ [])
    × ((subscribed bus (typed 5) body).0 ≡ ok 7)
subscribed_lem_example = subscribed_lem bus 5 body refl (λ b. refl)
