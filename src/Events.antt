-- ===== src/Events.antt =====
-- src/ttasks/_events.py. A subscriber is a callable that the code only compares and calls: it has
-- a number, and what it does with an event is a parameter. The lock makes each method one step, but
-- subscribers are called outside it, and may subscribe and unsubscribe meanwhile.
pub mod Delivery
pub mod Subscription
use ttasks.Common.{
  zero, suc, ℕ, String, Bool, Option, none, some, List, [], ◌∷◌, ◌++◌, elem, ◌==◌, if◌then◌else◌,
}
use ttasks.Common.Values.{Float, Arg, typed, untyped}
use ttasks.Status.{TaskStatus}
use ttasks.Errors.{Message, text, Exn, type_error, Result, ok, raise}
use ttasks.Task.{Task}

-- OutputStream
pub data OutputStream : Type 0 where
  stdout stderr : OutputStream

-- TaskEventType
pub data TaskEventType : Type 0 where
  started progress output succeeded failed cancelled blocked persistence_failed : TaskEventType

-- TaskEvent, without its time stamp. `task` is the task as it is when the event is built.
pub record TaskEvent : Type 0 where
  pub type : TaskEventType
  pub task_id : ℕ
  pub task : Task
  pub previous_status : Option TaskStatus
  pub status : TaskStatus
  pub error : Option Message
  pub progress_percent : Option Float
  pub progress_message : Option String
  pub output_stream : Option OutputStream
  pub output_chunk : Option String

-- EventBus. `delivered` is the history of the calls of subscribers.
pub record EventBus : Type 0 where
  pub subscribers : List ℕ
  pub errors : List Exn
  pub delivered : List (ℕ × TaskEvent)

-- EventBus.__init__
abbrev pub new_bus : EventBus
new_bus = record { subscribers = []; errors = []; delivered = [] }

-- EventBus.subscribe, but for the callback that it returns, which is `unsubscribe`
unfoldable pub subscribe : EventBus → Arg ℕ → Result EventBus
subscribe bus untyped = raise (type_error (text "subscriber must be callable"))
subscribe bus (typed s) = ok (record bus { subscribers = bus.subscribers ++ s ∷ [] })

-- `xs.remove(k)`, for a `k` in `xs`: the first one goes
unfoldable pub remove : ℕ → List ℕ → List ℕ
remove k [] = []
remove k (j ∷ js) = if k == j then js else j ∷ remove k js

-- The callback `unsubscribe` of `subscribe`
unfoldable pub unsubscribe : EventBus → ℕ → EventBus
unfolding remove
unsubscribe bus s =
    if elem s bus.subscribers then record bus { subscribers = remove s bus.subscribers } else bus

-- EventBus.subscribed: `body` is the block of the `with`, which may raise
unfoldable pub subscribed {ℓ} :
    {A : Type ℓ} → EventBus → Arg ℕ → (EventBus → Result A × EventBus) → Result A × EventBus
unfolding subscribe unsubscribe
subscribed bus untyped body = elim (subscribe bus untyped) [
  | raise e ↦ (raise e, bus)
  | ok entered ↦ body entered
]
subscribed bus (typed s) body = elim (subscribe bus (typed s)) [
  | raise e ↦ (raise e, bus)
  | ok entered ↦ let (value, left) = body entered in (value, unsubscribe left s)
]

-- What a subscriber does to the bus while it is called: it subscribes, unsubscribes, or emits an event,
-- as it does where it calls methods of the executor.
pub data BusCall : Type 0 where
  join leave : ℕ → BusCall
  emits : TaskEvent → BusCall

-- A subscriber's calls on the bus, and the exception that it raises, if any.
abbrev pub React : Type 0
React = ℕ → TaskEvent → List BusCall × Option Exn

-- `nested` is `emit`, as subscribers call it.
module _ (react : React) (nested : EventBus → TaskEvent → EventBus) where
  unfoldable pub call_bus : EventBus → List BusCall → EventBus
  unfolding unsubscribe
  call_bus bus [] = bus
  call_bus bus (join s ∷ cs) = call_bus (record bus { subscribers = bus.subscribers ++ s ∷ [] }) cs
  call_bus bus (leave s ∷ cs) = call_bus (unsubscribe bus s) cs
  call_bus bus (emits event ∷ cs) = call_bus (nested bus event) cs

  -- `try: subscriber(event)` and its handler
  unfoldable pub deliver : TaskEvent → EventBus → ℕ → EventBus
  unfolding call_bus
  deliver event bus s =
      let (calls, raised) = react s event in
      let told = call_bus (record bus { delivered = bus.delivered ++ (s, event) ∷ [] }) calls in
      elim raised [ none ↦ told | some e ↦ record told { errors = told.errors ++ e ∷ [] } ]

  -- The loop of `emit` over the copied list
  unfoldable pub deliver_all : TaskEvent → EventBus → List ℕ → EventBus
  unfolding deliver
  deliver_all event bus [] = bus
  deliver_all event bus (s ∷ ss) = deliver_all event (deliver event bus s) ss

-- EventBus.emit, by the depth to which calls of it are nested: a call that is nested deeper does
-- nothing.
unfoldable pub emit : React → (depth : ℕ) → EventBus → TaskEvent → EventBus
unfolding deliver_all
emit react zero bus event = bus
emit react (suc depth) bus event = deliver_all react (emit react depth) event bus bus.subscribers
