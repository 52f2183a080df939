-- ===== src/Executor/Emission.antt =====
-- src/ttasks/_executor.py: how the executor saves a task and publishes events about it.
pub mod Frame
pub mod Terminal
use ttasks.Common.{
  ℕ, String, Bool, true, false, Option, none, some, List, [], ◌∷◌, ◌++◌, not, if◌then◌else◌,
}
use ttasks.Common.Values.{Float, typed}
use ttasks.Status.{TaskStatus, same}
use ttasks.Errors.{Message, text, was_cancelled, Exn, Result, ok, raise}
use ttasks.Task.{Task, TaskResult, set_result, transition_to}
use ttasks.Events.{
  OutputStream, TaskEventType, persistence_failed, progress, output, TaskEvent, EventBus,
}
use ttasks.Events
use ttasks.Executor.Effects.{Env, Executor, Scene, Action, pure, gets, modify, on_task, ◌>>=◌, ◌>>◌}

-- str(e). The text of a KeyError is the key's.
unfoldable pub str : Exn → Message
str (Exn.task_cancelled m) = m
str (Exn.task_execution_error m p) = m
str (Exn.task_timeout_error m p) = m
str (Exn.type_error m) = m
str (Exn.value_error m) = m
str (Exn.attribute_error m) = m
str (Exn.runtime_error m) = m
str (Exn.key_error k) = Message.key k
str (Exn.exception m) = m
str (Exn.base_exception m) = m

-- A lifecycle event of the task, as `_emit` and `_persist` build it.
abbrev pub lifecycle_event : Task → TaskEventType → Option TaskStatus → Option Message → TaskEvent
lifecycle_event t type previous error = record {
  type = type;
  task_id = t.id;
  task = t;
  previous_status = previous;
  status = t.status;
  error = error;
  progress_percent = none;
  progress_message = none;
  output_stream = none;
  output_chunk = none;
}

module _ {S : Type 0} (env : Env S) where
  -- `self.events.emit(event)`
  unfoldable pub publish : TaskEvent → Action S (Unit {0})
  publish event = modify λ s. record s {
    executor = record s.executor {
      events = Events.emit env.react env.depth s.events event;
      published = s.published ++ event ∷ [];
    };
  }

  -- The `except BaseException` of `_persist`
  unfoldable pub save_failed : Exn → Action S (Unit {0})
  save_failed e = do
    t ← gets (λ s. s.task)
    modify (λ s. record s {
      executor = record s.executor { persistence_errors = s.persistence_errors ++ (t.id, e) ∷ [] };
    })
    publish (lifecycle_event t persistence_failed none (some (str e)))

  -- What `_persist` does with the outcome of `store.tasks.save`
  unfoldable pub saved : S × Option Exn → Action S (Unit {0})
  saved (store, failure) = do
    modify (λ s. record s { executor = record s.executor { store = some store } })
    elim failure [ none ↦ pure tt | some e ↦ save_failed e ]

  -- `_persist`, by the store that the executor has
  unfoldable pub persist_to : Option S → Action S (Unit {0})
  persist_to none = pure tt
  persist_to (some db) = do t ← gets (λ s. s.task); saved (env.save db t)

  -- TaskExecutor._persist
  unfoldable pub persist : Action S (Unit {0})
  persist s = persist_to s.store s

  -- TaskExecutor._emit
  unfoldable pub emit : TaskEventType → Option TaskStatus → Option Message → Action S (Unit {0})
  emit type previous error = do
    persist
    t ← gets (λ s. s.task)
    publish (lifecycle_event t type previous error)

  -- TaskExecutor._emit_progress
  unfoldable pub emit_progress : Option Float → Option String → Action S (Unit {0})
  emit_progress percent message = do
    t ← gets (λ s. s.task)
    publish (record (lifecycle_event t progress none none) {
      progress_percent = percent;
      progress_message = message;
    })

  -- TaskExecutor._emit_output
  unfoldable pub emit_output : OutputStream → String → Action S (Unit {0})
  emit_output stream chunk = do
    t ← gets (λ s. s.task)
    publish (record (lifecycle_event t output none none) {
      output_stream = some stream;
      output_chunk = some chunk;
    })

  -- TaskExecutor._terminalize
  unfoldable pub terminalize :
      TaskResult → TaskStatus → TaskStatus → TaskEventType → Option Message → Action S (Unit {0})
  unfolding set_result same
  terminalize result status previous type error = do
    on_task (λ t. ok (set_result t (some result)))
    t ← gets (λ s. s.task)
    if same t.status status then pure tt else on_task (λ u. transition_to u (typed status) error)
    emit type (some previous) error
