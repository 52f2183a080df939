-- ===== src/Executor/Emission/Terminal.antt =====
-- The terminal write of src/ttasks/_executor.py, `_terminalize`.
use ttasks.Common.{
  ◌≡◌, true, false, ◌||◌, Option, some, [], ◌∷◌, Bool-cases, inl, inr, if◌then◌else◌,
}
use ttasks.Status.{TaskStatus, same, allows}
use ttasks.Errors.{Message, value_error, cannot_transition, raise}
use ttasks.Task.{Task, TaskResult}
use ttasks.Task.Lifecycle.{moved, transition_to-eq_moved, transition_to_cases}
use ttasks.Events.{TaskEventType}
use ttasks.Executor.Effects.{Env, Scene}
use ttasks.Executor.Emission.{terminalize, lifecycle_event}
use ttasks.Executor.Emission.Frame.{Tells, lifecycle, emit_lem}

-- The task that a terminal write leaves.
abbrev pub written : Task → TaskResult → TaskStatus → Option Message → Task
written t result status error =
    if same t.status status
    then record t { result = some result }
    else moved (record t { result = some result }) status error

abbrev pub with_task : {S : Type 0} → Scene S → Task → Scene S
with_task s t = record s { task = t }

module _ {S : Type 0} (env : Env S) where
  -- A terminal write to the status that the task has, or that it may move to, returns, leaves the
  -- written task and publishes its event.
  pub terminalize_lem :
      (s : Scene S) (result : TaskResult) (status previous : TaskStatus) (type : TaskEventType)
      (error : Option Message)
      → (same s.task.status status || allows s.task.status status) ≡ true
      → Tells
          (with_task s (written s.task result status error))
          (lifecycle
            (lifecycle_event (written s.task result status error) type (some previous) error ∷ []))
          (terminalize env result status previous type error s)
  unfolding terminalize
  terminalize_lem s result status previous type error h =
      elim (Bool-cases (same s.task.status status)) [
        | inl e ↦ rw e (emit_lem env type (some previous) error _)
        | inr e ↦ rw e (
            rw
              (transition_to-eq_moved (record s.task { result = some result }) status error
                (rw e at h))
              (emit_lem env type (some previous) error _))
      ]

  -- A terminal write to any other status raises ValueError. It has attached its result, and has not
  -- published anything.
  pub terminalize_refused :
      (s : Scene S) (result : TaskResult) (status previous : TaskStatus) (type : TaskEventType)
      (error : Option Message)
      → (same s.task.status status || allows s.task.status status) ≡ false
      → terminalize env result status previous type error s ≡ (
        raise (value_error (cannot_transition s.task.status status)),
        with_task s (record s.task { result = some result }),
      )
  unfolding terminalize
  terminalize_refused s result status previous type error h =
      elim (Bool-cases (same s.task.status status)) [
        | inl e ↦ cc (rw e at h)
        | inr e ↦ rw e (
            rw (transition_to_cases (record s.task { result = some result }) status error)
              (rw (rw e at h)))
      ]
