-- ===== src/Executor/Submit/Cancelled.antt =====
-- src/ttasks/_executor.py: a future that is cancelled before a thread takes its work.
use ttasks.Common.{
  ◌≡◌, refl, Bool, true, false, Option, [], ◌∷◌, Bool-cases, inl, inr, arith, if◌then◌else◌,
}
use ttasks.Status.{
  TaskStatus, pending, failed, blocked, succeeded, cancelled, one_of, same, is_sink,
}
use ttasks.Errors.{Message, ok}
use ttasks.Task.{TaskResult, cancel}
use ttasks.Task.Lifecycle.{cancel_cases}
use ttasks.Events.{TaskEventType}
use ttasks.Executor.Effects.{Env, Scene, pure}
use ttasks.Executor.Context.{RetryPolicy}
use ttasks.Executor.Emission.{terminalize}
use ttasks.Executor.Emission.Terminal.{terminalize_lem}
use ttasks.Executor.Attempt.{read_clock}
use ttasks.Executor.Cancel.{cancel_task, cancel_from, reap, record_cancelled, is_running}
use ttasks.Executor.Submit.{execute_submitted, done_callback}
use ttasks.Executor.Submit.Sinks.{Refuses, execute_submitted-Refuses}

sink_at_rest :
    (st : TaskStatus) → is_sink st ≡ true → one_of st (pending ∷ failed ∷ blocked ∷ []) ≡ false
unfolding is_sink one_of same
sink_at_rest st h = ground arith

sink_succeeded : (st : TaskStatus) → is_sink st ≡ false → same st succeeded ≡ false
unfolding is_sink same
sink_succeeded st h = ground arith

module _ {S : Type 0} (env : Env S) where
  -- `cancel` leaves a task in a sink as it is.
  cancel_task-sink :
      (s : Scene S) → is_sink s.task.status ≡ true → (cancel_task env s).1.task ≡ s.task
  unfolding cancel_task cancel_from reap
  cancel_task-sink s h = elim (Bool-cases (same s.task.status succeeded)) [
    | inl e ↦ rw e refl
    | inr e ↦
        let stays : cancel s.task ≡ ok s.task = rw (cancel_cases s.task) (rw h refl) in
        rw (e, stays, sink_at_rest s.task.status h) (ground arith)
  ]

  terminalize-cancelled :
      (s : Scene S) (result : TaskResult) (previous : TaskStatus) (type : TaskEventType)
      (error : Option Message)
      → s.task.status ≡ cancelled
      → (terminalize env result cancelled previous type error s).1.task.status ≡ cancelled
  unfolding same
  terminalize-cancelled s result previous type error h =
      let told = terminalize_lem env s result cancelled previous type error (rw h refl) in
      rw told.frame.same_task (rw h refl)

  record_cancelled-cancelled :
      (previous : TaskStatus) (s : Scene S)
      → s.task.status ≡ cancelled
      → (record_cancelled env previous s).1.task.status ≡ cancelled
  unfolding record_cancelled read_clock
  record_cancelled-cancelled previous s h = terminalize-cancelled _ _ previous _ _ h

  finish-cancelled :
      (b : Bool) (previous : TaskStatus) (s : Scene S)
      → s.task.status ≡ cancelled
      → ((if b then record_cancelled env previous else pure tt) s).1.task.status ≡ cancelled
  finish-cancelled true previous s h = record_cancelled-cancelled previous s h
  finish-cancelled false previous s h = h

  -- `cancel` makes every other task CANCELLED.
  cancel_task-eq_cancelled :
      (s : Scene S) → is_sink s.task.status ≡ false → (cancel_task env s).1.task.status ≡ cancelled
  unfolding cancel_task cancel_from reap
  cancel_task-eq_cancelled s h =
      let moved : cancel s.task ≡ ok (record s.task { status = cancelled }) =
        rw (cancel_cases s.task) (rw h refl) in
      elim (Bool-cases (is_running s.executor s.task.id)) [
        | inl e ↦
            rw (sink_succeeded s.task.status h, moved, e) (finish-cancelled _ s.task.status _ refl)
        | inr e ↦
            rw (sink_succeeded s.task.status h, moved, e) (finish-cancelled _ s.task.status _ refl)
      ]

  called_back_sink : (s : Scene S) → is_sink (done_callback env true s).1.task.status ≡ true
  unfolding is_sink done_callback
  called_back_sink s = elim (Bool-cases (is_sink s.task.status)) [
    | inl e ↦ rw (cancel_task-sink s e) e
    | inr e ↦ rw (cancel_task-eq_cancelled s e) refl
  ]

  -- When the callback of a cancelled future has run, with no other thread at the task meanwhile: the
  -- task is CANCELLED where it was neither CANCELLED nor SUCCEEDED, and else it is as it was; and a
  -- submitted work of it, under every retry policy, raises and does nothing else.
  pub done_callback_lem :
      (s : Scene S) (policy : RetryPolicy)
      → (is_sink s.task.status ≡ false → (done_callback env true s).1.task.status ≡ cancelled)
        × (is_sink s.task.status ≡ true → (done_callback env true s).1.task ≡ s.task)
        × Refuses (execute_submitted env policy) (done_callback env true s).1
  unfolding done_callback
  done_callback_lem s policy = (
    cancel_task-eq_cancelled s,
    cancel_task-sink s,
    execute_submitted-Refuses env policy (done_callback env true s).1 (called_back_sink s),
  )
