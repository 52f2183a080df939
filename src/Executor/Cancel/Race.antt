-- ===== src/Executor/Cancel/Race.antt =====
-- src/ttasks/_executor.py: a task that SUCCEEDS while `cancel` is under way.
use ttasks.Common.{◌≡◌, refl, true, Option, some, Bool-cases, inl, inr, [], ◌∷◌}
use ttasks.Status.{
  TaskStatus, pending, succeeded, failed, cancelled, blocked, one_of, same, allows, is_sink,
}
use ttasks.Events.{TaskEventType}
use ttasks.Executor.Emission.{terminalize}
use ttasks.Errors.{Message, value_error, cannot_transition, Result, ok, raise}
use ttasks.Task.{TaskResult, cancel}
use ttasks.Task.Lifecycle.{cancel_cases}
use ttasks.Executor.Effects.{Env, Scene}
use ttasks.Executor.Emission.Terminal.{terminalize_refused}
use ttasks.Executor.Attempt.{read_clock}
use ttasks.Executor.Cancel.{reap, is_running, record_cancelled, cancel_from}

-- ValueError was raised, and the task has SUCCEEDED with a CANCELLED result.
pub record IsOverwritten {S : Type 0} (o : Result (Unit {0}) × Scene S) : Type 0 where
  pub raises : o.0 ≡ raise (value_error (cannot_transition succeeded cancelled))
  pub status : o.1.task.status ≡ succeeded
  pub result : TaskResult
  pub attached : o.1.task.result ≡ some result
  pub is_cancelled_result : result.status ≡ cancelled

module _ {S : Type 0} (env : Env S) where
  terminalize_late :
      (result : TaskResult) (previous : TaskStatus) (type : TaskEventType) (error : Option Message)
      (s : Scene S)
      → s.task.status ≡ succeeded
      → result.status ≡ cancelled
      → IsOverwritten (terminalize env result cancelled previous type error s)
  unfolding same allows
  terminalize_late result previous type error s h k =
      let refused = terminalize_refused env s result cancelled previous type error (rw h refl) in
      rw refused (record {
        raises = rw h refl;
        status = h;
        result = result;
        attached = refl;
        is_cancelled_result = k;
      })

  record_cancelled_late :
      (previous : TaskStatus) (s : Scene S)
      → s.task.status ≡ succeeded
      → IsOverwritten (record_cancelled env previous s)
  unfolding record_cancelled read_clock
  record_cancelled_late previous s h = terminalize_late _ previous _ _ _ h refl

  -- Where `cancel` has found a task PENDING, FAILED or BLOCKED, and the task has SUCCEEDED before
  -- `cancel` goes on: it raises ValueError, and puts a CANCELLED result in the place of the result
  -- of the task, which stays SUCCEEDED.
  pub cancel_from_late :
      (previous : TaskStatus) (s : Scene S)
      → one_of previous (pending ∷ failed ∷ blocked ∷ []) ≡ true
      → s.task.status ≡ succeeded
      → IsOverwritten (cancel_from env s.task.id previous s)
  unfolding cancel_from reap is_sink
  cancel_from_late previous s found h =
      let stays : cancel s.task ≡ ok s.task = rw (cancel_cases s.task) (rw h refl) in
      elim (Bool-cases (is_running s.executor s.task.id)) [
        | inl e ↦ rw (stays, e, found) (record_cancelled_late previous _ h)
        | inr e ↦ rw (stays, e, found) (record_cancelled_late previous _ h)
      ]
