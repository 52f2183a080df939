-- ===== src/Executor/Cancel.antt =====
-- src/ttasks/_executor.py: `cancel`, `mark_blocked`, `register` and `is_running`.
pub mod Race
use ttasks.Common.{ℕ, Bool, true, false, Option, none, some, [], ◌∷◌, is_some, if◌then◌else◌}
use ttasks.Common.Dict.{lookup, insert}
use ttasks.Common.Values.{Arg, typed, untyped, of_ℕ}
use ttasks.Status.{
  TaskStatus, TaskType, bash, powershell, prompt, agent, pending, succeeded, failed, cancelled,
  blocked, same, one_of,
}
use ttasks.Errors.{text, type_error, Result, ok, raise}
use ttasks.Task.{Times, transition_to, cancel, set_blocked_by, cancel_signal}
use ttasks.Events.{TaskEventType}
use ttasks.Executor.Effects.{Env, Executor, Action, pure, gets, modify, on_task, ◌>>=◌, ◌>>◌}
use ttasks.Executor.Emission.{emit, terminalize}
use ttasks.Executor.Attempt.{bare_result, read_clock}

abbrev same_type : TaskType → TaskType → Bool
same_type bash bash = true
same_type powershell powershell = true
same_type prompt prompt = true
same_type agent agent = true
same_type _ _ = false

-- `process is not None and process.poll() is None`
abbrev alive : Option Bool → Bool
alive none = false
alive (some b) = b

module _ {S : Type 0} where
  -- TaskExecutor.register
  unfoldable pub register : Executor S → Arg TaskType → Arg ℕ → Result (Executor S)
  register x untyped handler = raise (type_error (text "task_type must be a TaskType"))
  register x (typed k) untyped = raise (type_error (text "handler must be callable"))
  register x (typed k) (typed h) =
      ok (record x { handlers = λ j. if same_type j k then some h else x.handlers j })

  -- TaskExecutor.is_registered
  unfoldable pub is_registered : Executor S → Arg TaskType → Result Bool
  is_registered x untyped = raise (type_error (text "task_type must be a TaskType"))
  is_registered x (typed k) = ok (is_some (x.handlers k))

  -- TaskExecutor.is_running
  unfoldable pub is_running : Executor S → ℕ → Bool
  unfolding lookup
  is_running x id = alive (lookup id x.running_processes)

  -- `if process is not None and process.poll() is None: self._terminate_process(process)`: after
  -- this the process, if there is one, is not alive
  unfoldable pub reap : ℕ → Action S (Unit {0})
  unfolding insert
  reap id = do
    x ← gets (λ s. s.executor)
    if is_running x id
        then modify (λ s. record s {
          executor = record s.executor { running_processes = insert id false s.running_processes };
        })
        else pure tt

module _ {S : Type 0} (env : Env S) where
  -- The last part of `cancel`, for a task that was not being run
  unfoldable pub record_cancelled : TaskStatus → Action S (Unit {0})
  record_cancelled previous = do
    now ← read_clock env
    t ← gets (λ s. s.task)
    let times : Times = record { started = now; finished = now; elapsed = of_ℕ 0 }
    let message = text "cancelled"
    terminalize env (bare_result t cancelled times (some message) (some cancel_signal)) cancelled
        previous TaskEventType.cancelled (some message)

  -- `cancel` from `task.cancel()` on, with `previous` read: other threads may have done more to the
  -- task in between
  unfoldable pub cancel_from : (id : ℕ) → (previous : TaskStatus) → Action S (Unit {0})
  unfolding one_of
  cancel_from id previous = do
    on_task cancel
    reap id
    if one_of previous (pending ∷ failed ∷ blocked ∷ []) then record_cancelled previous else pure tt

  -- TaskExecutor.cancel, where no other thread comes in between
  unfoldable pub cancel_task : Action S (Unit {0})
  unfolding same cancel_from
  cancel_task = do
    t ← gets (λ s. s.task)
    if same t.status succeeded then pure tt else cancel_from t.id t.status

  -- TaskExecutor.mark_blocked
  unfoldable pub mark_blocked : Option ℕ → Action S (Unit {0})
  mark_blocked parent = do
    previous ← gets (λ s. s.task.status)
    on_task (λ t. transition_to t (typed blocked) none)
    on_task (λ t. ok (set_blocked_by t parent))
    emit env TaskEventType.blocked (some previous) none
