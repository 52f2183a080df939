-- ===== src/Executor/Attempt.antt =====
-- src/ttasks/_executor.py: `_execute_once`, one attempt of a task.
pub mod Outcomes
pub mod Ending
pub mod Once
pub mod Quiet
pub mod Calls
use ttasks.Common.{
  ℕ, suc, ◌+◌, String, Bool, true, false, not, Option, none, some, List, [], ◌∷◌, if◌then◌else◌,
}
use ttasks.Common.Values.{ℤ, Float, of_ℕ, typed}
use ttasks.Status.{TaskStatus, pending, running, succeeded, failed, cancelled, same, allows}
use ttasks.Errors.{
  Message, text, cannot_execute, no_handler, was_cancelled, CompletedProcess, Exn, Result, ok,
}
use ttasks.Task.{
  Task, TaskResult, Raw, Times, TerminationReason, from_raw, or_empty, transition_to, cancel,
  cancel_signal, handler_error, exit_code, timeout_reached,
}
use ttasks.Events.{TaskEventType}
use ttasks.Executor.Effects.{
  Report, progress_report, output_report, Outcome, returned, raised, Trial, Env, Executor, Scene,
  Action, pure, throw, gets, modify, settle, on_task, ◌>>=◌, ◌>>◌, try_except,
}
use ttasks.Executor.Emission.{str, emit, emit_progress, emit_output, terminalize}
use ttasks.Executor.Context.{raise_if_cancelled}

-- A result with no more than times, a status, an error and a reason.
abbrev pub bare_result :
    Task → TaskStatus → Times → Option Message → Option TerminationReason → TaskResult
bare_result t status times error reason = record {
  task_id = t.id;
  status = status;
  started_at = times.started;
  finished_at = times.finished;
  duration = times.elapsed;
  output = "";
  error = error;
  returncode = none;
  raw = Raw.none_value;
  termination_reason = reason;
}

-- `completed.stderr or str(e)`
abbrev pub or_message : Option String → Message → Message
or_message none m = m
or_message (some String.[]) m = m
or_message (some (String.◌∷◌ c s)) m = text (String.◌∷◌ c s)

-- The result of a failed attempt, by the exception that ended it.
unfoldable pub failed_result : Task → Times → Exn → TaskResult
unfolding str
failed_result t times (Exn.task_execution_error m p) =
    record (bare_result t failed times (some (or_message p.stderr m)) (some exit_code)) {
      output = or_empty p.stdout;
      returncode = some p.returncode;
      raw = Raw.completed p;
    }
failed_result t times (Exn.task_timeout_error m p) =
    record (bare_result t failed times (some m) (some timeout_reached)) {
      output = or_empty p.stdout;
      returncode = some p.returncode;
      raw = Raw.completed p;
    }
failed_result t times e = bare_result t failed times (some (str e)) (some handler_error)

module _ {S : Type 0} where
  -- Another thread cancels the task at this point, if `b`: a RUNNING task becomes CANCELLED and
  -- nothing else happens.
  unfoldable pub meddle : Bool → Action S (Unit {0})
  meddle b = if b then on_task cancel else pure tt

  -- `datetime.now()`
  unfoldable pub read_clock : Env S → Action S ℕ
  read_clock env s = (
    ok (env.now s.readings),
    record s { executor = record s.executor { readings = s.readings + 1 } },
  )

module _ {S : Type 0} (env : Env S) where
  -- `handler is None`
  unfoldable pub attempt_unhandled : Action S TaskResult
  attempt_unhandled = do
    t ← gets (λ s. s.task)
    let message = no_handler t.type
    if allows t.status failed then pure tt else on_task (λ u. transition_to u (typed running) none)
    finished ← read_clock env
    let times : Times = record { started = finished; finished = finished; elapsed = of_ℕ 0 }
    terminalize env (bare_result t failed times (some message) (some handler_error)) failed t.status
        TaskEventType.failed (some message)
    throw (Exn.value_error message)

  unfoldable pub send_reports : List Report → Action S (Unit {0})
  send_reports [] = pure tt
  send_reports (progress_report p m ∷ rs) = do emit_progress env p m; send_reports rs
  send_reports (output_report o c ∷ rs) = do emit_output env o c; send_reports rs

  -- The body of the `try`, from the end of the handler on
  unfoldable pub conclude : Trial → Outcome → Action S TaskResult
  unfolding raise_if_cancelled
  conclude trial (raised e) = throw e
  conclude trial (returned raw) = do
    t ← gets (λ s. s.task)
    (λ s. (raise_if_cancelled t, s))
    let result = from_raw t raw succeeded trial.times
    meddle trial.cancelled_late
    terminalize env result succeeded running TaskEventType.succeeded none
    pure result

  -- The body of the `try`, from the call of the handler on
  unfoldable pub attempt_body : Trial → Action S TaskResult
  attempt_body trial = do
    send_reports trial.reports
    meddle trial.cancelled_during
    conclude trial trial.outcome

  -- The terminal write of both branches that end in CANCELLED
  unfoldable pub write_cancelled : Trial → Message → Action S (Unit {0})
  write_cancelled trial message = do
    t ← gets (λ s. s.task)
    terminalize env (bare_result t cancelled trial.times (some message) (some cancel_signal))
        cancelled running TaskEventType.cancelled (some message)

  -- `except Exception`, which comes after `except TaskCancelled`
  unfoldable pub attempt_failed : Trial → Exn → Action S TaskResult
  attempt_failed trial e = do
    t ← gets (λ s. s.task)
    if same t.status cancelled
        then (do write_cancelled trial (str e); throw (Exn.task_cancelled (was_cancelled t.id)))
        else do
          meddle trial.cancelled_late
          terminalize env (failed_result t trial.times e) failed running TaskEventType.failed
              (some (str e))
          throw e

  -- The `except` clauses; a BaseException that is no Exception passes them all
  unfoldable pub attempt_except : Trial → Exn → Action S TaskResult
  attempt_except trial (Exn.task_cancelled m) = do
    write_cancelled trial m
    throw (Exn.task_cancelled m)
  attempt_except trial (Exn.base_exception m) = throw (Exn.base_exception m)
  attempt_except trial e = attempt_failed trial e

  -- From `task.transition_to(TaskStatus.RUNNING)` on, with the handler found
  unfoldable pub attempt_handled : ℕ → Action S TaskResult
  attempt_handled handler = do
    previous ← gets (λ s. s.task.status)
    on_task (λ t. transition_to t (typed running) none)
    emit env TaskEventType.started (some previous) none
    trial ← gets (λ s. env.handle handler s.task s.calls)
    modify (λ s. record s { executor = record s.executor { calls = s.calls + 1 } })
    try_except (attempt_body trial) (attempt_except trial)

  -- TaskExecutor._execute_once
  unfoldable pub execute_once : Action S TaskResult
  execute_once = do
    t ← gets (λ s. s.task)
    handler ← gets (λ s. s.handlers t.type)
    if not (allows t.status running)
        then throw (Exn.value_error (cannot_execute t.status))
        else elim handler [ none ↦ attempt_unhandled | some h ↦ attempt_handled h ]
