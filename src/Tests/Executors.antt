-- ===== src/Tests/Executors.antt =====
-- Attempts of tasks with a concrete executor.
use ttasks.Common.{ℕ, ◌+◌, ◌≤◌, ◌≡◌, refl, Bool, true, false, none, some, List, [], ◌∷◌}
use ttasks.Status.{
  TaskStatus, pending, running, succeeded, failed, cancelled, same, allows, one_of, is_sink,
}
use ttasks.Errors.{Exn, was_cancelled, raise}
use ttasks.Task.{TaskResult, transition_to, from_raw}
use ttasks.Events.{TaskEventType}
use ttasks.Executor.Effects.{Scene}
use ttasks.Common.Values.{pos, typed, untyped, of_ℕ}
use ttasks.Executor.Emission.{
  emit, persist, persist_to, saved, publish, terminalize, lifecycle_event,
}
use ttasks.Executor.Emission.Terminal.{written, with_task, terminalize_lem}
use ttasks.Executor.Emission.Frame.{lifecycle, Tells, persist_lem}
use ttasks.Executor.Attempt.{
  meddle, send_reports, conclude, attempt_body, write_cancelled, attempt_failed, attempt_except,
  failed_result, attempt_handled, execute_once, bare_result,
}
use ttasks.Executor.Context.{RetryPolicy, resolve_retry_policy}
use ttasks.Executor.Retry.{execute}
use ttasks.Executor.Retry.Calls.{execute-Calls}
use ttasks.Executor.Retry.Settled.{Settled, execute-Settled}
use ttasks.Executor.Cancel.{cancel_from}
use ttasks.Executor.Cancel.Race.{IsOverwritten, cancel_from_late}
use ttasks.Executor.Context.{default_policy}
use ttasks.Executor.Submit.{done_callback, execute_submitted}
use ttasks.Executor.Submit.Sinks.{Refuses, execute_submitted_sink}
use ttasks.Executor.Submit.Cancelled.{done_callback_lem}
use ttasks.Executor.Submit.Calls.{Call, submits}
use ttasks.Tests.Samples.{sample, flaky, scene}

abbrev done : TaskStatus → TaskResult
done s =
    bare_result (sample 1 s) s (record { started = 1; finished = 4; elapsed = of_ℕ 3 }) none none

program : Unit {0}
unfolding execute_once attempt_handled attempt_except attempt_failed write_cancelled attempt_body
    conclude terminalize emit persist persist_to saved publish send_reports meddle transition_to
    from_raw failed_result
program = tt

abbrev cancelled_scene : Scene ℕ
cancelled_scene = scene 1 (sample 1 cancelled)

terminalize_lem_example :
    Tells
      (with_task
        (scene 1 (sample 1 running))
        (written (sample 1 running) (done succeeded) succeeded none))
      (lifecycle (
        lifecycle_event
          (written (sample 1 running) (done succeeded) succeeded none)
          TaskEventType.succeeded
          (some running)
          none
        ∷ []))
      (terminalize flaky
        (done succeeded)
        succeeded
        running
        TaskEventType.succeeded
        none
        (scene 1 (sample 1 running)))
terminalize_lem_example =
    terminalize_lem flaky (scene 1 (sample 1 running)) (done succeeded) succeeded running
      TaskEventType.succeeded none (unfold same allows in refl)

persist_lem_example : Tells cancelled_scene [] (persist flaky cancelled_scene)
persist_lem_example = persist_lem flaky cancelled_scene

-- The second call of the handler succeeds.
execute_once-second : (execute_once flaky (scene 1 (sample 1 failed))).1.task.status ≡ succeeded
unfolding program allows same
execute_once-second = refl

-- At most three attempts, with no time between them.
abbrev three_attempts : RetryPolicy
three_attempts = record { max_attempts = pos 3; backoff = of_ℕ 0 }

execute-Calls_example :
    (execute flaky (some (typed three_attempts)) (scene 0 (sample 1 pending))).1.calls ≤ 0 + 3
execute-Calls_example =
    execute-Calls flaky (some (typed three_attempts)) three_attempts (scene 0 (sample 1 pending))
      (unfold resolve_retry_policy in refl)

execute-Settled_example :
    Settled (execute flaky (some (typed three_attempts)) (scene 0 (sample 1 pending)))
execute-Settled_example =
    execute-Settled flaky (some (typed three_attempts)) (scene 0 (sample 1 pending))
      (unfold same in refl)

-- The task has SUCCEEDED since `cancel` found it PENDING.
cancel_from_late_example :
    IsOverwritten (cancel_from flaky 1 pending (scene 1 (sample 1 succeeded)))
cancel_from_late_example =
    cancel_from_late flaky pending (scene 1 (sample 1 succeeded)) (unfold one_of in refl) refl

execute_submitted_sink_example :
    Refuses (execute_submitted flaky default_policy) (scene 1 (sample 1 cancelled))
    × (◌≡◌ {A = TaskStatus} cancelled cancelled
        → (execute_submitted flaky default_policy (scene 1 (sample 1 cancelled))).0
          ≡ raise (Exn.task_cancelled (was_cancelled 1)))
execute_submitted_sink_example =
    execute_submitted_sink flaky default_policy (scene 1 (sample 1 cancelled))
      (unfold is_sink in refl)

-- Two tasks are submitted, the executor is shut down, and a third is submitted.
abbrev two_submits : List Call
two_submits = submits (typed 1) none ∷ submits untyped none ∷ submits (typed 2) none ∷ []

done_callback_lem_example :
    (◌≡◌ {A = Bool} false false
      → (done_callback flaky true (scene 1 (sample 1 pending))).1.task.status ≡ cancelled)
    × (◌≡◌ {A = Bool} false true
        → (done_callback flaky true (scene 1 (sample 1 pending))).1.task ≡ sample 1 pending)
    × Refuses
        (execute_submitted flaky default_policy)
        (done_callback flaky true (scene 1 (sample 1 pending))).1
unfolding is_sink
done_callback_lem_example = done_callback_lem flaky (scene 1 (sample 1 pending)) default_policy
