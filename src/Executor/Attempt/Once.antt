-- ===== src/Executor/Attempt/Once.antt =====
-- What a caller of `_execute_once` of src/ttasks/_executor.py can rely on.
use ttasks.Common.{ℕ, ◌+◌, ◌≡◌, ap, true, none, some, [], ◌∷◌}
use ttasks.Status.{running, allows}
use ttasks.Errors.{Result}
use ttasks.Task.{TaskResult}
use ttasks.Task.Lifecycle.{moved, transition_to-eq_moved}
use ttasks.Events.{TaskEventType}
use ttasks.Executor.Effects.{Env, Scene}
use ttasks.Executor.Emission.{emit}
use ttasks.Executor.Emission.Frame.{Adds, lifecycle, emit_lem}
use ttasks.Executor.Emission.Terminal.{with_task}
use ttasks.Executor.Attempt.{attempt_handled, execute_once}
use ttasks.Executor.Attempt.Outcomes.{Ended}
use ttasks.Executor.Attempt.Ending.{attempt-Ended}
use ttasks.Executor.Attempt.Quiet.{attempt-Quiet}

-- An attempt that has been started: the scene in which the handler is called, and how it ends.
pub record Started {S : Type 0} (s : Scene S) (o : Result TaskResult × Scene S) : Type 0 where
  pub called : Scene S
  pub clean : called.task ≡ moved s.task running none
  pub counted : called.calls ≡ s.calls + 1
  pub announced : Adds s called ((TaskEventType.started, running) ∷ [])
  pub ended : Ended called o
  pub no_more : o.1.calls ≡ called.calls

module _ {S : Type 0} (env : Env S) where
  attempt_handled-Started :
      (h : ℕ) (s : Scene S)
      → allows s.task.status running ≡ true
      → Started s (attempt_handled env h s)
  unfolding attempt_handled lifecycle
  attempt_handled-Started h s can =
      let r = with_task s (moved s.task running none) in
      let told = emit_lem env TaskEventType.started (some s.task.status) none r in
      let t = (emit env TaskEventType.started (some s.task.status) none r).1 in
      rw (transition_to-eq_moved s.task running none can) (
        rw told.returns (record {
          called = record t { executor = record t.executor { calls = t.calls + 1 } };
          clean = told.frame.same_task;
          counted = ap (λ (n : ℕ). n + 1) told.frame.same_calls;
          announced = told.adds;
          ended = attempt-Ended env _ _ (ap (λ u. u.status) told.frame.same_task);
          no_more = attempt-Quiet env (env.handle h t.task t.calls) _;
        }))

  pub execute_once-Started :
      (h : ℕ) (s : Scene S)
      → allows s.task.status running ≡ true
      → s.handlers s.task.type ≡ some h
      → Started s (execute_once env s)
  unfolding execute_once
  execute_once-Started h s can found = rw (can, found) (attempt_handled-Started h s can)
