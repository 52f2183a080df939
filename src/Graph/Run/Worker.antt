-- ===== src/Graph/Run/Worker.antt =====
-- What the scheduler of src/ttasks/_graph.py needs of the workers, and `execute` of
-- src/ttasks/_executor.py, which they call.
use ttasks.Common.{◌≡◌, ◌≢◌, refl, Option, none, some, false, arith}
use ttasks.Common.Values.{Arg}
use ttasks.Status.{TaskStatus, succeeded, same}
use ttasks.Errors.{Exn, Result, ok, raise}
use ttasks.Executor.Effects.{Env, Scene}
use ttasks.Executor.Context.{RetryPolicy}
use ttasks.Executor.Retry.{execute}
use ttasks.Executor.Retry.Settled.{Settled, returned, raised, execute-Settled}
use ttasks.Graph.Run.Steps.{Worked}

-- The exception that the future of a call has.
abbrev pub exception_of : {A : Type 0} → Result A → Option Exn
exception_of (ok a) = none
exception_of (raise e) = some e

not_succeeded : (st : TaskStatus) → (st ≢ succeeded) → same st succeeded ≡ false
unfolding same
not_succeeded st h = ground arith

pub unfinished : (st : TaskStatus) → same st succeeded ≡ false → st ≢ succeeded
unfolding same
unfinished st h e = cc (rw e at h)

-- A call of `execute` on a task that has not SUCCEEDED does what the scheduler needs of a worker,
-- under every retry policy and for every handler, store and subscriber: the future has no exception
-- exactly when the task has SUCCEEDED.
pub execute-Worked :
    {S : Type 0} (env : Env S) (policy : Option (Arg RetryPolicy)) (s : Scene S)
    → s.task.status ≢ succeeded
    → Worked s.task (execute env policy s).1.task (exception_of (execute env policy s).0)
execute-Worked {S} env policy s h =
    from (execute-Settled env policy s (not_succeeded s.task.status h))
  where
    from :
        Settled (execute env policy s)
        → Worked s.task (execute env policy s).1.task (exception_of (execute env policy s).0)
    from (returned r e₁ e₂ e₃) = record {
      unfinished = h;
      without = λ _. e₂;
      with_success = λ _. rw e₁ refl;
    }
    from (raised e e₁ k) = record {
      unfinished = h;
      without = λ x. absurd (cc (rw e₁ at x));
      with_success = λ x. absurd (unfinished _ k x);
    }
