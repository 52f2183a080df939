-- ===== src/Executor/Submit.antt =====
-- src/ttasks/_executor.py: `submit` and `shutdown`, up to what they hand to the thread pool of Python's
-- library and what they wait for; what its threads do is `_execute_submitted`, and `done_callback` is what
-- the future does in the end. Both methods change the
-- executor under its lock, so that calls of several threads are a sequence. The upstream tasks of
-- `submit` are only handed on, and are left out.
pub mod Sinks
pub mod Cancelled
pub mod Calls
use ttasks.Common.{
  ℕ, ◌+◌, Bool, true, false, Option, none, some, List, [], ◌∷◌, ◌++◌, length, if◌then◌else◌,
}
use ttasks.Common.Values.{Arg, typed, untyped}
use ttasks.Status.{cancelled, same}
use ttasks.Errors.{text, was_cancelled, Exn, type_error, runtime_error, Result, ok, raise}
use ttasks.Task.{TaskResult}
use ttasks.Executor.Effects.{Env, Action, pure, throw, gets, ◌>>=◌, ◌>>◌}
use ttasks.Executor.Context.{RetryPolicy, resolve_retry_policy}
use ttasks.Executor.Retry.{execute_under}
use ttasks.Executor.Cancel.{cancel_task}

-- What one call of `submit` hands to the pool; a task object is a number.
pub record Work : Type 0 where
  pub task : ℕ
  pub policy : RetryPolicy

-- `_closed`, and what has been handed to `_pool` where there is one
pub record Submissions : Type 0 where
  pub is_shutdown : Bool
  pub pool : Option (List Work)

-- The two in `__init__`
abbrev pub no_submissions : Submissions
no_submissions = record { is_shutdown = false; pool = none }

-- What a call of `shutdown` waits for: nothing, `pool.shutdown(wait=True)`, or, in a thread of the
-- pool, the other threads of it
pub data Wait : Type 0 where
  no_wait : Wait
  waits_for waits_for_others : List Work → Wait

-- TaskExecutor._validate_task
unfoldable pub validate_task : Arg ℕ → Result ℕ
validate_task untyped = raise (type_error (text "task must be a Task"))
validate_task (typed t) = ok t

-- The works of the pool that `submit` uses, which it makes where there is none
abbrev pub handed : Option (List Work) → List Work
handed none = []
handed (some ws) = ws

-- The part of `submit` that holds the lock
unfoldable pub enqueue : ℕ → RetryPolicy → Submissions → Result ℕ × Submissions
enqueue t policy s =
    if s.is_shutdown then (raise (runtime_error (text "executor is shut down")), s) else (
      ok (length (handed s.pool)),
      record s { pool = some (handed s.pool ++ record { task = t; policy = policy } ∷ []) },
    )

-- TaskExecutor.submit; the future that it returns is its place among the works of the pool
unfoldable pub submit : Arg ℕ → Option (Arg RetryPolicy) → Submissions → Result ℕ × Submissions
unfolding enqueue validate_task
submit task retry_policy s = elim (validate_task task) [
  | raise e ↦ (raise e, s)
  | ok t ↦ elim (resolve_retry_policy retry_policy) [
    | raise e ↦ (raise e, s)
    | ok policy ↦ enqueue t policy s
  ]
]

-- The part of `shutdown` that holds the lock, with the pool that it takes
unfoldable pub take_pool : Submissions → Option (List Work) × Submissions
take_pool s =
    if s.is_shutdown then (none, s) else (s.pool, record { is_shutdown = true; pool = none })

-- `if pool is not None`
unfoldable pub wait_for : (in_pool : Bool) → Option (List Work) → Wait
wait_for in_pool none = no_wait
wait_for in_pool (some ws) = if in_pool then waits_for_others ws else waits_for ws

-- TaskExecutor.shutdown; `in_pool` says whether the calling thread is one of those of the pool
unfoldable pub shutdown : (in_pool : Bool) → Submissions → Wait × Submissions
unfolding take_pool wait_for
shutdown in_pool s = let (taken, s') = take_pool s in (wait_for in_pool taken, s')

-- TaskExecutor.close
unfoldable pub close : (in_pool : Bool) → Submissions → Wait × Submissions
unfolding shutdown
close in_pool s = shutdown in_pool s

-- TaskExecutor.__exit__
unfoldable pub exit_executor : (in_pool : Bool) → Submissions → Wait × Submissions
unfolding close
exit_executor in_pool s = close in_pool s

module _ {S : Type 0} (env : Env S) where
  -- TaskExecutor._execute_submitted
  unfoldable pub execute_submitted : RetryPolicy → Action S TaskResult
  execute_submitted policy = do
    t ← gets (λ s. s.task)
    if same t.status cancelled
        then throw (Exn.task_cancelled (was_cancelled t.id))
        else execute_under env policy

  -- The callback that `submit` adds to the future, by whether the future has been cancelled
  unfoldable pub done_callback : Bool → Action S (Unit {0})
  done_callback future_cancelled = if future_cancelled then cancel_task env else pure tt
