-- ===== src/Executor/Retry.antt =====
-- src/ttasks/_executor.py: `execute`, which repeats failed attempts under a RetryPolicy.
pub mod Unfinished
pub mod Settled
pub mod Calls
use ttasks.Common.{ℕ, zero, suc, Bool, not, ◌||◌, ◌==◌, Option, none, some, if◌then◌else◌}
use ttasks.Common.Values.{ℤ, pos, negsuc, Arg}
use ttasks.Status.{failed, cancelled, same}
use ttasks.Errors.{text, was_cancelled, Exn, ok, raise}
use ttasks.Task.{TaskResult}
use ttasks.Executor.Effects.{Env, Action, pure, throw, gets, ◌>>=◌, ◌>>◌, try_except}
use ttasks.Executor.Context.{RetryPolicy, resolve_retry_policy}
use ttasks.Executor.Attempt.{execute_once}
use ttasks.Executor.Cancel.{cancel_task}

-- The number of rounds of `range(n)`
abbrev pub range_length : ℤ → ℕ
range_length (pos n) = n
range_length (negsuc n) = 0

module _ {S : Type 0} (env : Env S) where
  -- Another thread calls `cancel` of the executor while it waits for the next attempt, or does not.
  unfoldable pub backoff : Action S (Unit {0})
  backoff s = (if env.cancelled_between s.calls then cancel_task env else pure tt) s

  -- `if task.status == CANCELLED: raise TaskCancelled(...) from None`, and else `rest`
  unfoldable pub unless_cancelled : Action S TaskResult → Action S TaskResult
  unless_cancelled rest = do
    t ← gets (λ s. s.task)
    if same t.status cancelled then throw (Exn.task_cancelled (was_cancelled t.id)) else rest

  -- `except Exception` of the loop; `again` is the next round, and `last` says that there is none
  unfoldable pub retry_failed : Bool → Action S TaskResult → Exn → Action S TaskResult
  retry_failed last again e = unless_cancelled do
    t ← gets (λ s. s.task)
    if last || not (same t.status failed) then throw e else do backoff; unless_cancelled again

  -- The `except` clauses of the loop
  unfoldable pub retry_except : Bool → Action S TaskResult → Exn → Action S TaskResult
  retry_except last again (Exn.task_cancelled m) = throw (Exn.task_cancelled m)
  retry_except last again (Exn.base_exception m) = throw (Exn.base_exception m)
  retry_except last again e = retry_failed last again e

  -- The loop, by the number of rounds left. The AssertionError behind it counts as `exception`.
  unfoldable pub attempts : ℕ → Action S TaskResult
  attempts zero = throw (Exn.exception (text "unreachable retry loop exit"))
  attempts (suc n) =
      try_except (execute_once env)
        (λ e s. let again = attempts n in retry_except (n == 0) again e s)

  -- `execute`, with the policy resolved
  unfoldable pub execute_under : RetryPolicy → Action S TaskResult
  execute_under policy = do
    handler ← gets (λ s. s.handlers s.task.type)
    elim handler [
      | none ↦ execute_once env
      | some h ↦
          if range_length policy.max_attempts == 1
          then execute_once env
          else attempts (range_length policy.max_attempts)
    ]

  -- TaskExecutor.execute
  unfoldable pub execute : Option (Arg RetryPolicy) → Action S TaskResult
  execute retry_policy s = elim (resolve_retry_policy retry_policy) [
    | ok policy ↦ execute_under policy s
    | raise e ↦ (raise e, s)
  ]
