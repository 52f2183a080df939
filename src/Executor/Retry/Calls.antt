-- ===== src/Executor/Retry/Calls.antt =====
-- How often `execute` of src/ttasks/_executor.py calls handlers.
use ttasks.Common.{
  ℕ, zero, suc, ◌+◌, ◌≤◌, ◌≡◌, sym, subst, Bool, ◌||◌, ◌==◌, not, Option, arith, Bool-cases,
  Option-cases, inl, inr,
}
use ttasks.Common.Values.{Arg}
use ttasks.Status.{TaskStatus, succeeded, failed, cancelled, same}
use ttasks.Errors.{Exn, Result, ok, raise}
use ttasks.Task.{TaskResult, cancel}
use ttasks.Executor.Effects.{Env, Scene, Action, pure, throw, on_task, ◌>>◌}
use ttasks.Executor.Context.{RetryPolicy, resolve_retry_policy}
use ttasks.Executor.Attempt.{read_clock, execute_once}
use ttasks.Executor.Attempt.Calls.{
  Calls, widen, bind-Calls, if-Calls, try-Calls, quiet, on_task-Calls, terminalize-Calls,
  read_clock-Calls, once_unhandled-Calls, execute_once-Calls,
}
use ttasks.Executor.Cancel.{reap, record_cancelled, cancel_task}
use ttasks.Executor.Retry.{
  range_length, backoff, unless_cancelled, retry_failed, retry_except, attempts, execute_under,
  execute,
}

module _ {S : Type 0} where
  reap-Calls : (id : ℕ) → Calls {S = S} (reap id) 0
  unfolding reap
  reap-Calls id s = ground arith

module _ {S : Type 0} (env : Env S) where
  record_cancelled-Calls : (previous : TaskStatus) → Calls (record_cancelled env previous) 0
  unfolding record_cancelled
  record_cancelled-Calls previous =
      bind-Calls (read_clock env) _ 0 0 (read_clock-Calls env)
        (λ now s. terminalize-Calls env _ _ _ _ _ s)

  cancel_task-Calls : Calls (cancel_task env) 0
  unfolding cancel_task
  cancel_task-Calls s =
      if-Calls (same s.task.status succeeded) (pure tt) _ 0 quiet
        (bind-Calls (on_task cancel) _ 0 0 (on_task-Calls cancel) (λ _.
          bind-Calls (reap s.task.id) _ 0 0 (reap-Calls s.task.id) (λ _.
            if-Calls _ (record_cancelled env s.task.status) (pure tt) 0
              (record_cancelled-Calls s.task.status) quiet)))
        s

  backoff-Calls : Calls (backoff env) 0
  unfolding backoff
  backoff-Calls s =
      if-Calls (env.cancelled_between s.calls) (cancel_task env) (pure tt) 0 cancel_task-Calls quiet
        s

  module _ (again : Action S TaskResult) (k : ℕ) (bound : Calls again k) where
    unless_cancelled-Calls : Calls (unless_cancelled env again) k
    unfolding unless_cancelled
    unless_cancelled-Calls s =
        if-Calls (same s.task.status cancelled) (throw _) again k (λ t. omega arith) bound s

    retry_failed-Calls : (last : Bool) (e : Exn) → Calls (retry_failed env last again e) k
    unfolding retry_failed unless_cancelled
    retry_failed-Calls last e s =
        if-Calls (same s.task.status cancelled) (throw _) _ k (λ t. omega arith)
          (λ t.
            if-Calls (last || not (same t.task.status failed)) (throw e) _ k (λ u. omega arith)
              (widen (backoff env >> unless_cancelled env again) {j = 0 + k} (omega arith)
                (bind-Calls (backoff env) _ 0 k backoff-Calls (λ _. unless_cancelled-Calls)))
              t)
          s

    retry_except-Calls : (last : Bool) (e : Exn) → Calls (retry_except env last again e) k
    unfolding retry_except
    retry_except-Calls last (Exn.task_cancelled m) s = omega arith
    retry_except-Calls last (Exn.base_exception m) s = omega arith
    retry_except-Calls last e s = retry_failed-Calls last e s

  attempts-Calls : (n : ℕ) → Calls (attempts env n) n
  unfolding attempts
  attempts-Calls zero = quiet
  attempts-Calls (suc n) = widen (attempts env (suc n)) {j = 1 + n} (omega arith) (
      try-Calls (execute_once env) _ 1 n (execute_once-Calls env)
        (retry_except-Calls (attempts env n) n (attempts-Calls n) (n == 0)))

  execute_under-Calls :
      (policy : RetryPolicy) → Calls (execute_under env policy) (range_length policy.max_attempts)
  unfolding execute_under
  execute_under-Calls policy s = elim (Option-cases (s.handlers s.task.type)) [
    | inl missing ↦ rw missing (let l = once_unhandled-Calls env s missing in omega arith)
    | inr (handler, found) ↦ elim (Bool-cases (range_length policy.max_attempts == 1)) [
      | inl once ↦ rw (found, once) (let l = execute_once-Calls env s in grind arith)
      | inr more ↦ rw (found, more) (attempts-Calls (range_length policy.max_attempts) s)
    ]
  ]

  -- Under a policy that is accepted, `execute` calls handlers at most `max_attempts` times in all,
  -- whatever the handlers, the store, subscribers and other threads do.
  pub execute-Calls :
      (policy : Option (Arg RetryPolicy)) (q : RetryPolicy) (s : Scene S)
      → resolve_retry_policy policy ≡ ok q
      → (execute env policy s).1.calls ≤ s.calls + range_length q.max_attempts
  unfolding execute
  execute-Calls policy q s accepted =
      subst
        (λ p.
          (elim p as (λ _. Result TaskResult × Scene S) [
            | ok q' ↦ execute_under env q' s
            | raise e ↦ (raise e, s)
          ]).1.calls
          ≤ s.calls + range_length q.max_attempts)
        (sym accepted) (execute_under-Calls q s)
