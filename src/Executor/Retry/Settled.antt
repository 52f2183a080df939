-- ===== src/Executor/Retry/Settled.antt =====
-- How `execute` of src/ttasks/_executor.py ends, over all attempts.
use ttasks.Common.{
  ℕ, zero, suc, ◌≡◌, Bool, ◌||◌, ◌==◌, not, Option, none, some, Bool-cases, Option-cases, inl, inr,
  refl, if◌then◌else◌,
}
use ttasks.Status.{running, succeeded, failed, cancelled, same, allows}
use ttasks.Errors.{no_handler, Exn, Result, ok, raise}
use ttasks.Task.{TaskResult, transition_to, handler_error}
use ttasks.Common.Values.{typed, Arg, of_ℕ}
use ttasks.Events.{TaskEventType}
use ttasks.Executor.Effects.{Env, Scene, Action, pure, throw, on_task, proceed, ◌>>=◌, ◌>>◌}
use ttasks.Executor.Emission.{terminalize}
use ttasks.Executor.Context.{RetryPolicy, resolve_retry_policy}
use ttasks.Executor.Attempt.{bare_result, read_clock, attempt_unhandled, execute_once}
use ttasks.Executor.Attempt.Outcomes.{Ended, success, cancellation, failure, crash, race}
use ttasks.Executor.Attempt.Once.{execute_once-Started}
use ttasks.Executor.Retry.Unfinished.{
  Unfinished, if-Keeps, start-Keeps, terminalize-Keeps, read_clock-Keeps, backoff-Keeps,
}
use ttasks.Executor.Retry.{
  range_length, backoff, unless_cancelled, retry_failed, retry_except, attempts, execute_under,
  execute,
}

-- The two ways to end: a result that the SUCCEEDED task has attached is returned, or an exception is
-- raised and the task has not SUCCEEDED.
pub data Settled {S : Type 0} (o : Result TaskResult × Scene S) : Type 0 where
  returned :
      (r : TaskResult)
      → o.0 ≡ ok r
      → o.1.task.status ≡ succeeded
      → o.1.task.result ≡ some r
      → Settled o
  raised : (e : Exn) → o.0 ≡ raise e → Unfinished o.1 → Settled o

module _ {S A : Type 0} where
  bind-Settled :
      (m : Action S A) (f : A → Action S TaskResult) (s : Scene S)
      → Unfinished (m s).1
      → ((a : A) (t : Scene S) → Unfinished t → Settled (f a t))
      → Settled ((m >>= f) s)
  bind-Settled m f s h kf = from (m s).0 (m s).1 h
    where
      from : (r : Result A) (t : Scene S) → Unfinished t → Settled (proceed r f t)
      from (ok a) t k = kf a t k
      from (raise e) t k = raised e refl k

  refused :
      (m : Action S A) (e : Exn) (s : Scene S)
      → Unfinished (m s).1
      → Settled ((m >>= λ a. throw e) s)
  refused m e s h = bind-Settled m (λ a. throw e) s h (λ a t k. raised e refl k)

module _ {S : Type 0} (env : Env S) where
  attempt_unhandled-Settled : (s : Scene S) → Unfinished s → Settled (attempt_unhandled env s)
  unfolding attempt_unhandled
  attempt_unhandled-Settled s h =
      let message = no_handler s.task.type in
      let result : ℕ → TaskResult = λ now.
        bare_result s.task failed (record { started = now; finished = now; elapsed = of_ℕ 0 })
          (some message) (some handler_error) in
      let write : ℕ → Action S (Unit {0}) = λ now.
        terminalize env (result now) failed s.task.status TaskEventType.failed (some message) in
      let rest : ℕ → Action S TaskResult = λ now. write now >> throw (Exn.value_error message) in
      let start : Action S (Unit {0}) = on_task (λ u. transition_to u (typed running) none) in
      bind-Settled (if allows s.task.status failed then pure tt else start)
        (λ u. read_clock env >>= rest) s
        (if-Keeps (allows s.task.status failed) (pure tt) start (λ t k. k) start-Keeps s h)
        (λ u t k. bind-Settled (read_clock env) rest t (read_clock-Keeps env t k) (λ now t' k'.
          refused (write now) (Exn.value_error message) t' (
            terminalize-Keeps env (result now) failed s.task.status TaskEventType.failed
              (some message) (unfold same in refl) t' k')))

  Ended-Settled : (s : Scene S) (o : Result TaskResult × Scene S) → Ended s o → Settled o
  unfolding same
  Ended-Settled s o (success r e₁ e₂ e₃ e₄ e₅ more) = returned r e₁ e₃ e₅
  Ended-Settled s o (cancellation m r e₁ e₂ e₃ e₄ more) = raised _ e₁ (rw e₃ refl)
  Ended-Settled s o (failure e r e₁ e₂ e₃ e₄ more) = raised _ e₁ (rw e₃ refl)
  Ended-Settled s o (crash m e₁ (inl e₂) e₃ more) = raised _ e₁ (rw e₂ refl)
  Ended-Settled s o (crash m e₁ (inr e₂) e₃ more) = raised _ e₁ (rw e₂ refl)
  Ended-Settled s o (race r e₁ e₂ e₃ e₄ more) = raised _ e₁ (rw e₃ refl)

  execute_once-Settled : (s : Scene S) → Unfinished s → Settled (execute_once env s)
  execute_once-Settled s h = elim (Bool-cases (allows s.task.status running)) [
    | inl can ↦ elim (Option-cases (s.handlers s.task.type)) [
      | inl missing ↦ unfold execute_once in rw (can, missing) (attempt_unhandled-Settled s h)
      | inr (handler, found) ↦
          Ended-Settled _ _ (execute_once-Started env handler s can found).ended
    ]
    | inr cannot ↦ unfold execute_once in rw cannot (raised _ refl h)
  ]

  unless_cancelled-Settled :
      (rest : Action S TaskResult) (s : Scene S)
      → ((t : Scene S) → Unfinished t → Settled (rest t))
      → Unfinished s
      → Settled (unless_cancelled env rest s)
  unfolding unless_cancelled
  unless_cancelled-Settled rest s k h = elim (Bool-cases (same s.task.status cancelled)) [
    | inl e ↦ rw e (raised _ refl h)
    | inr e ↦ rw e (k s h)
  ]

  retry_failed-Settled :
      (last : Bool) (again : Action S TaskResult) (e : Exn) (s : Scene S)
      → ((t : Scene S) → Unfinished t → Settled (again t))
      → Unfinished s
      → Settled (retry_failed env last again e s)
  unfolding retry_failed
  retry_failed-Settled last again e s k h =
      unless_cancelled-Settled _ s
        (λ t h'. elim (Bool-cases (last || not (same t.task.status failed))) [
          | inl stop ↦ rw stop (raised _ refl h')
          | inr go ↦ rw go (
              bind-Settled (backoff env) _ t (backoff-Keeps env t h')
                (λ u t' k'. unless_cancelled-Settled again t' k k'))
        ])
        h

  retry_except-Settled :
      (last : Bool) (again : Action S TaskResult) (e : Exn) (s : Scene S)
      → ((t : Scene S) → Unfinished t → Settled (again t))
      → Unfinished s
      → Settled (retry_except env last again e s)
  unfolding retry_except
  retry_except-Settled last again (Exn.task_cancelled m) s k h = raised _ refl h
  retry_except-Settled last again (Exn.base_exception m) s k h = raised _ refl h
  retry_except-Settled last again e s k h = retry_failed-Settled last again e s k h

  attempts-Settled : (n : ℕ) (s : Scene S) → Unfinished s → Settled (attempts env n s)
  unfolding attempts
  attempts-Settled zero s h = raised _ refl h
  attempts-Settled (suc n) s h = from (execute_once-Settled s h) (attempts-Settled n)
    where
      from :
          Settled (execute_once env s)
          → ((t : Scene S) → Unfinished t → Settled (attempts env n t))
          → Settled (attempts env (suc n) s)
      from (returned r e₁ e₂ e₃) again = rw e₁ (returned r refl e₂ e₃)
      from (raised e e₁ k) again =
          rw e₁ (retry_except-Settled (n == 0) (attempts env n) e _ again k)

  execute_under-Settled :
      (policy : RetryPolicy) (s : Scene S) → Unfinished s → Settled (execute_under env policy s)
  unfolding execute_under
  execute_under-Settled policy s h = elim (Option-cases (s.handlers s.task.type)) [
    | inl missing ↦ rw missing (execute_once-Settled s h)
    | inr (handler, found) ↦ elim (Bool-cases (range_length policy.max_attempts == 1)) [
      | inl once ↦ rw (found, once) (execute_once-Settled s h)
      | inr more ↦ rw (found, more) (attempts-Settled (range_length policy.max_attempts) s h)
    ]
  ]

  -- A call of `execute` on a task that has not SUCCEEDED, under every retry policy and for every
  -- handler, store and subscriber, ends in one of two ways: it returns a result that the task, now
  -- SUCCEEDED, has attached, or it raises and the task has not SUCCEEDED.
  pub execute-Settled :
      (policy : Option (Arg RetryPolicy)) (s : Scene S)
      → Unfinished s
      → Settled (execute env policy s)
  unfolding execute
  execute-Settled policy s h = from (resolve_retry_policy policy)
    where
      from :
          (p : Result RetryPolicy)
          → Settled {S = S} (elim p [ ok q ↦ execute_under env q s | raise e ↦ (raise e, s) ])
      from (ok q) = execute_under-Settled q s h
      from (raise e) = raised e refl h
