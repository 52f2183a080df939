-- ===== src/Executor/Submit/Sinks.antt =====
-- What the calls of src/ttasks/_executor.py do to a task that is CANCELLED or SUCCEEDED.
use ttasks.Common.{
  ℕ, zero, suc, ◌≡◌, refl, true, false, ◌==◌, [], ◌∷◌, Bool-cases, Option-cases, inl, inr, arith,
}
use ttasks.Status.{
  TaskStatus, pending, blocked, one_of, running, succeeded, failed, cancelled, same, allows,
  is_sink,
}
use ttasks.Errors.{text, was_cancelled, cannot_execute, value_error, Exn, raise}
use ttasks.Executor.Effects.{Env, Scene, Action}
use ttasks.Executor.Context.{RetryPolicy}
use ttasks.Executor.Attempt.{execute_once}
use ttasks.Executor.Retry.{
  range_length, attempts, retry_except, retry_failed, unless_cancelled, execute_under,
}
use ttasks.Executor.Submit.{execute_submitted}

-- An action raises, and changes nothing.
abbrev pub Refuses : {S A : Type 0} → Action S A → Scene S → Type 0
Refuses m s = (e : Exn) × (m s ≡ (raise e, s))

sink_closed : (st : TaskStatus) → is_sink st ≡ true → allows st running ≡ false
unfolding is_sink allows
sink_closed st h = ground arith

sink_not_failed : (st : TaskStatus) → is_sink st ≡ true → same st failed ≡ false
unfolding is_sink same
sink_not_failed st h = ground arith

sink_at_rest :
    (st : TaskStatus) → is_sink st ≡ true → one_of st (pending ∷ failed ∷ blocked ∷ []) ≡ false
unfolding is_sink one_of same
sink_at_rest st h = ground arith

pub sink_succeeded : (st : TaskStatus) → is_sink st ≡ false → same st succeeded ≡ false
unfolding is_sink same
sink_succeeded st h = ground arith

module _ {S : Type 0} (env : Env S) where
  execute_once-sink :
      (s : Scene S)
      → is_sink s.task.status ≡ true
      → execute_once env s ≡ (raise (value_error (cannot_execute s.task.status)), s)
  unfolding execute_once
  execute_once-sink s h = rw (sink_closed s.task.status h) refl

  execute_once-Refuses : (s : Scene S) → is_sink s.task.status ≡ true → Refuses (execute_once env) s
  execute_once-Refuses s h = (value_error (cannot_execute s.task.status), execute_once-sink s h)

  attempts-Refuses :
      (n : ℕ) (s : Scene S) → is_sink s.task.status ≡ true → Refuses (attempts env n) s
  unfolding attempts retry_except retry_failed unless_cancelled
  attempts-Refuses zero s h = (Exn.exception (text "unreachable retry loop exit"), refl)
  attempts-Refuses (suc n) s h = elim (Bool-cases (same s.task.status cancelled)) [
    | inl e ↦ (Exn.task_cancelled (was_cancelled s.task.id), rw (execute_once-sink s h) (rw e refl))
    | inr e ↦ (
      value_error (cannot_execute s.task.status),
      rw (execute_once-sink s h) (rw (e, sink_not_failed s.task.status h) (ground arith)),
    )
  ]

  pub execute_under-Refuses :
      (policy : RetryPolicy) (s : Scene S)
      → is_sink s.task.status ≡ true
      → Refuses (execute_under env policy) s
  unfolding execute_under
  execute_under-Refuses policy s h = elim (Option-cases (s.handlers s.task.type)) [
    | inl e ↦ rw e (execute_once-Refuses s h)
    | inr (handler, e) ↦ elim (Bool-cases (range_length policy.max_attempts == 1)) [
      | inl one ↦ rw (e, one) (execute_once-Refuses s h)
      | inr more ↦ rw (e, more) (attempts-Refuses (range_length policy.max_attempts) s h)
    ]
  ]

  pub execute_submitted-Refuses :
      (policy : RetryPolicy) (s : Scene S)
      → is_sink s.task.status ≡ true
      → Refuses (execute_submitted env policy) s
  unfolding execute_submitted
  execute_submitted-Refuses policy s h = elim (Bool-cases (same s.task.status cancelled)) [
    | inl e ↦ (Exn.task_cancelled (was_cancelled s.task.id), rw e refl)
    | inr e ↦ rw e (execute_under-Refuses policy s h)
  ]

  -- `_execute_submitted` of a task that is CANCELLED or SUCCEEDED, under every retry policy, raises and
  -- does nothing else: it calls no handler, changes neither the task nor the executor, and saves and
  -- publishes nothing. Where the task is CANCELLED it raises TaskCancelled.
  pub execute_submitted_sink :
      (policy : RetryPolicy) (s : Scene S)
      → is_sink s.task.status ≡ true
      → Refuses (execute_submitted env policy) s
        × (s.task.status ≡ cancelled
            → (execute_submitted env policy s).0
              ≡ raise (Exn.task_cancelled (was_cancelled s.task.id)))
  unfolding same execute_submitted
  execute_submitted_sink policy s h = (execute_submitted-Refuses policy s h, λ e. rw e refl)
