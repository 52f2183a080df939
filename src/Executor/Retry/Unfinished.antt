-- ===== src/Executor/Retry/Unfinished.antt =====
-- Actions of src/ttasks/_executor.py that never make a task SUCCEEDED: those of `cancel`, and terminal
-- writes of another status.
use ttasks.Common.{
  ℕ, ◌≡◌, Bool, true, false, ◌||◌, Option, none, arith, Bool-cases, inl, inr, refl, if◌then◌else◌,
}
use ttasks.Status.{TaskStatus, running, succeeded, cancelled, same, allows}
use ttasks.Errors.{Message, Result, ok, raise}
use ttasks.Task.{Task, TaskResult, transition_to, cancel}
use ttasks.Task.Lifecycle.{transition_to_cases, cancel_cases}
use ttasks.Common.Values.{typed}
use ttasks.Events.{TaskEventType}
use ttasks.Executor.Effects.{Env, Scene, Action, pure, on_task, proceed, ◌>>=◌}
use ttasks.Executor.Emission.{terminalize}
use ttasks.Executor.Emission.Terminal.{written, terminalize_lem, terminalize_refused}
use ttasks.Executor.Attempt.{read_clock}
use ttasks.Executor.Cancel.{reap, record_cancelled, cancel_task}
use ttasks.Executor.Retry.{backoff}

abbrev pub Unfinished : {S : Type 0} → Scene S → Type 0
Unfinished s = same s.task.status succeeded ≡ false

-- An action that does not let an unfinished task succeed.
abbrev pub Keeps : {S A : Type 0} → Action S A → Type 0
Keeps {S} m = (s : Scene S) → Unfinished s → Unfinished (m s).1

module _ {S A : Type 0} where
  bind-Keeps :
      {B : Type 0} (m : Action S A) (f : A → Action S B)
      → Keeps m
      → ((a : A) → Keeps (f a))
      → Keeps (m >>= f)
  bind-Keeps m f km kf s h = from (m s).0 (m s).1 (km s h)
    where
      from : (r : Result A) (t : Scene S) → Unfinished t → Unfinished (proceed r f t).1
      from (ok a) t k = kf a t k
      from (raise e) t k = k

  pub if-Keeps : (b : Bool) (m n : Action S A) → Keeps m → Keeps n → Keeps (if b then m else n)
  if-Keeps true m n km kn = km
  if-Keeps false m n km kn = kn

module _ {S : Type 0} where
  cancel-Keeps : Keeps {S = S} (on_task cancel)
  unfolding same
  cancel-Keeps s h = rw (cancel_cases s.task) (ground arith)

  pub start-Keeps : Keeps {S = S} (on_task (λ u. transition_to u (typed running) none))
  unfolding same
  start-Keeps s h = rw (transition_to_cases s.task running none) (ground arith)

  reap-Keeps : (id : ℕ) → Keeps {S = S} (reap id)
  unfolding reap
  reap-Keeps id s h = ground arith

written_unfinished :
    (t : Task) (r : TaskResult) (status : TaskStatus) (e : Option Message)
    → same t.status succeeded ≡ false
    → same status succeeded ≡ false
    → same (written t r status e).status succeeded ≡ false
unfolding same
written_unfinished t r status e h k = ground arith

module _ {S : Type 0} (env : Env S) where
  pub terminalize-Keeps :
      (result : TaskResult) (status previous : TaskStatus) (type : TaskEventType)
      (error : Option Message)
      → same status succeeded ≡ false
      → Keeps (terminalize env result status previous type error)
  terminalize-Keeps result status previous type error k s h =
      elim (Bool-cases (same s.task.status status || allows s.task.status status)) [
        | inl can ↦
            let told = terminalize_lem env s result status previous type error can in
            rw told.frame.same_task (written_unfinished s.task result status error h k)
        | inr cannot ↦ rw (terminalize_refused env s result status previous type error cannot) h
      ]

  pub read_clock-Keeps : Keeps (read_clock env)
  unfolding read_clock
  read_clock-Keeps s h = h

  record_cancelled-Keeps : (previous : TaskStatus) → Keeps (record_cancelled env previous)
  unfolding record_cancelled same
  record_cancelled-Keeps previous =
      bind-Keeps (read_clock env) _ read_clock-Keeps
        (λ now s h. terminalize-Keeps _ cancelled previous _ _ refl s h)

  cancel_task-Keeps : Keeps (cancel_task env)
  unfolding cancel_task
  cancel_task-Keeps s h = rw h (
      bind-Keeps (on_task cancel) _ cancel-Keeps
        (λ u. bind-Keeps (reap s.task.id) _ (reap-Keeps s.task.id) (λ v.
          if-Keeps _ (record_cancelled env s.task.status) (pure tt)
            (record_cancelled-Keeps s.task.status) (λ t k. k)))
        s h)

  pub backoff-Keeps : Keeps (backoff env)
  unfolding backoff
  backoff-Keeps s h = elim (Bool-cases (env.cancelled_between s.calls)) [
    | inl e ↦ rw e (cancel_task-Keeps s h)
    | inr e ↦ rw e h
  ]
