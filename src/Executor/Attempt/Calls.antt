-- ===== src/Executor/Attempt/Calls.antt =====
-- How often one attempt of src/ttasks/_executor.py calls handlers.
use ttasks.Common.{
  ℕ, ◌+◌, ◌≤◌, ◌≡◌, Bool, true, false, Option, none, some, arith, Bool-cases, Option-cases, inl,
  inr, if◌then◌else◌,
}
use ttasks.Common.Values.{typed, of_ℕ}
use ttasks.Status.{TaskStatus, running, failed, allows}
use ttasks.Errors.{Message, no_handler, Exn, Result, ok, raise}
use ttasks.Task.{Task, TaskResult, transition_to, handler_error}
use ttasks.Events.{TaskEventType}
use ttasks.Executor.Effects.{Env, Scene, Action, pure, on_task, proceed, caught, ◌>>=◌, try_except}
use ttasks.Executor.Emission.{emit, terminalize}
use ttasks.Executor.Attempt.{
  bare_result, read_clock, attempt_unhandled, attempt_handled, execute_once,
}
use ttasks.Executor.Attempt.Quiet.{
  Quiet, on_task-Quiet, emit-Quiet, terminalize-Quiet, read_clock-Quiet, attempt-Quiet,
}

-- An action that calls handlers at most `n` times.
abbrev pub Calls : {S A : Type 0} → Action S A → ℕ → Type 0
Calls {S} m n = (s : Scene S) → (m s).1.calls ≤ s.calls + n

module _ {S A : Type 0} where
  pub widen : (m : Action S A) {j k : ℕ} → j ≤ k → Calls m j → Calls m k
  widen m le mj s = let l = mj s in omega arith

  pub bind-Calls :
      {B : Type 0} (m : Action S A) (f : A → Action S B) (j k : ℕ)
      → Calls m j
      → ((a : A) → Calls (f a) k)
      → Calls (m >>= f) (j + k)
  bind-Calls m f j k mj fk s = from (m s).0 (m s).1 (mj s)
    where
      from :
          (r : Result A) (t : Scene S)
          → t.calls ≤ s.calls + j
          → (proceed r f t).1.calls ≤ s.calls + (j + k)
      from (ok a) t h = let l = fk a t in omega arith
      from (raise e) t h = omega arith

  pub if-Calls :
      (b : Bool) (m n : Action S A) (k : ℕ) → Calls m k → Calls n k → Calls (if b then m else n) k
  if-Calls true m n k mk nk = mk
  if-Calls false m n k mk nk = nk

  pub try-Calls :
      (m : Action S A) (h : Exn → Action S A) (j k : ℕ)
      → Calls m j
      → ((e : Exn) → Calls (h e) k)
      → Calls (try_except m h) (j + k)
  try-Calls m h j k mj hk s = from (m s).0 (m s).1 (mj s)
    where
      from :
          (r : Result A) (t : Scene S)
          → t.calls ≤ s.calls + j
          → (caught r h t).1.calls ≤ s.calls + (j + k)
      from (ok a) t l = omega arith
      from (raise e) t l = let l' = hk e t in omega arith

module _ {S A : Type 0} where
  -- An action that calls no handler
  pub Quiet-Calls : (m : Action S A) → Quiet m → Calls m 0
  Quiet-Calls m q s = omega (arith, q s)

module _ {S : Type 0} where
  pub quiet : (s : Scene S) → s.calls ≤ s.calls + 0
  quiet s = omega arith

  pub on_task-Calls : (f : Task → Result Task) → Calls {S = S} (on_task f) 0
  on_task-Calls f = Quiet-Calls (on_task f) (on_task-Quiet f)

module _ {S : Type 0} (env : Env S) where
  emit-Calls :
      (type : TaskEventType) (previous : Option TaskStatus) (error : Option Message)
      → Calls (emit env type previous error) 0
  emit-Calls type previous error s =
      Quiet-Calls (emit env type previous error) (emit-Quiet env type previous error) s

  pub terminalize-Calls :
      (result : TaskResult) (status previous : TaskStatus) (type : TaskEventType)
      (error : Option Message)
      → Calls (terminalize env result status previous type error) 0
  terminalize-Calls result status previous type error =
      Quiet-Calls (terminalize env result status previous type error)
        (terminalize-Quiet env result status previous type error)

  pub read_clock-Calls : Calls (read_clock env) 0
  read_clock-Calls = Quiet-Calls (read_clock env) (read_clock-Quiet env)

  attempt_handled-Calls : (h : ℕ) → Calls (attempt_handled env h) 1
  unfolding attempt_handled
  attempt_handled-Calls h s =
      bind-Calls (on_task (λ t. transition_to t (typed running) none)) _ 0 1 (on_task-Calls _)
        (λ _.
          bind-Calls (emit env TaskEventType.started (some s.task.status) none) _ 0 1
            (emit-Calls TaskEventType.started (some s.task.status) none)
            (λ _ t.
              let trial = env.handle h t.task t.calls in
              let called = record t { executor = record t.executor { calls = t.calls + 1 } } in
              omega (arith, attempt-Quiet env trial called)))
        s

  attempt_unhandled-Calls : Calls (attempt_unhandled env) 0
  unfolding attempt_unhandled
  attempt_unhandled-Calls s =
      bind-Calls
        (if allows s.task.status failed
          then pure tt
          else on_task (λ u. transition_to u (typed running) none))
        _ 0 0 (if-Calls (allows s.task.status failed) (pure tt) _ 0 quiet (on_task-Calls _))
        (λ _. bind-Calls (read_clock env) _ 0 0 read_clock-Calls (λ now.
          bind-Calls
            (terminalize env
              (bare_result s.task failed
                (record { started = now; finished = now; elapsed = of_ℕ 0 })
                (some (no_handler s.task.type)) (some handler_error))
              failed s.task.status TaskEventType.failed (some (no_handler s.task.type)))
            _ 0 0 (terminalize-Calls _ _ _ _ _) (λ _. quiet)))
        s

  pub once_unhandled-Calls :
      (s : Scene S) → s.handlers s.task.type ≡ none → (execute_once env s).1.calls ≤ s.calls + 0
  unfolding execute_once
  once_unhandled-Calls s missing = elim (Bool-cases (allows s.task.status running)) [
    | inl can ↦ rw (can, missing) (attempt_unhandled-Calls s)
    | inr cannot ↦ rw cannot (quiet s)
  ]

  pub execute_once-Calls : Calls (execute_once env) 1
  execute_once-Calls s = elim (Option-cases (s.handlers s.task.type)) [
    | inl missing ↦ let l = once_unhandled-Calls s missing in omega arith
    | inr (handler, found) ↦ elim (Bool-cases (allows s.task.status running)) [
      | inl can ↦ unfold execute_once in rw (can, found) (attempt_handled-Calls handler s)
      | inr cannot ↦ unfold execute_once in rw cannot (omega arith)
    ]
  ]
