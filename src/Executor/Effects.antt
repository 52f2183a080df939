-- ===== src/Executor/Effects.antt =====
-- The state of src/ttasks/_executor.py: a `TaskExecutor` and the `Task` that it works on, and
-- actions on the two. An action that raises leaves what it has written before.
use ttasks.Common.{ℕ, String, Bool, Option, List}
use ttasks.Common.Dict.{Dict}
use ttasks.Common.Values.{Float}
use ttasks.Status.{TaskType}
use ttasks.Errors.{Exn, Result, ok, raise}
use ttasks.Task.{Task, Raw, Times}
use ttasks.Events.{OutputStream, TaskEvent, EventBus, React}

-- What a handler reports while it runs.
pub data Report : Type 0 where
  progress_report : Option Float → Option String → Report
  output_report : OutputStream → String → Report

-- How a handler ends.
pub data Outcome : Type 0 where
  returned : Raw → Outcome
  raised : Exn → Outcome

-- One attempt, as far as the executor does not decide it: the clock, the handler, and whether
-- another thread cancels the task while the handler runs (`cancelled_during`) or between the test
-- for cancellation and the terminal write (`cancelled_late`).
pub record Trial : Type 0 where
  pub times : Times
  pub reports : List Report
  pub cancelled_during : Bool
  pub outcome : Outcome
  pub cancelled_late : Bool

-- What the executor uses of the outside: the store's `tasks.save`, which may raise, subscribers, with
-- the depth to which events that they emit are nested,
-- handlers (by number, for a task, on the n-th call of any handler), the clock, and whether another
-- thread cancels the task between two attempts (after the n-th call of a handler).
pub record Env (S : Type 0) : Type 0 where
  pub save : S → Task → S × Option Exn
  pub react : React
  pub depth : ℕ
  pub handle : ℕ → Task → ℕ → Trial
  pub now : ℕ → ℕ
  pub cancelled_between : ℕ → Bool

-- TaskExecutor. `running_processes` says of each process whether it is alive. Three histories are
-- added: the events published so far, the calls of handlers, and the readings of the clock.
pub record Executor (S : Type 0) : Type 0 where
  pub handlers : TaskType → Option ℕ
  pub running_processes : Dict Bool
  pub events : EventBus
  pub store : Option S
  pub persistence_errors : List (ℕ × Exn)
  pub published : List TaskEvent
  pub calls : ℕ
  pub readings : ℕ

-- The executor, and the task object that an action works on.
pub record Scene (S : Type 0) : Type 0 where
  pub executor : Executor S
  pub open executor use *
  pub task : Task

abbrev pub Action : Type 0 → Type 0 → Type 0
Action S A = Scene S → Result A × Scene S

module _ {S A : Type 0} where
  abbrev pub pure : A → Action S A
  pure a s = (ok a, s)

  abbrev pub throw : Exn → Action S A
  throw e s = (raise e, s)

  abbrev pub gets : (Scene S → A) → Action S A
  gets f s = (ok (f s), s)

module _ {S : Type 0} where
  abbrev pub modify : (Scene S → Scene S) → Action S (Unit {0})
  modify f s = (ok tt, f s)

  -- A method of the task that returns it changed, or raises.
  abbrev pub settle : Result Task → Action S (Unit {0})
  settle (ok t) s = (ok tt, record s { task = t })
  settle (raise e) s = (raise e, s)

  -- `task.method(...)`
  abbrev pub on_task : (Task → Result Task) → Action S (Unit {0})
  on_task f s = settle (f s.task) s

module _ {S A B : Type 0} where
  abbrev pub proceed : Result A → (A → Action S B) → Action S B
  proceed (ok a) f s = f a s
  proceed (raise e) f s = (raise e, s)

  infixl 5 ◌>>=◌ ◌>>◌
  abbrev pub ◌>>=◌ : Action S A → (A → Action S B) → Action S B
  ◌>>=◌ m f s = let (r, s') = m s in proceed r f s'

  abbrev pub ◌>>◌ : Action S A → Action S B → Action S B
  m >> n = m >>= λ _. n

module _ {S A : Type 0} where
  -- `try: m` with the handler that `h` gives for an exception; a handler may raise it again.
  abbrev pub caught : Result A → (Exn → Action S A) → Action S A
  caught (ok a) h s = (ok a, s)
  caught (raise e) h s = h e s

  abbrev pub try_except : Action S A → (Exn → Action S A) → Action S A
  try_except m h s = let (r, s') = m s in caught r h s'
