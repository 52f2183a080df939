-- ===== src/Errors.antt =====
-- src/ttasks/_exceptions.py, the built-in exceptions that the code raises and the texts that it
-- formats. A text is a string of the source, or the name of a format with the values put into it.
use ttasks.Common.{ℕ, String, Option, Bool, true, false, List}
use ttasks.Common.Values.{ℤ, Float}
use ttasks.Status.{TaskStatus, TaskType}

pub data Message : Type 0 where
  text : String → Message
  -- f"Cannot transition task from {s.value!r} to {t.value!r}"
  cannot_transition : TaskStatus → TaskStatus → Message
  -- f"Cannot execute task with status {s.value!r}"
  cannot_execute : TaskStatus → Message
  -- f"No handler registered for task type {k.value!r}"
  no_handler : TaskType → Message
  -- f"Task {id!r} was cancelled"
  was_cancelled : ℕ → Message
  -- f"Task timed out after {timeout} seconds"
  timed_out_after : Option Float → Message
  -- f"exited with code {returncode}"
  exited_with : ℤ → Message
  -- f"task {title!r} is RUNNING; reset before run()"
  is_running_now : String → Message
  -- f"task {title!r} depends on unregistered task id {id!r}"
  depends_on : String → ℕ → Message
  -- f"scheduler made no progress; stuck={titles!r}"
  made_no_progress : List String → Message
  -- the text of a KeyError
  key : ℕ → Message

-- subprocess.CompletedProcess, which the standard library defines
pub record CompletedProcess : Type 0 where
  pub returncode : ℤ
  pub stdout : Option String
  pub stderr : Option String

-- `TaskCancelled`, `TaskExecutionError` and `TaskTimeoutError` are the source's. `exception` is
-- any other subclass of `Exception`, `base_exception` a `BaseException` that is no `Exception`.
pub data Exn : Type 0 where
  task_cancelled : Message → Exn
  task_execution_error : Message → CompletedProcess → Exn
  task_timeout_error : Message → CompletedProcess → Exn
  type_error value_error attribute_error runtime_error : Message → Exn
  key_error : ℕ → Exn
  exception base_exception : Message → Exn

-- What a call returns or raises.
pub data Result {ℓ} (A : Type ℓ) : Type ℓ where
  ok : A → Result A
  raise : Exn → Result A

infixl 5 ◌>>=◌ ◌>>◌
abbrev pub ◌>>=◌ {ℓ κ} : {A : Type ℓ} {B : Type κ} → Result A → (A → Result B) → Result B
ok a >>= f = f a
raise e >>= f = raise e

abbrev pub ◌>>◌ {ℓ} : {B : Type ℓ} → Result (Unit {0}) → Result B → Result B
m >> k = m >>= λ _. k

-- `if test: raise e`
abbrev pub raise_if : Bool → Exn → Result (Unit {0})
raise_if true e = raise e
raise_if false e = ok tt
