-- ===== src/Task.antt =====
-- src/ttasks/_task.py: `Task` and `TaskResult`. A method that changes the task returns the new
-- one, or the exception that it raises before any change. Identities, which are texts that the
-- code only compares, are numbers; so are points of time.
pub mod Lifecycle
pub mod Sealed
pub mod Factories
use ttasks.Common.{
  ℕ, String, Bool, true, false, ◌&&◌, ◌||◌, not, Option, none, some, [], ◌∷◌, ◌==◌, if◌then◌else◌,
}
use ttasks.Common.Values.{ℤ, Float, Arg, typed, untyped, le_zero}
use ttasks.Status.{
  TaskStatus, TaskType, pending, running, succeeded, cancelled, same, one_of, allows,
}
use ttasks.Errors.{
  Message, text, cannot_transition, CompletedProcess, Exn, type_error, value_error, attribute_error,
  Result, ok, raise, ◌>>=◌, ◌>>◌, raise_if,
}

-- TerminationReason
pub data TerminationReason : Type 0 where
  exit_code timeout_reached cancel_signal handler_error : TerminationReason

-- What a handler returns: a finished process, a text, `None`, or any other object.
pub data Raw : Type 0 where
  completed : CompletedProcess → Raw
  string : String → Raw
  none_value : Raw
  other : ℕ → Raw

-- TaskResult
pub record TaskResult : Type 0 where
  pub task_id : ℕ
  pub status : TaskStatus
  pub started_at : ℕ
  pub finished_at : ℕ
  pub duration : Float
  pub output : String
  pub error : Option Message
  pub returncode : Option ℤ
  pub raw : Raw
  pub termination_reason : Option TerminationReason

-- Task
pub record Task : Type 0 where
  pub title : String
  pub payload : String
  pub type : TaskType
  pub description : String
  pub error : Option Message
  pub timeout : Option Float
  pub id : ℕ
  pub created_at : ℕ
  pub status : TaskStatus
  pub result : Option TaskResult
  pub blocked_by : Option ℕ

-- The clock as one attempt reads it.
pub record Times : Type 0 where
  pub started : ℕ
  pub finished : ℕ
  pub elapsed : Float

-- `s or ""`
abbrev pub or_empty : Option String → String
or_empty none = ""
or_empty (some s) = s

-- `s or None`: an empty text counts as false.
abbrev pub or_none : Option String → Option Message
or_none none = none
or_none (some String.[]) = none
or_none (some (String.◌∷◌ c s)) = some (text (String.◌∷◌ c s))

-- TaskResult.from_raw
unfoldable pub from_raw : Task → Raw → TaskStatus → Times → TaskResult
from_raw t raw status times =
    let base : TaskResult = record {
      task_id = t.id;
      status = status;
      started_at = times.started;
      finished_at = times.finished;
      duration = times.elapsed;
      output = "";
      error = none;
      returncode = none;
      raw = none_value;
      termination_reason = none;
    } in
    elim raw [
      | completed p ↦ record base {
        output = or_empty p.stdout;
        error = or_none p.stderr;
        returncode = some p.returncode;
        raw = completed p;
      }
      | string s ↦ record base { output = s; raw = string s }
      | none_value ↦ record base { raw = none_value }
      | other n ↦ record base { raw = other n }
    ]

-- Task.__post_init__, after the fields are set
unfoldable pub post_init : Arg TaskType → Option Float → Result TaskType
post_init untyped timeout = raise (type_error (text "type must be a TaskType"))
post_init (typed k) none = ok k
post_init (typed k) (some limit) =
    if le_zero limit then raise (value_error (text "timeout must be greater than 0")) else ok k

-- The task as the constructor sets it: the fields of `init=False` take their defaults.
abbrev pub fresh_task :
    (title payload : String)
    → TaskType
    → (description : String) → Option Message
    → Option Float
    → (id created_at : ℕ) → Task
fresh_task title payload type description error timeout id created_at = record {
  title = title;
  payload = payload;
  type = type;
  description = description;
  error = error;
  timeout = timeout;
  id = id;
  created_at = created_at;
  status = pending;
  result = none;
  blocked_by = none;
}

-- Task(...)
unfoldable pub new_task :
    (title payload : String)
    → Arg TaskType
    → (description : String) → Option Message
    → Option Float
    → (id created_at : ℕ) → Result Task
unfolding post_init
new_task title payload type description error timeout id created_at =
    post_init type timeout >>= λ k.
    ok (fresh_task title payload k description error timeout id created_at)

-- Task._make, with the identity and the time that the defaults of `Task` draw
unfoldable pub make :
    TaskType
    → (payload title description : String) → Option Float
    → (id created_at : ℕ) → Result Task
unfolding new_task
make type payload title description timeout id created_at =
    new_task title payload (typed type) description none timeout id created_at

-- An assignment `task.name = value`. The fields behind `private_` names begin with an underscore.
pub data Assignment : Type 0 where
  title payload description : String → Assignment
  type : TaskType → Assignment
  error : Option Message → Assignment
  timeout : Option Float → Assignment
  created_at : ℕ → Assignment
  result : Option TaskResult → Assignment
  blocked_by : Option ℕ → Assignment
  private_id : ℕ → Assignment
  private_status : TaskStatus → Assignment
  private_result : Option TaskResult → Assignment
  private_blocked_by : Option ℕ → Assignment

-- `not name.startswith("_")`
abbrev pub is_public : Assignment → Bool
is_public (private_id _) = false
is_public (private_status _) = false
is_public (private_result _) = false
is_public (private_blocked_by _) = false
is_public _ = true

-- super().__setattr__, that is `object.__setattr__`
abbrev pub assign : Task → Assignment → Task
assign t (title v) = record t { title = v }
assign t (payload v) = record t { payload = v }
assign t (description v) = record t { description = v }
assign t (type v) = record t { type = v }
assign t (error v) = record t { error = v }
assign t (timeout v) = record t { timeout = v }
assign t (created_at v) = record t { created_at = v }
assign t (result v) = record t { result = v }
assign t (blocked_by v) = record t { blocked_by = v }
assign t (private_id v) = record t { id = v }
assign t (private_status v) = record t { status = v }
assign t (private_result v) = record t { result = v }
assign t (private_blocked_by v) = record t { blocked_by = v }

-- The last test of `Task.__setattr__`, and the assignment.
unfoldable pub set_unless_succeeded : Task → Assignment → Result Task
unfolding same
set_unless_succeeded t a =
    if is_public a && same t.status succeeded
    then raise (attribute_error (text "SUCCEEDED tasks are immutable"))
    else ok (assign t a)

-- Task.__setattr__, of a task that is constructed
unfoldable pub setattr : Task → Assignment → Result Task
unfolding set_unless_succeeded
setattr t (private_id v) = raise (attribute_error (text "Task._id is immutable"))
setattr t (result v) =
    raise (attribute_error (text "Task.result is read-only; use _set_result() to mutate"))
setattr t (blocked_by v) =
    raise (attribute_error (text "Task.blocked_by is read-only; use _set_blocked_by() to mutate"))
setattr t a = set_unless_succeeded t a

-- Task._set_result
unfoldable pub set_result : Task → Option TaskResult → Task
set_result t r = assign t (private_result r)

-- Task._set_blocked_by
unfoldable pub set_blocked_by : Task → Option ℕ → Task
set_blocked_by t parent = assign t (private_blocked_by parent)

-- Task.__eq__, of two tasks
unfoldable pub task_eq : Task → Task → Bool
task_eq t u = t.id == u.id

-- Task.can_transition_to
unfoldable pub can_transition_to : Task → Arg TaskStatus → Result Bool
unfolding allows
can_transition_to t untyped = raise (type_error (text "status must be a TaskStatus"))
can_transition_to t (typed s) = ok (allows t.status s)

-- The `if status == RUNNING` at the end of `transition_to`.
unfoldable pub clear_run : TaskStatus → Task → Task
unfolding same
clear_run s t =
    if same s running then assign (assign t (private_result none)) (private_blocked_by none) else t

-- The assignments of `transition_to`, once the move is allowed.
unfoldable pub enter : Task → TaskStatus → Option Message → Result Task
unfolding one_of setattr clear_run
enter t s e = do
  let kept = if one_of s (running ∷ succeeded ∷ []) then none else e
  t₁ ← setattr t (error kept)
  t₂ ← setattr t₁ (private_status s)
  ok (clear_run s t₂)

-- Task.transition_to
unfoldable pub transition_to : Task → Arg TaskStatus → Option Message → Result Task
unfolding can_transition_to enter
transition_to t untyped e = raise (type_error (text "status must be a TaskStatus"))
transition_to t (typed s) e = do
  can ← can_transition_to t (typed s)
  if can then enter t s e else raise (value_error (cannot_transition t.status s))

-- Task.cancel
unfoldable pub cancel : Task → Result Task
unfolding one_of transition_to
cancel t =
    if one_of t.status (succeeded ∷ cancelled ∷ [])
    then ok t
    else transition_to t (typed cancelled) t.error
