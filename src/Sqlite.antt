-- ===== src/Sqlite.antt =====
-- src/ttasks/_sqlite.py: the durable store. Here are the tables, the rows that tasks and results
-- are written to, and the way back; the children have the schema test and the two collections.
-- A statement of SQL is the change of the tables that it makes, or the error that it raises.
pub mod Rows
pub mod Schema
pub mod Tasks
pub mod Graphs
use ttasks.Common.{
  ℕ, String, Bool, true, false, ◌&&◌, Option, none, some, List, [], ltb, not, ◌^◌, if◌then◌else◌,
}
use package.text.Mathlib.Text.{◌==◌}
use ttasks.Common.Dict.{Dict, lookup, insert, erase, has}
use ttasks.Common.Values.{ℤ, pos, negsuc, Float, finite, pos_inf, neg_inf, nan, typed}
use ttasks.Status.{
  TaskStatus, TaskType, pending, running, succeeded, failed, cancelled, blocked, bash, powershell,
  prompt, agent,
}
use ttasks.Errors.{Message, text, Exn, value_error, Result, ok, raise, ◌>>=◌, ◌>>◌, raise_if}
use ttasks.Task.{
  Task, TaskResult, TerminationReason, Raw, exit_code, timeout_reached, cancel_signal,
  handler_error, new_task,
}

-- `TaskStatus.value`
unfoldable pub status_value : TaskStatus → String
status_value pending = "pending"
status_value running = "running"
status_value succeeded = "succeeded"
status_value failed = "failed"
status_value cancelled = "cancelled"
status_value blocked = "blocked"

-- `TaskStatus(value)`
unfoldable pub status_of_value : String → Result TaskStatus
status_of_value v =
    if v == "pending"
    then ok pending
    else if v == "running"
    then ok running
    else if v == "succeeded"
    then ok succeeded
    else if v == "failed"
    then ok failed
    else if v == "cancelled"
    then ok cancelled
    else if v == "blocked"
    then ok blocked
    else raise (value_error (text "not a valid TaskStatus"))

-- `TaskType.value`
unfoldable pub type_value : TaskType → String
type_value bash = "bash"
type_value powershell = "powershell"
type_value prompt = "prompt"
type_value agent = "agent"

-- `TaskType(value)`
unfoldable pub type_of_value : String → Result TaskType
type_of_value v =
    if v == "bash"
    then ok bash
    else if v == "powershell"
    then ok powershell
    else if v == "prompt"
    then ok prompt
    else if v == "agent"
    then ok agent
    else raise (value_error (text "not a valid TaskType"))

-- The standard library's texts for points of time.
pub record Datetime : Type 0 where
  pub isoformat : ℕ → String
  pub fromisoformat : String → Result ℕ

-- A row of `tasks`, without its primary key `id`.
pub record TaskRow : Type 0 where
  pub title : String
  pub description : String
  pub payload : String
  pub type : String
  pub status : String
  pub error : Option Message
  pub timeout : Option Float
  pub blocked_by : Option ℕ
  pub created_at : String

-- A row of `task_results`, without its primary key `task_id`.
pub record ResultRow : Type 0 where
  pub status : String
  pub started_at : String
  pub finished_at : String
  pub duration : Float
  pub output : String
  pub error : Option Message
  pub returncode : Option ℤ
  pub termination_reason : Option TerminationReason

-- A row of `graphs`, without its primary key `id`.
pub record GraphRow : Type 0 where
  pub title : String
  pub created_at : String

-- A row of `graph_tasks`.
pub record MemberRow : Type 0 where
  pub graph_id : ℕ
  pub task_id : ℕ
  pub is_finally : Bool
  pub is_optional : Bool
  pub position : ℕ

-- A row of `graph_dependencies`.
pub record DependencyRow : Type 0 where
  pub graph_id : ℕ
  pub task_id : ℕ
  pub dependency_id : ℕ
  pub position : ℕ

-- The tables. Those whose primary key is one identity are dictionaries.
pub record Database : Type 0 where
  pub tasks : Dict TaskRow
  pub task_results : Dict ResultRow
  pub graphs : Dict GraphRow
  pub graph_tasks : List MemberRow
  pub graph_dependencies : List DependencyRow

abbrev pub empty_database : Database
empty_database = record {
  tasks = [];
  task_results = [];
  graphs = [];
  graph_tasks = [];
  graph_dependencies = [];
}

-- sqlite3.IntegrityError
abbrev pub integrity_error : String → Exn
integrity_error m = Exn.exception (text m)

-- A float as SQLite stores it: nan becomes NULL.
unfoldable pub bind_real : Float → Option Float
bind_real nan = none
bind_real x = some x

unfoldable pub bind_optional_real : Option Float → Option Float
bind_optional_real none = none
bind_optional_real (some x) = bind_real x

-- The whole numbers that SQLite stores, of 64 bits.
unfoldable pub fits_integer : Option ℤ → Bool
fits_integer none = true
fits_integer (some (pos n)) = ltb n (2 ^ 63)
fits_integer (some (negsuc n)) = ltb n (2 ^ 63)

module _ (dt : Datetime) where
  -- _task_values, as the row holds them
  unfoldable pub task_values : Task → TaskRow
  task_values t = record {
    title = t.title;
    description = t.description;
    payload = t.payload;
    type = type_value t.type;
    status = status_value t.status;
    error = t.error;
    timeout = bind_optional_real t.timeout;
    blocked_by = t.blocked_by;
    created_at = dt.isoformat t.created_at;
  }

  -- _result_values, as the row holds them; the duration, which must not be NULL, has been bound
  unfoldable pub result_values : TaskResult → Float → ResultRow
  result_values r duration = record {
    status = status_value r.status;
    started_at = dt.isoformat r.started_at;
    finished_at = dt.isoformat r.finished_at;
    duration = duration;
    output = r.output;
    error = r.error;
    returncode = r.returncode;
    termination_reason = r.termination_reason;
  }

  -- The statement that writes a result: it needs its values to fit and its task to be there
  unfoldable pub upsert_result : Database → TaskResult → Result Database
  upsert_result db r = do
    raise_if (not (fits_integer r.returncode))
        (Exn.exception (text "Python int too large to convert to SQLite INTEGER"))
    elim (bind_real r.duration) [
      | none ↦ raise (integrity_error "NOT NULL constraint failed: task_results.duration")
      | some duration ↦
          if has r.task_id db.tasks
          then ok (record db {
            task_results = insert r.task_id (result_values r duration) db.task_results;
          })
          else raise (integrity_error "FOREIGN KEY constraint failed")
    ]

  -- The second statement of `_upsert_task`
  unfoldable pub write_result : Database → ℕ → Option TaskResult → Result Database
  write_result db id none = ok (record db { task_results = erase id db.task_results })
  write_result db id (some r) = upsert_result db r

  -- _upsert_task. On an exception the transaction around it is rolled back.
  unfoldable pub upsert_task : Database → Task → Result Database
  upsert_task db t =
      write_result (record db { tasks = insert t.id (task_values t) db.tasks }) t.id t.result

  -- _result_from_row
  unfoldable pub result_from_row : ℕ → ResultRow → Result TaskResult
  result_from_row id row = do
    status ← status_of_value row.status
    started ← dt.fromisoformat row.started_at
    finished ← dt.fromisoformat row.finished_at
    ok (record {
      task_id = id;
      status = status;
      started_at = started;
      finished_at = finished;
      duration = row.duration;
      output = row.output;
      error = row.error;
      returncode = row.returncode;
      raw = Raw.none_value;
      termination_reason = row.termination_reason;
    })

  -- _task_from_row
  unfoldable pub task_from_row : ℕ → TaskRow → Option TaskResult → Result Task
  task_from_row id row result = do
    type ← type_of_value row.type
    created ← dt.fromisoformat row.created_at
    t ← new_task row.title row.payload (typed type) row.description row.error row.timeout id created
    status ← status_of_value row.status
    ok (record t { status = status; result = result; blocked_by = row.blocked_by })
