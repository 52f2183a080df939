-- ===== src/Sqlite/Rows.antt =====
-- Rows of src/ttasks/_sqlite.py read back: what `_task_from_row` and `_result_from_row` make of what
-- `_task_values` and `_result_values` wrote.
use ttasks.Common.{
  ℕ, ◌≡◌, refl, Bool, true, not, Option, none, some, arith, Bool-cases, inl, inr, if◌then◌else◌,
}
use ttasks.Common.Values.{Float, le_zero, typed}
use ttasks.Status.{TaskStatus, TaskType}
use ttasks.Errors.{text, value_error, ok, raise}
use ttasks.Task.{Task, TaskResult, Raw, new_task}
use ttasks.Sqlite.{
  status_value, status_of_value, type_value, type_of_value, Datetime, bind_optional_real,
  task_values, result_values, result_from_row, task_from_row,
}

pub status_of_value-status_value : (s : TaskStatus) → status_of_value (status_value s) ≡ ok s
unfolding status_of_value status_value
status_of_value-status_value TaskStatus.pending = refl
status_of_value-status_value TaskStatus.running = refl
status_of_value-status_value TaskStatus.succeeded = refl
status_of_value-status_value TaskStatus.failed = refl
status_of_value-status_value TaskStatus.cancelled = refl
status_of_value-status_value TaskStatus.blocked = refl

pub type_of_value-type_value : (k : TaskType) → type_of_value (type_value k) ≡ ok k
unfolding type_of_value type_value
type_of_value-type_value TaskType.bash = refl
type_of_value-type_value TaskType.powershell = refl
type_of_value-type_value TaskType.prompt = refl
type_of_value-type_value TaskType.agent = refl

-- `datetime.fromisoformat` reads what `isoformat` writes, as the standard library documents.
abbrev pub ReadsBack : Datetime → Type 0
ReadsBack dt = (t : ℕ) → dt.fromisoformat (dt.isoformat t) ≡ ok t

-- The test of `Task.__post_init__` on a timeout.
abbrev pub timeout_ok : Option Float → Bool
timeout_ok none = true
timeout_ok (some x) = not (le_zero x)

-- A result as it comes back.
abbrev pub stored_result : TaskResult → TaskResult
stored_result r = record r { raw = Raw.none_value }

new_task_cases :
    (t : Task) (timeout : Option Float)
    → new_task t.title t.payload (typed t.type) t.description t.error timeout t.id t.created_at ≡ (
        if timeout_ok timeout
        then ok (record t {
          timeout = timeout;
          status = TaskStatus.pending;
          result = none;
          blocked_by = none;
        })
        else raise (value_error (text "timeout must be greater than 0")))
unfolding new_task
new_task_cases t none = refl
new_task_cases t (some x) = ground arith

module _ (dt : Datetime) (reads : ReadsBack dt) where
  pub result_from_row-result_values :
      (r : TaskResult) (duration : Float)
      → result_from_row dt r.task_id (result_values dt r duration)
        ≡ ok (record (stored_result r) { duration = duration })
  unfolding result_from_row result_values
  result_from_row-result_values r duration =
      rw (status_of_value-status_value r.status, reads r.started_at, reads r.finished_at)

  pub task_from_row-task_values :
      (t : Task) (result : Option TaskResult)
      → task_from_row dt t.id (task_values dt t) result ≡ (
          if timeout_ok (bind_optional_real t.timeout)
          then ok (record t { timeout = bind_optional_real t.timeout; result = result })
          else raise (value_error (text "timeout must be greater than 0")))
  unfolding task_from_row task_values
  task_from_row-task_values t result =
      rw (type_of_value-type_value t.type, reads t.created_at)
        (elim (Bool-cases (timeout_ok (bind_optional_real t.timeout))) [
          | inl e ↦
              rw
                (
                  new_task_cases t (bind_optional_real t.timeout),
                  e,
                  status_of_value-status_value t.status,
                )
                refl
          | inr e ↦ rw (new_task_cases t (bind_optional_real t.timeout), e) refl
        ])
