-- ===== src/Sqlite/Tasks.antt =====
-- src/ttasks/_sqlite.py: `SQLiteTaskCollection`. Each method opens one transaction.
pub mod RoundTrip
use ttasks.Common.{
  ℕ, Bool, true, false, not, ◌||◌, Option, none, some, List, [], ◌∷◌, length, keep, ◌==◌,
  if◌then◌else◌,
}
use ttasks.Common.Dict.{Dict, lookup, erase, keys, has}
use ttasks.Common.Values.{Arg, typed, untyped}
use ttasks.Errors.{text, type_error, value_error, key_error, Result, ok, raise, ◌>>=◌}
use ttasks.Task.{Task, TaskResult, cancel}
use ttasks.Store.{Key, object, identity, neither}
use ttasks.Sqlite.{
  Datetime, Database, MemberRow, DependencyRow, TaskRow, ResultRow, upsert_task, result_from_row,
  task_from_row,
}

-- `SELECT id FROM ... ORDER BY created_at, id`, where `precedes` is that order of two rows: the
-- rows are put in one by one.
module _ {R : Type 0} (precedes : R → R → Bool) where
  unfoldable pub put_in_order : R → List R → List R
  put_in_order r [] = r ∷ []
  put_in_order r (x ∷ rows) =
      let rest = put_in_order r rows in if precedes r x then r ∷ x ∷ rows else x ∷ rest

  unfoldable pub order_by : List R → List R
  unfolding put_in_order
  order_by [] = []
  order_by (x ∷ rows) = put_in_order x (order_by rows)

-- The identities of rows
unfoldable pub ids : {R : Type 0} → List (ℕ × R) → List ℕ
ids [] = []
ids ((k, r) ∷ rows) = k ∷ ids rows

-- __iter__
unfoldable pub iterate : (ℕ × TaskRow → ℕ × TaskRow → Bool) → Database → List ℕ
unfolding order_by ids
iterate precedes db = ids (order_by precedes db.tasks)

-- __len__
unfoldable pub size : Database → ℕ
size db = length db.tasks

-- __contains__
unfoldable pub contains : Database → Key Task → Bool
contains db (object t) = has t.id db.tasks
contains db (identity k) = has k db.tasks
contains db neither = false

-- `DELETE FROM tasks WHERE id = ?`, with its cascades
unfoldable pub delete_task : ℕ → Database → Database
unfolding erase
delete_task k db = record db {
  tasks = erase k db.tasks;
  task_results = erase k db.task_results;
  graph_tasks = keep (λ (r : MemberRow). not (r.task_id == k)) db.graph_tasks;
  graph_dependencies =
      keep (λ (r : DependencyRow). not (r.task_id == k || r.dependency_id == k))
        db.graph_dependencies;
}

-- __delitem__
unfoldable pub del_item : Database → ℕ → Result Database
del_item db k = if has k db.tasks then ok (delete_task k db) else raise (key_error k)

module _ (dt : Datetime) where
  -- __setitem__
  unfoldable pub set_item : Database → ℕ → Arg Task → Result Database
  set_item db k untyped = raise (type_error (text "Expected Task"))
  set_item db k (typed t) =
      if k == t.id
      then upsert_task dt db t
      else raise (value_error (text "task_id must match task.id"))

  -- save
  unfoldable pub save : Database → Task → Result Database
  save db t = set_item db t.id (typed t)

  -- `_result_from_row(result_row) if result_row is not None else None`
  unfoldable pub read_result : ℕ → Option ResultRow → Result (Option TaskResult)
  read_result k none = ok none
  read_result k (some row) = do r ← result_from_row dt k row; ok (some r)

  -- __getitem__
  unfoldable pub get_item : Database → ℕ → Result Task
  get_item db k = elim (lookup k db.tasks) [
    | none ↦ raise (key_error k)
    | some row ↦ do result ← read_result k (lookup k db.task_results); task_from_row dt k row result
  ]

  -- cancel: a snapshot is cancelled, and saved
  unfoldable pub cancel_item : Database → ℕ → Result Database
  cancel_item db k = do t ← get_item db k; t' ← cancel t; save db t'
