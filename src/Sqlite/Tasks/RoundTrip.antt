-- ===== src/Sqlite/Tasks/RoundTrip.antt =====
-- Tasks that src/ttasks/_sqlite.py saves and reads again.
use ttasks.Common.{
  ℕ, ◌≡◌, refl, ap, sym, subst, ◌∙◌, Bool, true, false, ◌&&◌, Option, none, some, is_some, arith,
  ◌==◌, ==_refl, ==_iff, if◌then◌else◌,
}
use ttasks.Common.Dict.{lookup, insert, erase, has, lookup-insert, lookup-erase}
use ttasks.Common.Values.{Float, finite, pos_inf, neg_inf, nan}
use ttasks.Errors.{text, key_error, value_error, Result, ok, raise, ◌>>=◌}
use ttasks.Task.{Task, TaskResult}
use ttasks.Sqlite.{
  TaskRow, ResultRow, Datetime, Database, fits_integer, bind_real, bind_optional_real, task_values,
  result_values, upsert_result, write_result, upsert_task, task_from_row,
}
use ttasks.Sqlite.Rows.{
  ReadsBack, timeout_ok, stored_result, result_from_row-result_values, task_from_row-task_values,
}
use ttasks.Sqlite.Tasks.{set_item, save, read_result, get_item}

abbrev pub stored_results : Option TaskResult → Option TaskResult
stored_results none = none
stored_results (some r) = some (stored_result r)

-- A task as it comes back: without the raw value of its result, and with no timeout for nan.
abbrev pub snapshot : Task → Task
snapshot t = record t { timeout = bind_optional_real t.timeout; result = stored_results t.result }

-- The result of a task is one of that task, and its numbers fit into their columns.
abbrev pub result_fits : ℕ → Option TaskResult → Bool
result_fits id none = true
result_fits id (some r) =
    fits_integer r.returncode && is_some (bind_real r.duration) && r.task_id == id

bind_real-some : (x : Float) → is_some (bind_real x) ≡ true → bind_real x ≡ some x
unfolding bind_real
bind_real-some (finite n) h = refl
bind_real-some pos_inf h = refl
bind_real-some neg_inf h = refl
bind_real-some nan h = cc

module _ (dt : Datetime) where
  -- Writing a result changes only the results, and there only the row of the task.
  pub record Wrote (db : Database) (id : ℕ) (result : Option TaskResult) (o : Result Database)
      : Type 0 where
    pub after : Database
    pub returns : o ≡ ok after
    pub same_tasks : after.tasks ≡ db.tasks
    pub same_graphs : after.graphs ≡ db.graphs
    pub same_members : after.graph_tasks ≡ db.graph_tasks
    pub same_edges : after.graph_dependencies ≡ db.graph_dependencies
    pub others : (k : ℕ) → k == id ≡ false → lookup k after.task_results ≡ lookup k db.task_results
    pub reads :
        ReadsBack dt → read_result dt id (lookup id after.task_results) ≡ ok (stored_results result)

  upsert_result_lem :
      (db : Database) (r : TaskResult)
      → has r.task_id db.tasks ≡ true
      → fits_integer r.returncode ≡ true
      → is_some (bind_real r.duration) ≡ true
      → Wrote db r.task_id (some r) (upsert_result dt db r)
  unfolding upsert_result
  upsert_result_lem db r there whole real =
      let e = bind_real-some r.duration real in
      let row = result_values dt r r.duration in
      record {
        after = record db { task_results = insert r.task_id row db.task_results };
        returns = rw (whole, e, there) refl;
        same_tasks = refl;
        same_graphs = refl;
        same_members = refl;
        same_edges = refl;
        others = λ k other. ground (arith, lookup-insert r.task_id k row db.task_results);
        reads = λ back.
            rw (lookup-insert r.task_id r.task_id row db.task_results, ==_refl r.task_id)
              (unfold read_result in rw (result_from_row-result_values dt back r r.duration) refl);
      }

  write_result_lem :
      (db : Database) (id : ℕ) (result : Option TaskResult)
      → has id db.tasks ≡ true
      → result_fits id result ≡ true
      → Wrote db id result (write_result dt db id result)
  unfolding write_result
  write_result_lem db id none there fits = record {
    after = record db { task_results = erase id db.task_results };
    returns = refl;
    same_tasks = refl;
    same_graphs = refl;
    same_members = refl;
    same_edges = refl;
    others = λ k other. ground (arith, lookup-erase id k db.task_results);
    reads = λ back. unfold read_result in ground (arith, lookup-erase id id db.task_results);
  }
  write_result_lem db id (some r) there fits =
      subst (λ k. Wrote db k (some r) (upsert_result dt db r))
        ((==_iff r.task_id id).0 (ground arith))
        (upsert_result_lem db r (rw ((==_iff r.task_id id).0 (ground arith)) there) (ground arith)
          (ground arith))

  -- The database between the two statements of `_upsert_task`.
  abbrev pub between : Database → Task → Database
  between db t = record db { tasks = insert t.id (task_values dt t) db.tasks }

  pub upsert_task_lem :
      (db : Database) (t : Task)
      → result_fits t.id t.result ≡ true
      → Wrote (between db t) t.id t.result (upsert_task dt db t)
  unfolding upsert_task
  upsert_task_lem db t fits =
      write_result_lem (between db t) t.id t.result
        (ground (arith, lookup-insert t.id t.id (task_values dt t) db.tasks)) fits

  read_rows : ℕ → Option TaskRow → Option ResultRow → Result Task
  read_rows k none rr = raise (key_error k)
  read_rows k (some row) rr = read_result dt k rr >>= task_from_row dt k row

  get_item-eq-read_rows :
      (d : Database) (k : ℕ) {tr : Option TaskRow} {rr : Option ResultRow}
      → lookup k d.tasks ≡ tr
      → lookup k d.task_results ≡ rr
      → get_item dt d k ≡ read_rows k tr rr
  unfolding get_item read_rows
  get_item-eq-read_rows d k e f = rw (← e) (rw (← f) (from (lookup k d.tasks)))
    where
      from :
          (o : Option TaskRow)
          → elim o as (λ _. Result Task) [
            | none ↦ raise (key_error k)
            | some row ↦ read_result dt k (lookup k d.task_results) >>= task_from_row dt k row
          ]
            ≡ read_rows k o (lookup k d.task_results)
      from none = refl
      from (some row) = refl

  pub read_back :
      (db : Database) (t : Task) (w : Wrote (between db t) t.id t.result (upsert_task dt db t))
      → ReadsBack dt
      → get_item dt w.after t.id ≡ (
          if timeout_ok (bind_optional_real t.timeout)
          then ok (snapshot t)
          else raise (value_error (text "timeout must be greater than 0")))
  unfolding read_rows
  read_back db t w back =
      get_item-eq-read_rows w.after t.id
        (ap (lookup t.id) w.same_tasks ∙ lookup-insert t.id t.id (task_values dt t) db.tasks) refl
      ∙ rw (==_refl t.id)
          (rw (w.reads back) (task_from_row-task_values dt back t (stored_results t.result)))

  pub read_other :
      (db : Database) (t : Task) (w : Wrote (between db t) t.id t.result (upsert_task dt db t))
      (k : ℕ)
      → k == t.id ≡ false
      → get_item dt w.after k ≡ get_item dt db k
  read_other db t w k other =
      get_item-eq-read_rows w.after k
        (ap (lookup k) w.same_tasks
          ∙ lookup-insert t.id k (task_values dt t) db.tasks
          ∙ rw other refl)
        (w.others k other)
      ∙ sym (get_item-eq-read_rows db k refl refl)

  -- Saving a task whose result fits never raises. What is read back under its identity is its
  -- snapshot, or ValueError if its timeout is not positive; every other task is read as before.
  pub save_get_item :
      (db : Database) (t : Task)
      → ReadsBack dt
      → result_fits t.id t.result ≡ true
      → (db' : Database) × (save dt db t ≡ ok db')
        × (get_item dt db' t.id ≡ (
            if timeout_ok (bind_optional_real t.timeout)
            then ok (snapshot t)
            else raise (value_error (text "timeout must be greater than 0"))))
        × ((k : ℕ) → k == t.id ≡ false → get_item dt db' k ≡ get_item dt db k)
  unfolding save set_item
  save_get_item db t back fits =
      let w = upsert_task_lem db t fits in
      (w.after, rw (==_refl t.id) w.returns, read_back db t w back, read_other db t w)
