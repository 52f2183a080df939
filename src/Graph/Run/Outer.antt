-- ===== src/Graph/Run/Outer.antt =====
-- src/ttasks/_graph.py: `run` and the part of `_run_inner` around its threads, with `_persist_graph`
-- of src/ttasks/_executor.py.
pub mod Saving
use ttasks.Common.{
  ℕ, zero, suc, Bool, true, false, Option, none, some, List, [], ◌∷◌, ◌++◌, map, keep, all, ◌||◌,
  elem, if◌then◌else◌,
}
use ttasks.Common.Dict.{Dict, lookup, keys}
use ttasks.Common.Values.{ℤ, pos, negsuc}
use ttasks.Status.{blocked, same}
use ttasks.Errors.{Exn, text, value_error, runtime_error, made_no_progress, Result, ok, raise, ◌>>◌}
use ttasks.Task.{Task}
use ttasks.Graph.{TaskGraph}
use ttasks.Graph.Validate.{validate}
use ttasks.Graph.Run.{Plan, RunState, finished, all_finished, waiting, no_progress, verdict_at}

-- What `run` uses of the executor: its store and the failures of saving. `attempted` is added: the
-- graphs that were passed to the store.
pub record Saver (S : Type 0) : Type 0 where
  pub store : Option S
  pub graph_persistence_errors : List (ℕ × Exn)
  pub attempted : List TaskGraph

-- A call of `schedule` after its loop: the states in which it asks which tasks are finished, and
-- which futures are done
pub record Look : Type 0 where
  pub asked_finished : RunState
  pub asked_live : RunState

-- What is not decided here: what the store does, which may raise, and what the interleaving of the
-- scheduler, the workers, the callbacks and callers of `cancel` makes of the state until the pool is
-- left, with all calls of `schedule` up to then. No code reads `absent`, the value of `tasks` at identities that have no task.
pub record Outside (S : Type 0) : Type 0 where
  pub save_graph : S → TaskGraph → S × Option Exn
  pub threads : Plan → RunState → List Look × RunState
  pub absent : Task

-- entering_blocked
unfoldable pub entering_blocked : Dict Task → List ℕ
unfolding same
entering_blocked [] = []
entering_blocked ((tid, t) ∷ tasks) =
    let rest = entering_blocked tasks in if same t.status blocked then tid ∷ rest else rest

-- `self._deps[tid]`, of a task that is there
unfoldable pub deps_of : Dict (List ℕ) → ℕ → List ℕ
deps_of deps tid = elim (lookup tid deps) [ none ↦ [] | some ds ↦ ds ]

-- What a run reads of the graph
unfoldable pub plan_of : TaskGraph → Plan
unfolding entering_blocked deps_of
plan_of g = record {
  order = keys g.deps;
  deps = deps_of g.deps;
  is_finally = λ tid. elem tid g.finally_;
  entering_blocked = entering_blocked g.tasks;
}

-- The state in which the pool is opened
unfoldable pub start_of : (absent : Task) → TaskGraph → RunState
start_of absent g = record {
  tasks = λ tid. elim (lookup tid g.tasks) [ none ↦ absent | some t ↦ t ];
  futures = λ tid. none;
  errors = λ tid. none;
}

-- The tasks of the graph, which the threads share, as they left them
unfoldable pub left_tasks : RunState → Dict Task → Dict Task
left_tasks r [] = []
left_tasks r ((tid, t) ∷ tasks) = (tid, r.tasks tid) ∷ left_tasks r tasks

-- `self._errors`, in the order of the tasks
unfoldable pub left_errors : RunState → List ℕ → Dict Exn
left_errors r [] = []
left_errors r (tid ∷ tids) =
    let rest = left_errors r tids in elim (r.errors tid) [ none ↦ rest | some e ↦ (tid, e) ∷ rest ]

-- The graph, whose tasks and errors the threads share
unfoldable pub left_by : TaskGraph → RunState → TaskGraph
unfolding left_tasks left_errors
left_by g r = record g { tasks = left_tasks r g.tasks; errors = left_errors r (keys g.deps) }

-- `scheduler_error`, which each call of `schedule` may extend
unfoldable pub scheduler_errors : Plan → List Look → List Exn
unfolding verdict_at
scheduler_errors plan [] = []
scheduler_errors plan (k ∷ ks) =
    let rest = scheduler_errors plan ks in
    elim (verdict_at plan k.asked_finished k.asked_live) [
      | all_finished ↦ rest
      | waiting ↦ rest
      | no_progress stuck ↦
          runtime_error (made_no_progress (map (λ tid. (k.asked_live.tasks tid).title) stuck))
          ∷ rest
    ]

-- Whether some call of `schedule` has set `done` since all tasks were finished
unfoldable pub any_finished : Plan → List Look → Bool
any_finished plan [] = false
any_finished plan (k ∷ ks) = all (finished k.asked_finished) plan.order || any_finished plan ks

-- The end of `_run_inner`. `none`: `done` is not set.
unfoldable pub conclude_run : Plan → List Look → Option (Result (Unit {0}))
unfolding scheduler_errors any_finished
conclude_run plan ks = elim (scheduler_errors plan ks) [
  | e ∷ es ↦ some (raise e)
  | [] ↦ if any_finished plan ks then some (ok tt) else none
]

-- The part of `_run_inner` with the pool
unfoldable pub run_threads :
    {S : Type 0} → Outside S → TaskGraph → Option (Result (Unit {0})) × TaskGraph
unfolding plan_of start_of left_by conclude_run
run_threads out g =
    let (looks, r) = out.threads (plan_of g) (start_of out.absent g) in
    (conclude_run (plan_of g) looks, left_by g r)

-- _run_inner
unfoldable pub run_inner :
    {S : Type 0} → Outside S → TaskGraph → Option (Result (Unit {0})) × TaskGraph
unfolding run_threads
run_inner out g = elim g.deps [
  | [] ↦ (some (ok tt), record g { errors = [] })
  | _ ∷ _ ↦ run_threads out (record g { errors = [] })
]

-- What `_persist_graph` does with the outcome of `store.graphs.save`. The warning is suppressed
-- where it is turned into an exception.
unfoldable pub graph_saved : {S : Type 0} → TaskGraph → Saver S → S × Option Exn → Saver S
graph_saved g s (db, none) = record s { store = some db; attempted = s.attempted ++ g ∷ [] }
graph_saved g s (db, some e) = record s {
  store = some db;
  attempted = s.attempted ++ g ∷ [];
  graph_persistence_errors = s.graph_persistence_errors ++ (g.id, e) ∷ [];
}

-- TaskExecutor._persist_graph
unfoldable pub persist_graph : {S : Type 0} → Outside S → TaskGraph → Saver S → Saver S
unfolding graph_saved
persist_graph out g s = elim s.store [ none ↦ s | some db ↦ graph_saved g s (out.save_graph db g) ]

-- `max_workers <= 0`
unfoldable pub check_workers : ℤ → Result (Unit {0})
check_workers (pos (suc n)) = ok tt
check_workers _ = raise (value_error (text "max_workers must be greater than 0"))

-- The part of `run` behind the tests: `finally` saves the graph however `_run_inner` ends.
unfoldable pub run_saved :
    {S : Type 0}
    → Outside S
    → TaskGraph
    → Saver S
    → Option (Result (Unit {0})) × TaskGraph × Saver S
unfolding run_inner persist_graph
run_saved out g s =
    let before = persist_graph out g s in
    let (ended, left) = run_inner out g in
    (ended, left, elim ended [ none ↦ before | some _ ↦ persist_graph out left before ])

-- What `run` does when its tests have raised or returned
unfoldable pub run_tested :
    {S : Type 0}
    → Outside S
    → Result (Unit {0})
    → TaskGraph
    → Saver S
    → Option (Result (Unit {0})) × TaskGraph × Saver S
unfolding run_saved
run_tested out (raise e) g s = (some (raise e), g, s)
run_tested out (ok _) g s = run_saved out g s

-- run
unfoldable pub run :
    {S : Type 0}
    → Outside S
    → ℤ
    → TaskGraph
    → Saver S
    → Option (Result (Unit {0})) × TaskGraph × Saver S
unfolding check_workers validate run_tested
run out max_workers g s = run_tested out (check_workers max_workers >> validate g) g s
