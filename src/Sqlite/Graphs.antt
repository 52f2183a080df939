-- ===== src/Sqlite/Graphs.antt =====
-- src/ttasks/_sqlite.py: `SQLiteGraphCollection`. A graph is saved in one transaction, which an
-- exception rolls back; it is loaded from its own rows and from those of its tasks.
pub mod Ordering
pub mod Upserted
pub mod Inserted
pub mod Grouped
pub mod Loading
pub mod Loaded
pub mod Storable
pub mod RoundTrip
use ttasks.Common.{
  ℕ, suc, Bool, true, false, not, ◌&&◌, ◌||◌, none, some, List, [], ◌∷◌, ◌++◌, map, length, any,
  keep, ltb, ◌==◌, if◌then◌else◌,
}
use ttasks.Common.Dict.{Dict, lookup, insert, erase, keys, has}
use ttasks.Common.Values.{Arg, typed, untyped}
use ttasks.Errors.{
  text, type_error, value_error, key_error, Result, ok, raise, ◌>>=◌, ◌>>◌, raise_if,
}
use ttasks.Task.{Task}
use ttasks.Graph.{TaskGraph, new_graph, add}
use ttasks.Graph.Views.{is_finally, is_optional}
use ttasks.Store.{Key, object, identity, neither}
use ttasks.Sqlite.{
  Datetime, Database, GraphRow, MemberRow, DependencyRow, upsert_task, integrity_error,
}
use ttasks.Sqlite.Tasks
use ttasks.Sqlite.Tasks.{order_by, ids}

-- `[self._tasks[tid] for tid in tids]`, which raises KeyError where a task is missing
unfoldable pub tasks_at : Dict Task → List ℕ → Result (List Task)
tasks_at tasks [] = ok []
tasks_at tasks (tid ∷ tids) = elim (lookup tid tasks) [
  | none ↦ raise (key_error tid)
  | some t ↦ do rest ← tasks_at tasks tids; ok (t ∷ rest)
]

-- `graph.dependencies(task)`
unfoldable pub dependencies_of : TaskGraph → Task → Result (List Task)
dependencies_of g t = elim (lookup t.id g.deps) [
  | none ↦ raise (key_error t.id)
  | some tids ↦ tasks_at g.tasks tids
]

-- The rows of one graph
abbrev pub of_graph : ℕ → MemberRow → Bool
of_graph id r = r.graph_id == id

abbrev pub edge_of_graph : ℕ → DependencyRow → Bool
edge_of_graph id r = r.graph_id == id

-- The insertion into `graphs`, and the deletions of the old rows
unfoldable pub write_graph : Database → ℕ → GraphRow → Database
unfolding insert
write_graph db id row = record db {
  graphs = insert id row db.graphs;
  graph_tasks = keep (λ r. not (of_graph id r)) db.graph_tasks;
  graph_dependencies = keep (λ r. not (edge_of_graph id r)) db.graph_dependencies;
}

-- The primary key of a row of `graph_tasks` is taken
abbrev pub member_taken : Database → MemberRow → Bool
member_taken db r =
    any (λ (o : MemberRow). o.graph_id == r.graph_id && o.task_id == r.task_id) db.graph_tasks

-- What a row of `graph_tasks` refers to is there.
abbrev pub member_refers : Database → MemberRow → Bool
member_refers db r = has r.graph_id db.graphs && has r.task_id db.tasks

-- The primary key of a row of `graph_dependencies` is taken
abbrev pub dependency_taken : Database → DependencyRow → Bool
dependency_taken db r =
    any
      (λ (o : DependencyRow).
        o.graph_id == r.graph_id && o.task_id == r.task_id && o.dependency_id == r.dependency_id)
      db.graph_dependencies

-- What a row of `graph_dependencies` refers to is there.
abbrev pub dependency_refers : Database → DependencyRow → Bool
dependency_refers db r =
    has r.graph_id db.graphs && has r.task_id db.tasks && has r.dependency_id db.tasks

-- `INSERT INTO graph_tasks`
unfoldable pub insert_member : Database → MemberRow → Result Database
insert_member db r = do
  raise_if (member_taken db r)
      (integrity_error "UNIQUE constraint failed: graph_tasks.graph_id, graph_tasks.task_id")
  raise_if (not (member_refers db r)) (integrity_error "FOREIGN KEY constraint failed")
  ok (record db { graph_tasks = db.graph_tasks ++ r ∷ [] })

-- `INSERT INTO graph_dependencies`
unfoldable pub insert_dependency : Database → DependencyRow → Result Database
insert_dependency db r = do
  raise_if (dependency_taken db r) (integrity_error "UNIQUE constraint failed: graph_dependencies")
  raise_if (not (dependency_refers db r)) (integrity_error "FOREIGN KEY constraint failed")
  ok (record db { graph_dependencies = db.graph_dependencies ++ r ∷ [] })

-- The loop over `enumerate(members)`
unfoldable pub insert_members : Database → TaskGraph → List Task → (position : ℕ) → Result Database
unfolding insert_member
insert_members db g [] position = ok db
insert_members db g (t ∷ ts) position =
    insert_member db (record {
      graph_id = g.id;
      task_id = t.id;
      is_finally = is_finally g t;
      is_optional = is_optional g t;
      position = position;
    })
    >>= λ db'. insert_members db' g ts (suc position)

-- The inner loop over `enumerate(graph.dependencies(task))`
unfoldable pub insert_edges :
    Database → (graph_id task_id : ℕ) → List Task → (position : ℕ) → Result Database
unfolding insert_dependency
insert_edges db graph_id task_id [] position = ok db
insert_edges db graph_id task_id (d ∷ ds) position =
    insert_dependency db
      (record { graph_id = graph_id; task_id = task_id; dependency_id = d.id; position = position })
    >>= λ db'. insert_edges db' graph_id task_id ds (suc position)

-- The loop over the members around it
unfoldable pub insert_all_edges : Database → TaskGraph → List Task → Result Database
unfolding dependencies_of insert_edges
insert_all_edges db g [] = ok db
insert_all_edges db g (t ∷ ts) = do
  deps ← dependencies_of g t
  db' ← insert_edges db g.id t.id deps 0
  insert_all_edges db' g ts

-- `DELETE FROM graphs WHERE id = ?`, with its cascades
unfoldable pub delete_graph : ℕ → Database → Database
unfolding erase
delete_graph id db = record db {
  graphs = erase id db.graphs;
  graph_tasks = keep (λ r. not (of_graph id r)) db.graph_tasks;
  graph_dependencies = keep (λ r. not (edge_of_graph id r)) db.graph_dependencies;
}

-- __delitem__
unfoldable pub del_item : Database → ℕ → Result Database
del_item db k = if has k db.graphs then ok (delete_graph k db) else raise (key_error k)

-- __iter__
unfoldable pub iterate : (ℕ × GraphRow → ℕ × GraphRow → Bool) → Database → List ℕ
unfolding order_by ids
iterate precedes db = ids (order_by precedes db.graphs)

-- __len__
unfoldable pub size : Database → ℕ
size db = length db.graphs

-- __contains__
unfoldable pub contains : Database → Key TaskGraph → Bool
contains db (object g) = has g.id db.graphs
contains db (identity k) = has k db.graphs
contains db neither = false

-- `deps_by_task[task_id].append(dependency_id)`
unfoldable pub append_dependency : ℕ → ℕ → Dict (List ℕ) → Result (Dict (List ℕ))
append_dependency tid dep d = elim (lookup tid d) [
  | none ↦ raise (key_error tid)
  | some deps ↦ ok (insert tid (deps ++ dep ∷ []) d)
]

-- The loop that fills `deps_by_task`
unfoldable pub group_dependencies : List DependencyRow → Dict (List ℕ) → Result (Dict (List ℕ))
group_dependencies [] d = ok d
group_dependencies (r ∷ rows) d =
    append_dependency r.task_id r.dependency_id d >>= λ d'. group_dependencies rows d'

-- `deps_by_task` before the loop
unfoldable pub no_dependencies : List MemberRow → Dict (List ℕ) → Dict (List ℕ)
no_dependencies [] d = d
no_dependencies (r ∷ rows) d = no_dependencies rows (insert r.task_id [] d)

-- The orders of the two queries of `__getitem__`, by the order of identities as texts
module _ (id_before : ℕ → ℕ → Bool) where
  abbrev pub member_before : MemberRow → MemberRow → Bool
  member_before a b =
      ltb a.position b.position || a.position == b.position && id_before a.task_id b.task_id

  abbrev pub dependency_before : DependencyRow → DependencyRow → Bool
  dependency_before a b =
      if a.task_id == b.task_id
      then ltb a.position b.position
        || a.position == b.position && id_before a.dependency_id b.dependency_id
      else id_before a.task_id b.task_id

module _ (dt : Datetime) where
  -- The loop of `_upsert_task` over the members
  unfoldable pub upsert_tasks : Database → List Task → Result Database
  upsert_tasks db [] = ok db
  upsert_tasks db (t ∷ ts) = upsert_task dt db t >>= λ db'. upsert_tasks db' ts

  -- __setitem__
  unfoldable pub set_item : Database → ℕ → Arg TaskGraph → Result Database
  set_item db k untyped = raise (type_error (text "Expected TaskGraph"))
  set_item db k (typed g) =
      if k == g.id
      then (do
        members ← tasks_at g.tasks (keys g.deps)
        db₁ ← upsert_tasks db members
        let db₂ =
            write_graph db₁ g.id
              (record { title = g.title; created_at = dt.isoformat g.created_at })
        db₃ ← insert_members db₂ g members 0
        insert_all_edges db₃ g members)
      else raise (value_error (text "graph_id must match graph.id"))

  -- save
  unfoldable pub save : Database → TaskGraph → Result Database
  save db g = set_item db g.id (typed g)

  -- `[self._tasks[d] for d in ...]`
  unfoldable pub load_tasks : Database → List ℕ → Result (List Task)
  load_tasks db [] = ok []
  load_tasks db (tid ∷ tids) = do t ← Tasks.get_item dt db tid; ts ← load_tasks db tids; ok (t ∷ ts)

  -- The body of the loop over `task_rows`. `add` does not raise after its tests of types.
  unfoldable pub load_member : Database → Dict (List ℕ) → TaskGraph → MemberRow → Result TaskGraph
  load_member db deps_by_task g r = do
    t ← Tasks.get_item dt db r.task_id
    tids ← elim (lookup r.task_id deps_by_task) [
      | none ↦ raise (key_error r.task_id)
      | some ds ↦ ok ds
    ]
    ds ← load_tasks db tids
    let (o, g') =
        if r.is_finally
        then add g (typed t) (map typed ds) (typed true) (typed (not r.is_optional))
        else add g (typed t) (map typed ds) (typed false) (typed true)
    o >> ok g'

  -- The loop over `task_rows`
  unfoldable pub load_members :
      Database → Dict (List ℕ) → TaskGraph → List MemberRow → Result TaskGraph
  load_members db deps_by_task g [] = ok g
  load_members db deps_by_task g (r ∷ rows) =
      load_member db deps_by_task g r >>= λ g'. load_members db deps_by_task g' rows

  module _ (id_before : ℕ → ℕ → Bool) where
    -- __getitem__, of a graph that has its row
    unfoldable pub load_graph : Database → ℕ → GraphRow → Result TaskGraph
    load_graph db id row = do
      let task_rows = order_by (member_before id_before) (keep (of_graph id) db.graph_tasks)
      let dependency_rows =
          order_by (dependency_before id_before) (keep (edge_of_graph id) db.graph_dependencies)
      created ← dt.fromisoformat row.created_at
      g ← new_graph id created (typed row.title)
      deps_by_task ← group_dependencies dependency_rows (no_dependencies task_rows [])
      load_members db deps_by_task g task_rows

    -- __getitem__
    unfoldable pub get_item : Database → ℕ → Result TaskGraph
    get_item db id = elim (lookup id db.graphs) [
      | none ↦ raise (key_error id)
      | some row ↦ load_graph db id row
    ]
