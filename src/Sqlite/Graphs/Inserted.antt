-- ===== src/Sqlite/Graphs/Inserted.antt =====
-- The rows of a graph that `__setitem__` of `SQLiteGraphCollection` in src/ttasks/_sqlite.py inserts.
use ttasks.Common.{
  ℕ, suc, ◌≡◌, refl, ap, ◌∙◌, Bool, true, false, ◌&&◌, ◌||◌, List, [], ◌∷◌, ◌++◌, elem, any, arith,
  ◌==◌, append-nil, append_assoc,
}
use ttasks.Common.Dict.{has}
use ttasks.Errors.{ok}
use ttasks.Task.{Task}
use ttasks.Graph.{TaskGraph}
use ttasks.Graph.WellFormed.{nodup}
use ttasks.Graph.Views.{is_finally, is_optional}
use ttasks.Graph.Mapping.{ids}
use ttasks.Graph.Run.Outer.{deps_of}
use ttasks.Sqlite.{Database, MemberRow, DependencyRow}
use ttasks.Sqlite.Graphs.{
  dependencies_of, insert_member, insert_members, insert_dependency, insert_edges, insert_all_edges,
}

-- The row of a member
abbrev pub member_row : TaskGraph → ℕ → ℕ → MemberRow
member_row g k position = record {
  graph_id = g.id;
  task_id = k;
  is_finally = elem k g.finally_;
  is_optional = elem k g.optional;
  position = position;
}

abbrev pub member_rows : TaskGraph → List ℕ → ℕ → List MemberRow
member_rows g [] position = []
member_rows g (k ∷ ks) position = member_row g k position ∷ member_rows g ks (suc position)

abbrev pub edge_rows : (graph_id task_id : ℕ) → List ℕ → ℕ → List DependencyRow
edge_rows graph_id task_id [] position = []
edge_rows graph_id task_id (d ∷ ds) position =
    (record { graph_id = graph_id; task_id = task_id; dependency_id = d; position = position })
    ∷ edge_rows graph_id task_id ds (suc position)

abbrev pub all_edge_rows : TaskGraph → List ℕ → List DependencyRow
all_edge_rows g [] = []
all_edge_rows g (k ∷ ks) = edge_rows g.id k (deps_of g.deps k) 0 ++ all_edge_rows g ks

-- Whether the graph has a row for a task.
abbrev pub has_member : ℕ → ℕ → List MemberRow → Bool
has_member id k rows = any (λ (o : MemberRow). o.graph_id == id && o.task_id == k) rows

abbrev pub has_edges : ℕ → ℕ → List DependencyRow → Bool
has_edges id k rows = any (λ (o : DependencyRow). o.graph_id == id && o.task_id == k) rows

abbrev pub has_edge : ℕ → ℕ → ℕ → List DependencyRow → Bool
has_edge id k d rows =
    any (λ (o : DependencyRow). o.graph_id == id && o.task_id == k && o.dependency_id == d) rows

any-append {ℓ} :
    {A : Type ℓ} (p : A → Bool) (xs ys : List A) → any p (xs ++ ys) ≡ (any p xs || any p ys)
any-append p [] ys = refl
any-append p (x ∷ xs) ys = ground (arith, any-append p xs ys)

any_snoc {ℓ} :
    {A : Type ℓ} (p : A → Bool) (xs : List A) (x : A) → any p (xs ++ x ∷ []) ≡ (any p xs || p x)
any_snoc p [] x = ground arith
any_snoc p (y ∷ xs) x = ground (arith, any_snoc p xs x)

insert_member_lem :
    (db : Database) (g : TaskGraph) (k position : ℕ)
    → has g.id db.graphs ≡ true
    → has k db.tasks ≡ true
    → has_member g.id k db.graph_tasks ≡ false
    → insert_member db (member_row g k position)
      ≡ ok (record db { graph_tasks = db.graph_tasks ++ member_row g k position ∷ [] })
unfolding insert_member
insert_member_lem db g k position h h' free = ground arith

pub insert_members_lem :
    (db : Database) (g : TaskGraph) (ts : List Task) (position : ℕ)
    → has g.id db.graphs ≡ true
    → ((k : ℕ) → elem k (ids ts) ≡ true → has k db.tasks ≡ true)
    → nodup (ids ts) ≡ true
    → ((k : ℕ) → elem k (ids ts) ≡ true → has_member g.id k db.graph_tasks ≡ false)
    → insert_members db g ts position
      ≡ ok (record db { graph_tasks = db.graph_tasks ++ member_rows g (ids ts) position })
unfolding insert_members is_finally is_optional
insert_members_lem db g [] position h h' once free = ground (arith, append-nil db.graph_tasks)
insert_members_lem db g (t ∷ ts) position h h' once free =
    let row = member_row g t.id position in
    rw (insert_member_lem db g t.id position h (h' t.id (ground arith)) (free t.id (ground arith)))
      (insert_members_lem (record db { graph_tasks = db.graph_tasks ++ row ∷ [] }) g ts
          (suc position) h (λ k m. h' k (ground arith)) (ground arith)
          (λ k m. ground (
            arith,
            free k,
            any_snoc (λ (o : MemberRow). o.graph_id == g.id && o.task_id == k) db.graph_tasks row,
          ))
        ∙ ap (λ l. ok (record db { graph_tasks = l }))
            (append_assoc db.graph_tasks (row ∷ []) (member_rows g (ids ts) (suc position))))

insert_dependency_lem :
    (db : Database) (id k d position : ℕ)
    → has id db.graphs ≡ true
    → has k db.tasks ≡ true
    → has d db.tasks ≡ true
    → has_edge id k d db.graph_dependencies ≡ false
    → let r : DependencyRow = record {
      graph_id = id;
      task_id = k;
      dependency_id = d;
      position = position;
    } in
      insert_dependency db r
      ≡ ok (record db { graph_dependencies = db.graph_dependencies ++ r ∷ [] })
unfolding insert_dependency
insert_dependency_lem db id k d position h h' h'' free = ground arith

insert_edges_lem :
    (db : Database) (id k : ℕ) (ds : List Task) (position : ℕ)
    → has id db.graphs ≡ true
    → has k db.tasks ≡ true
    → ((d : ℕ) → elem d (ids ds) ≡ true → has d db.tasks ≡ true)
    → nodup (ids ds) ≡ true
    → ((d : ℕ) → elem d (ids ds) ≡ true → has_edge id k d db.graph_dependencies ≡ false)
    → insert_edges db id k ds position
      ≡ ok (record db {
        graph_dependencies = db.graph_dependencies ++ edge_rows id k (ids ds) position;
      })
unfolding insert_edges
insert_edges_lem db id k [] position h h' stored once free =
    ground (arith, append-nil db.graph_dependencies)
insert_edges_lem db id k (d ∷ ds) position h h' stored once free =
    let row : DependencyRow = record {
      graph_id = id;
      task_id = k;
      dependency_id = d.id;
      position = position;
    } in
    rw
      (insert_dependency_lem db id k d.id position h h' (stored d.id (ground arith))
        (free d.id (ground arith)))
      (insert_edges_lem (record db { graph_dependencies = db.graph_dependencies ++ row ∷ [] }) id k
          ds (suc position) h h' (λ j m. stored j (ground arith)) (ground arith)
          (λ j m. ground (
            arith,
            free j,
            any_snoc
                (λ (o : DependencyRow). o.graph_id == id && o.task_id == k && o.dependency_id == j)
                db.graph_dependencies row,
          ))
        ∙ ap (λ l. ok (record db { graph_dependencies = l }))
            (append_assoc db.graph_dependencies (row ∷ [])
              (edge_rows id k (ids ds) (suc position))))

-- The tasks that a member depends on
pub record HasEdges (g : TaskGraph) (t : Task) : Type 0 where
  pub deps : List Task
  pub returns : dependencies_of g t ≡ ok deps
  pub named : ids deps ≡ deps_of g.deps t.id
  pub once : nodup (ids deps) ≡ true

abbrev pub AllHaveEdges : TaskGraph → List Task → Type 0
AllHaveEdges g [] = Unit {0}
AllHaveEdges g (t ∷ ts) = HasEdges g t × AllHaveEdges g ts

has_edge-has_edges :
    (id k d : ℕ) (rows : List DependencyRow)
    → has_edges id k rows ≡ false
    → has_edge id k d rows ≡ false
has_edge-has_edges id k d [] h = refl
has_edge-has_edges id k d (r ∷ rows) h = ground (arith, has_edge-has_edges id k d rows)

has_edges-edge_rows :
    (id k j : ℕ) (ds : List ℕ) (position : ℕ)
    → k == j ≡ false
    → has_edges id j (edge_rows id k ds position) ≡ false
has_edges-edge_rows id k j [] position h = refl
has_edges-edge_rows id k j (d ∷ ds) position h =
    ground (arith, has_edges-edge_rows id k j ds (suc position))

pub insert_all_edges_lem :
    (db : Database) (g : TaskGraph) (ts : List Task)
    → has g.id db.graphs ≡ true
    → ((k : ℕ) → elem k (ids ts) ≡ true → has k db.tasks ≡ true)
    → ((k d : ℕ)
        → elem k (ids ts) ≡ true
        → elem d (deps_of g.deps k) ≡ true
        → has d db.tasks ≡ true)
    → nodup (ids ts) ≡ true
    → AllHaveEdges g ts
    → ((k : ℕ) → elem k (ids ts) ≡ true → has_edges g.id k db.graph_dependencies ≡ false)
    → insert_all_edges db g ts
      ≡ ok (record db { graph_dependencies = db.graph_dependencies ++ all_edge_rows g (ids ts) })
unfolding insert_all_edges
insert_all_edges_lem db g [] h h' stored once edges free =
    ground (arith, append-nil db.graph_dependencies)
insert_all_edges_lem db g (t ∷ ts) h h' stored once (e, edges) free =
    let rows = edge_rows g.id t.id (deps_of g.deps t.id) 0 in
    let first =
      insert_edges_lem db g.id t.id e.deps 0 h (h' t.id (ground arith))
        (λ d m. stored t.id d (ground arith) (rw (← e.named) m)) e.once
        (λ d m. has_edge-has_edges g.id t.id d db.graph_dependencies (free t.id (ground arith))) in
    rw e.returns (
      rw first (
        rw e.named (
          insert_all_edges_lem (record db { graph_dependencies = db.graph_dependencies ++ rows }) g
            ts h (λ k m. h' k (ground arith)) (λ k d m n. stored k d (ground arith) n)
            (ground arith) edges
            (λ k m. ground (
              arith,
              free k,
              has_edges-edge_rows g.id t.id k (deps_of g.deps t.id) 0,
              any-append (λ (o : DependencyRow). o.graph_id == g.id && o.task_id == k)
                  db.graph_dependencies rows,
            ))
          ∙ ap (λ l. ok (record db { graph_dependencies = l }))
              (append_assoc db.graph_dependencies rows (all_edge_rows g (ids ts))))))
