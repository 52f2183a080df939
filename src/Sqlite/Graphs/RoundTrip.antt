-- ===== src/Sqlite/Graphs/RoundTrip.antt =====
-- Graphs that src/ttasks/_sqlite.py saves and reads again.
use ttasks.Common.{
  ℕ, ◌≡◌, refl, ap, sym, ◌∙◌, subst, Bool, true, some, List, [], ◌∷◌, ◌++◌, elem, keep, arith, ◌==◌,
  ==_iff, ==_refl, Bool-cases, inl, inr,
}
use ttasks.Common.Dict.{Dict, lookup, has, keys, elem-keys, lookup-insert}
use ttasks.Errors.{ok}
use ttasks.Task.{Task}
use ttasks.Graph.{TaskGraph, new_graph}
use ttasks.Graph.WellFormed.{nodup}
use ttasks.Graph.Views.{members, tasks_of}
use ttasks.Graph.Mapping.{ids, tasks_of-ids}
use ttasks.Graph.Run.Outer.{deps_of}
use ttasks.Sqlite.{Datetime, Database, GraphRow}
use ttasks.Sqlite.Rows.{ReadsBack}
use ttasks.Sqlite.Tasks
use ttasks.Sqlite.Tasks.{order_by}
use ttasks.Sqlite.Tasks.RoundTrip.{snapshot}
use ttasks.Sqlite.Graphs.{
  write_graph, of_graph, edge_of_graph, insert_members, insert_all_edges, upsert_tasks, set_item,
  save, load_graph, load_members, member_before, dependency_before, group_dependencies,
  no_dependencies, get_item,
}
use ttasks.Sqlite.Graphs.Upserted.{Reads, Upserted, upsert_tasks-Upserted}
use ttasks.Sqlite.Graphs.Inserted.{
  member_rows, all_edge_rows, insert_members_lem, insert_all_edges_lem,
}
use ttasks.Sqlite.Graphs.Grouped.{order_by-member_rows, selected}
use ttasks.Sqlite.Graphs.Loading.{grouped_lem}
use ttasks.Sqlite.Graphs.Loaded.{snapshots, grown, IsLoadable, AllMembers, load_members_lem}
use ttasks.Sqlite.Graphs.Storable.{
  IsStorable, Found, found, dependency, deps_once, all_edges, all_savable, edges_of-keys,
  has_member-replaced, has_edges-replaced,
}

-- A graph as it comes back: its tasks as they are read back, in the order of its entries, and no
-- errors of a run; the two sets have the members that they had.
abbrev pub restored : TaskGraph → TaskGraph
restored g = record g {
  tasks = snapshots (members g);
  errors = [];
  finally_ = keep (λ k. elem k g.finally_) (keys g.deps);
  optional = keep (λ k. elem k g.optional) (keys g.deps);
}

module _ (dt : Datetime) (back : ReadsBack dt) (db : Database) (g : TaskGraph)
    (v : IsStorable g) where
  f : Found g.tasks (keys g.deps)
  f = found g v

  listed : (k : ℕ) → elem k (ids f.ts) ≡ true → has k g.deps ≡ true
  listed k m = ground (arith, f.named, elem-keys k g.deps)

  u : Upserted dt db f.ts (upsert_tasks dt db f.ts)
  u = upsert_tasks-Upserted dt db f.ts back (rw f.named v.once) (all_savable g v f.ts f.held listed)

  row : GraphRow
  row = record { title = g.title; created_at = dt.isoformat g.created_at }

  -- The tables after the row of the graph, those of its members and those of its edges
  with_graph : Database
  with_graph = write_graph u.after g.id row

  with_members : Database
  with_members = record with_graph {
    graph_tasks = with_graph.graph_tasks ++ member_rows g (ids f.ts) 0;
  }

  with_edges : Database
  with_edges = record with_members {
    graph_dependencies = with_members.graph_dependencies ++ all_edge_rows g (ids f.ts);
  }

  has_graph : has g.id with_graph.graphs ≡ true
  unfolding with_graph write_graph
  has_graph = ground (arith, lookup-insert g.id g.id row u.after.graphs)

  has_tasks : (k : ℕ) → elem k (ids f.ts) ≡ true → has k with_graph.tasks ≡ true
  unfolding with_graph write_graph
  has_tasks k m = ground (arith, u.stored k)

  once : nodup (ids f.ts) ≡ true
  once = rw f.named v.once

  members_inserted : insert_members with_graph g f.ts 0 ≡ ok with_members
  unfolding with_graph with_members write_graph
  members_inserted =
      insert_members_lem with_graph g f.ts 0 has_graph has_tasks once
        (λ k m. has_member-replaced g k u.after.graph_tasks)

  edges_inserted : insert_all_edges with_members g f.ts ≡ ok with_edges
  unfolding with_graph with_members with_edges write_graph
  edges_inserted =
      insert_all_edges_lem with_members g f.ts has_graph has_tasks
        (λ k d m n. has_tasks d (rw f.named (dependency g v k d n))) once
        (all_edges g v f.ts listed) (λ k m. has_edges-replaced g k u.after.graph_dependencies)

  set_item-with_edges : save dt db g ≡ ok with_edges
  unfolding save set_item with_graph row
  set_item-with_edges =
      rw (==_refl g.id, f.returns) (rw u.returns (rw members_inserted edges_inserted))

  still_read : (ts : List Task) → Reads dt u.after ts → Reads dt with_edges ts
  unfolding with_graph with_members with_edges write_graph Tasks.get_item
  still_read [] r = tt
  still_read (t ∷ ts) r = (r.0, still_read ts r.1)

  loadable :
      (ts : List Task) (k : ℕ)
      → Reads dt with_edges ts
      → elem k (ids ts) ≡ true
      → IsLoadable dt with_edges k
  loadable [] k r m = cc
  loadable (t ∷ ts) k r m = elim (Bool-cases (k == t.id)) [
    | inl here ↦
        subst (IsLoadable dt with_edges) (sym ((==_iff k t.id).0 here)) (snapshot t, r.0, refl)
    | inr there ↦ loadable ts k r.1 (ground arith)
  ]

  module _ (id_before : ℕ → ℕ → Bool) where
    grouped :
        (d : Dict (List ℕ)) × (group_dependencies
            (selected id_before g u.after.graph_dependencies (ids f.ts))
            (no_dependencies (member_rows g (ids f.ts) 0) [])
          ≡ ok d)
        × ((k : ℕ) → elem k (ids f.ts) ≡ true → lookup k d ≡ some (deps_of g.deps k))
    grouped = grouped_lem id_before g u.after.graph_dependencies (ids f.ts) once

    all_members :
        (ts : List Task)
        → Reads dt with_edges ts
        → ((k : ℕ) → elem k (ids ts) ≡ true → elem k (ids f.ts) ≡ true)
        → AllMembers dt with_edges g grouped.0 ts
    all_members [] r sub = tt
    all_members (t ∷ ts) r sub = (
      record {
        read = r.0;
        grouped = grouped.2 t.id (sub t.id (ground arith));
        loadable =
            λ d m. loadable f.ts d (still_read f.ts u.reads) (rw f.named (dependency g v t.id d m));
        once = deps_once g v t.id;
        optional_finally = v.well.optional_finally t.id;
      },
      all_members ts r.1 (λ k m. sub k (ground arith)),
    )

    -- The graph as `__getitem__` makes it
    fresh : TaskGraph
    fresh = record {
      id = g.id;
      title = g.title;
      created_at = g.created_at;
      tasks = [];
      deps = [];
      errors = [];
      finally_ = [];
      optional = [];
    }

    members_found : members g ≡ f.ts
    unfolding members
    members_found = ap (tasks_of g) (sym f.named) ∙ tasks_of-ids g f.ts f.held

    grown-restored : grown g fresh f.ts ≡ restored g
    unfolding fresh
    grown-restored = rw (f.named, members_found, edges_of-keys g.deps v.once) refl

    member_order :
        order_by (member_before id_before) (keep (of_graph g.id) with_edges.graph_tasks)
        ≡ member_rows g (ids f.ts) 0
    unfolding with_edges with_members with_graph write_graph
    member_order = order_by-member_rows id_before g u.after.graph_tasks (ids f.ts)

    edge_order :
        order_by
          (dependency_before id_before)
          (keep (edge_of_graph g.id) with_edges.graph_dependencies)
        ≡ selected id_before g u.after.graph_dependencies (ids f.ts)
    unfolding with_edges with_members with_graph write_graph
    edge_order = refl

    members_loaded :
        load_members dt with_edges grouped.0 fresh (member_rows g (ids f.ts) 0) ≡ ok (restored g)
    unfolding fresh
    members_loaded =
        load_members_lem dt with_edges g grouped.0 fresh f.ts 0 once
          (all_members f.ts (still_read f.ts u.reads) (λ k m. m))
          (λ k m.
            unfold lookup in
            record { no_task = refl; no_edges = refl; not_finally = refl; not_optional = refl })
        ∙ ap ok grown-restored

    loaded : load_graph dt id_before with_edges g.id row ≡ ok (restored g)
    unfolding load_graph new_graph row fresh
    loaded = rw (back g.created_at, member_order, edge_order) (rw grouped.1 members_loaded)

    get_item-loaded : get_item dt id_before with_edges g.id ≡ ok (restored g)
    unfolding get_item with_edges with_members with_graph write_graph
    get_item-loaded = rw (get_item, lookup-insert g.id g.id row u.after.graphs, ==_refl g.id) loaded

-- Saving a graph that can be saved never raises, whatever the tables hold, and reading it gives it
-- back: the same tasks in the same order, as they are read back, the same edges in the same order,
-- and the same finally and optional tasks; the errors of its last run are gone. The order of
-- identities as texts does not matter.
pub save-get_item :
    (dt : Datetime) (id_before : ℕ → ℕ → Bool) (db : Database) (g : TaskGraph)
    → ReadsBack dt
    → IsStorable g
    → (db' : Database) × (save dt db g ≡ ok db')
      × (get_item dt id_before db' g.id ≡ ok (restored g))
save-get_item dt id_before db g back v = (
  with_edges dt back db g v,
  set_item-with_edges dt back db g v,
  get_item-loaded dt back db g v id_before,
)
