-- ===== src/Sqlite/Graphs/Upserted.antt =====
-- The first loop of `__setitem__` of `SQLiteGraphCollection` in src/ttasks/_sqlite.py, which saves
-- the members of a graph.
use ttasks.Common.{ℕ, ◌≡◌, refl, ◌∙◌, Bool, true, false, ◌&&◌, ◌||◌, List, [], ◌∷◌, elem, arith}
use ttasks.Common.Dict.{has, lookup-insert}
use ttasks.Errors.{Result, ok}
use ttasks.Task.{Task}
use ttasks.Graph.WellFormed.{nodup}
use ttasks.Graph.Mapping.{ids}
use ttasks.Sqlite.{Datetime, Database, bind_optional_real, upsert_task, task_values}
use ttasks.Sqlite.Rows.{ReadsBack, timeout_ok}
use ttasks.Sqlite.Tasks.{get_item}
use ttasks.Sqlite.Tasks.RoundTrip.{snapshot, result_fits, upsert_task_lem, read_back, read_other}
use ttasks.Sqlite.Graphs.{upsert_tasks}

-- A task that is read back as it was saved, but for what its rows do not hold.
abbrev pub savable : Task → Bool
savable t = result_fits t.id t.result && timeout_ok (bind_optional_real t.timeout)

abbrev pub AllSavable : List Task → Type 0
AllSavable [] = Unit {0}
AllSavable (t ∷ ts) = (savable t ≡ true) × AllSavable ts

module _ (dt : Datetime) where
  -- These tasks are read back from the tables.
  abbrev pub Reads : Database → List Task → Type 0
  Reads db [] = Unit {0}
  Reads db (t ∷ ts) = (get_item dt db t.id ≡ ok (snapshot t)) × Reads db ts

  -- The tables after the members have been saved
  pub record Upserted (db : Database) (ts : List Task) (o : Result Database) : Type 0 where
    pub after : Database
    pub returns : o ≡ ok after
    pub same_graphs : after.graphs ≡ db.graphs
    pub same_members : after.graph_tasks ≡ db.graph_tasks
    pub same_edges : after.graph_dependencies ≡ db.graph_dependencies
    pub reads : Reads after ts
    pub others : (k : ℕ) → elem k (ids ts) ≡ false → get_item dt after k ≡ get_item dt db k
    pub stored : (k : ℕ) → has k after.tasks ≡ (elem k (ids ts) || has k db.tasks)

  upsert_first :
      (db : Database) (t : Task)
      → ReadsBack dt
      → savable t ≡ true
      → Upserted db (t ∷ []) (upsert_task dt db t)
  upsert_first db t back fits =
      let w = upsert_task_lem dt db t (ground arith) in
      record {
        after = w.after;
        returns = w.returns;
        same_graphs = w.same_graphs;
        same_members = w.same_members;
        same_edges = w.same_edges;
        reads = (read_back dt db t w back ∙ ground arith, tt);
        others = λ k other. read_other dt db t w k (ground arith);
        stored =
            λ k. rw w.same_tasks (ground (arith, lookup-insert t.id k (task_values dt t) db.tasks));
      }

  pub upsert_tasks-Upserted :
      (db : Database) (ts : List Task)
      → ReadsBack dt
      → nodup (ids ts) ≡ true
      → AllSavable ts
      → Upserted db ts (upsert_tasks dt db ts)
  unfolding upsert_tasks
  upsert_tasks-Upserted db [] back once fits = record {
    after = db;
    returns = refl;
    same_graphs = refl;
    same_members = refl;
    same_edges = refl;
    reads = tt;
    others = λ k other. refl;
    stored = λ k. refl;
  }
  upsert_tasks-Upserted db (t ∷ ts) back once fits =
      let u = upsert_first db t back fits.0 in
      let v = upsert_tasks-Upserted u.after ts back (ground arith) fits.1 in
      record {
        after = v.after;
        returns = rw u.returns v.returns;
        same_graphs = v.same_graphs ∙ u.same_graphs;
        same_members = v.same_members ∙ u.same_members;
        same_edges = v.same_edges ∙ u.same_edges;
        reads = (v.others t.id (ground arith) ∙ u.reads.0, v.reads);
        others = λ k other. v.others k (ground arith) ∙ u.others k (ground arith);
        stored = λ k. ground (arith, v.stored k, u.stored k);
      }
