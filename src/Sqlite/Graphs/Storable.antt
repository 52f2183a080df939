-- ===== src/Sqlite/Graphs/Storable.antt =====
-- Which graphs src/ttasks/_sqlite.py can save and read again, and what holds of their entries.
use ttasks.Common.{
  ℕ, ◌≡◌, refl, sym, subst, true, false, not, some, List, [], ◌∷◌, elem, keep, arith, ==_refl,
  Option-cases, inl, inr,
}
use ttasks.Common.Dict.{Dict, lookup, has, keys, elem-keys}
use ttasks.Errors.{ok}
use ttasks.Task.{Task}
use ttasks.Graph.{TaskGraph}
use ttasks.Graph.WellFormed.{nodup, IsWellFormed}
use ttasks.Graph.Mapping.{ids, Held}
use ttasks.Graph.Validate.Acyclic.{Registered}
use ttasks.Graph.Run.Outer.{deps_of}
use ttasks.Store.Laws.{IsKeyed}
use ttasks.Sqlite.{MemberRow, DependencyRow}
use ttasks.Sqlite.Graphs.{tasks_at, dependencies_of, of_graph, edge_of_graph}
use ttasks.Sqlite.Graphs.Upserted.{savable, AllSavable}
use ttasks.Sqlite.Graphs.Inserted.{has_member, has_edges, HasEdges, AllHaveEdges}
use ttasks.Sqlite.Graphs.Loaded.{edges_of}

-- A graph that can be saved and read back: tasks stand under their own identities, each task of the
-- graph has its entry once and can be read back, and it depends on tasks of the graph.
pub record IsStorable (g : TaskGraph) : Type 0 where
  pub well : IsWellFormed g
  pub keyed : IsKeyed (λ (t : Task). t.id) g.tasks
  pub once : nodup (keys g.deps) ≡ true
  pub closed : Registered g.deps
  pub fits : (k : ℕ) (t : Task) → has k g.deps ≡ true → lookup k g.tasks ≡ some t → savable t ≡ true

-- The tasks under some identities
pub record Found (tasks : Dict Task) (ks : List ℕ) : Type 0 where
  pub ts : List Task
  pub returns : tasks_at tasks ks ≡ ok ts
  pub named : ids ts ≡ ks
  pub held : Held tasks ts

tasks_at-Found :
    (tasks : Dict Task) (ks : List ℕ)
    → IsKeyed (λ (t : Task). t.id) tasks
    → ((k : ℕ) → elem k ks ≡ true → has k tasks ≡ true)
    → Found tasks ks
unfolding tasks_at
tasks_at-Found tasks [] keyed h = record { ts = []; returns = refl; named = refl; held = tt }
tasks_at-Found tasks (k ∷ ks) keyed h = elim (Option-cases (lookup k tasks)) [
  | inl absent ↦ absurd (ground (arith, h k))
  | inr (t, e) ↦
      let f = tasks_at-Found tasks ks keyed (λ j m. h j (ground arith)) in
      let own = keyed k t e in
      record {
        ts = t ∷ f.ts;
        returns = rw (tasks_at, e) (rw f.returns refl);
        named = cc (own, f.named);
        held = (subst (λ i. lookup i tasks ≡ some t) (sym own) e, f.held);
      }
]

edges_of-skip :
    (j : ℕ) (ds : List ℕ) (rest : Dict (List ℕ)) (ks : List ℕ)
    → elem j ks ≡ false
    → edges_of ((j, ds) ∷ rest) ks ≡ edges_of rest ks
unfolding deps_of lookup
edges_of-skip j ds rest [] m = refl
edges_of-skip j ds rest (k ∷ ks) m = ground (arith, edges_of-skip j ds rest ks)

pub edges_of-keys :
    (deps : Dict (List ℕ)) → nodup (keys deps) ≡ true → edges_of deps (keys deps) ≡ deps
unfolding deps_of lookup keys
edges_of-keys [] once = refl
edges_of-keys ((j, ds) ∷ deps) once =
    ground
      (arith, edges_of-keys deps, edges_of-skip j ds deps (keys deps), elem-keys j deps, ==_refl j)

pub has_member-replaced :
    (g : TaskGraph) (k : ℕ) (rows : List MemberRow)
    → has_member g.id k (keep (λ r. not (of_graph g.id r)) rows) ≡ false
has_member-replaced g k [] = refl
has_member-replaced g k (r ∷ rows) = ground (arith, has_member-replaced g k rows)

pub has_edges-replaced :
    (g : TaskGraph) (k : ℕ) (rows : List DependencyRow)
    → has_edges g.id k (keep (λ r. not (edge_of_graph g.id r)) rows) ≡ false
has_edges-replaced g k [] = refl
has_edges-replaced g k (r ∷ rows) = ground (arith, has_edges-replaced g k rows)

module _ (g : TaskGraph) (v : IsStorable g) where
  registered : (k : ℕ) → elem k (keys g.deps) ≡ true → has k g.tasks ≡ true
  registered k m = v.well.registered k (ground (arith, elem-keys k g.deps))

  pub found : Found g.tasks (keys g.deps)
  found = tasks_at-Found g.tasks (keys g.deps) v.keyed registered

  pub dependency : (k d : ℕ) → elem d (deps_of g.deps k) ≡ true → elem d (keys g.deps) ≡ true
  unfolding deps_of
  dependency k d m = elim (Option-cases (lookup k g.deps)) [
    | inl absent ↦ absurd (ground arith)
    | inr (ds, e) ↦ ground (arith, v.closed k d ds e, elem-keys d g.deps)
  ]

  pub deps_once : (k : ℕ) → nodup (deps_of g.deps k) ≡ true
  unfolding deps_of
  deps_once k = elim (Option-cases (lookup k g.deps)) [
    | inl absent ↦ ground arith
    | inr (ds, e) ↦ ground (arith, v.well.distinct k ds e)
  ]

  edges_at : (t : Task) → has t.id g.deps ≡ true → HasEdges g t
  unfolding dependencies_of deps_of
  edges_at t m = elim (Option-cases (lookup t.id g.deps)) [
    | inl absent ↦ absurd (ground arith)
    | inr (ds, e) ↦
        let f =
          tasks_at-Found g.tasks ds v.keyed
            (λ d n. registered d (ground (arith, v.closed t.id d ds e, elem-keys d g.deps))) in
        record {
          deps = f.ts;
          returns = ground (arith, f.returns);
          named = ground (arith, f.named);
          once = ground (arith, f.named, v.well.distinct t.id ds e);
        }
  ]

  pub all_edges :
      (ts : List Task)
      → ((k : ℕ) → elem k (ids ts) ≡ true → has k g.deps ≡ true)
      → AllHaveEdges g ts
  all_edges [] h = tt
  all_edges (t ∷ ts) h =
      (edges_at t (h t.id (ground arith)), all_edges ts (λ k m. h k (ground arith)))

  pub all_savable :
      (ts : List Task)
      → Held g.tasks ts
      → ((k : ℕ) → elem k (ids ts) ≡ true → has k g.deps ≡ true)
      → AllSavable ts
  all_savable [] held h = tt
  all_savable (t ∷ ts) held h = (
    v.fits t.id t (h t.id (ground arith)) held.0,
    all_savable ts held.1 (λ k m. h k (ground arith)),
  )
