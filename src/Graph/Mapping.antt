-- ===== src/Graph/Mapping.antt =====
-- src/ttasks/_graph.py: a `TaskGraph` as a mapping from tasks to their dependencies, `graph[task]`.
use ttasks.Common.{
  ℕ, ◌≡◌, refl, Bool, not, ◌&&◌, true, false, Option, none, some, List, [], ◌∷◌, ◌++◌, map, elem,
  arith, append-nil, ap, append_assoc, elem-append,
}
use ttasks.Common.Dict.{Dict, lookup, insert, lookup-insert}
use ttasks.Common.Values.{Arg, typed}
use ttasks.Errors.{Result, ok}
use ttasks.Task.{Task}
use ttasks.Graph.{TaskGraph, collect, register, check_flags, add_task, add}
use ttasks.Graph.WellFormed.{nodup, elem-set_discard}
use ttasks.Graph.Views.{tasks_of, dependencies}

-- __setitem__
unfoldable pub set_item : TaskGraph → Arg Task → List (Arg Task) → Result (Unit {0}) × TaskGraph
set_item g t deps = add g t deps (typed false) (typed true)

-- __getitem__
unfoldable pub get_item : TaskGraph → Task → Option (List Task)
get_item g t = dependencies g t

-- The pairs of `items`, of some of the edges
unfoldable pub pairs_of : TaskGraph → Dict (List ℕ) → List (Task × List Task)
unfolding lookup tasks_of
pairs_of g [] = []
pairs_of g ((tid, ds) ∷ deps) =
    let rest = pairs_of g deps in
    elim (lookup tid g.tasks) [ none ↦ rest | some t ↦ (t, tasks_of g ds) ∷ rest ]

-- items
unfoldable pub items : TaskGraph → List (Task × List Task)
unfolding pairs_of
items g = pairs_of g g.deps

abbrev pub ids : List Task → List ℕ
ids [] = []
ids (t ∷ ts) = t.id ∷ ids ts

collect-typed :
    (ts : List Task) (seen : List ℕ)
    → nodup (ids ts) ≡ true
    → ((k : ℕ) → elem k (ids ts) ≡ true → elem k seen ≡ false)
    → collect (map typed ts) seen ≡ ok (seen ++ ids ts)
unfolding collect
collect-typed [] seen once fresh = ground (arith, append-nil seen)
collect-typed (t ∷ ts) seen once fresh = ground (
  arith,
  fresh t.id,
  collect-typed ts (seen ++ t.id ∷ []) (ground arith)
      (λ k m. ground (arith, elem-append k seen (t.id ∷ []), fresh k)),
  append_assoc seen (t.id ∷ []) (ids ts),
)

-- These tasks are the objects that the graph holds under their identities.
abbrev pub Held : Dict Task → List Task → Type 0
Held tasks [] = Unit {0}
Held tasks (t ∷ ts) = (lookup t.id tasks ≡ some t) × Held tasks ts

pub tasks_of-ids : (g : TaskGraph) (ts : List Task) → Held g.tasks ts → tasks_of g (ids ts) ≡ ts
unfolding tasks_of
tasks_of-ids g [] held = refl
tasks_of-ids g (t ∷ ts) held = rw (tasks_of, held.0) (ap (λ l. t ∷ l) (tasks_of-ids g ts held.1))

-- `add` with arguments of the right types, distinct dependencies and flags that go together.
pub add-typed :
    (g : TaskGraph) (t : Task) (ts : List Task) (f r : Bool)
    → nodup (ids ts) ≡ true
    → (not r && not f) ≡ false
    → add g (typed t) (map typed ts) (typed f) (typed r)
      ≡ (ok tt, register (record g { tasks = insert t.id t g.tasks }) t.id (ids ts) f r)
unfolding add add_task check_flags
add-typed g t ts f r once together =
    rw (add, check_flags, together) (rw (add_task, collect-typed ts [] once (λ k m. refl)) refl)

module _ (g : TaskGraph) (t : Task) (ts : List Task) where
  -- The graph that `graph[t] = ts` leaves
  assigned : TaskGraph
  assigned = register (record g { tasks = insert t.id t g.tasks }) t.id (ids ts) false true

  set_item-eq_assigned :
      nodup (ids ts) ≡ true → set_item g (typed t) (map typed ts) ≡ (ok tt, assigned)
  unfolding set_item assigned
  set_item-eq_assigned once = add-typed g t ts false true once refl

  assigned-get_item : Held (insert t.id t g.tasks) ts → get_item assigned t ≡ some ts
  unfolding get_item dependencies assigned register
  assigned-get_item held =
      ground (arith, lookup-insert t.id t.id (ids ts) g.deps, tasks_of-ids assigned ts held)

  assigned_ordinary : elem t.id assigned.finally_ ≡ false
  unfolding assigned register
  assigned_ordinary = ground (arith, elem-set_discard t.id t.id g.finally_)

  -- `graph[t] = ts` followed by `graph[t]` gives `ts` back, in order, where no task is named twice
  -- and each is the one that the graph holds; and it makes `t` an ordinary task.
  pub set_item-get_item :
      nodup (ids ts) ≡ true
      → Held (insert t.id t g.tasks) ts
      → ((set_item g (typed t) (map typed ts)).0 ≡ ok tt)
        × (get_item (set_item g (typed t) (map typed ts)).1 t ≡ some ts)
        × (elem t.id (set_item g (typed t) (map typed ts)).1.finally_ ≡ false)
  set_item-get_item once held =
      rw (set_item-eq_assigned once) (refl, assigned-get_item held, assigned_ordinary)
