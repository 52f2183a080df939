-- ===== src/Sqlite/Graphs/Loading.antt =====
-- `deps_by_task` in `__getitem__` of `SQLiteGraphCollection` in src/ttasks/_sqlite.py.
use ttasks.Common.{
  ℕ, suc, ◌≡◌, refl, ap, sym, ◌∙◌, Bool, true, not, some, List, [], ◌∷◌, ◌++◌, elem, all, keep,
  arith, ◌==◌, Bool-cases, Option-cases, inl, inr, if◌then◌else◌, append-nil, append_assoc,
}
use ttasks.Common.Dict.{Dict, lookup, insert, has, lookup-insert}
use ttasks.Errors.{Result, ok}
use ttasks.Graph.{TaskGraph}
use ttasks.Graph.WellFormed.{nodup}
use ttasks.Graph.Run.Outer.{deps_of}
use ttasks.Sqlite.{DependencyRow}
use ttasks.Sqlite.Graphs.{
  edge_of_graph, append_dependency, group_dependencies, no_dependencies, dependency_before,
}
use ttasks.Sqlite.Graphs.Ordering.{all-order_by}
use ttasks.Sqlite.Graphs.Inserted.{member_rows, edge_rows, all_edge_rows}
use ttasks.Sqlite.Graphs.Grouped.{
  of_task, dependency_ids, selected, selected_ids, all-append, keep_replaced,
  all_edge_rows-of_graph,
}

-- The dictionary after the loop, by what it was before
record Groups (rows : List DependencyRow) (d : Dict (List ℕ)) (o : Result (Dict (List ℕ)))
    : Type 0 where
  after : Dict (List ℕ)
  returns : o ≡ ok after
  collects :
      (k : ℕ) (ds : List ℕ)
      → lookup k d ≡ some ds
      → lookup k after ≡ some (ds ++ dependency_ids (keep (of_task k) rows))

has-insert :
    (d : Dict (List ℕ)) (k : ℕ) (ds : List ℕ) (rows : List DependencyRow)
    → all (λ (r : DependencyRow). has r.task_id d) rows ≡ true
    → all (λ (r : DependencyRow). has r.task_id (insert k ds d)) rows ≡ true
has-insert d k ds [] h = refl
has-insert d k ds (r ∷ rows) h =
    ground (arith, has-insert d k ds rows, lookup-insert k r.task_id ds d)

append_dependency_lem :
    (k dep : ℕ) (d : Dict (List ℕ)) (deps : List ℕ)
    → lookup k d ≡ some deps
    → append_dependency k dep d ≡ ok (insert k (deps ++ dep ∷ []) d)
unfolding append_dependency
append_dependency_lem k dep d deps e = ground arith

-- One row more.
collects_more :
    (r : DependencyRow) (rows : List DependencyRow) (d after : Dict (List ℕ)) (deps : List ℕ)
    → lookup r.task_id d ≡ some deps
    → ((k : ℕ) (ds : List ℕ)
        → lookup k (insert r.task_id (deps ++ r.dependency_id ∷ []) d) ≡ some ds
        → lookup k after ≡ some (ds ++ dependency_ids (keep (of_task k) rows)))
    → (k : ℕ) (ds : List ℕ) → lookup k d ≡ some ds
    → lookup k after ≡ some (ds ++ dependency_ids (keep (of_task k) (r ∷ rows)))
unfolding dependency_ids
collects_more r rows d after deps e rest k ds f =
    let inserted = lookup-insert r.task_id k (deps ++ r.dependency_id ∷ []) d in
    elim (Bool-cases (r.task_id == k)) [
      | inl here ↦ rw here (
          rest k (ds ++ r.dependency_id ∷ []) (ground arith)
          ∙ ap some
              (append_assoc ds (r.dependency_id ∷ []) (dependency_ids (keep (of_task k) rows))))
      | inr there ↦ rw there (rest k ds (ground arith))
    ]

group_dependencies-Groups :
    (rows : List DependencyRow) (d : Dict (List ℕ))
    → all (λ (r : DependencyRow). has r.task_id d) rows ≡ true
    → Groups rows d (group_dependencies rows d)
unfolding group_dependencies dependency_ids
group_dependencies-Groups [] d h = record {
  after = d;
  returns = refl;
  collects = λ k ds e. e ∙ ap some (sym (append-nil ds));
}
group_dependencies-Groups (r ∷ rows) d h = elim (Option-cases (lookup r.task_id d)) [
  | inl absent ↦ absurd (ground arith)
  | inr (deps, e) ↦
      let next = insert r.task_id (deps ++ r.dependency_id ∷ []) d in
      let g =
        group_dependencies-Groups rows next
          (has-insert d r.task_id (deps ++ r.dependency_id ∷ []) rows (ground arith)) in
      record {
        after = g.after;
        returns = rw (append_dependency_lem r.task_id r.dependency_id d deps e) g.returns;
        collects = collects_more r rows d g.after deps e g.collects;
      }
]

lookup-no_dependencies :
    (k : ℕ) (g : TaskGraph) (ks : List ℕ) (position : ℕ) (d : Dict (List ℕ))
    → lookup k (no_dependencies (member_rows g ks position) d)
      ≡ (if elem k ks then some [] else lookup k d)
unfolding no_dependencies
lookup-no_dependencies k g [] position d = refl
lookup-no_dependencies k g (j ∷ ks) position d =
    ground
      (arith, lookup-no_dependencies k g ks (suc position) (insert j [] d), lookup-insert j k [] d)

member_of_edge_rows :
    (id k : ℕ) (ds : List ℕ) (position : ℕ) (ks : List ℕ)
    → elem k ks ≡ true
    → all (λ (r : DependencyRow). elem r.task_id ks) (edge_rows id k ds position) ≡ true
member_of_edge_rows id k [] position ks m = refl
member_of_edge_rows id k (d ∷ ds) position ks m =
    ground (arith, member_of_edge_rows id k ds (suc position) ks)

member_of_all_edge_rows :
    (g : TaskGraph) (js ks : List ℕ)
    → ((j : ℕ) → elem j js ≡ true → elem j ks ≡ true)
    → all (λ (r : DependencyRow). elem r.task_id ks) (all_edge_rows g js) ≡ true
member_of_all_edge_rows g [] ks sub = refl
member_of_all_edge_rows g (j ∷ js) ks sub =
    all-append (λ (r : DependencyRow). elem r.task_id ks) (edge_rows g.id j (deps_of g.deps j) 0)
      (all_edge_rows g js)
    ∙ rw
        (
          member_of_edge_rows g.id j (deps_of g.deps j) 0 ks (sub j (ground arith)),
          member_of_all_edge_rows g js ks (λ i m. sub i (ground arith)),
        )
        refl

all_rows :
    (p q : DependencyRow → Bool) (rows : List DependencyRow)
    → ((r : DependencyRow) → p r ≡ true → q r ≡ true)
    → all p rows ≡ true
    → all q rows ≡ true
all_rows p q [] h a = refl
all_rows p q (r ∷ rows) h a = ground (arith, h r, all_rows p q rows h)

-- `deps_by_task` holds the dependencies of each member, in their order, whatever the order of
-- identities as texts.
pub grouped_lem :
    (id_before : ℕ → ℕ → Bool) (g : TaskGraph) (old : List DependencyRow) (ks : List ℕ)
    → nodup ks ≡ true
    → (d : Dict (List ℕ)) × (group_dependencies
          (selected id_before g old ks)
          (no_dependencies (member_rows g ks 0) [])
        ≡ ok d)
      × ((k : ℕ) → elem k ks ≡ true → lookup k d ≡ some (deps_of g.deps k))
grouped_lem id_before g old ks once =
    let rows = selected id_before g old ks in
    let start = no_dependencies (member_rows g ks 0) [] in
    let grouped = group_dependencies-Groups rows start (
      all_rows (λ (r : DependencyRow). elem r.task_id ks)
        (λ (r : DependencyRow). has r.task_id start) rows
        (λ r m. ground (arith, lookup-no_dependencies r.task_id g ks 0 []))
        (all-order_by (dependency_before id_before) (λ (r : DependencyRow). elem r.task_id ks)
            (keep (edge_of_graph g.id)
              (keep (λ r. not (edge_of_graph g.id r)) old ++ all_edge_rows g ks))
          ∙ ap (all (λ (r : DependencyRow). elem r.task_id ks)) (
              keep_replaced (edge_of_graph g.id) old (all_edge_rows g ks)
                (all_edge_rows-of_graph g ks))
          ∙ member_of_all_edge_rows g ks ks (λ j m. m))) in
    (
      grouped.after,
      grouped.returns,
      λ k m.
          grouped.collects k [] (ground (arith, lookup-no_dependencies k g ks 0 []))
          ∙ ap some (selected_ids id_before g old ks k once m),
    )
