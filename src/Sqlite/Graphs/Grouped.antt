-- ===== src/Sqlite/Graphs/Grouped.antt =====
-- The rows of a graph as `__getitem__` of `SQLiteGraphCollection` in src/ttasks/_sqlite.py selects
-- and groups them.
use ttasks.Common.{
  ℕ, suc, ◌<◌, ◌≡◌, refl, ap, sym, ◌∙◌, Bool, true, false, ◌&&◌, not, List, [], ◌∷◌, ◌++◌, elem,
  all, keep, arith, ◌==◌, ==_iff, Bool-cases, inl, inr, append-nil, subst,
}
use ttasks.Graph.{TaskGraph}
use ttasks.Graph.WellFormed.{nodup}
use ttasks.Graph.Run.Outer.{deps_of}
use ttasks.Sqlite.{MemberRow, DependencyRow}
use ttasks.Sqlite.Tasks.{order_by}
use ttasks.Sqlite.Graphs.{of_graph, edge_of_graph, member_before, dependency_before}
use ttasks.Sqlite.Graphs.Ordering.{InOrder, order_by-InOrder, keep-order_by}
use ttasks.Sqlite.Graphs.Inserted.{member_row, member_rows, edge_rows, all_edge_rows}

module _ {ℓ} {A : Type ℓ} (p : A → Bool) where
  pub keep-append : (xs ys : List A) → keep p (xs ++ ys) ≡ keep p xs ++ keep p ys
  keep-append [] ys = refl
  keep-append (x ∷ xs) ys = ground (arith, keep-append xs ys)

  keep_none : (xs : List A) → keep p (keep (λ x. not (p x)) xs) ≡ []
  keep_none [] = refl
  keep_none (x ∷ xs) = ground (arith, keep_none xs)

  keep_everything : (xs : List A) → all p xs ≡ true → keep p xs ≡ xs
  keep_everything [] h = refl
  keep_everything (x ∷ xs) h = ground (arith, keep_everything xs)

  -- What was put behind the rows that fail a test, and passes it, is what passes it.
  pub keep_replaced :
      (old new : List A) → all p new ≡ true → keep p (keep (λ x. not (p x)) old ++ new) ≡ new
  keep_replaced old new h =
      keep-append (keep (λ x. not (p x)) old) new
      ∙ ap (λ l. l ++ keep p new) (keep_none old)
      ∙ keep_everything new h

pub member_rows-of_graph :
    (g : TaskGraph) (ks : List ℕ) (position : ℕ)
    → all (of_graph g.id) (member_rows g ks position) ≡ true
member_rows-of_graph g [] position = refl
member_rows-of_graph g (k ∷ ks) position = ground (arith, member_rows-of_graph g ks (suc position))

pub all-append {ℓ} :
    {A : Type ℓ} (p : A → Bool) (xs ys : List A) → all p (xs ++ ys) ≡ (all p xs && all p ys)
all-append p [] ys = refl
all-append p (x ∷ xs) ys = ground (arith, all-append p xs ys)

edge_rows-of_graph :
    (id k : ℕ) (ds : List ℕ) (position : ℕ)
    → all (edge_of_graph id) (edge_rows id k ds position) ≡ true
edge_rows-of_graph id k [] position = refl
edge_rows-of_graph id k (d ∷ ds) position =
    ground (arith, edge_rows-of_graph id k ds (suc position))

pub all_edge_rows-of_graph :
    (g : TaskGraph) (ks : List ℕ) → all (edge_of_graph g.id) (all_edge_rows g ks) ≡ true
all_edge_rows-of_graph g [] = refl
all_edge_rows-of_graph g (k ∷ ks) = ground (
  arith,
  all_edge_rows-of_graph g ks,
  edge_rows-of_graph g.id k (deps_of g.deps k) 0,
  all-append (edge_of_graph g.id) (edge_rows g.id k (deps_of g.deps k) 0) (all_edge_rows g ks),
)

-- The rows of one task
abbrev pub of_task : ℕ → DependencyRow → Bool
of_task k r = r.task_id == k

edge_rows-of_task :
    (id k : ℕ) (ds : List ℕ) (position : ℕ) → all (of_task k) (edge_rows id k ds position) ≡ true
edge_rows-of_task id k [] position = refl
edge_rows-of_task id k (d ∷ ds) position = ground (arith, edge_rows-of_task id k ds (suc position))

keep-edge_rows_other :
    (id k j : ℕ) (ds : List ℕ) (position : ℕ)
    → k == j ≡ false
    → keep (of_task j) (edge_rows id k ds position) ≡ []
keep-edge_rows_other id k j [] position h = refl
keep-edge_rows_other id k j (d ∷ ds) position h =
    ground (arith, keep-edge_rows_other id k j ds (suc position))

keep-all_edge_rows_absent :
    (g : TaskGraph) (j : ℕ) (ks : List ℕ)
    → elem j ks ≡ false
    → keep (of_task j) (all_edge_rows g ks) ≡ []
keep-all_edge_rows_absent g j [] h = refl
keep-all_edge_rows_absent g j (k ∷ ks) h =
    keep-append (of_task j) (edge_rows g.id k (deps_of g.deps k) 0) (all_edge_rows g ks)
    ∙ ap (λ l. l ++ keep (of_task j) (all_edge_rows g ks))
        (keep-edge_rows_other g.id k j (deps_of g.deps k) 0 (ground arith))
    ∙ keep-all_edge_rows_absent g j ks (ground arith)

keep-all_edge_rows :
    (g : TaskGraph) (j : ℕ) (ks : List ℕ)
    → nodup ks ≡ true
    → elem j ks ≡ true
    → keep (of_task j) (all_edge_rows g ks) ≡ edge_rows g.id j (deps_of g.deps j) 0
keep-all_edge_rows g j [] once m = cc
keep-all_edge_rows g j (k ∷ ks) once m = elim (Bool-cases (j == k)) [
  | inl here ↦
      let rows = edge_rows g.id k (deps_of g.deps k) 0 in
      rw ((==_iff j k).0 here) (
        keep-append (of_task k) rows (all_edge_rows g ks)
        ∙ ap (λ l. keep (of_task k) rows ++ l) (keep-all_edge_rows_absent g k ks (ground arith))
        ∙ append-nil (keep (of_task k) rows)
        ∙ keep_everything (of_task k) rows (edge_rows-of_task g.id k (deps_of g.deps k) 0))
  | inr there ↦
      keep-append (of_task j) (edge_rows g.id k (deps_of g.deps k) 0) (all_edge_rows g ks)
      ∙ ap (λ l. l ++ keep (of_task j) (all_edge_rows g ks))
          (keep-edge_rows_other g.id k j (deps_of g.deps k) 0 (ground arith))
      ∙ keep-all_edge_rows g j ks (ground arith) (ground arith)
]

unfoldable pub dependency_ids : List DependencyRow → List ℕ
dependency_ids [] = []
dependency_ids (r ∷ rows) = r.dependency_id ∷ dependency_ids rows

dependency_ids-edge_rows :
    (id k : ℕ) (ds : List ℕ) (position : ℕ) → dependency_ids (edge_rows id k ds position) ≡ ds
unfolding dependency_ids
dependency_ids-edge_rows id k [] position = refl
dependency_ids-edge_rows id k (d ∷ ds) position =
    ap (λ l. d ∷ l) (dependency_ids-edge_rows id k ds (suc position))

module _ (id_before : ℕ → ℕ → Bool) where
  member_before-later :
      (g : TaskGraph) (k p : ℕ) (ks : List ℕ) (position : ℕ)
      → p < position
      → all (member_before id_before (member_row g k p)) (member_rows g ks position) ≡ true
  member_before-later g k p [] position h = refl
  member_before-later g k p (j ∷ ks) position h =
      ground (arith, member_before-later g k p ks (suc position) (omega arith))

  member_rows-InOrder :
      (g : TaskGraph) (ks : List ℕ) (position : ℕ)
      → InOrder (member_before id_before) (member_rows g ks position)
  member_rows-InOrder g [] position = tt
  member_rows-InOrder g (k ∷ ks) position = (
    member_before-later g k position ks (suc position) (omega arith),
    member_rows-InOrder g ks (suc position),
  )

  dependency_before-later :
      (id k d p : ℕ) (ds : List ℕ) (position : ℕ)
      → p < position
      → all
          (dependency_before id_before
            (record { graph_id = id; task_id = k; dependency_id = d; position = p }))
          (edge_rows id k ds position)
        ≡ true
  dependency_before-later id k d p [] position h = refl
  dependency_before-later id k d p (e ∷ ds) position h =
      ground (arith, dependency_before-later id k d p ds (suc position) (omega arith))

  edge_rows-InOrder :
      (id k : ℕ) (ds : List ℕ) (position : ℕ)
      → InOrder (dependency_before id_before) (edge_rows id k ds position)
  edge_rows-InOrder id k [] position = tt
  edge_rows-InOrder id k (d ∷ ds) position = (
    dependency_before-later id k d position ds (suc position) (omega arith),
    edge_rows-InOrder id k ds (suc position),
  )

  -- The rows of the members are selected in the order of the members.
  pub order_by-member_rows :
      (g : TaskGraph) (old : List MemberRow) (ks : List ℕ)
      → order_by
          (member_before id_before)
          (keep (of_graph g.id) (keep (λ r. not (of_graph g.id r)) old ++ member_rows g ks 0))
        ≡ member_rows g ks 0
  order_by-member_rows g old ks =
      ap (order_by (member_before id_before))
        (keep_replaced (of_graph g.id) old (member_rows g ks 0) (member_rows-of_graph g ks 0))
      ∙ order_by-InOrder (member_before id_before) (member_rows g ks 0) (member_rows-InOrder g ks 0)

  -- The rows of the edges, as they are selected
  abbrev pub selected : TaskGraph → List DependencyRow → List ℕ → List DependencyRow
  selected g old ks =
      order_by (dependency_before id_before) (
        keep (edge_of_graph g.id)
          (keep (λ r. not (edge_of_graph g.id r)) old ++ all_edge_rows g ks))

  pub selected_ids :
      (g : TaskGraph) (old : List DependencyRow) (ks : List ℕ) (j : ℕ)
      → nodup ks ≡ true
      → elem j ks ≡ true
      → dependency_ids (keep (of_task j) (selected g old ks)) ≡ deps_of g.deps j
  selected_ids g old ks j once m =
      let rows = all_edge_rows g ks in
      let of_j = keep-all_edge_rows g j ks once m in
      ap (λ l. dependency_ids (keep (of_task j) (order_by (dependency_before id_before) l)))
        (keep_replaced (edge_of_graph g.id) old rows (all_edge_rows-of_graph g ks))
      ∙ ap dependency_ids (
          keep-order_by (dependency_before id_before) (of_task j) rows (
            subst (InOrder (dependency_before id_before)) (sym of_j)
              (edge_rows-InOrder g.id j (deps_of g.deps j) 0)))
      ∙ ap dependency_ids of_j
      ∙ dependency_ids-edge_rows g.id j (deps_of g.deps j) 0
