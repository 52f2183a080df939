-- ===== src/Graph/Views/Outcome.antt =====
-- What `ok` of src/ttasks/_graph.py says of a graph.
use ttasks.Common.{
  ℕ, ◌≡◌, refl, true, false, ◌&&◌, ◌||◌, not, ◌↔◌, List, [], ◌∷◌, elem, all, arith, all-elem,
  all_of_elem,
}
use ttasks.Common.Dict.{lookup, insert, keys, has, elem-keys, lookup-insert}
use ttasks.Errors.{Exn}
use ttasks.Task.{Task}
use ttasks.Graph.{TaskGraph}
use ttasks.Graph.Views.{task_succeeded, is_ok}

-- A graph is ok exactly when every registered task that is not optional has SUCCEEDED and has no
-- exception stored from the run.
pub is_ok_iff :
    (g : TaskGraph)
    → (is_ok g ≡ true) ↔ (
        (tid : ℕ)
        → has tid g.deps ≡ true
        → elem tid g.optional ≡ false
        → (task_succeeded (lookup tid g.tasks) ≡ true) × (has tid g.errors ≡ false))
unfolding is_ok
is_ok_iff g = (
  λ h tid registered required.
      ground (arith, all-elem _ tid (keys g.deps) h (rw (elem-keys tid g.deps) registered)),
  λ h.
      all_of_elem _ (keys g.deps) (λ tid m. ground (arith, h tid (rw (elem-keys tid g.deps) at m))),
)

-- Whatever becomes of an optional task, and whether its run raises, `ok` stays as it is.
pub is_ok-optional :
    (g : TaskGraph) (tid : ℕ) (t : Task) (e : Exn)
    → elem tid g.optional ≡ true
    → is_ok (record g { tasks = insert tid t g.tasks; errors = insert tid e g.errors }) ≡ is_ok g
unfolding is_ok
is_ok-optional g tid t e h = same_all (keys g.deps)
  where
    same_all :
        (ks : List ℕ)
        → all
            (λ k.
              elem k g.optional
              || task_succeeded (lookup k (insert tid t g.tasks))
                && not (has k (insert tid e g.errors)))
            ks
          ≡ all
              (λ k. elem k g.optional || task_succeeded (lookup k g.tasks) && not (has k g.errors))
              ks
    same_all [] = refl
    same_all (k ∷ ks) =
        ground (arith, same_all ks, lookup-insert tid k t g.tasks, lookup-insert tid k e g.errors)
