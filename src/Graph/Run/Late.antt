-- ===== src/Graph/Run/Late.antt =====
-- A case that the scheduler of src/ttasks/_graph.py does not foresee: a worker that ends between the
-- last round of the loop of `schedule` and its test for live futures.
use ttasks.Common.{
  ℕ, ◌≡◌, refl, true, false, not, none, some, elem, all, any, keep, all-elem, List, [], ◌∷◌, arith,
  Bool-cases, inl, inr, ◌==◌, ==_refl,
}
use ttasks.Status.{pending, succeeded, same, is_terminal, is_bad, allows, is_sink}
use ttasks.Task.{Task}
use ttasks.Graph.Run.{
  Plan, RunState, working, finished_with, update, status_of, is_live, has_succeeded, finished,
  ready, is_bad_parent, first_bad, first_bad_parent, visit, consider, submit_if_ready, submit,
  verdict_at, no_progress,
}
use ttasks.Graph.Run.Steps.{Step, ended, Worked}
use ttasks.Graph.Run.Stuck.{elem-keep}

-- The state in which the worker of `x` has ended, with the task `t`
abbrev pub ended_with : RunState → ℕ → Task → RunState
ended_with r x t = record r {
  tasks = update r.tasks x t;
  futures = update r.futures x (some (finished_with none));
}

-- `x` is the only task whose future is live, and `y` is a PENDING task that depends on `x` alone.
pub record IsLate (plan : Plan) (r : RunState) (x y : ℕ) (t : Task) : Type 0 where
  pub x_live : r.futures x ≡ some working
  pub x_fine : r.errors x ≡ none
  pub x_works : Worked (r.tasks x) t none
  pub y_free : r.futures y ≡ none
  pub y_pending : status_of r y ≡ pending
  pub y_ordinary : plan.is_finally y ≡ false
  pub y_after : plan.deps y ≡ x ∷ []
  pub y_in : elem y plan.order ≡ true
  pub none_else : any (λ tid. is_live ((ended_with r x t).futures tid)) plan.order ≡ false

module _ (plan : Plan) (r : RunState) (x y : ℕ) (t : Task) (l : IsLate plan r x y t) where
  x_succeeded : t.status ≡ succeeded
  x_succeeded = l.x_works.without refl

  x_not_yet : same (status_of r x) succeeded ≡ false
  unfolding same
  x_not_yet = ground (arith, l.x_works.unfinished)

  apart : y == x ≡ false
  apart = ground (arith, l.x_live, l.y_free)

  y_skipped : visit plan r y ≡ (r, false)
  unfolding visit consider submit_if_ready first_bad_parent first_bad is_bad_parent ready
      has_succeeded is_sink
  y_skipped = ground (arith, l.x_live, l.y_free, l.y_ordinary, l.y_after, x_not_yet)

  y_unfinished : finished r y ≡ false
  unfolding finished is_terminal
  y_unfinished = ground (arith, l.y_free, l.y_pending)

  y_left : finished (ended_with r x t) y ≡ false
  unfolding finished is_terminal
  y_left = ground (arith, l.y_free, l.y_pending, apart)

  y_ready : visit plan (ended_with r x t) y ≡ (submit (ended_with r x t) y, true)
  unfolding visit consider submit_if_ready first_bad_parent first_bad is_bad_parent ready
      has_succeeded is_sink is_bad same allows
  y_ready = ground (
    arith,
    apart,
    ==_refl x,
    l.y_free,
    l.y_pending,
    l.y_ordinary,
    l.y_after,
    l.x_fine,
    x_succeeded,
  )

  not_all_finished : all (finished r) plan.order ≡ false
  not_all_finished = elim (Bool-cases (all (finished r) plan.order)) [
    | inl every ↦
        absurd (ground (arith, y_unfinished, all-elem (finished r) y plan.order every l.y_in))
    | inr some_not ↦ some_not
  ]

-- Where a PENDING task `y` depends on a task `x` alone, whose future is the only live one, and the
-- worker of `x` ends with success between the last round of the loop of `schedule` and its test for
-- live futures: the loop did nothing to `y`, the test ends in the error "scheduler made no progress"
-- with `y` among the stuck tasks, and one more round would submit `y`.
pub late_no_progress :
    (plan : Plan) (r : RunState) (x y : ℕ) (t : Task)
    → IsLate plan r x y t
    → (visit plan r y ≡ (r, false))
      × Step plan r (ended_with r x t)
      × ((stuck : List ℕ) × (verdict_at plan r (ended_with r x t) ≡ no_progress stuck)
          × (elem y stuck ≡ true))
      × (visit plan (ended_with r x t) y ≡ (submit (ended_with r x t) y, true))
unfolding verdict_at
late_no_progress plan r x y t l = (
  y_skipped plan r x y t l,
  ended x t none l.x_live l.x_works refl,
  (
    keep (λ tid. not (finished (ended_with r x t) tid)) plan.order,
    rw (not_all_finished plan r x y t l, l.none_else) refl,
    elem-keep _ y plan.order l.y_in (rw (y_left plan r x y t l) refl),
  ),
  y_ready plan r x y t l,
)
