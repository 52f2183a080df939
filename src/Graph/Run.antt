-- ===== src/Graph/Run.antt =====
-- src/ttasks/_graph.py: the scheduler in `_run_inner`. What does not change during a run is the
-- `Plan`; what the scheduler and the workers change is the `RunState`. The identities that a run
-- meets are registered, as `_validate` has tested, so that dictionaries of the graph are functions.
pub mod Steps
pub mod Safety
pub mod Stuck
pub mod Worker
pub mod Progress
pub mod Idle
pub mod Late
pub mod Outer
use ttasks.Common.{
  ℕ, zero, suc, String, Bool, true, false, ◌&&◌, ◌||◌, not, Option, none, some, List, [], ◌∷◌, elem,
  keep, all, any, is_some, is_none, ◌==◌, if◌then◌else◌,
}
use ttasks.Common.Values.{typed}
use ttasks.Status.{
  TaskStatus, pending, running, succeeded, failed, cancelled, blocked, same, is_sink, is_bad,
  is_terminal, allows,
}
use ttasks.Errors.{Exn, Result, ok, raise}
use ttasks.Task.{Task, transition_to, set_blocked_by}
use ttasks.Task.Lifecycle.{after}

-- The edges and sets of the graph, in order, and the tasks that were BLOCKED when the run began.
pub record Plan : Type 0 where
  pub order : List ℕ
  pub deps : ℕ → List ℕ
  pub is_finally : ℕ → Bool
  pub entering_blocked : List ℕ

-- A future of the thread pool: not done, or done with the exception of its call, if any.
pub data Future : Type 0 where
  working : Future
  finished_with : Option Exn → Future

pub record RunState : Type 0 where
  pub tasks : ℕ → Task
  pub futures : ℕ → Option Future
  pub errors : ℕ → Option Exn

-- `d[k] = v`
abbrev pub update {ℓ} : {V : Type ℓ} → (ℕ → V) → ℕ → V → ℕ → V
update f k v j = if j == k then v else f j

abbrev pub status_of : RunState → ℕ → TaskStatus
status_of r tid = (r.tasks tid).status

-- `future.done()`, of a task that has a future
abbrev pub is_done : Option Future → Bool
is_done none = false
is_done (some working) = false
is_done (some (finished_with e)) = true

-- `tid in futures and not futures[tid].done()`
abbrev pub is_live : Option Future → Bool
is_live none = false
is_live (some working) = true
is_live (some (finished_with e)) = false

-- succeeded
unfoldable pub has_succeeded : RunState → ℕ → Bool
has_succeeded r tid = same (status_of r tid) succeeded

-- finished
unfoldable pub finished : RunState → ℕ → Bool
finished r tid = is_terminal (status_of r tid) || is_done (r.futures tid)

-- submit: the pool has the task from here on
unfoldable pub submit : RunState → ℕ → RunState
submit r tid = record r { futures = update r.futures tid (some working) }

-- The task that `executor.mark_blocked` leaves
unfoldable pub blocked_task : Task → ℕ → Task
blocked_task t parent =
    set_blocked_by (after t (transition_to t (typed blocked) none)) (some parent)

unfoldable pub block : RunState → ℕ → ℕ → RunState
block r tid parent = record r { tasks = update r.tasks tid (blocked_task (r.tasks tid) parent) }

module _ (plan : Plan) where
  -- retryable_this_run
  unfoldable pub retryable_this_run : RunState → ℕ → Bool
  retryable_this_run r tid =
      is_none (r.futures tid)
      && allows (status_of r tid) running
      && (not (same (status_of r tid) blocked) || elem tid plan.entering_blocked)

  -- inactive
  unfoldable pub inactive : RunState → ℕ → Bool
  inactive r tid =
      if is_some (r.futures tid)
      then is_done (r.futures tid)
      else is_terminal (status_of r tid) && not (retryable_this_run r tid) || is_some (r.errors tid)

  -- ready
  unfoldable pub ready : RunState → ℕ → Bool
  ready r tid =
      if plan.is_finally tid
      then all (inactive r) (plan.deps tid)
      else all (has_succeeded r) (plan.deps tid)

  -- The tests of one round of the loop in `first_bad_parent`
  unfoldable pub is_bad_parent : RunState → ℕ → Bool
  is_bad_parent r d =
      if is_live (r.futures d)
      then false
      else is_some (r.errors d) || is_bad (status_of r d) && not (retryable_this_run r d)

  -- The loop of `first_bad_parent`
  unfoldable pub first_bad : RunState → List ℕ → Option ℕ
  first_bad r [] = none
  first_bad r (d ∷ ds) = if is_bad_parent r d then some d else first_bad r ds

  -- first_bad_parent
  unfoldable pub first_bad_parent : RunState → ℕ → Option ℕ
  first_bad_parent r tid = first_bad r (plan.deps tid)

  -- The last part of the loop body of `schedule`
  unfoldable pub submit_if_ready : RunState → ℕ → RunState × Bool
  submit_if_ready r tid =
      if ready r tid && allows (status_of r tid) running then (submit r tid, true) else (r, false)

  -- The loop body for a task with a bad parent
  unfoldable pub block_pending : RunState → ℕ → ℕ → RunState × Bool
  block_pending r tid parent =
      if same (status_of r tid) pending then (block r tid parent, true) else (r, false)

  -- The part of the loop body behind the `continue`s
  unfoldable pub consider : RunState → ℕ → Option ℕ → RunState × Bool
  consider r tid none = submit_if_ready r tid
  consider r tid (some parent) = block_pending r tid parent

  -- The loop body of `schedule` for one task: the new state, and whether `changed` is set
  unfoldable pub visit : RunState → ℕ → RunState × Bool
  visit r tid =
      if is_some (r.futures tid)
        || is_sink (status_of r tid)
        || same (status_of r tid) blocked && not (elem tid plan.entering_blocked)
      then (r, false)
      else consider r tid (if plan.is_finally tid then none else first_bad_parent r tid)

  -- The `for` loop of `schedule`
  unfoldable pub pass : RunState → List ℕ → RunState × Bool
  pass r [] = (r, false)
  pass r (tid ∷ tids) =
      let (r₁, now) = visit r tid in let (r₂, later) = pass r₁ tids in (r₂, now || later)

  -- The `while changed` loop of `schedule`, by fuel. `none`: the fuel ran out.
  unfoldable pub advance : ℕ → RunState → Option RunState
  advance zero r = none
  advance (suc fuel) r =
      let (r', changed) = pass r plan.order in
      let rest = advance fuel r' in if changed then rest else some r'

  -- How `schedule` ends, after its loop
  pub data Verdict : Type 0 where
    all_finished : Verdict
    waiting : Verdict
    no_progress : (stuck : List ℕ) → Verdict

  -- The tests of `schedule` after its loop. Workers do not take the lock, so that the state in which
  -- `schedule` asks which futures are done may be later than the one in which it asks which tasks are
  -- finished.
  unfoldable pub verdict_at : (r later : RunState) → Verdict
  verdict_at r later =
      if all (finished r) plan.order
      then all_finished
      else if any (λ tid. is_live (later.futures tid)) plan.order
      then waiting
      else no_progress (keep (λ tid. not (finished later tid)) plan.order)

  -- The same where no worker comes in between
  unfoldable pub verdict : RunState → Verdict
  unfolding verdict_at
  verdict r = verdict_at r r
