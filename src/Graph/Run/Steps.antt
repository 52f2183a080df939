-- ===== src/Graph/Run/Steps.antt =====
-- Runs of src/ttasks/_graph.py: the scheduler's loop body, which holds the lock, and what worker
-- threads, callbacks and callers of `cancel` do between two rounds of it, in any order.
use ttasks.Common.{
  ℕ, ◌≡◌, ◌≢◌, Bool, true, false, ◌&&◌, ◌||◌, not, Option, none, some, is_some, elem, Bool-cases,
  Option-cases, inl, inr, arith, if◌then◌else◌,
}
use ttasks.Status.{pending, running, succeeded, blocked, same, is_sink, allows}
use ttasks.Errors.{Exn}
use ttasks.Task.{Task, cancel}
use ttasks.Task.Lifecycle.{moved, after}
use ttasks.Graph.Run.{
  Plan, working, finished_with, RunState, update, status_of, visit, submit, block, submit_if_ready,
  block_pending, consider, ready, first_bad_parent,
}

-- What a worker leaves of a task when `executor.execute` ends, and the exception of the future: it
-- ends without one exactly when the task has SUCCEEDED (`execute_once-Started` has the details).
pub record Worked (t t' : Task) (e : Option Exn) : Type 0 where
  pub unfinished : t.status ≢ succeeded
  pub without : e ≡ none → t'.status ≡ succeeded
  pub with_success : t'.status ≡ succeeded → e ≡ none

-- One step of a run, from `r` to `r'`.
pub data Step (plan : Plan) (r r' : RunState) : Type 0 where
  -- the scheduler looks at a task
  visited : (tid : ℕ) → r' ≡ (visit plan r tid).0 → Step plan r r'
  -- a worker moves its task to RUNNING
  begun :
      (tid : ℕ)
      → r.futures tid ≡ some working
      → allows (status_of r tid) running ≡ true
      → r' ≡ record r { tasks = update r.tasks tid (moved (r.tasks tid) running none) }
      → Step plan r r'
  -- a worker is done with its task, and its future is
  ended :
      (tid : ℕ) (t' : Task) (e : Option Exn)
      → r.futures tid ≡ some working
      → Worked (r.tasks tid) t' e
      → r' ≡ record r {
        tasks = update r.tasks tid t';
        futures = update r.futures tid (some (finished_with e));
      }
      → Step plan r r'
  -- `on_finish` stores the exception of a future
  recorded :
      (tid : ℕ) (e : Exn)
      → r.futures tid ≡ some (finished_with (some e))
      → r' ≡ record r { errors = update r.errors tid (some e) }
      → Step plan r r'
  -- a caller cancels a task
  cancelled_by_caller :
      (tid : ℕ)
      → r' ≡ record r { tasks = update r.tasks tid (after (r.tasks tid) (cancel (r.tasks tid))) }
      → Step plan r r'

-- Runs of any length.
pub data Reach (plan : Plan) (r : RunState) : RunState → Type 0 where
  here : Reach plan r r
  next : {s t : RunState} → Reach plan r s → Step plan s t → Reach plan r t

-- What one visit does, and why.
pub data Visited (plan : Plan) (r : RunState) (tid : ℕ) (o : RunState × Bool) : Type 0 where
  skipped : o ≡ (r, false) → Visited plan r tid o
  submitted :
      r.futures tid ≡ none
      → ready plan r tid ≡ true
      → allows (status_of r tid) running ≡ true
      → (not (same (status_of r tid) blocked) || elem tid plan.entering_blocked) ≡ true
      → o ≡ (submit r tid, true)
      → Visited plan r tid o
  blocked_by :
      (parent : ℕ)
      → r.futures tid ≡ none
      → same (status_of r tid) pending ≡ true
      → plan.is_finally tid ≡ false
      → first_bad_parent plan r tid ≡ some parent
      → o ≡ (block r tid parent, true)
      → Visited plan r tid o

module _ (plan : Plan) (r : RunState) (tid : ℕ) (free : r.futures tid ≡ none)
    (open_now : (not (same (status_of r tid) blocked) || elem tid plan.entering_blocked)
      ≡ true) where
  submit_if_ready-Visited : Visited plan r tid (submit_if_ready plan r tid)
  unfolding submit_if_ready
  submit_if_ready-Visited = elim (Bool-cases (ready plan r tid)) [
    | inl yes_ready ↦ elim (Bool-cases (allows (status_of r tid) running)) [
      | inl can ↦ submitted free yes_ready can open_now (rw (yes_ready, can))
      | inr cannot ↦ skipped (rw (yes_ready, cannot))
    ]
    | inr not_ready ↦ skipped (rw not_ready)
  ]

  consider-Visited :
      Visited plan r tid
        (consider plan r tid (if plan.is_finally tid then none else first_bad_parent plan r tid))
  unfolding consider block_pending
  consider-Visited = elim (Bool-cases (plan.is_finally tid)) [
    | inl fin ↦ rw fin submit_if_ready-Visited
    | inr ordinary ↦ elim (Option-cases (first_bad_parent plan r tid)) [
      | inl no_parent ↦ rw (ordinary, no_parent) submit_if_ready-Visited
      | inr (parent, bad) ↦ elim (Bool-cases (same (status_of r tid) pending)) [
        | inl waits ↦ blocked_by parent free waits ordinary bad (rw (ordinary, bad, waits))
        | inr other ↦ skipped (rw (ordinary, bad, other))
      ]
    ]
  ]

-- A visit leaves the state alone, or submits a ready task that has no future and can run, or marks
-- a PENDING ordinary task as blocked by its first bad parent.
pub visit-Visited : (plan : Plan) (r : RunState) (tid : ℕ) → Visited plan r tid (visit plan r tid)
unfolding visit
visit-Visited plan r tid =
    elim (Bool-cases (
      is_some (r.futures tid)
      || is_sink (status_of r tid)
      || same (status_of r tid) blocked && not (elem tid plan.entering_blocked))) [
        | inl stop ↦ skipped (rw stop)
        | inr go ↦ rw go (consider-Visited plan r tid (ground arith) (ground arith))
      ]
