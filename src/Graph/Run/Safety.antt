-- ===== src/Graph/Run/Safety.antt =====
-- When the scheduler of src/ttasks/_graph.py lets a task run: what held then holds for good.
use ttasks.Common.{
  ℕ, ◌≡◌, ◌⊎◌, subst, true, ◌||◌, not, Option, none, some, is_some, elem, all_mono, arith,
  Bool-cases, inl, inr,
}
use ttasks.Status.{pending, running, blocked, same, is_sink, is_terminal, allows}
use ttasks.Errors.{Exn}
use ttasks.Task.{Task, cancel, set_blocked_by, transition_to}
use ttasks.Task.Lifecycle.{moved, after, cancel_cases}
use native.Mathlib.Decide.{ℕ_discrete}
use ttasks.Graph.Run.{
  Plan, working, finished_with, RunState, update, status_of, is_done, visit, submit, block,
  has_succeeded, retryable_this_run, inactive, ready, blocked_task,
}
use ttasks.Graph.Run.Steps.{
  Worked, Step, visited, begun, ended, recorded, cancelled_by_caller, Reach, here, next, Visited,
  skipped, submitted, blocked_by, visit-Visited,
}

-- Only a future that is done has an exception stored.
abbrev pub ErrorsDone : RunState → Type 0
ErrorsDone r = (d : ℕ) → is_some (r.errors d) ≡ true → is_done (r.futures d) ≡ true

-- From `r` to `r'` no success is lost, and no task that is inactive becomes active.
pub record Holds (plan : Plan) (r r' : RunState) : Type 0 where
  pub success : (d : ℕ) → has_succeeded r d ≡ true → has_succeeded r' d ≡ true
  pub rest : (d : ℕ) → inactive plan r d ≡ true → inactive plan r' d ≡ true

Holds-refl : (plan : Plan) (r : RunState) → Holds plan r r
Holds-refl plan r = record { success = λ d h. h; rest = λ d h. h }

pub blocked_task_status :
    (t : Task) (parent : ℕ)
    → same t.status pending ≡ true
    → (blocked_task t parent).status ≡ blocked
unfolding same blocked_task set_blocked_by transition_to
blocked_task_status t parent h = ground arith

module _ (plan : Plan) (r : RunState) (tid : ℕ) (done : ErrorsDone r) where
  submit-Holds :
      r.futures tid ≡ none
      → allows (status_of r tid) running ≡ true
      → (not (same (status_of r tid) blocked) || elem tid plan.entering_blocked) ≡ true
      → Holds plan r (submit r tid)
  unfolding submit has_succeeded inactive retryable_this_run
  submit-Holds free can open_now = record {
    success = λ d h. h;
    rest = λ d h. ground (arith, done tid);
  }

  block-Holds :
      (parent : ℕ)
      → r.futures tid ≡ none
      → same (status_of r tid) pending ≡ true
      → Holds plan r (block r tid parent)
  unfolding block has_succeeded inactive retryable_this_run same is_terminal
  block-Holds parent free waits = record {
    success = λ d h. ground (arith, blocked_task_status (r.tasks tid) parent waits);
    rest = λ d h. ground (arith, blocked_task_status (r.tasks tid) parent waits, done tid);
  }

  visit-Holds : Holds plan r (visit plan r tid).0
  visit-Holds = from (visit-Visited plan r tid)
    where
      from : Visited plan r tid (visit plan r tid) → Holds plan r (visit plan r tid).0
      from (skipped e) = rw e (Holds-refl plan r)
      from (submitted free is_ready can open_now e) = rw e (submit-Holds free can open_now)
      from (blocked_by parent free waits ordinary bad e) = rw e (block-Holds parent free waits)

  begin-Holds :
      r.futures tid ≡ some working
      → allows (status_of r tid) running ≡ true
      → Holds plan r (record r { tasks = update r.tasks tid (moved (r.tasks tid) running none) })
  unfolding has_succeeded inactive retryable_this_run same allows
  begin-Holds live can = record { success = λ d h. ground arith; rest = λ d h. ground arith }

  end-Holds :
      (t' : Task) (e : Option Exn)
      → r.futures tid ≡ some working
      → Worked (r.tasks tid) t' e
      → Holds plan r (record r {
        tasks = update r.tasks tid t';
        futures = update r.futures tid (some (finished_with e));
      })
  unfolding has_succeeded inactive retryable_this_run same
  end-Holds t' e live w = record {
    success = λ d h. ground (arith, w.unfinished);
    rest = λ d h. ground arith;
  }

  record-Holds : (e : Exn) → Holds plan r (record r { errors = update r.errors tid (some e) })
  unfolding has_succeeded inactive retryable_this_run
  record-Holds e = record { success = λ d h. h; rest = λ d h. ground arith }

  cancel-Holds :
      Holds plan r
        (record r { tasks = update r.tasks tid (after (r.tasks tid) (cancel (r.tasks tid))) })
  unfolding has_succeeded inactive retryable_this_run same is_sink is_terminal allows
  cancel-Holds = record {
    success = λ d h. ground (arith, cancel_cases (r.tasks tid));
    rest = λ d h. ground (arith, cancel_cases (r.tasks tid));
  }

-- Every step of a run holds on to successes and to tasks at rest.
pub Step-Holds : (plan : Plan) (r r' : RunState) → ErrorsDone r → Step plan r r' → Holds plan r r'
Step-Holds plan r r' done (visited tid e) = rw e (visit-Holds plan r tid done)
Step-Holds plan r r' done (begun tid live can e) = rw e (begin-Holds plan r tid done live can)
Step-Holds plan r r' done (ended tid t' x live w e) = rw e (end-Holds plan r tid done t' x live w)
Step-Holds plan r r' done (recorded tid x over e) = rw e (record-Holds plan r tid done x)
Step-Holds plan r r' done (cancelled_by_caller tid e) = rw e (cancel-Holds plan r tid done)

ready-Holds :
    (plan : Plan) (r r' : RunState) (d : ℕ)
    → Holds plan r r'
    → ready plan r d ≡ true
    → ready plan r' d ≡ true
unfolding ready
ready-Holds plan r r' d held h = elim (Bool-cases (plan.is_finally d)) [
  | inl fin ↦
      rw fin (all_mono (inactive plan r) (inactive plan r') (plan.deps d) held.rest (rw fin at h))
  | inr ordinary ↦
      rw ordinary (
        all_mono (has_succeeded r) (has_succeeded r') (plan.deps d) held.success (rw ordinary at h))
]

-- Every task that was handed to the pool is ready, and stored exceptions are those of done futures.
pub record IsSound (plan : Plan) (r : RunState) : Type 0 where
  pub errors_done : ErrorsDone r
  pub backed : (d : ℕ) → is_some (r.futures d) ≡ true → ready plan r d ≡ true

module _ (plan : Plan) (r : RunState) (sound : IsSound plan r) where
  submit_frame :
      (tid d : ℕ)
      → r.futures tid ≡ none
      → ready plan r tid ≡ true
      → (is_some ((submit r tid).futures d) ≡ true
          → (is_some (r.futures d) ≡ true) ⊎ (ready plan r d ≡ true))
        × (is_some ((submit r tid).errors d) ≡ true → is_done ((submit r tid).futures d) ≡ true)
  unfolding submit
  submit_frame tid d free is_ready = elim (ℕ_discrete d tid) [
    | yes e ↦ (λ h. inr (rw e is_ready), λ h. ground (arith, sound.errors_done d))
    | no other ↦ (λ h. inl (ground arith), λ h. ground (arith, sound.errors_done d))
  ]

  -- What a visit hands to the pool is ready, and it stores no exception.
  visit_frame :
      (tid d : ℕ)
      → (is_some ((visit plan r tid).0.futures d) ≡ true
          → (is_some (r.futures d) ≡ true) ⊎ (ready plan r d ≡ true))
        × (is_some ((visit plan r tid).0.errors d) ≡ true
            → is_done ((visit plan r tid).0.futures d) ≡ true)
  visit_frame tid d = from (visit-Visited plan r tid)
    where
      from :
          Visited plan r tid (visit plan r tid)
          → (is_some ((visit plan r tid).0.futures d) ≡ true
              → (is_some (r.futures d) ≡ true) ⊎ (ready plan r d ≡ true))
            × (is_some ((visit plan r tid).0.errors d) ≡ true
                → is_done ((visit plan r tid).0.futures d) ≡ true)
      from (skipped e) = rw e (inl, sound.errors_done d)
      from (submitted free is_ready can open_now e) = rw e (submit_frame tid d free is_ready)
      from (blocked_by parent free waits ordinary bad e) =
          rw e (unfold block in (inl, sound.errors_done d))

  new_futures :
      (r' : RunState) (d : ℕ)
      → Step plan r r'
      → is_some (r'.futures d) ≡ true
      → (is_some (r.futures d) ≡ true) ⊎ (ready plan r d ≡ true)
  new_futures r' d (visited tid e) h =
      (visit_frame tid d).0 (subst (λ x. is_some (x.futures d) ≡ true) e h)
  new_futures r' d (begun tid live can e) h = inl (subst (λ x. is_some (x.futures d) ≡ true) e h)
  new_futures r' d (ended tid t' x live w e) h =
      inl (let h' = subst (λ x. is_some (x.futures d) ≡ true) e h in ground arith)
  new_futures r' d (recorded tid x over e) h = inl (subst (λ x. is_some (x.futures d) ≡ true) e h)
  new_futures r' d (cancelled_by_caller tid e) h =
      inl (subst (λ x. is_some (x.futures d) ≡ true) e h)

  new_errors : (r' : RunState) → Step plan r r' → ErrorsDone r'
  new_errors r' (visited tid e) d = rw e (visit_frame tid d).1
  new_errors r' (begun tid live can e) d = rw e (sound.errors_done d)
  new_errors r' (ended tid t' x live w e) d = rw e (λ h. ground (arith, sound.errors_done d))
  new_errors r' (recorded tid x over e) d = rw e (λ h. ground (arith, sound.errors_done d))
  new_errors r' (cancelled_by_caller tid e) d = rw e (sound.errors_done d)

-- Every step of a run, whoever makes it, keeps the state sound.
pub Step-IsSound :
    (plan : Plan) (r r' : RunState) → Step plan r r' → IsSound plan r → IsSound plan r'
Step-IsSound plan r r' st sound =
    let held = Step-Holds plan r r' sound.errors_done st in
    record {
      errors_done = new_errors plan r sound r' st;
      backed = λ d h. elim (new_futures plan r sound r' d st h) [
        | inl old ↦ ready-Holds plan r r' d held (sound.backed d old)
        | inr is_ready ↦ ready-Holds plan r r' d held is_ready
      ];
    }

-- The state in which a run begins: no futures, and no exceptions from an earlier run.
abbrev pub IsStart : RunState → Type 0
IsStart r = (d : ℕ) → (r.futures d ≡ none) × (r.errors d ≡ none)

-- In every state of a run, whatever the workers and callers do, every task that the scheduler has
-- handed to the pool is ready: if it is a finally task, all its direct dependencies are at rest for
-- this run, and otherwise they have all SUCCEEDED.
pub Reach-IsSound :
    (plan : Plan) (start r : RunState) → IsStart start → Reach plan start r → IsSound plan r
Reach-IsSound plan start r fresh here = record {
  errors_done = λ d h. ground (arith, fresh d);
  backed = λ d h. absurd (ground (arith, fresh d));
}
Reach-IsSound plan start r fresh (next {s = s} run st) =
    Step-IsSound plan s r st (Reach-IsSound plan start s fresh run)
