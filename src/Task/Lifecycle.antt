-- ===== src/Task/Lifecycle.antt =====
-- What the methods of `Task` in src/ttasks/_task.py do to a task, and that callers who use them
-- can only drive its status along the table of allowed transitions.
use ttasks.Common.{
  ◌≡◌, refl, Bool, ◌&&◌, ◌||◌, ◌⊎◌, inl, inr, true, Option, none, List, [], ◌∷◌, arith, ◌∙◌,
  Bool-cases, if◌then◌else◌,
}
use ttasks.Common.Values.{Arg, typed, untyped}
use ttasks.Status.{TaskStatus, running, succeeded, cancelled, is_sink, same, allows}
use ttasks.Errors.{Message, cannot_transition, value_error, Result, ok, raise}
use ttasks.Task.{Task, Assignment, is_public, setattr, transition_to, cancel}

-- The task after an allowed move: the error is kept only for a move to another status than RUNNING
-- and SUCCEEDED, and RUNNING forgets the last run.
abbrev pub moved : Task → TaskStatus → Option Message → Task
moved t running e = record t { status = running; error = none; result = none; blocked_by = none }
moved t succeeded e = record t { status = succeeded; error = none }
moved t s e = record t { status = s; error = e }

pub transition_to-eq_moved :
    (t : Task) (s : TaskStatus) (e : Option Message)
    → allows t.status s ≡ true
    → transition_to t (typed s) e ≡ ok (moved t s e)
unfolding transition_to
transition_to-eq_moved t s e h = ground arith

-- A move to a status returns the moved task exactly when the table allows it, and otherwise raises
-- ValueError; the test of `__setattr__` never stops a move.
pub transition_to_cases :
    (t : Task) (s : TaskStatus) (e : Option Message)
    → transition_to t (typed s) e ≡ (
        if allows t.status s
        then ok (moved t s e)
        else raise (value_error (cannot_transition t.status s)))
transition_to_cases t s e = elim (Bool-cases (allows t.status s)) [
  | inl can ↦ rw can (transition_to-eq_moved t s e can)
  | inr not_allowed ↦ rw not_allowed (unfold transition_to in ground arith)
]

-- `cancel` never raises: a task in a sink is left as it is, any other becomes CANCELLED and keeps
-- its error, result and blocking parent.
pub cancel_cases :
    (t : Task) → cancel t ≡ ok (if is_sink t.status then t else record t { status = cancelled })
unfolding cancel is_sink
cancel_cases t = ground arith

-- A call that code outside the package makes on a task.
pub data Call : Type 0 where
  write : (a : Assignment) → is_public a ≡ true → Call
  move : Arg TaskStatus → Option Message → Call
  cancel_task : Call

unfoldable pub perform : Task → Call → Result Task
perform t (write a p) = setattr t a
perform t (move s e) = transition_to t s e
perform t cancel_task = cancel t

-- The task that a call leaves, also where it raises.
abbrev pub after : Task → Result Task → Task
after t (ok u) = u
after t (raise e) = t

unfoldable pub perform_all : Task → List Call → Task
perform_all t [] = t
perform_all t (c ∷ cs) = perform_all (after t (perform t c)) cs

-- One call keeps the identity, and leaves the status or moves it along the table.
perform_step :
    (t : Task) (c : Call) {u : Task}
    → perform t c ≡ ok u
    → (u.id ≡ t.id) × ((u.status ≡ t.status) ⊎ (allows t.status u.status ≡ true))
unfolding perform setattr
perform_step t (write a p) h = ground arith
perform_step t (move untyped e) h = unfold transition_to in ground arith
perform_step t (move (typed s) e) h = ground (arith, transition_to_cases t s e)
perform_step t cancel_task h = unfold allows is_sink in ground (arith, cancel_cases t)

-- The statuses of a task before, between and after some calls
abbrev pub statuses : Task → List Call → List TaskStatus
statuses t [] = t.status ∷ []
statuses t (c ∷ cs) = t.status ∷ statuses (after t (perform t c)) cs

-- Each status is the one before it, or the table allows the move to it.
abbrev pub follows_table : TaskStatus → List TaskStatus → Bool
follows_table s [] = true
follows_table s (s' ∷ ss) = (same s s' || allows s s') && follows_table s' ss

after_lem :
    (t : Task) (c : Call)
    → ((after t (perform t c)).id ≡ t.id)
      × ((same t.status (after t (perform t c)).status
            || allows t.status (after t (perform t c)).status)
          ≡ true)
unfolding same
after_lem t c = from (perform t c) refl
  where
    from :
        (r : Result Task)
        → perform t c ≡ r
        → ((after t r).id ≡ t.id)
          × ((same t.status (after t r).status || allows t.status (after t r).status) ≡ true)
    from (raise e) h = (refl, ground arith)
    from (ok u) h = let (kept, moves) = perform_step t c h in (kept, ground arith)

follow_step :
    (t u : Task) (cs : List Call)
    → (same t.status u.status || allows t.status u.status) ≡ true
    → follows_table u.status (statuses u cs) ≡ true
    → follows_table t.status (t.status ∷ statuses u cs) ≡ true
unfolding same
follow_step t u [] one rest = ground arith
follow_step t u (c ∷ cs) one rest = ground arith

-- Any calls on a task, whether they return or raise, keep its identity; and each single call leaves
-- its status or moves it to a status that the table allows directly.
pub perform_all_lem :
    (t : Task) (cs : List Call)
    → ((perform_all t cs).id ≡ t.id) × (follows_table t.status (statuses t cs) ≡ true)
unfolding perform_all same
perform_all_lem t [] = (refl, ground arith)
perform_all_lem t (c ∷ cs) =
    let u = after t (perform t c) in
    let (kept, one) = after_lem t c in
    let (ids, rest) = perform_all_lem u cs in (ids ∙ kept, follow_step t u cs one rest)
