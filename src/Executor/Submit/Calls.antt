-- ===== src/Executor/Submit/Calls.antt =====
-- src/ttasks/_executor.py: calls of `submit` and `shutdown`, in any order.
use ttasks.Common.{ℕ, Bool, true, false, ◌&&◌, Option, none, some, List, [], ◌∷◌, ◌++◌}
use ttasks.Common.Values.{Arg, typed}
use ttasks.Errors.{Result, raise}
use ttasks.Executor.Context.{RetryPolicy, default_policy}
use ttasks.Executor.Submit.{
  Work, Submissions, Wait, no_wait, waits_for, waits_for_others, submit, shutdown,
}

-- A call that some thread makes
pub data Call : Type 0 where
  submits : Arg ℕ → Option (Arg RetryPolicy) → Call
  shuts_down : (in_pool : Bool) → Call

-- What the call returns or raises
pub data Reply : Type 0 where
  submitted : Result ℕ → Reply
  waited : Wait → Reply

abbrev pub reply : Call → Submissions → Reply
reply (submits task policy) s = submitted (submit task policy s).0
reply (shuts_down in_pool) s = waited (shutdown in_pool s).0

abbrev pub leave : Call → Submissions → Submissions
leave (submits task policy) s = (submit task policy s).1
leave (shuts_down in_pool) s = (shutdown in_pool s).1

abbrev pub leave_all : List Call → Submissions → Submissions
leave_all [] s = s
leave_all (c ∷ cs) s = leave_all cs (leave c s)

abbrev pub replies : List Call → Submissions → List Reply
replies [] s = []
replies (c ∷ cs) s = reply c s ∷ replies cs (leave c s)

-- The work that a call of `submit` asks for, if its arguments are of the right types
abbrev pub asked : Call → List Work
asked (submits (typed t) none) = record { task = t; policy = default_policy } ∷ []
asked (submits (typed t) (some (typed policy))) = record { task = t; policy = policy } ∷ []
asked _ = []

abbrev pub all_asked : List Call → List Work
all_asked [] = []
all_asked (c ∷ cs) = asked c ++ all_asked cs

abbrev pub only_submits : List Call → Bool
only_submits [] = true
only_submits (submits task policy ∷ cs) = only_submits cs
only_submits (shuts_down in_pool ∷ cs) = false

-- A call of `submit` has raised, or one of `shutdown` has waited for nothing.
abbrev pub is_refusal : Reply → Bool
is_refusal (submitted (raise e)) = true
is_refusal (waited no_wait) = true
is_refusal _ = false

abbrev pub all_refused : List Reply → Bool
all_refused [] = true
all_refused (r ∷ rs) = is_refusal r && all_refused rs

-- What `shutdown` waits for, by the works of the pool
abbrev pub wait_of : (in_pool : Bool) → List Work → Wait
wait_of in_pool [] = no_wait
wait_of true ws = waits_for_others ws
wait_of false ws = waits_for ws

-- The pool, by its works
abbrev pool_of : List Work → Option (List Work)
pool_of [] = none
pool_of (w ∷ ws) = some (w ∷ ws)

abbrev open_with : List Work → Submissions
open_with ws = record { is_shutdown = false; pool = pool_of ws }

abbrev closed : Submissions
closed = record { is_shutdown = true; pool = none }
