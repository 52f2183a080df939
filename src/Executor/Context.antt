-- ===== src/Executor/Context.antt =====
-- src/ttasks/_executor.py: `TaskContext` and `RetryPolicy`. A context reads the task that it was
-- made for as it is at the moment, so that its methods take the task.
use ttasks.Common.{
  zero, suc, String, Bool, ◌&&◌, ◌||◌, not, Option, none, some, if◌then◌else◌, is_none,
}
use ttasks.Common.Values.{
  ℤ, pos, negsuc, Float, finite, Arg, typed, untyped, is_finite, in_range, lt_zero,
}
use ttasks.Status.{cancelled, same}
use ttasks.Errors.{
  text, was_cancelled, task_cancelled, type_error, value_error, runtime_error, Result, ok, raise,
  ◌>>=◌, ◌>>◌, raise_if,
}
use ttasks.Task.{Task}

-- TaskContext.cancelled
unfoldable pub is_cancelled : Task → Bool
unfolding same
is_cancelled t = same t.status cancelled

-- TaskContext.raise_if_cancelled
unfoldable pub raise_if_cancelled : Task → Result (Unit {0})
unfolding is_cancelled
raise_if_cancelled t = raise_if (is_cancelled t) (task_cancelled (was_cancelled t.id))

-- The tests of `emit_progress` on its percentage
unfoldable pub check_percent : Option (Arg Float) → Result (Option Float)
unfolding is_finite in_range
check_percent none = ok none
check_percent (some untyped) = raise (type_error (text "percent must be a number"))
check_percent (some (typed p)) =
    if not (is_finite p) || not (in_range 100 p)
    then raise (value_error (text "percent must be between 0 and 100"))
    else ok (some p)

-- The test of `emit_progress` on its message
unfoldable pub check_message : Option (Arg String) → Result (Option String)
check_message none = ok none
check_message (some untyped) = raise (type_error (text "message must be a str"))
check_message (some (typed m)) = ok (some m)

-- TaskContext.emit_progress: what it hands to the emitter, if the context has one
unfoldable pub progress_of :
    Task
    → (has_emitter : Bool) → Option (Arg Float)
    → Option (Arg String)
    → Result (Option Float × Option String)
unfolding raise_if_cancelled check_percent check_message
progress_of t has_emitter percent message = do
  raise_if (is_none percent && is_none message)
      (value_error (text "percent or message is required"))
  p ← check_percent percent
  m ← check_message message
  raise_if_cancelled t
  raise_if (not has_emitter) (runtime_error (text "progress cannot be emitted without an executor"))
  ok (p, m)

-- RetryPolicy
pub record RetryPolicy : Type 0 where
  pub max_attempts : ℤ
  pub backoff : Float

-- RetryPolicy.__post_init__; an argument that is a bool counts as one of another type
unfoldable pub new_policy : Arg ℤ → Arg Float → Result RetryPolicy
unfolding is_finite lt_zero
new_policy untyped backoff = raise (type_error (text "max_attempts must be an int"))
new_policy (typed (negsuc n)) backoff = raise (value_error (text "max_attempts must be at least 1"))
new_policy (typed (pos zero)) backoff = raise (value_error (text "max_attempts must be at least 1"))
new_policy (typed (pos (suc n))) untyped = raise (type_error (text "backoff must be a number"))
new_policy (typed (pos (suc n))) (typed b) =
    if not (is_finite b) || lt_zero b
    then raise (value_error (text "backoff must be a finite non-negative number"))
    else ok (record { max_attempts = pos (suc n); backoff = b })

-- RetryPolicy(), the defaults
abbrev pub default_policy : RetryPolicy
default_policy = record { max_attempts = pos 1; backoff = finite (pos 0) }

-- TaskExecutor._resolve_retry_policy
unfoldable pub resolve_retry_policy : Option (Arg RetryPolicy) → Result RetryPolicy
resolve_retry_policy none = ok default_policy
resolve_retry_policy (some untyped) = raise (type_error (text "retry_policy must be a RetryPolicy"))
resolve_retry_policy (some (typed p)) = ok p
