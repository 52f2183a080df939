-- ===== src/Status/Machine.antt =====
-- The state machine of src/ttasks/_task.py as a relation, and its sinks.
use ttasks.Common.{◌≡◌, refl, ◌↔◌, ◌⊎◌, true, false, [], arith}
use ttasks.Status.{
  TaskStatus, pending, running, succeeded, failed, blocked, same, is_sink, is_active, is_terminal,
  allowed_transitions, allows,
}

pub same_iff : (s t : TaskStatus) → (same s t ≡ true) ↔ (s ≡ t)
unfolding same
same_iff s t = ground arith

-- Runs of the machine: any number of allowed transitions.
pub data Trace (s : TaskStatus) : TaskStatus → Type 0 where
  here : Trace s s
  next : {t : TaskStatus} → Trace s t → (u : TaskStatus) → allows t u ≡ true → Trace s u

-- A status has no allowed transition exactly when `is_sink` holds of it.
pub is_sink_iff : (s : TaskStatus) → (is_sink s ≡ true) ↔ (allowed_transitions s ≡ [])
unfolding is_sink allowed_transitions
is_sink_iff s = ground arith

-- A status is terminal exactly when it is not active.
pub is_terminal_iff : (s : TaskStatus) → (is_terminal s ≡ true) ↔ (is_active s ≡ false)
unfolding is_terminal is_active
is_terminal_iff s = ground arith

-- From a sink no run leads elsewhere.
pub Trace-sink : {s t : TaskStatus} → is_sink s ≡ true → Trace s t → t ≡ s
unfolding allows is_sink
Trace-sink h here = refl
Trace-sink {s} h (next {t = t} r u a) = ground (arith, Trace-sink h r)

-- Success comes directly from RUNNING.
pub allows-succeeded : (s : TaskStatus) → allows s succeeded ≡ true → s ≡ running
unfolding allows
allows-succeeded s h = ground arith

-- A status can be run exactly when it is PENDING, FAILED or BLOCKED.
pub allows-running :
    (s : TaskStatus) → (allows s running ≡ true) ↔ ((s ≡ pending) ⊎ (s ≡ failed) ⊎ (s ≡ blocked))
unfolding allows
allows-running s = ground arith

-- A run after a first move.
pub Trace-first :
    {s : TaskStatus} (t : TaskStatus) {u : TaskStatus} → allows s t ≡ true → Trace t u → Trace s u
Trace-first t a here = next here t a
Trace-first t a (next r u b) = next (Trace-first t a r) u b
