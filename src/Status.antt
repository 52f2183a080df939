-- ===== src/Status.antt =====
-- src/ttasks/_task.py: `TaskStatus`, `TaskType` and the table `_ALLOWED_TRANSITIONS`.
pub mod Machine
use ttasks.Common.{Bool, true, false, ◌||◌, List, [], ◌∷◌}

-- TaskStatus
pub data TaskStatus : Type 0 where
  pending running succeeded failed cancelled blocked : TaskStatus

-- TaskType
pub data TaskType : Type 0 where
  bash powershell prompt agent : TaskType

-- `a == b` on statuses.
unfoldable pub same : TaskStatus → TaskStatus → Bool
same pending pending = true
same running running = true
same succeeded succeeded = true
same failed failed = true
same cancelled cancelled = true
same blocked blocked = true
same _ _ = false

-- `s in {...}`
unfoldable pub one_of : TaskStatus → List TaskStatus → Bool
unfolding same
one_of s [] = false
one_of s (t ∷ ts) = same s t || one_of s ts

-- TaskStatus.is_sink
unfoldable pub is_sink : TaskStatus → Bool
unfolding one_of
is_sink s = one_of s (succeeded ∷ cancelled ∷ [])

-- TaskStatus.is_bad
unfoldable pub is_bad : TaskStatus → Bool
unfolding one_of
is_bad s = one_of s (failed ∷ cancelled ∷ blocked ∷ [])

-- TaskStatus.is_active
unfoldable pub is_active : TaskStatus → Bool
unfolding one_of
is_active s = one_of s (pending ∷ running ∷ [])

-- Task.is_terminal, of the task's status
unfoldable pub is_terminal : TaskStatus → Bool
unfolding one_of
is_terminal s = one_of s (succeeded ∷ failed ∷ cancelled ∷ blocked ∷ [])

-- _ALLOWED_TRANSITIONS
unfoldable pub allowed_transitions : TaskStatus → List TaskStatus
allowed_transitions pending = running ∷ cancelled ∷ blocked ∷ failed ∷ []
allowed_transitions running = succeeded ∷ failed ∷ cancelled ∷ []
allowed_transitions failed = running ∷ cancelled ∷ []
allowed_transitions blocked = running ∷ cancelled ∷ []
allowed_transitions succeeded = []
allowed_transitions cancelled = []

-- `target in _ALLOWED_TRANSITIONS[s]`
unfoldable pub allows : TaskStatus → TaskStatus → Bool
unfolding one_of allowed_transitions
allows s target = one_of target (allowed_transitions s)
