-- ===== src/Task/Factories.antt =====
-- src/ttasks/_task.py: the factories of `Task` for each type, and its questions about a status.
use ttasks.Common.{
  ℕ, ◌≡◌, String, Bool, true, false, Option, none, some, List, [], ◌∷◌, keep, length, arith,
  if◌then◌else◌,
}
use ttasks.Common.Values.{Float, le_zero}
use ttasks.Status.{
  TaskType, bash, powershell, prompt, agent, pending, running, succeeded, failed, cancelled,
  blocked, same,
}
use ttasks.Errors.{text, value_error, Result, ok, raise}
use ttasks.Task.{Task, make, new_task, post_init, fresh_task}

-- What the keyword arguments of a factory are, and the identity and the time that it draws
pub record Draft : Type 0 where
  pub payload : String
  pub title : String
  pub description : String
  pub timeout : Option Float
  pub id : ℕ
  pub created_at : ℕ

-- Task.bash
unfoldable pub bash_task : Draft → Result Task
unfolding make
bash_task d = make bash d.payload d.title d.description d.timeout d.id d.created_at

-- Task.powershell
unfoldable pub powershell_task : Draft → Result Task
unfolding make
powershell_task d = make powershell d.payload d.title d.description d.timeout d.id d.created_at

-- Task.prompt
unfoldable pub prompt_task : Draft → Result Task
unfolding make
prompt_task d = make prompt d.payload d.title d.description d.timeout d.id d.created_at

-- Task.agent
unfoldable pub agent_task : Draft → Result Task
unfolding make
agent_task d = make agent d.payload d.title d.description d.timeout d.id d.created_at

-- Task.is_pending
unfoldable pub is_pending : Task → Bool
unfolding same
is_pending t = same t.status pending

-- Task.is_running
unfoldable pub is_running : Task → Bool
unfolding same
is_running t = same t.status running

-- Task.is_succeeded
unfoldable pub is_succeeded : Task → Bool
unfolding same
is_succeeded t = same t.status succeeded

-- Task.is_failed
unfoldable pub is_failed : Task → Bool
unfolding same
is_failed t = same t.status failed

-- Task.is_cancelled
unfoldable pub is_cancelled : Task → Bool
unfolding same
is_cancelled t = same t.status cancelled

-- Task.is_blocked
unfoldable pub is_blocked : Task → Bool
unfolding same
is_blocked t = same t.status blocked

-- `not (timeout <= 0)`, of a timeout that is given
abbrev pub accepts_timeout : Option Float → Bool
accepts_timeout none = true
accepts_timeout (some x) = if le_zero x then false else true

abbrev pub factory : TaskType → Draft → Result Task
factory bash = bash_task
factory powershell = powershell_task
factory prompt = prompt_task
factory agent = agent_task

-- Every factory makes a PENDING task of its type from its arguments, with no error, result or
-- blocking parent, and raises ValueError exactly on a timeout that is 0 or negative.
pub factory_cases :
    (k : TaskType) (d : Draft)
    → factory k d ≡ (
        if accepts_timeout d.timeout
        then ok (fresh_task d.title d.payload k d.description none d.timeout d.id d.created_at)
        else raise (value_error (text "timeout must be greater than 0")))
unfolding bash_task powershell_task prompt_task agent_task make new_task post_init
factory_cases k d = ground arith

-- The questions that a task answers with yes
unfoldable pub answers : Task → List Bool
unfolding is_pending is_running is_succeeded is_failed is_cancelled is_blocked
answers t =
    is_pending t ∷ is_running t ∷ is_succeeded t ∷ is_failed t ∷ is_cancelled t ∷ is_blocked t ∷ []

-- Exactly one of the six questions is answered with yes.
pub one_answer : (t : Task) → length (keep (λ b. b) (answers t)) ≡ 1
unfolding answers is_pending is_running is_succeeded is_failed is_cancelled is_blocked same
one_answer t = ground arith
