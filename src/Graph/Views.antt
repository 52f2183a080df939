-- ===== src/Graph/Views.antt =====
-- src/ttasks/_graph.py: the read-only views of a `TaskGraph`. An identity with edges has its task in
-- every graph that `add` builds (see Graph/WellFormed), so that no look-up fails.
pub mod Outcome
use ttasks.Common.{
  if◌then◌else◌, ℕ, zero, suc, Bool, true, false, ◌&&◌, ◌||◌, not, Option, none, some, List, [],
  ◌∷◌, ◌++◌, elem, keep, all, length, is_some,
}
use ttasks.Common.Dict.{Dict, lookup, keys, has}
use ttasks.Common.Values.{Arg, typed, untyped}
use ttasks.Status.{TaskStatus, succeeded, failed, cancelled, blocked, same}
use ttasks.Errors.{Exn}
use ttasks.Task.{Task}
use ttasks.Graph.{TaskGraph}

-- `[self._tasks[tid] for tid in tids]`
unfoldable pub tasks_of : TaskGraph → List ℕ → List Task
tasks_of g [] = []
tasks_of g (tid ∷ tids) = elim (lookup tid g.tasks) [
  | none ↦ tasks_of g tids
  | some t ↦ t ∷ tasks_of g tids
]

-- TaskGraph.__iter__
unfoldable pub members : TaskGraph → List Task
members g = tasks_of g (keys g.deps)

-- `[t for t in self if p(t)]`
unfoldable pub keep_tasks : (Task → Bool) → List Task → List Task
keep_tasks p [] = []
keep_tasks p (t ∷ ts) = if p t then t ∷ keep_tasks p ts else keep_tasks p ts

-- TaskGraph.__contains__
unfoldable pub contains : TaskGraph → Arg Task → Bool
contains g untyped = false
contains g (typed t) = has t.id g.deps

-- TaskGraph.__len__
unfoldable pub size : TaskGraph → ℕ
size g = length (keys g.deps)

-- TaskGraph.dependencies; `none` is the KeyError of a task that is not registered
unfoldable pub dependencies : TaskGraph → Task → Option (List Task)
dependencies g t = elim (lookup t.id g.deps) [ none ↦ none | some ds ↦ some (tasks_of g ds) ]

-- TaskGraph.is_finally
unfoldable pub is_finally : TaskGraph → Task → Bool
is_finally g t = elem t.id g.finally_

-- TaskGraph.is_optional
unfoldable pub is_optional : TaskGraph → Task → Bool
is_optional g t = elem t.id g.optional

-- TaskGraph.finally_tasks
unfoldable pub finally_tasks : TaskGraph → List Task
finally_tasks g = keep_tasks (is_finally g) (members g)

-- TaskGraph.optional_tasks
unfoldable pub optional_tasks : TaskGraph → List Task
optional_tasks g = keep_tasks (is_optional g) (members g)

-- TaskGraph.required_tasks
unfoldable pub required_tasks : TaskGraph → List Task
required_tasks g = keep_tasks (λ t. not (is_optional g t)) (members g)

-- TaskGraph.succeeded, failed, cancelled and blocked, by the status
unfoldable pub in_status : TaskGraph → TaskStatus → List Task
in_status g s = keep_tasks (λ t. same t.status s) (members g)

-- TaskGraph.optional_failed
unfoldable pub optional_failed : TaskGraph → List Task
optional_failed g = keep_tasks (is_optional g) (in_status g failed)

-- TaskGraph.required_failed
unfoldable pub required_failed : TaskGraph → List Task
required_failed g = keep_tasks (λ t. not (is_optional g t)) (in_status g failed)

-- TaskGraph.required_blocked
unfoldable pub required_blocked : TaskGraph → List Task
required_blocked g = keep_tasks (λ t. not (is_optional g t)) (in_status g blocked)

-- The status test of `ok` for one identity
abbrev pub task_succeeded : Option Task → Bool
task_succeeded none = false
task_succeeded (some t) = same t.status succeeded

-- TaskGraph.ok
unfoldable pub is_ok : TaskGraph → Bool
is_ok g =
    all
      (λ tid. elem tid g.optional || task_succeeded (lookup tid g.tasks) && not (has tid g.errors))
      (keys g.deps)

-- The identities without dependencies
unfoldable pub root_ids : Dict (List ℕ) → List ℕ
root_ids [] = []
root_ids ((tid, []) ∷ d) = tid ∷ root_ids d
root_ids ((tid, _ ∷ _) ∷ d) = root_ids d

-- TaskGraph.roots
unfoldable pub roots : TaskGraph → List Task
roots g = tasks_of g (root_ids g.deps)

-- `depended_on` of `leaves`: the members of all lists of dependencies
unfoldable pub depended_on : Dict (List ℕ) → List ℕ
depended_on [] = []
depended_on ((tid, ds) ∷ d) = ds ++ depended_on d

-- TaskGraph.leaves
unfoldable pub leaves : TaskGraph → List Task
leaves g = tasks_of g (keep (λ tid. not (elem tid (depended_on g.deps))) (keys g.deps))
