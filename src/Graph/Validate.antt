-- ===== src/Graph/Validate.antt =====
-- src/ttasks/_graph.py: `_validate`, which `run` calls first. The list `queue` of the source grows
-- and shrinks at its end; here its end stands first.
pub mod Counting
pub mod Relax
pub mod Order
pub mod Kahn
pub mod Start
pub mod Acyclic
pub mod Accepted
use ttasks.Common.{
  ℕ, zero, suc, ◌-◌, String, Bool, true, false, Option, none, some, List, [], ◌∷◌, ◌++◌, elem,
  length, ◌==◌, if◌then◌else◌,
}
use ttasks.Common.Dict.{Dict, lookup, insert, has}
use ttasks.Status.{running, same}
use ttasks.Errors.{
  base_exception, text, is_running_now, depends_on, value_error, key_error, Result, ok, raise,
  ◌>>=◌, ◌>>◌,
}
use ttasks.Task.{Task}
use ttasks.Graph.{TaskGraph}

-- The loop over `self._tasks.values()`
unfoldable pub check_running : Dict Task → Result (Unit {0})
unfolding same
check_running [] = ok tt
check_running ((k, t) ∷ tasks) =
    if same t.status running
    then raise (value_error (is_running_now t.title))
    else check_running tasks

-- `self._tasks[tid].title`
unfoldable pub title_of : Dict Task → ℕ → Result String
title_of tasks tid = elim (lookup tid tasks) [ none ↦ raise (key_error tid) | some t ↦ ok t.title ]

-- The inner loop over the dependencies of one task
unfoldable pub check_edges : TaskGraph → ℕ → List ℕ → Result (Unit {0})
check_edges g tid [] = ok tt
check_edges g tid (d ∷ ds) =
    if has d g.deps
    then check_edges g tid ds
    else title_of g.tasks tid >>= λ title. raise (value_error (depends_on title d))

-- The loop over `self._deps.items()`
unfoldable pub check_registered : TaskGraph → Dict (List ℕ) → Result (Unit {0})
check_registered g [] = ok tt
check_registered g ((tid, ds) ∷ deps) = check_edges g tid ds >> check_registered g deps

-- `indeg`
unfoldable pub in_degrees : Dict (List ℕ) → Dict ℕ
in_degrees [] = []
in_degrees ((tid, ds) ∷ deps) = (tid, length ds) ∷ in_degrees deps

-- The identities of in-degree 0, in order
unfoldable pub sources : Dict ℕ → List ℕ
sources [] = []
sources ((tid, n) ∷ degrees) = if n == 0 then tid ∷ sources degrees else sources degrees

-- `indeg[tid]`; every task has its entry
unfoldable pub degree : ℕ → Dict ℕ → ℕ
degree tid degrees = elim (lookup tid degrees) [ none ↦ 0 | some n ↦ n ]

-- The `for` loop in the `while` loop. `indeg[tid]` becomes 0 exactly where it was 1.
unfoldable pub relax : ℕ → Dict (List ℕ) → Dict ℕ → List ℕ → Dict ℕ × List ℕ
relax cur [] degrees queue = (degrees, queue)
relax cur ((tid, ds) ∷ deps) degrees queue =
    relax cur deps (if elem cur ds then insert tid (degree tid degrees - 1) degrees else degrees)
      (if elem cur ds then (if degree tid degrees == 1 then tid ∷ queue else queue) else queue)

-- The `while queue` loop, by fuel: the number of visited tasks
unfoldable pub kahn : Dict (List ℕ) → (fuel : ℕ) → Dict ℕ → List ℕ → (visited : ℕ) → Option ℕ
kahn deps fuel degrees [] visited = some visited
kahn deps zero degrees (cur ∷ queue) visited = none
kahn deps (suc fuel) degrees (cur ∷ queue) visited =
    kahn deps fuel (relax cur deps degrees queue).0 (relax cur deps degrees queue).1 (suc visited)

-- The end first
unfoldable pub backwards : List ℕ → List ℕ → List ℕ
backwards [] out = out
backwards (k ∷ ks) out = backwards ks (k ∷ out)

-- `if visited != len(self._deps)`. The loop does not run out of fuel.
abbrev pub check_visited : ℕ → Option ℕ → Result (Unit {0})
check_visited n none = raise (base_exception (text "out of fuel"))
check_visited n (some visited) =
    if visited == n then ok tt else raise (value_error (text "TaskGraph contains a cycle"))

-- The last part of `_validate`. The fuel is the number of tasks, which is enough.
unfoldable pub check_cycles : Dict (List ℕ) → Result (Unit {0})
unfolding in_degrees sources kahn backwards
check_cycles deps =
    check_visited (length deps)
      (kahn deps (length deps) (in_degrees deps) (backwards (sources (in_degrees deps)) []) 0)

-- _validate
unfoldable pub validate : TaskGraph → Result (Unit {0})
validate g = do check_running g.tasks; check_registered g g.deps; check_cycles g.deps
