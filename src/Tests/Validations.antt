-- ===== src/Tests/Validations.antt =====
-- Validating graphs at concrete tasks.
use ttasks.Common.{ℕ, ◌≤◌, ◌≡◌, refl, ◌↔◌, true, some, List, [], ◌∷◌, arith}
use ttasks.Common.Dict.{Dict, lookup, insert, keys}
use ttasks.Status.{pending, same}
use ttasks.Errors.{value_error, text, ok, raise}
use ttasks.Task.{Task}
use ttasks.Graph.{TaskGraph}
use ttasks.Graph.WellFormed.{nodup, IsWellFormed}
use ttasks.Graph.Validate.{
  validate, check_running, check_registered, check_edges, check_cycles, kahn, in_degrees, sources,
  backwards, relax, degree,
}
use ttasks.Graph.Validate.Acyclic.{Acyclic, Registered, kahn_ends}
use ttasks.Graph.Validate.Accepted.{NoneRunning, validate_iff}
use ttasks.Tests.Samples.{sample}
use ttasks.Tests.Graphs.{empty}

-- 2 and 3 are after 1; 4 is after both.
abbrev diamond : Dict (List ℕ)
diamond = (4, 2 ∷ 3 ∷ []) ∷ (1, []) ∷ (2, 1 ∷ []) ∷ (3, 1 ∷ []) ∷ []

-- 1 and 2 wait for each other; 3 is free.
abbrev knot : Dict (List ℕ)
knot = (1, 2 ∷ []) ∷ (2, 1 ∷ 3 ∷ []) ∷ (3, []) ∷ []

abbrev samples : Dict Task
samples =
    (1, sample 1 pending)
    ∷ (2, sample 2 pending)
    ∷ (3, sample 3 pending)
    ∷ (4, sample 4 pending)
    ∷ []

abbrev graph_of : Dict (List ℕ) → TaskGraph
graph_of deps = record empty { tasks = samples; deps = deps }

validate-diamond : validate (graph_of diamond) ≡ ok tt
unfolding validate check_running check_registered check_edges check_cycles lookup same kahn
    in_degrees sources backwards relax degree insert
validate-diamond = refl

validate-knot : validate (graph_of knot) ≡ raise (value_error (text "TaskGraph contains a cycle"))
unfolding validate check_running check_registered check_edges check_cycles lookup same kahn
    in_degrees sources backwards relax degree insert
validate-knot = refl

diamond_distinct : (k : ℕ) (ds : List ℕ) → lookup k diamond ≡ some ds → nodup ds ≡ true
unfolding lookup
diamond_distinct k ds h = ground arith

knot_distinct : (k : ℕ) (ds : List ℕ) → lookup k knot ≡ some ds → nodup ds ≡ true
unfolding lookup
knot_distinct k ds h = ground arith

diamond-IsWellFormed : IsWellFormed (graph_of diamond)
unfolding lookup
diamond-IsWellFormed = record {
  registered = λ k h. ground arith;
  distinct = diamond_distinct;
  optional_finally = λ k h. h;
}

validate_iff_example :
    (validate (graph_of diamond) ≡ ok tt)
    ↔ (NoneRunning samples × Registered diamond × Acyclic diamond)
unfolding keys
validate_iff_example = validate_iff (graph_of diamond) diamond-IsWellFormed refl refl

kahn_ends_example :
    (visited : ℕ) × (kahn knot 3 (in_degrees knot) (backwards (sources (in_degrees knot)) []) 0
      ≡ some visited)
    × (visited ≤ 3)
unfolding keys
kahn_ends_example = kahn_ends knot refl knot_distinct
