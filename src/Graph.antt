-- ===== src/Graph.antt =====
-- src/ttasks/_graph.py: `TaskGraph`, the dag of tasks. Tasks are held by identity; the objects are
-- shared with the executor, so `tasks` is also what the workers of a run change.
pub mod Views
pub mod WellFormed
pub mod Mapping
pub mod Validate
pub mod Run
use ttasks.Common.{
  ℕ, String, Bool, true, false, ◌&&◌, ◌||◌, not, Option, none, some, List, [], ◌∷◌, ◌++◌, elem,
  keep, all, ◌==◌, if◌then◌else◌,
}
use ttasks.Common.Dict.{Dict, lookup, insert, erase, keys, has}
use ttasks.Common.Values.{Arg, typed, untyped}
use ttasks.Errors.{
  Message, text, Exn, type_error, value_error, key_error, Result, ok, raise, ◌>>=◌, ◌>>◌, raise_if,
}
use ttasks.Task.{Task}

-- TaskGraph. The sets `_finally` and `_optional` are lists that are only asked for members.
pub record TaskGraph : Type 0 where
  pub id : ℕ
  pub title : String
  pub created_at : ℕ
  pub tasks : Dict Task
  pub deps : Dict (List ℕ)
  pub errors : Dict Exn
  pub finally_ : List ℕ
  pub optional : List ℕ

-- TaskGraph.__init__
unfoldable pub new_graph : (id created_at : ℕ) → Arg String → Result TaskGraph
new_graph id created_at untyped = raise (type_error (text "title must be a str"))
new_graph id created_at (typed title) = ok (record {
  id = id;
  title = title;
  created_at = created_at;
  tasks = [];
  deps = [];
  errors = [];
  finally_ = [];
  optional = [];
})

-- `s.add(k)`
unfoldable pub set_add : ℕ → List ℕ → List ℕ
set_add k ks = if elem k ks then ks else ks ++ k ∷ []

-- `s.discard(k)`
unfoldable pub set_discard : ℕ → List ℕ → List ℕ
set_discard k ks = keep (λ j. not (j == k)) ks

-- The loop of `add` over `after`: the new dependencies, each once, in order of their first mention
unfoldable pub collect : List (Arg Task) → List ℕ → Result (List ℕ)
collect [] deps = ok deps
collect (untyped ∷ after) deps = raise (type_error (text "Expected Task dependency"))
collect (typed d ∷ after) deps = collect after (if elem d.id deps then deps else deps ++ d.id ∷ [])

-- The last part of `add`: the edges and the two sets
unfoldable pub register : TaskGraph → ℕ → List ℕ → (finally_ required : Bool) → TaskGraph
unfolding insert set_add set_discard
register g id deps finally_ required = record g {
  deps = insert id deps g.deps;
  finally_ = if finally_ then set_add id g.finally_ else set_discard id g.finally_;
  optional = if finally_ && not required then set_add id g.optional else set_discard id g.optional;
}

-- The tests of `add` on its flags
unfoldable pub check_flags : Arg Bool → Arg Bool → Result (Bool × Bool)
check_flags untyped required = raise (type_error (text "finally_ must be a bool"))
check_flags (typed f) untyped = raise (type_error (text "required must be a bool"))
check_flags (typed f) (typed r) =
    if not r && not f
    then raise (value_error (text "required=False is only valid with finally_=True"))
    else ok (f, r)

-- The part of `add` after the tests. The task is stored first, also where a dependency is refused.
unfoldable pub add_task :
    TaskGraph → Task → List (Arg Task) → Bool → Bool → Result (Unit {0}) × TaskGraph
unfolding insert collect register
add_task g task after finally_ required =
    let stored = record g { tasks = insert task.id task g.tasks } in
    elim (collect after []) [
      | raise e ↦ (raise e, stored)
      | ok deps ↦ (ok tt, register stored task.id deps finally_ required)
    ]

-- TaskGraph.add
unfoldable pub add :
    TaskGraph
    → Arg Task
    → List (Arg Task)
    → (finally_ required : Arg Bool) → Result (Unit {0}) × TaskGraph
unfolding check_flags add_task
add g untyped after finally_ required = (raise (type_error (text "Expected Task")), g)
add g (typed task) after finally_ required = elim (check_flags finally_ required) [
  | raise e ↦ (raise e, g)
  | ok (f, r) ↦ add_task g task after f r
]
