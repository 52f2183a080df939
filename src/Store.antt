-- ===== src/Store.antt =====
-- src/ttasks/_store.py: the collections of `InMemoryStore`. The collections of tasks and of graphs
-- have the same methods over other objects with other messages; they are modelled once, over what
-- tells the two apart (`Kind`).
pub mod Laws
use ttasks.Common.{
  ℕ, String, Bool, true, false, not, Option, none, some, List, [], ◌∷◌, length, ◌==◌, if◌then◌else◌,
}
use ttasks.Common.Dict.{Dict, lookup, insert, erase, keys, has}
use ttasks.Common.Values.{Arg, typed, untyped}
use ttasks.Errors.{text, type_error, value_error, key_error, Result, ok, raise, ◌>>=◌}
use ttasks.Task.{Task, cancel}
use ttasks.Graph.{TaskGraph}

-- What `in` is asked about: an object of the collection, an identity, or something else.
pub data Key (V : Type 0) : Type 0 where
  object : V → Key V
  identity : ℕ → Key V
  neither : Key V

-- What tells a class of collections from the other: the identity of its objects and its messages.
pub record Kind (V : Type 0) : Type 0 where
  pub id_of : V → ℕ
  pub expected : String
  pub mismatch : String

-- InMemoryTaskCollection
abbrev pub task_collection : Kind Task
task_collection = record {
  id_of = λ t. t.id;
  expected = "Expected Task";
  mismatch = "task_id must match task.id";
}

-- InMemoryGraphCollection
abbrev pub graph_collection : Kind TaskGraph
graph_collection = record {
  id_of = λ g. g.id;
  expected = "Expected TaskGraph";
  mismatch = "graph_id must match graph.id";
}

module _ {V : Type 0} (kind : Kind V) where
  -- __setitem__
  unfoldable pub set_item : Dict V → ℕ → Arg V → Result (Dict V)
  set_item d k untyped = raise (type_error (text kind.expected))
  set_item d k (typed v) =
      if k == kind.id_of v then ok (insert k v d) else raise (value_error (text kind.mismatch))

  -- save
  unfoldable pub save : Dict V → V → Result (Dict V)
  save d v = set_item d (kind.id_of v) (typed v)

  -- __contains__
  unfoldable pub contains : Dict V → Key V → Bool
  contains d (object v) = has (kind.id_of v) d
  contains d (identity k) = has k d
  contains d neither = false

module _ {V : Type 0} where
  -- __getitem__
  unfoldable pub get_item : Dict V → ℕ → Result V
  get_item d k = elim (lookup k d) [ none ↦ raise (key_error k) | some v ↦ ok v ]

  -- __delitem__
  unfoldable pub del_item : Dict V → ℕ → Result (Dict V)
  del_item d k = if has k d then ok (erase k d) else raise (key_error k)

  -- __iter__
  unfoldable pub iterate : Dict V → List ℕ
  iterate d = keys d

  -- __len__
  unfoldable pub size : Dict V → ℕ
  size d = length (keys d)

-- InMemoryTaskCollection.cancel: the stored object changes in place
unfoldable pub cancel_item : Dict Task → ℕ → Result (Dict Task)
cancel_item d k = do t ← get_item d k; t' ← cancel t; ok (insert k t' d)

-- InMemoryStore
pub record InMemoryStore : Type 0 where
  pub tasks : Dict Task
  pub graphs : Dict TaskGraph
