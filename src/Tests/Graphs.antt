-- ===== src/Tests/Graphs.antt =====
-- Building and reading graphs at concrete tasks.
use ttasks.Common.{◌≡◌, refl, true, false, some, map, [], ◌∷◌, elem, arith}
use ttasks.Common.Dict.{lookup, insert}
use ttasks.Common.Values.{typed, untyped}
use ttasks.Status.{pending, succeeded, failed}
use ttasks.Errors.{ok}
use ttasks.Graph.{TaskGraph, add}
use ttasks.Graph.Mapping.{set_item, get_item, items, pairs_of, set_item-get_item}
use ttasks.Graph.WellFormed.{IsWellFormed, add-IsWellFormed}
use ttasks.Graph.Views.{tasks_of}
use ttasks.Tests.Samples.{sample}

abbrev pub empty : TaskGraph
empty = record {
  id = 7;
  title = "g";
  created_at = 0;
  tasks = [];
  deps = [];
  errors = [];
  finally_ = [];
  optional = [];
}

IsWellFormed-empty : IsWellFormed empty
unfolding lookup
IsWellFormed-empty = record {
  registered = λ k h. ground arith;
  distinct = λ k ds h. ground arith;
  optional_finally = λ k h. h;
}

add-IsWellFormed_example :
    IsWellFormed (add empty (typed (sample 1 pending)) (untyped ∷ []) (typed false) (typed true)).1
add-IsWellFormed_example =
    add-IsWellFormed empty (typed (sample 1 pending)) (untyped ∷ []) (typed false) (typed true)
      IsWellFormed-empty

-- 1 has succeeded; 2 is an optional finally task after 1, and has failed.
abbrev reported : TaskGraph
reported = record empty {
  tasks = (1, sample 1 succeeded) ∷ (2, sample 2 failed) ∷ [];
  deps = (1, []) ∷ (2, 1 ∷ []) ∷ [];
  finally_ = 2 ∷ [];
  optional = 2 ∷ [];
}

set_item-get_item_example :
    ((set_item reported
        (typed (sample 3 pending))
        (map typed (sample 2 failed ∷ sample 1 succeeded ∷ []))).0
      ≡ ok tt)
    × (get_item
          (set_item reported
            (typed (sample 3 pending))
            (map typed (sample 2 failed ∷ sample 1 succeeded ∷ []))).1
          (sample 3 pending)
        ≡ some (sample 2 failed ∷ sample 1 succeeded ∷ []))
    × (elem 3
          (set_item reported
            (typed (sample 3 pending))
            (map typed (sample 2 failed ∷ sample 1 succeeded ∷ []))).1.finally_
        ≡ false)
unfolding lookup insert
set_item-get_item_example =
    set_item-get_item reported (sample 3 pending) (sample 2 failed ∷ sample 1 succeeded ∷ []) refl
      (refl, (refl, tt))

items-reported :
    items reported ≡ (sample 1 succeeded, []) ∷ (sample 2 failed, sample 1 succeeded ∷ []) ∷ []
unfolding items pairs_of lookup tasks_of
items-reported = refl
