-- ===== src/Tests/Stores.antt =====
-- Collections of tasks at concrete contents.
use ttasks.Common.{ℕ, ◌≡◌, false, [], ◌∷◌, ◌==◌, arith}
use ttasks.Common.Dict.{Dict, lookup}
use ttasks.Status.{pending, failed}
use ttasks.Errors.{ok}
use ttasks.Task.{Task}
use ttasks.Store.{task_collection, save, get_item}
use ttasks.Store.Laws.{IsKeyed, save_lem}
use ttasks.Tests.Samples.{sample}

abbrev one : Dict Task
one = (1, sample 1 failed) ∷ []

one-IsKeyed : IsKeyed (λ t. t.id) one
unfolding lookup
one-IsKeyed k v h = ground arith

save_lem_example :
    (d' : Dict Task) × (save task_collection one (sample 2 pending) ≡ ok d')
    × (get_item d' 2 ≡ ok (sample 2 pending))
    × ((k : ℕ) → k == 2 ≡ false → get_item d' k ≡ get_item one k)
    × IsKeyed (λ t. t.id) d'
save_lem_example = save_lem task_collection one (sample 2 pending) one-IsKeyed
