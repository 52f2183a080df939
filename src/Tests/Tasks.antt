-- ===== src/Tests/Tasks.antt =====
-- Methods of tasks at concrete tasks.
use ttasks.Common.{true, ◌≡◌, refl, none, some, List, [], ◌∷◌}
use ttasks.Common.Values.{typed}
use ttasks.Status.{pending, running, succeeded, failed}
use ttasks.Errors.{text}
use ttasks.Task.{error}
use ttasks.Task.Lifecycle.{
  Call, write, move, cancel_task, perform_all, perform_all_lem, statuses, follows_table,
}
use ttasks.Task.Sealed.{perform_all-succeeded}
use ttasks.Tests.Samples.{sample}

abbrev calls : List Call
calls =
    move (typed running) none
    ∷ move (typed failed) (some (text "boom"))
    ∷ write (error none) refl
    ∷ cancel_task
    ∷ move (typed running) none
    ∷ []

perform_all_lem_example :
    ((perform_all (sample 1 pending) calls).id ≡ 1)
    × (follows_table pending (statuses (sample 1 pending) calls) ≡ true)
perform_all_lem_example = perform_all_lem (sample 1 pending) calls

perform_all-succeeded_example : perform_all (sample 1 succeeded) calls ≡ sample 1 succeeded
perform_all-succeeded_example = perform_all-succeeded (sample 1 succeeded) calls refl
