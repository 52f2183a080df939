-- ===== src/Tests/Outer.antt =====
-- Whole runs of a graph at concrete tasks.
use ttasks.Common.{ℕ, suc, ◌≡◌, true, none, some, is_some, [], ◌∷◌, ◌++◌}
use ttasks.Common.Values.{pos}
use ttasks.Status.{pending, cancelled}
use ttasks.Errors.{Exn, text, ◌>>◌}
use ttasks.Graph.{TaskGraph}
use ttasks.Graph.Validate.{validate}
use ttasks.Graph.Run.{visit}
use ttasks.Graph.Run.Outer.{Saver, Outside, check_workers, run}
use ttasks.Graph.Run.Outer.Saving.{saves, run_saving}
use ttasks.Tests.Samples.{sample}
use ttasks.Tests.Graphs.{empty}

-- 1 is CANCELLED; 2, after 1, is PENDING.
abbrev doomed : TaskGraph
doomed = record empty {
  tasks = (1, sample 1 cancelled) ∷ (2, sample 2 pending) ∷ [];
  deps = (1, []) ∷ (2, 1 ∷ []) ∷ [];
}

-- The scheduler marks 2 as blocked, and is through. Saving counts the graphs, and fails.
abbrev outside : Outside ℕ
outside = record {
  save_graph = λ n g. (suc n, some (Exn.exception (text "disk full")));
  threads = λ plan r.
      let r' = (visit plan r 2).0 in (record { asked_finished = r'; asked_live = r' } ∷ [], r');
  absent = sample 0 pending;
}

abbrev saver : Saver ℕ
saver = record { store = some 0; graph_persistence_errors = []; attempted = [] }

run_saving_example :
    ((run outside (pos 4) doomed saver).0
      ≡ (run (record outside { save_graph = λ n g. (n, none) }) (pos 4) doomed saver).0)
    × ((run outside (pos 4) doomed saver).1
        ≡ (run (record outside { save_graph = λ n g. (n, none) }) (pos 4) doomed saver).1)
    × (is_some saver.store ≡ true
        → is_some (run outside (pos 4) doomed saver).0 ≡ true
        → (run outside (pos 4) doomed saver).2.attempted
          ≡ []
            ++ saves
                (check_workers (pos 4) >> validate doomed)
                doomed
                (run outside (pos 4) doomed saver).1)
run_saving_example = run_saving outside (λ n g. (n, none)) (pos 4) doomed saver saver
