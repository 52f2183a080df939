-- ===== src/Tests/Runs.antt =====
-- Runs of a graph at concrete plans.
use ttasks.Common.{
  ℕ, ◌≡◌, refl, true, false, none, some, arith, List, [], ◌∷◌, elem, ◌==◌, if◌then◌else◌,
}
use ttasks.Status.{pending, running, succeeded, cancelled, blocked}
use ttasks.Graph.Run.{
  Plan, RunState, pass, advance, visit, verdict_at, no_progress, submit, working,
}
use ttasks.Graph.Run.Late.{IsLate, ended_with, late_no_progress}
use ttasks.Graph.Run.Steps.{Step, visited, here, next}
use ttasks.Graph.Run.Safety.{IsSound, Reach-IsSound}
use ttasks.Graph.Run.Progress.{advance_enough}
use ttasks.Tests.Samples.{sample}

-- 1 is CANCELLED; 2, after 1, came into the run BLOCKED; 3, after 2, is PENDING.
abbrev chain : Plan
chain = record {
  order = 1 ∷ 2 ∷ 3 ∷ [];
  deps = λ k. if k == 2 then 1 ∷ [] else if k == 3 then 2 ∷ [] else [];
  is_finally = λ k. false;
  entering_blocked = 2 ∷ [];
}

abbrev carried : RunState
carried = record {
  tasks = λ k. sample k (if k == 1 then cancelled else if k == 2 then blocked else pending);
  futures = λ k. none;
  errors = λ k. none;
}

abbrev after_visit : RunState
after_visit = (visit chain carried 2).0

Reach-IsSound_example : IsSound chain after_visit
Reach-IsSound_example =
    Reach-IsSound chain carried after_visit (λ d. (refl, refl)) (next here (visited 2 refl))

advance_enough_example :
    (r' : RunState) × (advance chain 7 carried ≡ some r')
    × (pass chain r' chain.order ≡ (r', false))
advance_enough_example = advance_enough chain 7 carried (omega arith)

-- 2 is PENDING after 1, whose worker is the only one.
abbrev pair : Plan
pair = record {
  order = 1 ∷ 2 ∷ [];
  deps = λ k. if k == 2 then 1 ∷ [] else [];
  is_finally = λ k. false;
  entering_blocked = [];
}

abbrev at_work : RunState
at_work = record {
  tasks = λ k. sample k (if k == 1 then running else pending);
  futures = λ k. if k == 1 then some working else none;
  errors = λ k. none;
}

late : IsLate pair at_work 1 2 (sample 1 succeeded)
late = record {
  x_live = refl;
  x_fine = refl;
  x_works = record { unfinished = λ h. cc h; without = λ e. refl; with_success = λ h. refl };
  y_free = refl;
  y_pending = refl;
  y_ordinary = refl;
  y_after = refl;
  y_in = refl;
  none_else = refl;
}

late_no_progress_example :
    (visit pair at_work 2 ≡ (at_work, false))
    × Step pair at_work (ended_with at_work 1 (sample 1 succeeded))
    × ((stuck : List ℕ) × (verdict_at pair at_work (ended_with at_work 1 (sample 1 succeeded))
          ≡ no_progress stuck)
        × (elem 2 stuck ≡ true))
    × (visit pair (ended_with at_work 1 (sample 1 succeeded)) 2
        ≡ (submit (ended_with at_work 1 (sample 1 succeeded)) 2, true))
late_no_progress_example = late_no_progress pair at_work 1 2 (sample 1 succeeded) late
