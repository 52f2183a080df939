-- ===== src/Tests/Samples.antt =====
-- Sample tasks, and an executor for them.
use ttasks.Common.{ℕ, suc, Bool, false, none, some, [], ◌==◌, if◌then◌else◌}
use ttasks.Common.Values.{of_ℕ}
use ttasks.Status.{TaskStatus, bash}
use ttasks.Errors.{text, Exn}
use ttasks.Task.{Task, Raw, fresh_task}
use ttasks.Events.{new_bus}
use ttasks.Executor.Effects.{Trial, Outcome, returned, raised, Env, Executor, Scene}

-- A bash task without a timeout.
abbrev pub sample : ℕ → TaskStatus → Task
sample id s = record (fresh_task "build" "make" bash "" none none id 0) { status = s }

abbrev pub trial : Bool → Outcome → Bool → Trial
trial during outcome late = record {
  times = record { started = 1; finished = 4; elapsed = of_ℕ 3 };
  reports = [];
  cancelled_during = during;
  outcome = outcome;
  cancelled_late = late;
}

-- The first call of a handler fails and every later one succeeds. Task 9 is cancelled just before
-- its failure is written. Each save is counted.
abbrev pub flaky : Env ℕ
flaky = record {
  save = λ n t. (suc n, none);
  react = λ s e. ([], none);
  depth = 3;
  handle = λ h t n.
      if n == 0
      then trial false (raised (Exn.exception (text "boom"))) (t.id == 9)
      else trial false (returned (Raw.string "done")) false;
  now = λ n. n;
  cancelled_between = λ n. false;
}

-- An executor that handles bash tasks and saves them.
abbrev pub executor : ℕ → Executor ℕ
executor calls = record {
  handlers = λ k. elim k [ bash ↦ some 0 | _ ↦ none ];
  running_processes = [];
  events = new_bus;
  store = some 0;
  persistence_errors = [];
  published = [];
  calls = calls;
  readings = 0;
}

abbrev pub scene : ℕ → Task → Scene ℕ
scene calls t = record { executor = executor calls; task = t }
