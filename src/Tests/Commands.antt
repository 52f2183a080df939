-- ===== src/Tests/Commands.antt =====
-- A subprocess of a task.
use ttasks.Common.{ℕ, refl, false, none, [], ◌∷◌}
use ttasks.Common.Values.{pos}
use ttasks.Status.{running}
use ttasks.Events.{stdout, stderr}
use ttasks.Executor.Effects.{Scene}
use ttasks.Executor.Command.{Subprocess, run_command}
use ttasks.Executor.Command.Ending.{Ran, run_command-Ran}
use ttasks.Tests.Samples.{sample, flaky, executor}

-- It writes to both streams and fails.
abbrev failing : Subprocess
failing = record {
  popen_error = none;
  lines = (stdout, "one") ∷ (stderr, "oops") ∷ (stdout, "two") ∷ [];
  cancelled_before = false;
  wait_expires = false;
  reader_alive = false;
  cancelled_after = false;
  returncode = pos 2;
}

abbrev scene : Scene ℕ
scene = record { executor = executor 0; task = sample 3 running }

run_command-Ran_example : Ran failing scene (run_command flaky failing scene)
run_command-Ran_example = run_command-Ran flaky failing scene refl
