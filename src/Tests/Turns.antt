-- ===== src/Tests/Turns.antt =====
-- One turn of a Copilot handler at a concrete SDK, and a wait between two attempts.
use ttasks.Executor.Backoff.{Sleep, sleep_retry_backoff, sleep_retry_backoff-Slept}
use ttasks.Common.{
  ℕ, suc, ◌+◌, ◌*◌, ◌<◌, ◌≤◌, ◌⊎◌, arith, ◌≡◌, ◌↔◌, true, false, none, some, [], ◌==◌,
}
use ttasks.Common.Values.{of_ℕ}
use ttasks.Errors.{text, ok, Exn}
use ttasks.Copilot.{Sdk, assistant_message}
use ttasks.Executor.OneShot.{Options, Job, run_copilot_text, turn_timeout}
use ttasks.Executor.OneShot.Nested.{calls_of, stage_of, run_copilot_text-calls_of}
use ttasks.Executor.OneShot.Answered.{SdkWorks, NeverCancelled, text_of, run_copilot_text_iff}

-- Leaving a session raises; every prompt is answered.
abbrev sdk : Sdk
sdk = record {
  enter_client = λ n. none;
  create_session = λ n. none;
  enter_session = λ n. none;
  exit_session = λ n. some (Exn.runtime_error (text "session is gone"));
  exit_client = λ n. none;
  send_and_wait = λ n p limit. ok (assistant_message (some "done"));
}

abbrev options : Options
options = record { model = "gpt"; default_timeout = some (of_ℕ 60); tools_enabled = false }

-- The task is cancelled after the session has been entered.
abbrev job : Job
job = record { task_id = 1; payload = "review"; timeout = none; cancelled = λ k. k == 2 }

run_copilot_text-calls_of_example :
    (run_copilot_text sdk 0 options job []).1 ≡ calls_of options job (stage_of sdk 0 job)
run_copilot_text-calls_of_example = run_copilot_text-calls_of sdk 0 options job

run_copilot_text_iff_example : ((run_copilot_text sdk 0 options job []).0 ≡ ok "done") ↔ (
    SdkWorks sdk 0
    × NeverCancelled job
    × (text_of (sdk.send_and_wait 0 "review" (turn_timeout none (some (of_ℕ 60)))) ≡ ok "done"))
run_copilot_text_iff_example = run_copilot_text_iff sdk 0 options job "done"

-- A wait of three seconds, from 100 on, in units of 0.01 seconds; the task is cancelled before the
-- fifth test.
abbrev wait : Sleep
wait = record { slice = 5; cancelled = λ k. k == 4; late = λ k. 0 }

sleep_retry_backoff-Slept_example :
    (t : ℕ) × (sleep_retry_backoff wait 100 300 (suc 300) ≡ some t)
    × (((j : ℕ) × (wait.cancelled j ≡ true)) ⊎ (100 + 300 ≤ t))
    × (((j : ℕ) → wait.late j ≡ 0) → t ≤ 100 + 300)
    × (((j : ℕ) → wait.late j ≡ 0)
        → 10 * 5 < 300
        → (m : ℕ) → wait.cancelled m ≡ true
        → t ≤ 100 + m * 5)
sleep_retry_backoff-Slept_example = sleep_retry_backoff-Slept wait 100 300 (omega arith)
