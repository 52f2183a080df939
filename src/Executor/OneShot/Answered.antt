-- ===== src/Executor/OneShot/Answered.antt =====
-- When a handler of src/ttasks/_executor.py for one turn returns, and what.
use ttasks.Common.{ℕ, ◌≡◌, ◌↔◌, String, false, none, [], arith}
use ttasks.Errors.{Result, ok, raise}
use ttasks.Copilot.{Sdk, Response, response_text}
use ttasks.Executor.OneShot.{
  Options, Job, turn_timeout, check_cancelled, send_turn, in_session, in_client, answer,
  run_copilot_text,
}

-- No call of the SDK raises, but for the prompt.
abbrev pub SdkWorks : Sdk → ℕ → Type 0
SdkWorks sdk n =
    (sdk.enter_client n ≡ none)
    × (sdk.create_session n ≡ none)
    × (sdk.enter_session n ≡ none)
    × (sdk.exit_session n ≡ none)
    × (sdk.exit_client n ≡ none)

abbrev pub NeverCancelled : Job → Type 0
NeverCancelled job =
    (job.cancelled 0 ≡ false)
    × (job.cancelled 1 ≡ false)
    × (job.cancelled 2 ≡ false)
    × (job.cancelled 3 ≡ false)

-- The text of what the SDK answers
abbrev pub text_of : Result Response → Result String
text_of (ok response) = ok (response_text response)
text_of (raise e) = raise e

-- A turn returns a text exactly where the task is not cancelled at any of the four times at which the
-- handler asks, no call of the SDK raises, not even those that leave the session and the client, and
-- it is the text of the SDK's answer to the payload, under the timeout of the task or else of the
-- handler.
pub run_copilot_text_iff :
    (sdk : Sdk) (n : ℕ) (o : Options) (job : Job) (s : String)
    → ((run_copilot_text sdk n o job []).0 ≡ ok s) ↔ (
        SdkWorks sdk n
        × NeverCancelled job
        × (text_of (sdk.send_and_wait n job.payload (turn_timeout job.timeout o.default_timeout))
            ≡ ok s))
unfolding run_copilot_text check_cancelled in_client in_session answer send_turn
run_copilot_text_iff sdk n o job s = ground arith
