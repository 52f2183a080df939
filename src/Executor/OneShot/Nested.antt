-- ===== src/Executor/OneShot/Nested.antt =====
-- The clients and sessions that a handler of src/ttasks/_executor.py opens for one turn.
use ttasks.Common.{ℕ, ◌≡◌, ◌||◌, is_some, List, [], ◌∷◌, arith, if◌then◌else◌}
use ttasks.Copilot.{Sdk}
use ttasks.Executor.OneShot.{
  SdkCall, entered_client, entered_session, left_session, left_client, created_session, sent,
  Options, Job, turn_timeout, allowed_tools, check_cancelled, send_turn, in_session, in_client,
  answer, run_copilot_text,
}

-- How far a turn gets: not to a client, to a client, to the creation of a session, to a session, or
-- to the prompt.
pub data Stage : Type 0 where
  no_client client_entered session_created session_entered prompted : Stage

module _ (o : Options) (job : Job) where
  abbrev created : SdkCall
  created = created_session o.model (allowed_tools o.tools_enabled)

  abbrev prompt_sent : SdkCall
  prompt_sent = sent job.payload (turn_timeout job.timeout o.default_timeout)

  -- The calls of a turn that gets so far and is then unwound
  abbrev pub calls_of : Stage → List SdkCall
  calls_of no_client = []
  calls_of client_entered = entered_client ∷ left_client ∷ []
  calls_of session_created = entered_client ∷ created ∷ left_client ∷ []
  calls_of session_entered =
      entered_client ∷ created ∷ entered_session ∷ left_session ∷ left_client ∷ []
  calls_of prompted =
      entered_client ∷ created ∷ entered_session ∷ prompt_sent ∷ left_session ∷ left_client ∷ []

-- How far a turn gets, by what the SDK raises and when the task has been cancelled
abbrev pub stage_of : Sdk → ℕ → Job → Stage
stage_of sdk n job =
    if job.cancelled 0 || is_some (sdk.enter_client n)
    then no_client
    else if job.cancelled 1
    then client_entered
    else if is_some (sdk.create_session n) || is_some (sdk.enter_session n)
    then session_created
    else if job.cancelled 2
    then session_entered
    else prompted

-- Whatever the SDK raises and whenever the task is cancelled: a turn makes these calls and no others.
-- A client and a session that have been entered are left, the session before the client; at most one
-- prompt is sent, which is the payload of the task with its own timeout, or else with that of the
-- handler; and a handler without tools creates a session that allows none.
pub run_copilot_text-calls_of :
    (sdk : Sdk) (n : ℕ) (o : Options) (job : Job)
    → (run_copilot_text sdk n o job []).1 ≡ calls_of o job (stage_of sdk n job)
unfolding run_copilot_text check_cancelled in_client in_session answer send_turn
run_copilot_text-calls_of sdk n o job = ground arith
