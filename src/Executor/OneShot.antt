-- ===== src/Executor/OneShot.antt =====
-- src/ttasks/_executor.py: the handlers of PROMPT and AGENT tasks, each of which opens a client and a
-- session of the Copilot SDK for one turn. The SDK is a parameter: what each call of it raises. What
-- has been asked of it is a list of calls. Whether the task has been cancelled by the k-th time that
-- the handler asks is a parameter too, since other threads decide it.
pub mod Nested
pub mod Answered
use ttasks.Common.{
  ℕ, ◌≡◌, String, Bool, true, false, not, Option, none, some, List, [], ◌∷◌, ◌++◌, if◌then◌else◌,
}
use ttasks.Common.Texts.{is_empty}
use ttasks.Common.Values.{ℤ, pos, Float, of_ℕ, le_zero}
use ttasks.Errors.{text, was_cancelled, Exn, value_error, Result, ok, raise, raise_if}
use ttasks.Errors
use ttasks.Copilot.{Sdk, Response, response_text}

-- What is asked of the SDK: a client or session that was entered, the creation of a session for a
-- model, with the tools that are allowed if they are limited, a prompt, and the end of the two.
pub data SdkCall : Type 0 where
  entered_client entered_session left_session left_client : SdkCall
  created_session : (model : String) → (available_tools : Option (List String)) → SdkCall
  sent : (prompt : String) → (timeout : Option Float) → SdkCall

-- The options of `_make_copilot_handler`
pub record Options : Type 0 where
  pub model : String
  pub default_timeout : Option Float
  pub tools_enabled : Bool

-- What the handler reads of its context
pub record Job : Type 0 where
  pub task_id : ℕ
  pub payload : String
  pub timeout : Option Float
  pub cancelled : ℕ → Bool

-- _make_copilot_handler
unfoldable pub make_copilot_handler : String → Option Float → Bool → Result Options
make_copilot_handler model default_timeout tools_enabled =
    if is_empty model
    then raise (value_error (text "model must not be empty"))
    else ok
        (record { model = model; default_timeout = default_timeout; tools_enabled = tools_enabled })

-- make_copilot_prompt_handler
unfoldable pub make_copilot_prompt_handler : String → Float → Result Options
unfolding make_copilot_handler
make_copilot_prompt_handler model timeout =
    if le_zero timeout
    then raise (value_error (text "timeout must be greater than 0"))
    else make_copilot_handler model (some timeout) false

-- make_copilot_agent_handler
unfoldable pub make_copilot_agent_handler : String → Result Options
unfolding make_copilot_handler
make_copilot_agent_handler model = make_copilot_handler model none true

-- A part of the handler: what it raises or returns, and the calls so far.
abbrev pub Conversation : Type 0 → Type 0
Conversation A = List SdkCall → Result A × List SdkCall

-- `context.timeout if context.timeout is not None else default_timeout`
abbrev pub turn_timeout : Option Float → Option Float → Option Float
turn_timeout (some x) default_timeout = some x
turn_timeout none default_timeout = default_timeout

module _ {A B : Type 0} where
  abbrev proceed : Result A → (A → Conversation B) → Conversation B
  proceed (ok a) f t = f a t
  proceed (raise e) f t = (raise e, t)

  infixl 5 ◌>>=◌ ◌>>◌
  abbrev ◌>>=◌ : Conversation A → (A → Conversation B) → Conversation B
  ◌>>=◌ m f t = let (r, t') = m t in proceed r f t'

  abbrev ◌>>◌ : Conversation A → Conversation B → Conversation B
  m >> n = m >>= λ _. n

-- A call that is recorded, and may raise
abbrev call : SdkCall → Option Exn → Conversation (Unit {0})
call c none t = (ok tt, t ++ c ∷ [])
call c (some e) t = (raise e, t ++ c ∷ [])

-- `__aenter__`, which is recorded where it returns
abbrev entering : SdkCall → Option Exn → Conversation (Unit {0})
entering c none t = (ok tt, t ++ c ∷ [])
entering c (some e) t = (raise e, t)

-- `async with` after `__aenter__`: `__aexit__` is called however the body ends, and what it raises
-- takes the place of the body's end.
abbrev replaced : {A : Type 0} → Option Exn → Result A → Result A
replaced none r = r
replaced (some e) r = raise e

abbrev leaving : {A : Type 0} → SdkCall → Option Exn → Conversation A → Conversation A
leaving c failure body t = let (r, t') = body t in (replaced failure r, t' ++ c ∷ [])

abbrev allowed_tools : Bool → Option (List String)
allowed_tools true = none
allowed_tools false = some []

module _ (sdk : Sdk) (n : ℕ) (o : Options) (job : Job) where
  -- `context.raise_if_cancelled()`, for the k-th time
  unfoldable pub check_cancelled : ℕ → Conversation (Unit {0})
  check_cancelled k t =
      (raise_if (job.cancelled k) (Exn.task_cancelled (was_cancelled job.task_id)), t)

  -- `await send_and_wait(context.payload, timeout=turn_timeout)`
  unfoldable pub send_turn : Conversation Response
  send_turn t =
      let timeout = turn_timeout job.timeout o.default_timeout in
      (sdk.send_and_wait n job.payload timeout, t ++ sent job.payload timeout ∷ [])

  -- `async with session_context as session`
  unfoldable pub in_session : Conversation Response
  unfolding check_cancelled send_turn
  in_session = do
    entering entered_session (sdk.enter_session n)
    leaving left_session (sdk.exit_session n) (check_cancelled 2 >> send_turn)

  -- `async with CopilotClient() as client`
  unfoldable pub in_client : Conversation Response
  unfolding check_cancelled in_session
  in_client = do
    entering entered_client (sdk.enter_client n)
    leaving left_client (sdk.exit_client n) do
      check_cancelled 1
      call (created_session o.model (allowed_tools o.tools_enabled)) (sdk.create_session n)
      in_session

  -- The end of `_run_copilot_text`
  unfoldable pub answer : Response → Conversation String
  unfolding check_cancelled response_text
  answer response = do check_cancelled 3; λ t. (ok (response_text response), t)

  -- _run_copilot_text
  unfoldable pub run_copilot_text : Conversation String
  unfolding check_cancelled in_client answer
  run_copilot_text = do check_cancelled 0; response ← in_client; answer response
