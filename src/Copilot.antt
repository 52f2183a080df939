-- ===== src/Copilot.antt =====
-- src/ttasks/copilot.py: `CopilotAgentSession`. The SDK is a parameter: what each call of it raises.
-- Clients and sessions of the SDK are numbers in the order of their opening, and those that have
-- been entered and not been left are added to the state as two histories.
pub mod Handler
pub mod Resources
use ttasks.Common.{
  ℕ, suc, ◌+◌, String, Bool, true, false, not, ◌&&◌, ◌||◌, Option, none, some, List, [], ◌∷◌, ◌++◌,
  keep, elem, is_some, is_none, ◌==◌, if◌then◌else◌,
}
use ttasks.Common.Texts.{is_empty}
use ttasks.Common.Values.{Float, Arg, typed, untyped, le_zero}
use ttasks.Errors.{
  text, Exn, type_error, value_error, runtime_error, Result, ok, raise, ◌>>=◌, ◌>>◌, raise_if,
}

-- What the SDK answers to a prompt.
pub data Response : Type 0 where
  no_response other_data : Response
  assistant_message : Option String → Response

-- What the calls of the SDK raise, for the n-th client or session, and what it answers.
pub record Sdk : Type 0 where
  pub enter_client : ℕ → Option Exn
  pub create_session : ℕ → Option Exn
  pub enter_session : ℕ → Option Exn
  pub exit_session : ℕ → Option Exn
  pub exit_client : ℕ → Option Exn
  pub send_and_wait : ℕ → String → Option Float → Result Response

-- CopilotAgentSession, without the options that are only passed on. `has_loop` and `has_thread` say
-- that the background loop and its thread are there.
pub record Session : Type 0 where
  pub model : String
  pub timeout : Option Float
  pub event_handlers : List ℕ
  pub event_errors : List Exn
  pub client : Option ℕ
  pub session : Option ℕ
  pub active : Bool
  pub sync_active : Bool
  pub has_loop : Bool
  pub has_thread : Bool
  pub opened : ℕ
  pub open_clients : List ℕ
  pub open_sessions : List ℕ

-- `timeout is not None and timeout <= 0`
abbrev pub not_positive : Option Float → Bool
not_positive none = false
not_positive (some x) = le_zero x

-- `if on_event is not None`
abbrev pub listed : Option ℕ → List ℕ
listed none = []
listed (some k) = k ∷ []

-- __init__
unfoldable pub new_session : String → Option Float → (on_event : Option ℕ) → Result Session
new_session model timeout on_event = do
  raise_if (is_empty model) (value_error (text "model must not be empty"))
  raise_if (not_positive timeout) (value_error (text "timeout must be greater than 0"))
  ok (record {
    model = model;
    timeout = timeout;
    event_handlers = listed on_event;
    event_errors = [];
    client = none;
    session = none;
    active = false;
    sync_active = false;
    has_loop = false;
    has_thread = false;
    opened = 0;
    open_clients = [];
    open_sessions = [];
  })

-- What a method returns or raises, with the state that it leaves.
abbrev pub Call : Type 0
Call = Session → Result (Unit {0}) × Session

-- `await client.__aexit__(...)`: the client is left, also where that raises
unfoldable pub leave_client : Sdk → ℕ → Call
leave_client sdk c s =
    let s' = record s { open_clients = keep (λ j. not (j == c)) s.open_clients } in
    elim (sdk.exit_client c) [ none ↦ (ok tt, s') | some e ↦ (raise e, s') ]

-- `await session.__aexit__(...)`
unfoldable pub leave_session : Sdk → ℕ → Call
leave_session sdk c s =
    let s' = record s { open_sessions = keep (λ j. not (j == c)) s.open_sessions } in
    elim (sdk.exit_session c) [ none ↦ (ok tt, s') | some e ↦ (raise e, s') ]

-- The `except BaseException` of `_open_async`: an exception of the client replaces the first one
unfoldable pub open_failed : Sdk → ℕ → Exn → Call
unfolding leave_client
open_failed sdk c e s = let (o, s') = leave_client sdk c s in (o >> raise e, s')

-- The last part of `_open_async`
unfoldable pub opened_with : ℕ → Session → Session
opened_with c s = record s {
  open_sessions = c ∷ s.open_sessions;
  client = some c;
  session = some c;
  active = true;
}

-- _open_async, with the client entered
unfoldable pub open_session : Sdk → ℕ → Call
unfolding open_failed opened_with
open_session sdk c s = elim (sdk.create_session c) [
  | some e ↦ open_failed sdk c e s
  | none ↦ elim (sdk.enter_session c) [
    | some e ↦ open_failed sdk c e s
    | none ↦ (ok tt, opened_with c s)
  ]
]

-- _open_async
unfoldable pub open_async : Sdk → Call
unfolding open_session
open_async sdk s =
    let c = s.opened in
    let s' = record s { opened = suc s.opened } in
    elim (sdk.enter_client c) [
      | some e ↦ (raise e, s')
      | none ↦ open_session sdk c (record s' { open_clients = c ∷ s.open_clients })
    ]

-- `if session is not None: try: ...`; an exception is kept
unfoldable pub close_session : Sdk → Option ℕ → Call
unfolding leave_session
close_session sdk none s = (ok tt, s)
close_session sdk (some c) s = leave_session sdk c s

unfoldable pub close_client : Sdk → Option ℕ → Call
unfolding leave_client
close_client sdk none s = (ok tt, s)
close_client sdk (some c) s = leave_client sdk c s

-- The first of two errors
abbrev pub first_error : Result (Unit {0}) → Result (Unit {0}) → Result (Unit {0})
first_error (ok _) second = second
first_error (raise e) second = raise e

-- _close_async
unfoldable pub close_async : Sdk → Call
unfolding close_session close_client
close_async sdk s =
    let (o₁, s₁) =
      close_session sdk s.session (record s { session = none; client = none; active = false }) in
    let (o₂, s₂) = close_client sdk s.client s₁ in (first_error o₁ o₂, s₂)

-- _start_loop_thread
unfoldable pub start_loop_thread : Session → Session
start_loop_thread s = record s { has_loop = true; has_thread = true }

-- _stop_loop_thread: the loop ends, and its thread takes the loop away
unfoldable pub stop_loop_thread : Session → Session
stop_loop_thread s = record s { has_loop = false; has_thread = false }

-- `raise RuntimeError("CopilotAgentSession is already active")`
abbrev pub already_active : Exn
already_active = runtime_error (text "CopilotAgentSession is already active")

-- What `__aenter__` does after opening
abbrev pub after_aenter : Result (Unit {0}) × Session → Result (Unit {0}) × Session
after_aenter (ok u, s) = (ok u, record s { sync_active = false })
after_aenter (raise e, s) = (raise e, s)

-- __aenter__
unfoldable pub aenter : Sdk → Call
aenter sdk s = if s.active then (raise already_active, s) else after_aenter (open_async sdk s)

-- __aexit__
unfoldable pub aexit : Sdk → Call
aexit sdk s = close_async sdk s

-- What `__enter__` does after opening
abbrev pub after_enter : Result (Unit {0}) × Session → Result (Unit {0}) × Session
after_enter (ok u, s) = (ok u, record s { sync_active = true })
after_enter (raise e, s) = (raise e, stop_loop_thread s)

-- __enter__
unfoldable pub enter : Sdk → Call
unfolding start_loop_thread stop_loop_thread
enter sdk s =
    if s.active
    then (raise already_active, s)
    else after_enter (open_async sdk (start_loop_thread s))

-- The `finally` of `__exit__`
abbrev pub after_exit : Result (Unit {0}) × Session → Result (Unit {0}) × Session
after_exit (o, s) = (o, stop_loop_thread (record s { sync_active = false }))

-- __exit__
unfoldable pub exit : Sdk → Call
unfolding stop_loop_thread
exit sdk s = after_exit (if s.has_loop then close_async sdk s else (ok tt, s))

-- _response_text
unfoldable pub response_text : Response → String
response_text no_response = ""
response_text other_data = ""
response_text (assistant_message none) = ""
response_text (assistant_message (some s)) = s

-- `self.timeout if timeout is None else timeout`
abbrev pub effective_timeout : Option Float → Option Float → Option Float
effective_timeout own none = own
effective_timeout own (some x) = some x

-- send_and_wait
unfoldable pub send_and_wait : Sdk → Session → Arg String → Option Float → Result String
unfolding response_text
send_and_wait sdk s prompt timeout =
    let inactive = runtime_error (text "CopilotAgentSession is not active") in
    if not s.active then raise inactive else elim s.session [
      | none ↦ raise inactive
      | some c ↦ elim prompt [
        | untyped ↦ raise (type_error (text "prompt must be a str"))
        | typed p ↦ do
          raise_if (not_positive timeout) (value_error (text "timeout must be greater than 0"))
          response ← sdk.send_and_wait c p (effective_timeout s.timeout timeout)
          ok (response_text response)
      ]
    ]

-- on
unfoldable pub subscribe_events : Session → Arg ℕ → Result Session
subscribe_events s untyped = raise (type_error (text "handler must be callable"))
subscribe_events s (typed h) = ok (record s { event_handlers = s.event_handlers ++ h ∷ [] })

-- `handlers.remove(handler)`
unfoldable pub remove_handler : ℕ → List ℕ → List ℕ
remove_handler h [] = []
remove_handler h (j ∷ js) = if j == h then js else j ∷ remove_handler h js

-- unsubscribe, the function that `on` returns
unfoldable pub unsubscribe_events : Session → ℕ → Session
unfolding remove_handler
unsubscribe_events s h = record s {
  event_handlers =
      if elem h s.event_handlers then remove_handler h s.event_handlers else s.event_handlers;
}

-- The loop of `_dispatch_event` over the handlers, by what each of them raises
unfoldable pub dispatch_to : (ℕ → Option Exn) → List ℕ → List Exn → List Exn
dispatch_to handle [] errors = errors
dispatch_to handle (h ∷ hs) errors = elim (handle h) [
  | none ↦ dispatch_to handle hs errors
  | some e ↦ dispatch_to handle hs (errors ++ e ∷ [])
]

-- _dispatch_event
unfoldable pub dispatch_event : (ℕ → Option Exn) → Session → Session
unfolding dispatch_to
dispatch_event handle s = record s {
  event_errors = dispatch_to handle s.event_handlers s.event_errors;
}
