-- ===== src/Tests/Sessions.antt =====
-- A Copilot session with an SDK whose first client fails to leave.
use ttasks.Common.{
  ◌≡◌, refl, inr, String, true, false, none, some, [], ◌∷◌, ◌==◌, arith, if◌then◌else◌,
}
use ttasks.Errors.{text, Exn, Result, ok, raise}
use ttasks.Copilot.{Sdk, Session, no_response, exit}
use ttasks.Copilot.Handler.{
  Turn, waiting, timed_out, answered, run_handler, run_handler_ends, run_handler_timed_out,
}
use ttasks.Copilot.Resources.{IsTidy, sync_enter, async_exit, use_all, use_all-IsTidy, exit_lem}

abbrev sdk : Sdk
sdk = record {
  enter_client = λ n. none;
  create_session = λ n. none;
  enter_session = λ n. none;
  exit_session = λ n. none;
  exit_client = λ n. if n == 0 then some (Exn.exception (text "gone")) else none;
  send_and_wait = λ n p t. ok no_response;
}

abbrev unused : Session
unused = record {
  model = "gpt";
  timeout = none;
  event_handlers = [];
  event_errors = [];
  client = none;
  session = none;
  active = false;
  sync_active = false;
  has_loop = false;
  has_thread = false;
  opened = 0;
  open_clients = [];
  open_sessions = [];
}

abbrev in_use : Session
in_use = record unused {
  client = some 0;
  session = some 0;
  active = true;
  sync_active = true;
  has_loop = true;
  has_thread = true;
  opened = 1;
  open_clients = 0 ∷ [];
  open_sessions = 0 ∷ [];
}

use_all-IsTidy_example : IsTidy (use_all sdk unused (sync_enter ∷ async_exit ∷ sync_enter ∷ []))
use_all-IsTidy_example =
    use_all-IsTidy sdk unused (sync_enter ∷ async_exit ∷ sync_enter ∷ [])
      (record { pair = refl; clients = refl; sessions = refl; flag = refl })

exit_lem_example :
    ((exit sdk in_use).1.open_clients ≡ [])
    × ((exit sdk in_use).1.open_sessions ≡ [])
    × ((exit sdk in_use).1.active ≡ false)
    × ((exit sdk in_use).1.sync_active ≡ false)
    × ((exit sdk in_use).1.has_loop ≡ false)
    × ((exit sdk in_use).0 ≡ raise (Exn.exception (text "gone")))
exit_lem_example =
    exit_lem sdk in_use 0 (record { pair = refl; clients = refl; sessions = refl; flag = refl })
      refl refl

-- The answer is there at the fifth poll.
abbrev turn : Turn
turn = record {
  task_id = 1;
  future = λ k. if k == 5 then answered (ok "done") else waiting;
  cancelled = λ k. false;
  abort_error = none;
}

abbrev late_turn : Turn
late_turn = record turn { future = λ k. timed_out }

run_handler_ends_example : (r : Result String) × (run_handler in_use turn 4 ≡ some r)
run_handler_ends_example = run_handler_ends in_use turn 5 4 (omega arith) (omega arith) refl

run_handler_timed_out_example : run_handler in_use late_turn 100 ≡ none
run_handler_timed_out_example =
    run_handler_timed_out in_use late_turn 100 refl refl (λ k. refl) (λ k. inr refl)
