-- ===== src/Copilot/Handler.antt =====
-- src/ttasks/copilot.py: the task handler of a session, and the wait for its answer.
use ttasks.Common.{
  ℕ, zero, suc, ◌+◌, ◌<◌, ◌≤◌, ◌≡◌, refl, ◌∙◌, ◌⊎◌, String, Bool, true, false, not, ◌||◌, Option,
  none, some, arith, Bool-cases, inl, inr, if◌then◌else◌,
}
use ttasks.Errors.{text, was_cancelled, Exn, runtime_error, Result, ok, raise}
use ttasks.Copilot.{Session}

-- A future of the event loop as `future.result` finds it. `timed_out` is a TimeoutError that the
-- coroutine has raised: the class that `future.result` itself raises while it waits.
pub data Answer : Type 0 where
  waiting timed_out future_cancelled : Answer
  answered : Result String → Answer

-- What the wait depends on: the future at each poll, whether the task has been cancelled by then,
-- and what `_abort_active` raises.
pub record Turn : Type 0 where
  pub task_id : ℕ
  pub future : ℕ → Answer
  pub cancelled : ℕ → Bool
  pub abort_error : Option Exn

abbrev pub task_cancelled_error : Turn → Exn
task_cancelled_error turn = Exn.task_cancelled (was_cancelled turn.task_id)

-- The `except FutureTimeoutError` for a cancelled task
abbrev pub abort_and_raise : Turn → Option Exn → Result String
abort_and_raise turn none = raise (task_cancelled_error turn)
abort_and_raise turn (some e) = raise e

-- `context.raise_if_cancelled(); return result`
abbrev pub finish : Turn → Bool → Result String → Result String
finish turn b (raise e) = raise e
finish turn true (ok s) = raise (task_cancelled_error turn)
finish turn false (ok s) = ok s

-- The `except FutureTimeoutError`: the wait goes on, unless the task has been cancelled
abbrev pub on_timeout : Turn → Bool → Option (Result String) → Option (Result String)
on_timeout turn true again = some (abort_and_raise turn turn.abort_error)
on_timeout turn false again = again

-- One round of the `while True` of `run`
abbrev pub poll : Turn → Answer → Bool → Option (Result String) → Option (Result String)
poll turn waiting b again = on_timeout turn b again
poll turn timed_out b again = on_timeout turn b again
poll turn future_cancelled b again = some (raise (task_cancelled_error turn))
poll turn (answered r) b again = some (finish turn b r)

-- The `while True` of `run`, by fuel, from the n-th poll on. `none`: the fuel ran out.
unfoldable pub wait_for : Turn → (fuel n : ℕ) → Option (Result String)
wait_for turn zero n = none
wait_for turn (suc fuel) n =
    let again = wait_for turn fuel (suc n) in poll turn (turn.future n) (turn.cancelled n) again

-- run, the function that `handler` returns: the task is asked for cancellation before the test of
-- the session and behind the lock
unfoldable pub run_handler : Session → Turn → (fuel : ℕ) → Option (Result String)
unfolding wait_for
run_handler s turn fuel =
    let rest = wait_for turn fuel 2 in
    if turn.cancelled 0
    then some (raise (task_cancelled_error turn))
    else if not s.sync_active || not s.has_loop
    then some (
        raise
          (runtime_error (text "CopilotAgentSession.handler() requires an active sync context")))
    else if turn.cancelled 1
    then some (raise (task_cancelled_error turn))
    else rest

-- Whether a poll of the future can end the wait
abbrev pub ends_wait : Answer → Bool
ends_wait waiting = false
ends_wait timed_out = false
ends_wait future_cancelled = true
ends_wait (answered r) = true

poll_ends :
    (turn : Turn) (a : Answer) (b : Bool) (again : Option (Result String))
    → (b || ends_wait a) ≡ true
    → (r : Result String) × (poll turn a b again ≡ some r)
poll_ends turn waiting true again h = (_, refl)
poll_ends turn waiting false again h = cc
poll_ends turn timed_out true again h = (_, refl)
poll_ends turn timed_out false again h = cc
poll_ends turn future_cancelled b again h = (_, refl)
poll_ends turn (answered r) b again h = (_, refl)

poll_goes_on :
    (turn : Turn) (a : Answer) (b : Bool) (again : Option (Result String))
    → (b || ends_wait a) ≡ false
    → poll turn a b again ≡ again
poll_goes_on turn a b again h = ground arith

-- The wait returns, with fuel above the number of its polls, where at some poll the task has been
-- cancelled or the future has an answer that is no TimeoutError.
wait_for_ends :
    (turn : Turn) (fuel n k : ℕ)
    → n ≤ k
    → k < n + fuel
    → (turn.cancelled k || ends_wait (turn.future k)) ≡ true
    → (r : Result String) × (wait_for turn fuel n ≡ some r)
unfolding wait_for
wait_for_ends turn zero n k above below over = absurd (omega arith)
wait_for_ends turn (suc fuel) n k above below over =
    elim (Bool-cases (turn.cancelled n || ends_wait (turn.future n))) [
      | inl now ↦ poll_ends turn (turn.future n) (turn.cancelled n) _ now
      | inr later ↦
          let (r, e) = wait_for_ends turn fuel (suc n) k (ground arith) (omega arith) over in
          (r, poll_goes_on turn (turn.future n) (turn.cancelled n) _ later ∙ e)
    ]

wait_for_timed_out :
    (turn : Turn) (fuel n : ℕ)
    → ((k : ℕ) → n ≤ k → (turn.cancelled k || ends_wait (turn.future k)) ≡ false)
    → wait_for turn fuel n ≡ none
unfolding wait_for
wait_for_timed_out turn zero n over = refl
wait_for_timed_out turn (suc fuel) n over =
    poll_goes_on turn (turn.future n) (turn.cancelled n) _ (over n (omega arith))
    ∙ wait_for_timed_out turn fuel (suc n) (λ k h. over k (omega arith))

-- The handler of a session that is in use returns, with enough fuel, where at some poll the task has
-- been cancelled or the future has an answer that is no TimeoutError.
pub run_handler_ends :
    (s : Session) (turn : Turn) (k fuel : ℕ)
    → 2 ≤ k
    → k < 2 + fuel
    → (turn.cancelled k || ends_wait (turn.future k)) ≡ true
    → (r : Result String) × (run_handler s turn fuel ≡ some r)
unfolding run_handler
run_handler_ends s turn k fuel above below over =
    let (r, e) = wait_for_ends turn fuel 2 k above below over in
    elim (Bool-cases (turn.cancelled 0)) [
      | inl now ↦ rw now (_, refl)
      | inr alive ↦ elim (Bool-cases (not s.sync_active || not s.has_loop)) [
        | inl unused ↦ rw (alive, unused) (_, refl)
        | inr used ↦ elim (Bool-cases (turn.cancelled 1)) [
          | inl now ↦ rw (alive, used, now) (_, refl)
          | inr still ↦ rw (alive, used, still) (r, e)
        ]
      ]
    ]

-- The handler of a session that is in use never returns, whatever the fuel, where the task is not
-- cancelled and at each poll the future still waits or holds a TimeoutError of the coroutine: an
-- answer of that class counts as one more wait.
pub run_handler_timed_out :
    (s : Session) (turn : Turn) (fuel : ℕ)
    → s.sync_active ≡ true
    → s.has_loop ≡ true
    → ((k : ℕ) → turn.cancelled k ≡ false)
    → ((k : ℕ) → (turn.future k ≡ waiting) ⊎ (turn.future k ≡ timed_out))
    → run_handler s turn fuel ≡ none
unfolding run_handler
run_handler_timed_out s turn fuel used looped alive late =
    rw (alive 0, used, looped, alive 1)
      (wait_for_timed_out turn fuel 2 (λ k h. ground (arith, alive k, late k)))
