-- ===== src/Executor/Command.antt =====
-- src/ttasks/_executor.py: `_run_command`, which runs a subprocess for a task. The process, its
-- output, the clock and what `context.cancelled` answers are parameters (`Subprocess`).
pub mod Ending
use ttasks.Common.{
  ℕ, zero, String, Bool, true, false, ◌&&◌, ◌||◌, not, Option, none, some, is_some, List, [], ◌∷◌,
  ◌++◌, if◌then◌else◌,
}
use ttasks.Common.Dict.{insert, erase}
use ttasks.Common.Texts.{concat, is_empty}
use ttasks.Common.Values.{ℤ, pos, negsuc}
use ttasks.Errors.{
  Message, text, was_cancelled, timed_out_after, exited_with, CompletedProcess, Exn, task_cancelled,
  task_execution_error, task_timeout_error, Result, ok, raise,
}
use ttasks.Task.{Task}
use ttasks.Events.{OutputStream, stdout, stderr}
use ttasks.Executor.Effects.{Env, Scene, Action, pure, throw, gets, modify, ◌>>=◌, ◌>>◌}
use ttasks.Executor.Emission.{emit_output}

-- One subprocess: what `Popen` raises, if it does; the lines of output, in the order in which the
-- two reader threads emit them; what `context.cancelled` answers before and after the wait; whether
-- `wait` raises TimeoutExpired, and whether a reader is alive when the time for `join` is over; and
-- the return code in the end.
pub record Subprocess : Type 0 where
  pub popen_error : Option Exn
  pub lines : List (OutputStream × String)
  pub cancelled_before : Bool
  pub wait_expires : Bool
  pub reader_alive : Bool
  pub cancelled_after : Bool
  pub returncode : ℤ

-- `"".join(chunks)`, of the chunks of one stream
unfoldable pub captured : OutputStream → List (OutputStream × String) → String
captured stream [] = ""
captured stdout ((stdout, chunk) ∷ chunks) = concat chunk (captured stdout chunks)
captured stdout ((stderr, chunk) ∷ chunks) = captured stdout chunks
captured stderr ((stdout, chunk) ∷ chunks) = captured stderr chunks
captured stderr ((stderr, chunk) ∷ chunks) = concat chunk (captured stderr chunks)

-- The wait with its timeout: `wait` without one does not expire, and `join` without one waits for
-- the readers.
unfoldable pub over_time : Task → Subprocess → Bool
over_time t p = is_some t.timeout && (p.wait_expires || p.reader_alive)

unfoldable pub completed : Subprocess → CompletedProcess
unfolding captured
completed p = record {
  returncode = p.returncode;
  stdout = some (captured stdout p.lines);
  stderr = some (captured stderr p.lines);
}

abbrev pub is_zero : ℤ → Bool
is_zero (pos zero) = true
is_zero _ = false

-- `result.stderr or f"exited with code {result.returncode}"`
unfoldable pub failure_message : Subprocess → Message
unfolding captured
failure_message p =
    if is_empty (captured stderr p.lines)
    then exited_with p.returncode
    else text (captured stderr p.lines)

-- The part of `_run_command` behind the wait
unfoldable pub finish_command : Task → Subprocess → Result CompletedProcess
unfolding over_time completed failure_message
finish_command t p =
    if over_time t p
    then raise (task_timeout_error (timed_out_after t.timeout) (completed p))
    else if is_zero p.returncode
    then ok (completed p)
    else if p.cancelled_after
    then raise (task_cancelled (was_cancelled t.id))
    else raise (task_execution_error (failure_message p) (completed p))

module _ {S : Type 0} (env : Env S) where
  -- read_output, of both readers
  unfoldable pub read_output : List (OutputStream × String) → Action S (Unit {0})
  unfolding emit_output
  read_output [] = pure tt
  read_output ((stream, chunk) ∷ lines) = do emit_output env stream chunk; read_output lines

  unfoldable pub set_process : Task → Action S (Unit {0})
  set_process t = modify λ s. record s {
    executor = record s.executor { running_processes = insert t.id true s.running_processes };
  }

  -- `if test: self._terminate_process(process)`: the process is not alive after it.
  unfoldable pub terminate_if : Bool → Task → Action S (Unit {0})
  terminate_if false t = pure tt
  terminate_if true t = modify λ s. record s {
    executor = record s.executor { running_processes = insert t.id false s.running_processes };
  }

  unfoldable pub pop_process : Task → Action S (Unit {0})
  pop_process t = modify λ s. record s {
    executor = record s.executor { running_processes = erase t.id s.running_processes };
  }

  unfoldable pub settle_command : Result CompletedProcess → Action S CompletedProcess
  settle_command r s = (r, s)

  -- The part of `_run_command` behind `Popen`
  unfoldable pub await_process : Task → Subprocess → Action S CompletedProcess
  unfolding read_output set_process pop_process settle_command finish_command over_time terminate_if
  await_process t p = do
    set_process t
    terminate_if p.cancelled_before t
    read_output p.lines
    terminate_if (over_time t p) t
    pop_process t
    settle_command (finish_command t p)

  -- What follows `Popen`, which may raise
  unfoldable pub after_popen : Option Exn → Task → Subprocess → Action S CompletedProcess
  unfolding await_process
  after_popen none t p = await_process t p
  after_popen (some e) t p = throw e

  -- TaskExecutor._run_command
  unfoldable pub run_command : Subprocess → Action S CompletedProcess
  unfolding after_popen
  run_command p = do t ← gets (λ s. s.task); after_popen p.popen_error t p
