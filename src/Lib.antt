-- ===== src/Lib.antt =====
-- ttasks runs tasks (shell commands, prompts, agents): a state machine of task statuses, an executor
-- with handlers, retries, events and a store, and a scheduler that runs a graph of tasks on a thread
-- pool. This library models its own logic and proves what it promises.
--
-- Parts, and how they interact:
--   Common     dictionaries, lists and tests that the parts share; Python values (Common/Values)
--   Status     src/ttasks/_task.py: TaskStatus, TaskType and the table of allowed transitions
--   Errors     src/ttasks/_exceptions.py, built-in exceptions, and the texts of messages
--   Task       src/ttasks/_task.py: Task and TaskResult; methods return the new task or an exception
--   Events     src/ttasks/_events.py: the bus; subscribers are a parameter, and may use the bus, also
--              to emit events
--   Executor   src/ttasks/_executor.py: methods are actions on the executor and one task object
--              (Executor/Effects). Emission has _persist, _emit and _terminalize, Attempt has
--              _execute_once, Retry has execute, Cancel has cancel and mark_blocked, Context has
--              TaskContext and RetryPolicy, Command the subprocess of a task, which is a parameter,
--              Submit has submit and shutdown up to what they hand to the library's thread pool,
--              OneShot the Copilot handlers of one turn, Backoff the wait between two attempts,
--              and Defaults the constructor and the signals that end a process.
--   Graph      src/ttasks/_graph.py: add, the views (Graph/Views), _validate (Graph/Validate), the
--              scheduler (Graph/Run), and `run` around it (Graph/Run/Outer)
--   Store      src/ttasks/_store.py: the collections of the in-memory store
--   Sqlite     src/ttasks/_sqlite.py: the tables and their rows, the schema version (Sqlite/Schema),
--              the two collections (Sqlite/Tasks, Sqlite/Graphs).
--              An SQL statement is the change of the tables that it makes; a call that raises leaves
--              the tables of its transaction as they were.
--   Copilot    src/ttasks/copilot.py: the life cycle of a session, and its task handler; the SDK is
--              a parameter, and so is what the futures of the event loop hold at each poll
--   Tests      runs on small inputs, and each theorem at an input that meets its hypotheses
-- A graph submits its tasks to the executor, which moves them through the state machine, saves them
-- in the store and publishes events on the bus. The scheduler's steps take of the executor only that
-- a worker ends without an exception exactly when its task has SUCCEEDED (Worked in Graph/Run/Steps),
-- which is the interface between the two; Graph/Run/Worker is about execute as such a worker.
--
-- State and values: an object is a record, a method a function that returns the new record. A task
-- that several threads share is one value in the state that all steps change. Identities are texts
-- that the code only compares, and are numbers here; so are points of time. A float is a multiple of
-- 2^-1074 or not finite. A text that the code formats is a constructor with the values put into it.
--
-- Threads: an attempt (Trial) says whether another thread cancels its task while the handler runs,
-- or between the last test and the terminal write. A run of a graph is a sequence of steps: one round
-- of the scheduler's loop body, a worker that begins or ends, a callback that stores an exception, a
-- call of cancel, in any order. One round of the loop body is one step.
-- `schedule` tests which futures are done in a state that may be later than the one of its loop
-- (Look in Graph/Run/Outer). Calls of submit and shutdown change the executor under its lock, and are
-- a sequence. `cancel` reads the status first; `cancel_from` is the rest of it, which another thread
-- may come before.
--
-- Fuel and bounds: `advance` is the `while changed` loop by fuel, for which 2 n + 1 is enough with n
-- tasks; `kahn` is the `while queue` loop of `_validate`, for which n is enough; `attempts` is the
-- loop of `execute` by the number of rounds left, which `execute` starts at max_attempts; and
-- `wait_for` is the polling loop of a Copilot handler, by the number of polls; and `sleep_until` is the
-- loop of `_sleep_retry_backoff`, for which one test more than there are units of time to wait is
-- enough. `emit` counts the depth to which subscribers nest calls of it; a call that is nested deeper
-- does nothing. No theorem here rests on a fuel that runs out.
--
-- Not modelled: paths, connections and locks of the SQLite store; the options that a Copilot session
-- only passes on; the upstream tasks that the executor hands on to a handler; subscribers that act on
-- tasks, such as one that cancels the task that it is told of; steps of the executor that two threads
-- interleave at one task, but for what a Trial and `cancel_from` say of them; workers and callers of
-- `cancel` between two rounds of the loop of `schedule`, as far as `advance` goes (the steps of
-- Graph/Run/Steps allow them); the joins of the threads that read a subprocess; time stamps of events;
-- `__repr__` and `__hash__`; scripts and examples, which mostly print.
pub mod Common
pub mod Status
pub mod Errors
pub mod Task
pub mod Events
pub mod Executor
pub mod Graph
pub mod Store
pub mod Sqlite
pub mod Copilot
mod Tests
