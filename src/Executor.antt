-- ===== src/Executor.antt =====
-- src/ttasks/_executor.py: `TaskExecutor`. The methods that run a task are actions on the executor
-- together with the task object; `Effects` has the actions, `Emission` the events and the store,
-- `Attempt` one attempt of a task, `Retry` the loop of `execute`, and `Cancel` the other ways to
-- end a task.
pub mod Effects
pub mod Emission
pub mod Context
pub mod Attempt
pub mod Retry
pub mod Cancel
pub mod Command
pub mod Submit
pub mod OneShot
pub mod Backoff
pub mod Defaults
