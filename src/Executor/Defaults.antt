-- ===== src/Executor/Defaults.antt =====
-- src/ttasks/_executor.py: a new `TaskExecutor`, with the built-in handlers or without, and
-- `_terminate_process`.
use ttasks.Common.{
  ◌≡◌, refl, Bool, true, false, not, Option, none, List, [], ◌∷◌, arith, if◌then◌else◌,
}
use ttasks.Common.Values.{of_ℕ, le_zero, typed}
use ttasks.Status.{TaskType, bash, powershell, prompt, agent}
use ttasks.Errors.{Result, ok, ◌>>=◌}
use ttasks.Events.{new_bus}
use ttasks.Executor.Effects.{Executor}
use ttasks.Executor.Cancel.{register, is_registered}
use ttasks.Executor.OneShot.{
  make_copilot_prompt_handler, make_copilot_agent_handler, make_copilot_handler,
}

module _ {S : Type 0} where
  -- TaskExecutor.empty
  unfoldable pub empty_executor : Option S → Executor S
  empty_executor store = record {
    handlers = λ k. none;
    running_processes = [];
    events = new_bus;
    store = store;
    persistence_errors = [];
    published = [];
    calls = 0;
    readings = 0;
  }

  -- TaskExecutor(...). The built-in handlers are those numbered 0 to 3.
  unfoldable pub new_executor : Option S → (register_defaults : Bool) → Result (Executor S)
  unfolding empty_executor register make_copilot_prompt_handler make_copilot_agent_handler
  new_executor store register_defaults =
      let x = empty_executor store in
      if register_defaults
      then (do
        x₁ ← register x (typed bash) (typed 0)
        x₂ ← register x₁ (typed powershell) (typed 1)
        prompt_options ← make_copilot_prompt_handler "gpt-5.4-mini" (of_ℕ 60)
        x₃ ← register x₂ (typed prompt) (typed 2)
        agent_options ← make_copilot_agent_handler "gpt-5.5"
        register x₃ (typed agent) (typed 3))
      else ok x

  -- A new executor is made without an error, and has a handler for every type of task where the
  -- built-in handlers are registered, and for none where they are not.
  new_executor_lem :
      (store : Option S) (register_defaults : Bool) (k : TaskType)
      → (new_executor store register_defaults >>= λ x. is_registered x (typed k))
        ≡ ok register_defaults
  unfolding new_executor empty_executor register is_registered make_copilot_prompt_handler
      make_copilot_agent_handler make_copilot_handler le_zero of_ℕ
  new_executor_lem store false k = refl
  new_executor_lem store true bash = refl
  new_executor_lem store true powershell = refl
  new_executor_lem store true prompt = refl
  new_executor_lem store true agent = refl

-- The signals of `_terminate_process`
pub data Signal : Type 0 where
  sigterm sigkill : Signal

-- What the system does: whether `os.killpg` finds the group of the process, and whether the process
-- ends within the five seconds that are left to it.
pub record ProcessGroup : Type 0 where
  pub is_found : Signal → Bool
  pub ends_in_time : Bool

-- TaskExecutor._terminate_process: the signals that it sends, and whether the end of the process has
-- been waited for
unfoldable pub terminate_process : ProcessGroup → List Signal × Bool
terminate_process g =
    if not (g.is_found sigterm)
    then ([], false)
    else if g.ends_in_time
    then (sigterm ∷ [], true)
    else if not (g.is_found sigkill)
    then (sigterm ∷ [], false)
    else (sigterm ∷ sigkill ∷ [], true)

-- Where the group is found, the process has ended when the method returns.
terminate_process_ends :
    (g : ProcessGroup)
    → g.is_found sigterm ≡ true
    → g.is_found sigkill ≡ true
    → (terminate_process g).1 ≡ true
unfolding terminate_process
terminate_process_ends g h k = ground arith
