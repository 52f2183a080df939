-- ===== src/Executor/Command/Ending.antt =====
-- How `_run_command` of src/ttasks/_executor.py ends, and what it tells of the subprocess.
use ttasks.Common.{
  ℕ, String, ◌≡◌, ◌↔◌, refl, Bool, true, false, Option, none, some, List, [], ◌∷◌, ◌++◌, map, arith,
  ◌==◌, if◌then◌else◌, append_assoc, append-nil, ap, subst, sym, ◌∙◌, Bool-cases, inl, inr,
}
use ttasks.Common.Dict.{lookup, lookup-insert, lookup-erase}
use ttasks.Common.Texts.{concat}
use ttasks.Errors.{CompletedProcess, task_execution_error, task_timeout_error, Result, ok, raise}
use ttasks.Task.{Task}
use ttasks.Events.{OutputStream, stdout, stderr, TaskEvent, output}
use ttasks.Executor.Effects.{Env, Scene, Action, ◌>>◌}
use ttasks.Executor.Emission.{lifecycle_event, publish, emit_output}
use ttasks.Executor.Emission.Frame.{Frame, Frame-trans}
use ttasks.Executor.Command.{
  Subprocess, captured, over_time, completed, finish_command, read_output, set_process,
  terminate_if, pop_process, settle_command, await_process, after_popen, run_command, is_zero,
}

-- The text of one stream that some events tell.
abbrev pub heard_one : OutputStream → Option OutputStream → Option String → String → String
heard_one stdout (some stdout) (some chunk) rest = concat chunk rest
heard_one stderr (some stderr) (some chunk) rest = concat chunk rest
heard_one _ _ _ rest = rest

unfoldable pub heard : OutputStream → List TaskEvent → String
heard stream [] = ""
heard stream (e ∷ es) = heard_one stream e.output_stream e.output_chunk (heard stream es)

-- The process with its output that a result or an exception carries.
abbrev pub carried : Result CompletedProcess → Option CompletedProcess
carried (ok c) = some c
carried (raise (task_execution_error m c)) = some c
carried (raise (task_timeout_error m c)) = some c
carried (raise _) = none

output_event : Task → OutputStream × String → TaskEvent
output_event t (stream, chunk) = record (lifecycle_event t output none none) {
  output_stream = some stream;
  output_chunk = some chunk;
}

heard-captured :
    (t : Task) (stream : OutputStream) (lines : List (OutputStream × String))
    → heard stream (map (output_event t) lines) ≡ captured stream lines
unfolding heard captured output_event
heard-captured t stream [] = refl
heard-captured t stdout ((stdout, chunk) ∷ lines) =
    ap (concat chunk) (heard-captured t stdout lines)
heard-captured t stdout ((stderr, chunk) ∷ lines) = heard-captured t stdout lines
heard-captured t stderr ((stdout, chunk) ∷ lines) = heard-captured t stderr lines
heard-captured t stderr ((stderr, chunk) ∷ lines) =
    ap (concat chunk) (heard-captured t stderr lines)

-- A call of `_run_command` in `s` whose process starts ends with `o`.
pub record Ran {S : Type 0} (p : Subprocess) (s : Scene S) (o : Result CompletedProcess × Scene S)
    : Type 0 where
  pub same_task : o.1.task ≡ s.task
  -- The process is no longer registered, and others still are.
  pub processes :
      (k : ℕ)
      → lookup k o.1.running_processes
        ≡ (if k == s.task.id then none else lookup k s.running_processes)
  -- It returns exactly where the process ends in time and with return code 0.
  pub returns :
      ((c : CompletedProcess) × (o.0 ≡ ok c))
      ↔ ((over_time s.task p ≡ false) × (is_zero p.returncode ≡ true))
  -- The output that it hands on is the text of the events that it has published.
  pub new : List TaskEvent
  pub published : o.1.published ≡ s.published ++ new
  pub told :
      (c : CompletedProcess)
      → carried o.0 ≡ some c
      → (c.stdout ≡ some (heard stdout new)) × (c.stderr ≡ some (heard stderr new))

module _ {S : Type 0} (env : Env S) where
  -- The readers publish one event for each line, and leave the rest alone.
  read_output_lem :
      (lines : List (OutputStream × String)) (s : Scene S)
      → ((read_output env lines s).0 ≡ ok tt)
        × ((read_output env lines s).1.published ≡ s.published ++ map (output_event s.task) lines)
        × Frame s (read_output env lines s).1
  unfolding read_output emit_output publish output_event
  read_output_lem [] s = (refl, sym (append-nil s.published), ground arith)
  read_output_lem ((stream, chunk) ∷ lines) s =
      let s₁ = (emit_output env stream chunk s).1 in
      let (over, told, frame) = read_output_lem lines s₁ in
      (
        over,
        told
            ∙ append_assoc s.published (output_event s.task (stream, chunk) ∷ [])
                (map (output_event s.task) lines),
        Frame-trans s s₁ (read_output env lines s₁).1 (ground arith) frame,
      )

  -- Where there is nothing to terminate but the process itself, the others stay.
  terminate_if_lem :
      (b : Bool) (t : Task) (s : Scene S)
      → ((terminate_if env b t s).0 ≡ ok tt)
        × ((terminate_if env b t s).1.task ≡ s.task)
        × ((terminate_if env b t s).1.published ≡ s.published)
        × ((k : ℕ)
            → (k == t.id) ≡ false
            → lookup k (terminate_if env b t s).1.running_processes ≡ lookup k s.running_processes)
  unfolding terminate_if
  terminate_if_lem false t s = (refl, refl, refl, λ k other. refl)
  terminate_if_lem true t s =
      (refl, refl, refl, λ k other. ground (arith, lookup-insert t.id k false s.running_processes))

finish_command-returns :
    (t : Task) (p : Subprocess)
    → ((c : CompletedProcess) × (finish_command t p ≡ ok c))
      ↔ ((over_time t p ≡ false) × (is_zero p.returncode ≡ true))
unfolding finish_command
finish_command-returns t p = elim (Bool-cases (over_time t p)) [
  | inl late ↦ rw late (λ (c, e). cc, λ (h, z). cc)
  | inr in_time ↦ elim (Bool-cases (is_zero p.returncode)) [
    | inl zero_code ↦ rw (in_time, zero_code) (λ h. (refl, refl), λ h. (completed p, refl))
    | inr bad ↦ elim (Bool-cases p.cancelled_after) [
      | inl stopped ↦ rw (in_time, bad, stopped) (λ (c, e). cc, λ (h, z). cc)
      | inr failed ↦ rw (in_time, bad, failed) (λ (c, e). cc, λ (h, z). cc)
    ]
  ]
]

finish_command-carried :
    (t : Task) (p : Subprocess) (c : CompletedProcess)
    → carried (finish_command t p) ≡ some c
    → c ≡ completed p
unfolding finish_command
finish_command-carried t p c h = ground arith

module _ {S : Type 0} (env : Env S) (p : Subprocess) (s : Scene S) where
  then_lem :
      {B : Type 0} (m : Action S (Unit {0})) (n : Action S B) (u : Scene S)
      → (m u).0 ≡ ok tt
      → (m >> n) u ≡ n (m u).1
  then_lem m n u e = rw e refl

  -- The scenes on the way
  started : Scene S
  started = (terminate_if env p.cancelled_before s.task (set_process env s.task s).1).1

  heard_out : Scene S
  heard_out = (read_output env p.lines started).1

  popped : Scene S
  popped = (pop_process env s.task (terminate_if env (over_time s.task p) s.task heard_out).1).1

  steps : await_process env s.task p s ≡ (finish_command s.task p, popped)
  unfolding await_process started heard_out popped set_process pop_process settle_command
  steps =
      then_lem (terminate_if env p.cancelled_before s.task)
        (read_output env p.lines
          >> (terminate_if env (over_time s.task p) s.task
              >> (pop_process env s.task >> settle_command env (finish_command s.task p))))
        (set_process env s.task s).1
        (terminate_if_lem env p.cancelled_before s.task (set_process env s.task s).1).0
      ∙ then_lem (read_output env p.lines)
          (terminate_if env (over_time s.task p) s.task
            >> (pop_process env s.task >> settle_command env (finish_command s.task p)))
          started (read_output_lem env p.lines started).0
      ∙ then_lem (terminate_if env (over_time s.task p) s.task)
          (pop_process env s.task >> settle_command env (finish_command s.task p)) heard_out
          (terminate_if_lem env (over_time s.task p) s.task heard_out).0

  popped_processes :
      (k : ℕ)
      → lookup k popped.running_processes
        ≡ (if k == s.task.id then none else lookup k s.running_processes)
  unfolding popped pop_process heard_out started set_process
  popped_processes k = ground (
    arith,
    lookup-erase s.task.id k
        (terminate_if env (over_time s.task p) s.task heard_out).1.running_processes,
    (terminate_if_lem env (over_time s.task p) s.task heard_out).3 k,
    (read_output_lem env p.lines started).2.same_processes,
    (terminate_if_lem env p.cancelled_before s.task (set_process env s.task s).1).3 k,
    lookup-insert s.task.id k true s.running_processes,
  )

  popped_published :
      (popped.task ≡ s.task) × (popped.published ≡ s.published ++ map (output_event s.task) p.lines)
  unfolding popped pop_process heard_out started set_process
  popped_published =
      let first = terminate_if_lem env p.cancelled_before s.task (set_process env s.task s).1 in
      let second = read_output_lem env p.lines started in
      let third = terminate_if_lem env (over_time s.task p) s.task heard_out in
      (
        third.1 ∙ second.2.same_task ∙ first.1,
        third.2
            ∙ second.1
            ∙ ap (λ l. l ++ map (output_event started.task) p.lines) first.2
            ∙ ap (λ t. s.published ++ map (output_event t) p.lines) first.1,
      )

  await_process-Ran : Ran p s (finish_command s.task p, popped)
  await_process-Ran = record {
    same_task = popped_published.0;
    processes = popped_processes;
    returns = finish_command-returns s.task p;
    new = map (output_event s.task) p.lines;
    published = popped_published.1;
    told = λ c h. rw (finish_command-carried s.task p c h) (
        unfold completed in
        (
          ap some (sym (heard-captured s.task stdout p.lines)),
          ap some (sym (heard-captured s.task stderr p.lines)),
        ));
  }

-- Where the process starts, `_run_command` ends, leaves no process registered for the task, returns
-- exactly where the process ends in time with return code 0, and hands on, with its result and with
-- its errors, the output that it has published line by line.
pub run_command-Ran :
    {S : Type 0} (env : Env S) (p : Subprocess) (s : Scene S)
    → p.popen_error ≡ none
    → Ran p s (run_command env p s)
unfolding run_command after_popen
run_command-Ran env p s e =
    subst (λ o. Ran p s (after_popen env o s.task p s)) (sym e)
      (subst (Ran p s) (sym (steps env p s)) (await_process-Ran env p s))
