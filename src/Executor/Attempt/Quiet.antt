-- ===== src/Executor/Attempt/Quiet.antt =====
-- Which parts of an attempt of src/ttasks/_executor.py call no handler.
use ttasks.Common.{
  String, ◌≡◌, refl, ◌∙◌, Bool, true, false, ◌||◌, Option, none, some, List, [], ◌∷◌, Bool-cases,
  inl, inr, if◌then◌else◌,
}
use ttasks.Common.Values.{Float}
use ttasks.Status.{TaskStatus, running, succeeded, failed, cancelled, same, allows}
use ttasks.Errors.{Message, was_cancelled, Exn, Result, ok, raise}
use ttasks.Task.{Task, TaskResult, from_raw, cancel}
use ttasks.Events.{TaskEventType, OutputStream}
use ttasks.Executor.Effects.{
  Report, progress_report, output_report, Outcome, Trial, returned, raised, Env, Scene, Action,
  pure, throw, settle, on_task, proceed, caught, ◌>>=◌, ◌>>◌, try_except,
}
use ttasks.Executor.Emission.{str, publish, emit, emit_progress, emit_output, terminalize}
use ttasks.Executor.Emission.Frame.{emit_lem}
use ttasks.Executor.Emission.Terminal.{terminalize_lem, terminalize_refused}
use ttasks.Executor.Context.{raise_if_cancelled}
use ttasks.Executor.Attempt.{
  failed_result, meddle, read_clock, send_reports, conclude, attempt_body, write_cancelled,
  attempt_failed, attempt_except,
}

-- An action that calls no handler.
abbrev pub Quiet : {S A : Type 0} → Action S A → Type 0
Quiet {S} m = (s : Scene S) → (m s).1.calls ≡ s.calls

module _ {S A : Type 0} where
  pub bind-Quiet :
      {B : Type 0} (m : Action S A) (f : A → Action S B)
      → Quiet m
      → ((a : A) → Quiet (f a))
      → Quiet (m >>= f)
  bind-Quiet m f mq fq s = from (m s).0 (m s).1 (mq s)
    where
      from : (r : Result A) (t : Scene S) → t.calls ≡ s.calls → (proceed r f t).1.calls ≡ s.calls
      from (ok a) t h = fq a t ∙ h
      from (raise e) t h = h

  pub if-Quiet : (b : Bool) (m n : Action S A) → Quiet m → Quiet n → Quiet (if b then m else n)
  if-Quiet true m n mq nq = mq
  if-Quiet false m n mq nq = nq

  pub try-Quiet :
      (m : Action S A) (h : Exn → Action S A)
      → Quiet m
      → ((e : Exn) → Quiet (h e))
      → Quiet (try_except m h)
  try-Quiet m h mq hq s = from (m s).0 (m s).1 (mq s)
    where
      from : (r : Result A) (t : Scene S) → t.calls ≡ s.calls → (caught r h t).1.calls ≡ s.calls
      from (ok a) t l = l
      from (raise e) t l = hq e t ∙ l

module _ {S : Type 0} where
  pub quiet : (s : Scene S) → s.calls ≡ s.calls
  quiet s = refl

  pub on_task-Quiet : (f : Task → Result Task) → Quiet {S = S} (on_task f)
  on_task-Quiet f s = from (f s.task)
    where
      from : (r : Result Task) → (settle r s).1.calls ≡ s.calls
      from (ok t) = refl
      from (raise e) = refl

  meddle-Quiet : (b : Bool) → Quiet {S = S} (meddle b)
  unfolding meddle
  meddle-Quiet b = if-Quiet b (on_task cancel) (pure tt) (on_task-Quiet cancel) quiet

module _ {S : Type 0} (env : Env S) where
  pub emit-Quiet :
      (type : TaskEventType) (previous : Option TaskStatus) (error : Option Message)
      → Quiet (emit env type previous error)
  emit-Quiet type previous error s =
      rw (emit_lem env type previous error s).frame.same_calls (quiet s)

  pub terminalize-Quiet :
      (result : TaskResult) (status previous : TaskStatus) (type : TaskEventType)
      (error : Option Message)
      → Quiet (terminalize env result status previous type error)
  terminalize-Quiet result status previous type error s =
      elim (Bool-cases (same s.task.status status || allows s.task.status status)) [
        | inl can ↦
            rw (terminalize_lem env s result status previous type error can).frame.same_calls
              (quiet s)
        | inr cannot ↦
            rw (terminalize_refused env s result status previous type error cannot) (quiet s)
      ]

  pub read_clock-Quiet : Quiet (read_clock env)
  unfolding read_clock
  read_clock-Quiet s = refl

  progress-Quiet : (p : Option Float) (m : Option String) → Quiet (emit_progress env p m)
  unfolding emit_progress publish
  progress-Quiet p m s = quiet s

  output-Quiet : (o : OutputStream) (c : String) → Quiet (emit_output env o c)
  unfolding emit_output publish
  output-Quiet o c s = quiet s

  send_reports-Quiet : (rs : List Report) → Quiet (send_reports env rs)
  unfolding send_reports
  send_reports-Quiet [] = quiet
  send_reports-Quiet (progress_report p m ∷ rs) =
      bind-Quiet (emit_progress env p m) _ (progress-Quiet p m) (λ _. send_reports-Quiet rs)
  send_reports-Quiet (output_report o c ∷ rs) =
      bind-Quiet (emit_output env o c) _ (output-Quiet o c) (λ _. send_reports-Quiet rs)

  conclude-Quiet : (trial : Trial) (o : Outcome) → Quiet (conclude env trial o)
  unfolding conclude
  conclude-Quiet trial (raised e) s = quiet s
  conclude-Quiet trial (returned raw) s =
      bind-Quiet (λ t. (raise_if_cancelled s.task, t)) _ quiet
        (λ _. bind-Quiet (meddle trial.cancelled_late) _ (meddle-Quiet trial.cancelled_late) (λ _.
          bind-Quiet
            (terminalize env (from_raw s.task raw succeeded trial.times) succeeded running
              TaskEventType.succeeded none)
            _ (terminalize-Quiet _ _ _ _ _) (λ _. quiet)))
        s

  attempt_body-Quiet : (trial : Trial) → Quiet (attempt_body env trial)
  unfolding attempt_body
  attempt_body-Quiet trial =
      bind-Quiet (send_reports env trial.reports) _ (send_reports-Quiet trial.reports) (λ _.
        bind-Quiet (meddle trial.cancelled_during) _ (meddle-Quiet trial.cancelled_during)
          (λ _. conclude-Quiet trial trial.outcome))

  write_cancelled-Quiet : (trial : Trial) (m : Message) → Quiet (write_cancelled env trial m)
  unfolding write_cancelled
  write_cancelled-Quiet trial m s = terminalize-Quiet _ _ _ _ _ s

  attempt_failed-Quiet : (trial : Trial) (e : Exn) → Quiet (attempt_failed env trial e)
  unfolding attempt_failed
  attempt_failed-Quiet trial e s =
      if-Quiet (same s.task.status cancelled)
        (write_cancelled env trial (str e) >> throw (Exn.task_cancelled (was_cancelled s.task.id)))
        (meddle trial.cancelled_late
          >> (terminalize env (failed_result s.task trial.times e) failed running
                TaskEventType.failed (some (str e))
              >> throw e))
        (bind-Quiet (write_cancelled env trial (str e)) _ (write_cancelled-Quiet trial (str e))
          (λ _. quiet))
        (bind-Quiet (meddle trial.cancelled_late) _ (meddle-Quiet trial.cancelled_late) (λ _.
          bind-Quiet
            (terminalize env (failed_result s.task trial.times e) failed running
              TaskEventType.failed (some (str e)))
            _ (terminalize-Quiet _ _ _ _ _) (λ _. quiet)))
        s

  attempt_except-Quiet : (trial : Trial) (e : Exn) → Quiet (attempt_except env trial e)
  unfolding attempt_except
  attempt_except-Quiet trial (Exn.task_cancelled m) =
      bind-Quiet (write_cancelled env trial m) _ (write_cancelled-Quiet trial m) (λ _. quiet)
  attempt_except-Quiet trial (Exn.base_exception m) = quiet
  attempt_except-Quiet trial e = attempt_failed-Quiet trial e

  -- What comes after the call of the handler
  pub attempt-Quiet :
      (trial : Trial) → Quiet (try_except (attempt_body env trial) (attempt_except env trial))
  attempt-Quiet trial =
      try-Quiet (attempt_body env trial) (attempt_except env trial) (attempt_body-Quiet trial)
        (attempt_except-Quiet trial)
