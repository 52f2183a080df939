-- ===== src/Executor/Attempt/Ending.antt =====
-- How one attempt of src/ttasks/_executor.py ends, on every path through `_execute_once`.
use ttasks.Common.{
  ◌≡◌, refl, sym, ◌∙◌, ap, Bool, true, false, ◌||◌, none, some, [], ◌⊎◌, inl, inr, arith,
  append-nil,
}
use ttasks.Status.{running, succeeded, failed, cancelled, same, allows}
use ttasks.Errors.{Message, was_cancelled, Exn, ok, raise}
use ttasks.Task.{TaskResult, from_raw, TerminationReason}
use ttasks.Events.{TaskEventType}
use ttasks.Executor.Effects.{Trial, returned, raised, Outcome, Env, Scene, ◌>>=◌, ◌>>◌, try_except}
use ttasks.Executor.Emission.{str, terminalize}
use ttasks.Executor.Emission.Frame.{Adds, Adds-trans, lifecycle}
use ttasks.Executor.Emission.Terminal.{with_task, terminalize_lem, terminalize_refused}
use ttasks.Executor.Attempt.Outcomes.{
  Ended, success, cancellation, failure, crash, race, Ended-from, send_reports_lem,
  written-cancelled, written-failed, written-succeeded, cancel-running, not_cancelled, is_cancelled,
  failed_result_status, from_raw_status,
}
use ttasks.Executor.Attempt.{
  bare_result, meddle, send_reports, conclude, attempt_body, write_cancelled, attempt_failed,
  attempt_except,
}

module _ {S : Type 0} (env : Env S) where
  -- Both CANCELLED branches.
  write_cancelled-Ended :
      (trial : Trial) (m n : Message) (s₀ s : Scene S)
      → Adds s₀ s []
      → (same s.task.status cancelled || allows s.task.status cancelled) ≡ true
      → Ended s₀ ((write_cancelled env trial m >> λ t. (raise (Exn.task_cancelled n), t)) s)
  unfolding write_cancelled lifecycle
  write_cancelled-Ended trial m n s₀ s a h =
      let told =
        terminalize_lem env s
          (bare_result s.task cancelled trial.times (some m) (some TerminationReason.cancel_signal))
          cancelled running TaskEventType.cancelled (some m) h in
      let ends = written-cancelled s.task _ (some m) in
      rw told.returns (
        cancellation n _ refl refl (ap (λ t. t.status) told.frame.same_task ∙ ends.0)
          (ap (λ t. t.result) told.frame.same_task ∙ ends.1)
          (Adds-trans s₀ s (write_cancelled env trial m s).1 [] _ a (rw ends.0 at told.adds)))

  -- `except Exception` of a task that was cancelled meanwhile
  attempt_failed-cancelled :
      (trial : Trial) (e : Exn) (s₀ s : Scene S)
      → Adds s₀ s []
      → same s.task.status cancelled ≡ true
      → Ended s₀ (attempt_failed env trial e s)
  unfolding attempt_failed
  attempt_failed-cancelled trial e s₀ s a h =
      rw h (write_cancelled-Ended trial (str e) (was_cancelled s.task.id) s₀ s a (rw h))

  -- The write of a failure, with or without a cancellation just before it
  write_failed-Ended :
      (late : Bool) (r : TaskResult) (e : Exn) (s : Scene S)
      → s.task.status ≡ running
      → r.status ≡ failed
      → Ended s (
          (meddle late >>= λ _.
          terminalize env r failed running TaskEventType.failed (some (str e)) >> λ t. (raise e, t))
            s)
  unfolding meddle lifecycle same allows
  write_failed-Ended true r e s h hr = rw (cancel-running s.task h) (
      rw
        (terminalize_refused env (with_task s (record s.task { status = cancelled })) r failed
          running TaskEventType.failed (some (str e)) refl)
        (race r refl hr refl refl (sym (append-nil _))))
  write_failed-Ended false r e s h hr =
      let told =
        terminalize_lem env s r failed running TaskEventType.failed (some (str e))
          (unfold same allows in ground arith) in
      let ends = written-failed s.task r (some (str e)) h in
      rw told.returns (
        failure e r refl hr (ap (λ t. t.status) told.frame.same_task ∙ ends.0)
          (ap (λ t. t.result) told.frame.same_task ∙ ends.1) (rw ends.0 at told.adds))

  -- `except Exception` of a RUNNING task
  attempt_failed-running :
      (trial : Trial) (e : Exn) (s : Scene S)
      → s.task.status ≡ running
      → Ended s (attempt_failed env trial e s)
  unfolding attempt_failed
  attempt_failed-running trial e s h =
      rw (not_cancelled s.task h) (
        write_failed-Ended trial.cancelled_late _ e s h (failed_result_status s.task trial.times e))

  -- The `except` clauses, for a task that is RUNNING or was cancelled
  attempt_except-Ended :
      (trial : Trial) (e : Exn) (s : Scene S)
      → (s.task.status ≡ running) ⊎ (s.task.status ≡ cancelled)
      → Ended s (attempt_except env trial e s)
  unfolding attempt_except
  attempt_except-Ended trial (Exn.task_cancelled m) s h =
      write_cancelled-Ended trial m m s s (sym (append-nil _)) (unfold same allows in ground arith)
  attempt_except-Ended trial (Exn.base_exception m) s h = crash m refl h refl (sym (append-nil _))
  attempt_except-Ended trial e s (inl h) = attempt_failed-running trial _ s h
  attempt_except-Ended trial e s (inr h) =
      attempt_failed-cancelled trial _ s s (sym (append-nil _)) (unfold same in ground arith)

  -- The write of a success, with or without a cancellation just before it
  write_succeeded-Ended :
      (late : Bool) (trial : Trial) (r : TaskResult) (s : Scene S)
      → s.task.status ≡ running
      → r.status ≡ succeeded
      → Ended s (
          try_except
            (meddle late >>= λ _.
              terminalize env r succeeded running TaskEventType.succeeded none >> λ t. (ok r, t))
            (attempt_except env trial)
            s)
  unfolding meddle lifecycle same allows
  write_succeeded-Ended true trial r s h hr =
      let t = record s.task { status = cancelled } in
      rw (cancel-running s.task h) (
        rw
          (terminalize_refused env (with_task s t) r succeeded running TaskEventType.succeeded none
            refl)
          (unfold attempt_except in
            attempt_failed-cancelled trial _ s (with_task s (record t { result = some r }))
              (sym (append-nil _)) refl))
  write_succeeded-Ended false trial r s h hr =
      let told =
        terminalize_lem env s r succeeded running TaskEventType.succeeded none
          (unfold same allows in ground arith) in
      let ends = written-succeeded s.task r h in
      rw told.returns (
        success r refl hr (ap (λ t. t.status) told.frame.same_task ∙ ends.0)
          (ap (λ t. t.error) told.frame.same_task ∙ ends.1)
          (ap (λ t. t.result) told.frame.same_task ∙ ends.2) (rw ends.0 at told.adds))

  -- The whole `try`, from the end of the handler on
  conclude-Ended :
      (trial : Trial) (o : Outcome) (s : Scene S)
      → (s.task.status ≡ running) ⊎ (s.task.status ≡ cancelled)
      → Ended s (try_except (conclude env trial o) (attempt_except env trial) s)
  unfolding conclude
  conclude-Ended trial (raised e) s h = attempt_except-Ended trial e s h
  conclude-Ended trial (returned raw) s (inl h) = rw (not_cancelled s.task h) (
      write_succeeded-Ended trial.cancelled_late trial (from_raw s.task raw succeeded trial.times) s
        h (from_raw_status s.task raw trial.times))
  conclude-Ended trial (returned raw) s (inr h) = rw (is_cancelled s.task h) (
      unfold attempt_except in
      write_cancelled-Ended trial _ _ s s (sym (append-nil _)) (unfold same in ground arith))

  -- The same, with or without a cancellation while the handler ran
  meddled-Ended :
      (during : Bool) (trial : Trial) (s : Scene S)
      → s.task.status ≡ running
      → Ended s (
          try_except
            (meddle during >>= λ _. conclude env trial trial.outcome)
            (attempt_except env trial)
            s)
  unfolding meddle
  meddled-Ended true trial s h = rw (cancel-running s.task h) (
      Ended-from s (with_task s (record s.task { status = cancelled })) _ refl (sym (append-nil _))
        (conclude-Ended trial trial.outcome _ (inr refl)))
  meddled-Ended false trial s h = conclude-Ended trial trial.outcome s (inl h)

  -- The whole `try` of an attempt, from the scene in which the handler is called
  pub attempt-Ended :
      (trial : Trial) (s : Scene S)
      → s.task.status ≡ running
      → Ended s (try_except (attempt_body env trial) (attempt_except env trial) s)
  unfolding attempt_body
  attempt-Ended trial s h =
      let told = send_reports_lem env trial.reports s in
      let t = (send_reports env trial.reports s).1 in
      let runs = ap (λ u. u.status) told.frame.same_task ∙ h in
      rw told.returns (
        Ended-from s t _ (ap (λ u. u.result) told.frame.same_task) told.adds
          (meddled-Ended trial.cancelled_during trial t runs))
