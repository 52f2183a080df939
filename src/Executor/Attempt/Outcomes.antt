-- ===== src/Executor/Attempt/Outcomes.antt =====
-- The ways in which one attempt of src/ttasks/_executor.py ends, and the writes that end it.
use ttasks.Common.{
  ◌≡◌, refl, sym, ◌∙◌, true, false, Option, none, some, List, [], ◌∷◌, ◌⊎◌, arith, append-nil,
}
use ttasks.Status.{running, succeeded, failed, cancelled, same}
use ttasks.Errors.{Message, cannot_transition, Exn, Result, ok, raise}
use ttasks.Task.{Task, TaskResult, from_raw, Raw, cancel, Times}
use ttasks.Events.{TaskEventType}
use ttasks.Executor.Effects.{Report, progress_report, output_report, Env, Scene}
use ttasks.Executor.Emission.{emit_progress, emit_output, publish}
use ttasks.Executor.Emission.Frame.{Tells, Tells-from, Adds, Adds-trans, lifecycle, publish_lem}
use ttasks.Executor.Emission.Terminal.{written}
use ttasks.Executor.Attempt.{failed_result, send_reports}

-- The ways in which an attempt that has started ends, from the scene in which its handler is called.
pub data Ended {S : Type 0} (s : Scene S) (o : Result TaskResult × Scene S) : Type 0 where
  -- The result is returned and attached to the SUCCEEDED task.
  success :
      (r : TaskResult)
      → o.0 ≡ ok r
      → r.status ≡ succeeded
      → o.1.task.status ≡ succeeded
      → o.1.task.error ≡ none
      → o.1.task.result ≡ some r
      → Adds s o.1 ((TaskEventType.succeeded, succeeded) ∷ [])
      → Ended s o
  -- TaskCancelled is raised, and the task is CANCELLED with a CANCELLED result.
  cancellation :
      (m : Message) (r : TaskResult)
      → o.0 ≡ raise (Exn.task_cancelled m)
      → r.status ≡ cancelled
      → o.1.task.status ≡ cancelled
      → o.1.task.result ≡ some r
      → Adds s o.1 ((TaskEventType.cancelled, cancelled) ∷ [])
      → Ended s o
  -- Another exception is raised, and the task is FAILED with a FAILED result.
  failure :
      (e : Exn) (r : TaskResult)
      → o.0 ≡ raise e
      → r.status ≡ failed
      → o.1.task.status ≡ failed
      → o.1.task.result ≡ some r
      → Adds s o.1 ((TaskEventType.failed, failed) ∷ [])
      → Ended s o
  -- A BaseException passes: nothing is recorded.
  crash :
      (m : Message)
      → o.0 ≡ raise (Exn.base_exception m)
      → (o.1.task.status ≡ running) ⊎ (o.1.task.status ≡ cancelled)
      → o.1.task.result ≡ s.task.result
      → Adds s o.1 []
      → Ended s o
  -- The task was cancelled just before the write of a failure: ValueError is raised, the task is
  -- CANCELLED with a FAILED result, and no event says how the attempt ended.
  race :
      (r : TaskResult)
      → o.0 ≡ raise (Exn.value_error (cannot_transition cancelled failed))
      → r.status ≡ failed
      → o.1.task.status ≡ cancelled
      → o.1.task.result ≡ some r
      → Adds s o.1 []
      → Ended s o

module _ {S : Type 0} where
  -- An attempt goes on from a scene in which nothing has happened that its end tells of.
  pub Ended-from :
      (s t : Scene S) (o : Result TaskResult × Scene S)
      → t.task.result ≡ s.task.result
      → Adds s t []
      → Ended t o
      → Ended s o
  Ended-from s t o f a (success r e₁ e₂ e₃ e₄ e₅ more) =
      success r e₁ e₂ e₃ e₄ e₅ (Adds-trans s t o.1 [] _ a more)
  Ended-from s t o f a (cancellation m r e₁ e₂ e₃ e₄ more) =
      cancellation m r e₁ e₂ e₃ e₄ (Adds-trans s t o.1 [] _ a more)
  Ended-from s t o f a (failure e r e₁ e₂ e₃ e₄ more) =
      failure e r e₁ e₂ e₃ e₄ (Adds-trans s t o.1 [] _ a more)
  Ended-from s t o f a (crash m e₁ e₂ e₃ more) =
      crash m e₁ e₂ (e₃ ∙ f) (Adds-trans s t o.1 [] _ a more)
  Ended-from s t o f a (race r e₁ e₂ e₃ e₄ more) =
      race r e₁ e₂ e₃ e₄ (Adds-trans s t o.1 [] _ a more)

pub written-cancelled :
    (t : Task) (r : TaskResult) (e : Option Message)
    → ((written t r cancelled e).status ≡ cancelled) × ((written t r cancelled e).result ≡ some r)
unfolding same
written-cancelled t r e = ground arith

pub written-failed :
    (t : Task) (r : TaskResult) (e : Option Message)
    → t.status ≡ running
    → ((written t r failed e).status ≡ failed) × ((written t r failed e).result ≡ some r)
unfolding same
written-failed t r e h = ground arith

pub written-succeeded :
    (t : Task) (r : TaskResult)
    → t.status ≡ running
    → ((written t r succeeded none).status ≡ succeeded)
      × ((written t r succeeded none).error ≡ none)
      × ((written t r succeeded none).result ≡ some r)
unfolding same
written-succeeded t r h = ground arith

pub cancel-running :
    (t : Task) → t.status ≡ running → cancel t ≡ ok (record t { status = cancelled })
unfolding cancel
cancel-running t h = ground arith

pub not_cancelled : (t : Task) → t.status ≡ running → same t.status cancelled ≡ false
unfolding same
not_cancelled t h = ground arith

pub is_cancelled : (t : Task) → t.status ≡ cancelled → same t.status cancelled ≡ true
unfolding same
is_cancelled t h = ground arith

pub failed_result_status :
    (t : Task) (times : Times) (e : Exn) → (failed_result t times e).status ≡ failed
unfolding failed_result
failed_result_status t times (Exn.task_execution_error m p) = refl
failed_result_status t times e = refl

pub from_raw_status :
    (t : Task) (raw : Raw) (times : Times) → (from_raw t raw succeeded times).status ≡ succeeded
unfolding from_raw
from_raw_status t raw times = ground arith

module _ {S : Type 0} (env : Env S) where
  pub send_reports_lem : (rs : List Report) (s : Scene S) → Tells s [] (send_reports env rs s)
  unfolding send_reports emit_progress emit_output lifecycle publish
  send_reports_lem [] s = record { returns = refl; frame = ground arith; adds = sym (append-nil _) }
  send_reports_lem (progress_report p m ∷ rs) s =
      let told = publish_lem env _ s in
      Tells-from env s _ [] told.frame told.adds (send_reports_lem rs _)
  send_reports_lem (output_report o c ∷ rs) s =
      let told = publish_lem env _ s in
      Tells-from env s _ [] told.frame told.adds (send_reports_lem rs _)
