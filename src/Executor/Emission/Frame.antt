-- ===== src/Executor/Emission/Frame.antt =====
-- What saving and publishing in src/ttasks/_executor.py leave alone, and how a terminal write ends.
use ttasks.Common.{
  ◌≡◌, refl, sym, ◌∙◌, Option, none, some, List, [], ◌∷◌, ◌++◌, arith, append-nil, append_assoc,
}
use ttasks.Status.{TaskStatus}
use ttasks.Errors.{Message, Exn, Result, ok}
use ttasks.Events.{TaskEventType, TaskEvent}
use ttasks.Executor.Effects.{Env, Scene}
use ttasks.Executor.Emission.{
  save_failed, saved, persist_to, persist, emit, publish, lifecycle_event,
}

-- Two scenes agree on all but the store, the bus, the failures of saving and the published events.
pub record Frame {S : Type 0} (s s' : Scene S) : Type 0 where
  pub same_task : s'.task ≡ s.task
  pub same_handlers : s'.handlers ≡ s.handlers
  pub same_processes : s'.running_processes ≡ s.running_processes
  pub same_calls : s'.calls ≡ s.calls
  pub same_readings : s'.readings ≡ s.readings

-- The lifecycle events among some events, by type and status: all but reports of the handler and
-- failures of saving.
unfoldable pub lifecycle : List TaskEvent → List (TaskEventType × TaskStatus)
lifecycle [] = []
lifecycle (e ∷ es) =
    let rest = lifecycle es in
    elim e.type [
      | TaskEventType.progress ↦ rest
      | TaskEventType.output ↦ rest
      | TaskEventType.persistence_failed ↦ rest
      | _ ↦ (e.type, e.status) ∷ rest
    ]

pub lifecycle-append :
    (xs ys : List TaskEvent) → lifecycle (xs ++ ys) ≡ lifecycle xs ++ lifecycle ys
unfolding lifecycle
lifecycle-append [] ys = refl
lifecycle-append (x ∷ xs) ys = ground (arith, lifecycle-append xs ys)

-- The second scene has these lifecycle events more.
abbrev pub Adds : {S : Type 0} → Scene S → Scene S → List (TaskEventType × TaskStatus) → Type 0
Adds s s' new = lifecycle s'.published ≡ lifecycle s.published ++ new

module _ {S : Type 0} where
  pub Frame-trans : (s t u : Scene S) → Frame s t → Frame t u → Frame s u
  Frame-trans s t u f g = record {
    same_task = g.same_task ∙ f.same_task;
    same_handlers = g.same_handlers ∙ f.same_handlers;
    same_processes = g.same_processes ∙ f.same_processes;
    same_calls = g.same_calls ∙ f.same_calls;
    same_readings = g.same_readings ∙ f.same_readings;
  }

  pub Adds-trans :
      (s t u : Scene S) (new more : List (TaskEventType × TaskStatus))
      → Adds s t new
      → Adds t u more
      → Adds s u (new ++ more)
  Adds-trans s t u new more a b = cc (a, b, append_assoc (lifecycle s.published) new more)

-- An action returns, leaves all in the frame alone and adds these lifecycle events.
pub record Tells {S : Type 0} (s : Scene S) (new : List (TaskEventType × TaskStatus))
    (o : Result (Unit {0}) × Scene S) : Type 0 where
  pub returns : o.0 ≡ ok tt
  pub frame : Frame s o.1
  pub adds : Adds s o.1 new

module _ {S : Type 0} (env : Env S) where
  pub publish_lem : (e : TaskEvent) (s : Scene S) → Tells s (lifecycle (e ∷ [])) (publish env e s)
  unfolding publish
  publish_lem e s = record {
    returns = refl;
    frame = ground arith;
    adds = lifecycle-append s.published (e ∷ []);
  }

  -- An action after some that returned.
  pub Tells-from :
      (s t : Scene S) (new : List (TaskEventType × TaskStatus))
      {more : List (TaskEventType × TaskStatus)} {o : Result (Unit {0}) × Scene S}
      → Frame s t
      → Adds s t new
      → Tells t more o
      → Tells s (new ++ more) o
  Tells-from s t new {more} {o} f a k = record {
    returns = k.returns;
    frame = Frame-trans s t o.1 f k.frame;
    adds = Adds-trans s t o.1 new more a k.adds;
  }

  save_failed_lem : (e : Exn) (s : Scene S) → Tells s [] (save_failed env e s)
  unfolding save_failed lifecycle
  save_failed_lem e s = Tells-from s _ [] (ground arith) (sym (append-nil _)) (publish_lem _ _)

  saved_lem : (o : S × Option Exn) (s : Scene S) → Tells s [] (saved env o s)
  unfolding saved
  saved_lem (db, none) s = record {
    returns = refl;
    frame = ground arith;
    adds = sym (append-nil _);
  }
  saved_lem (db, some e) s =
      Tells-from s _ [] (ground arith) (sym (append-nil _)) (save_failed_lem e _)

  persist_to_lem : (o : Option S) (s : Scene S) → Tells s [] (persist_to env o s)
  unfolding persist_to
  persist_to_lem none s = record { returns = refl; frame = ground arith; adds = sym (append-nil _) }
  persist_to_lem (some db) s = saved_lem (env.save db s.task) s

  -- Saving returns whatever the store does, and leaves the task, the handlers, the processes, the
  -- counts of calls and readings and the lifecycle events as they were. (The store, the recorded
  -- failures, the bus and the published events of failures may change.)
  pub persist_lem : (s : Scene S) → Tells s [] (persist env s)
  unfolding persist
  persist_lem s = persist_to_lem s.store s

  -- `_emit` returns, leaves all in the frame alone and publishes its event.
  pub emit_lem :
      (type : TaskEventType) (previous : Option TaskStatus) (error : Option Message) (s : Scene S)
      → Tells s
          (lifecycle (lifecycle_event s.task type previous error ∷ []))
          (emit env type previous error s)
  unfolding emit
  emit_lem type previous error s =
      let first = persist_lem s in
      rw first.returns
        (rw first.frame.same_task (Tells-from s _ [] first.frame first.adds (publish_lem _ _)))
