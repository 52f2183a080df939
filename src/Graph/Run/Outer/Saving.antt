-- ===== src/Graph/Run/Outer/Saving.antt =====
-- What `run` of src/ttasks/_graph.py saves, and that a store which fails does not matter to it.
use ttasks.Common.{
  ◌≡◌, refl, true, Option, is_some, List, [], ◌∷◌, ◌++◌, append-nil, append_assoc, ap, sym, ◌∙◌,
  Option-cases, inl, inr,
}
use ttasks.Common.Values.{ℤ}
use ttasks.Errors.{Exn, Result, ok, raise, ◌>>◌}
use ttasks.Graph.{TaskGraph}
use ttasks.Graph.Validate.{validate}
use ttasks.Graph.Run.Outer.{
  Saver, Outside, run, run_tested, run_saved, run_inner, run_threads, persist_graph, graph_saved,
  check_workers,
}

-- The graphs that a call of `run` passes to the store when it is through
abbrev pub saves : Result (Unit {0}) → (before left : TaskGraph) → List TaskGraph
saves (raise e) before left = []
saves (ok u) before left = before ∷ left ∷ []

module _ {S : Type 0} where
  -- Saving is attempted where there is a store, and the store stays.
  persist_graph_lem :
      (out : Outside S) (g : TaskGraph) (s : Saver S)
      → is_some s.store ≡ true
      → (is_some (persist_graph out g s).store ≡ true)
        × ((persist_graph out g s).attempted ≡ s.attempted ++ g ∷ [])
  unfolding persist_graph graph_saved
  persist_graph_lem out g s h = elim (Option-cases s.store) [
    | inl e ↦ absurd (cc (rw e at h))
    | inr (db, e) ↦ rw e (elim (Option-cases (out.save_graph db g).1) [
      | inl f ↦ rw f (refl, refl)
      | inr (x, f) ↦ rw f (refl, refl)
    ])
  ]

  -- What `_run_inner` does has nothing to do with the store.
  run_inner-save :
      (out : Outside S) (save : S → TaskGraph → S × Option Exn) (g : TaskGraph)
      → run_inner (record out { save_graph = save }) g ≡ run_inner out g
  unfolding run_inner run_threads
  run_inner-save out save g = refl

  run_saved_twice :
      (out : Outside S) (g : TaskGraph) (s : Saver S)
      → is_some s.store ≡ true
      → is_some (run_saved out g s).0 ≡ true
      → (run_saved out g s).2.attempted ≡ s.attempted ++ g ∷ (run_saved out g s).1 ∷ []
  unfolding run_saved
  run_saved_twice out g s h over = elim (Option-cases (run_inner out g).0) [
    | inl e ↦ absurd (cc (rw e at over))
    | inr (x, e) ↦
        let (still, first) = persist_graph_lem out g s h in
        let (_, second) = persist_graph_lem out (run_inner out g).1 (persist_graph out g s) still in
        rw (run_saved, e)
          (second
            ∙ ap (λ l. l ++ (run_inner out g).1 ∷ []) first
            ∙ append_assoc s.attempted (g ∷ []) ((run_inner out g).1 ∷ []))
  ]

  run_tested_saving :
      (out : Outside S) (save : S → TaskGraph → S × Option Exn) (t : Result (Unit {0}))
      (g : TaskGraph) (s s' : Saver S)
      → ((run_tested out t g s).0 ≡ (run_tested (record out { save_graph = save }) t g s').0)
        × ((run_tested out t g s).1 ≡ (run_tested (record out { save_graph = save }) t g s').1)
        × (is_some s.store ≡ true
            → is_some (run_tested out t g s).0 ≡ true
            → (run_tested out t g s).2.attempted
              ≡ s.attempted ++ saves t g (run_tested out t g s).1)
  unfolding run_tested run_saved
  run_tested_saving out save (raise e) g s s' = (refl, refl, λ h over. sym (append-nil s.attempted))
  run_tested_saving out save (ok u) g s s' = (
    ap (λ x. x.0) (sym (run_inner-save out save g)),
    ap (λ x. x.1) (sym (run_inner-save out save g)),
    run_saved_twice out g s,
  )

  -- `run` ends in the same way and leaves the same graph, whatever the store is and does. With a
  -- store, it saves nothing where it refuses the graph, and where it accepts the graph it passes it
  -- to the store once before it runs and once as it is left, also where the run ends in an
  -- exception.
  pub run_saving :
      (out : Outside S) (save : S → TaskGraph → S × Option Exn) (max_workers : ℤ) (g : TaskGraph)
      (s s' : Saver S)
      → ((run out max_workers g s).0 ≡ (run (record out { save_graph = save }) max_workers g s').0)
        × ((run out max_workers g s).1
            ≡ (run (record out { save_graph = save }) max_workers g s').1)
        × (is_some s.store ≡ true
            → is_some (run out max_workers g s).0 ≡ true
            → (run out max_workers g s).2.attempted
              ≡ s.attempted
                ++ saves (check_workers max_workers >> validate g) g (run out max_workers g s).1)
  unfolding run
  run_saving out save max_workers g s s' =
      run_tested_saving out save (check_workers max_workers >> validate g) g s s'
