-- ===== src/Graph/Run/Idle.antt =====
-- States that the loop of `schedule` in src/ttasks/_graph.py leaves unchanged.
use ttasks.Common.{
  ℕ, ◌≡◌, refl, true, false, Option, none, some, elem, List, [], ◌∷◌, arith, ◌==◌, Bool-cases, inl,
  inr, ap, subst, if◌then◌else◌, ==_iff,
}
use ttasks.Status.{pending, same, is_sink, allows}
use ttasks.Graph.Run.{
  Plan, RunState, status_of, ready, first_bad_parent, visit, consider, submit_if_ready,
  block_pending, pass,
}
use ttasks.Graph.Run.Progress.{visit_idle}

-- A pass that sets no `changed` has changed nothing.
pub visit_of_pass :
    (plan : Plan) (r : RunState) (t : ℕ) (tids : List ℕ)
    → (pass plan r tids).1 ≡ false
    → elem t tids ≡ true
    → visit plan r t ≡ (r, false)
unfolding pass
visit_of_pass plan r t [] h m = cc
visit_of_pass plan r t (k ∷ tids) h m =
    let same_state = visit_idle plan r k (ground arith) in
    elim (Bool-cases (t == k)) [
      | inl here ↦ rw ((==_iff t k).0 here) same_state
      | inr there ↦
          visit_of_pass plan r t tids
            (subst (λ x. (pass plan x.0 tids).1 ≡ false) same_state (ground arith)) (ground arith)
    ]

module _ (plan : Plan) (r : RunState) (t : ℕ) (free : r.futures t ≡ none)
    (waits : status_of r t ≡ pending) where
  -- The loop body for a PENDING task that has no future
  visit-pending :
      visit plan r t
      ≡ consider plan r t (if plan.is_finally t then none else first_bad_parent plan r t)
  unfolding visit is_sink same
  visit-pending = ground (arith, free, waits)

  consider_idle :
      (bad : Option ℕ) → (consider plan r t bad).1 ≡ false → (bad ≡ none) × (ready plan r t ≡ false)
  unfolding consider submit_if_ready block_pending same allows
  consider_idle none h = (refl, ground (arith, waits))
  consider_idle (some parent) h = absurd (ground (arith, waits))

  -- A PENDING task that a visit leaves as it is is not ready, and if it is ordinary it has no bad
  -- parent.
  pub idle_cases :
      visit plan r t ≡ (r, false)
      → (ready plan r t ≡ false) × (plan.is_finally t ≡ false → first_bad_parent plan r t ≡ none)
  idle_cases e =
      let (no_parent, unready) =
        consider_idle (if plan.is_finally t then none else first_bad_parent plan r t)
          (subst (λ x. x.1 ≡ false) visit-pending (ap (λ x. x.1) e)) in
      (unready, λ ordinary. rw ordinary at no_parent)
