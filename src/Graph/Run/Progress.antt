-- ===== src/Graph/Run/Progress.antt =====
-- The `while changed` loop of `schedule` in src/ttasks/_graph.py, by the fuel of `advance`.
use ttasks.Common.{
  ℕ, zero, suc, ◌+◌, ◌*◌, ◌≤◌, ◌<◌, ◌≡◌, refl, Bool, true, false, some, is_some, List, [], ◌∷◌,
  elem, length, arith, Bool-cases, inl, inr, if◌then◌else◌,
}
use ttasks.Status.{pending, same}
use native.Mathlib.Decide.{ℕ_discrete}
use ttasks.Graph.Run.{Plan, RunState, status_of, visit, submit, block, pass, advance}
use ttasks.Graph.Run.Safety.{blocked_task_status}
use ttasks.Graph.Run.Steps.{Visited, skipped, submitted, blocked_by, visit-Visited}

-- How often the loop may still change a task: a task that waits may be blocked or submitted, a task
-- without a future may be submitted.
unfoldable weight : RunState → ℕ → ℕ
weight r tid =
    if is_some (r.futures tid) then 0 else if same (status_of r tid) pending then 2 else 1

unfoldable total : RunState → List ℕ → ℕ
total r [] = 0
total r (tid ∷ tids) = weight r tid + total r tids

total_bound : (r : RunState) (tids : List ℕ) → total r tids ≤ 2 * length tids
unfolding total weight
total_bound r [] = omega arith
total_bound r (tid ∷ tids) = let l = total_bound r tids in ground arith

total_mono :
    (r r' : RunState) (tids : List ℕ)
    → ((d : ℕ) → weight r' d ≤ weight r d)
    → total r' tids ≤ total r tids
unfolding total
total_mono r r' [] h = omega arith
total_mono r r' (tid ∷ tids) h = let l = total_mono r r' tids h in let l' = h tid in omega arith

total_less :
    (r r' : RunState) (d : ℕ) (tids : List ℕ)
    → elem d tids ≡ true
    → ((j : ℕ) → weight r' j ≤ weight r j)
    → weight r' d < weight r d
    → total r' tids < total r tids
unfolding total
total_less r r' d [] m h less = cc m
total_less r r' d (tid ∷ tids) m h less = elim (ℕ_discrete d tid) [
  | yes e ↦ let l = total_mono r r' tids h in grind arith
  | no other ↦ let l = total_less r r' d tids (ground arith) h less in let l' = h tid in omega arith
]

-- A change that lowers the weight of one task and raises none.
record Lowers (r : RunState) (tid : ℕ) (o : RunState × Bool) : Type 0 where
  lower : (d : ℕ) → weight o.0 d ≤ weight r d
  strict : o.1 ≡ true → weight o.0 tid < weight r tid
  idle : o.1 ≡ false → o ≡ (r, false)

module _ (plan : Plan) where
  visit-Lowers : (r : RunState) (tid : ℕ) → Lowers r tid (visit plan r tid)
  unfolding weight
  visit-Lowers r tid = from (visit-Visited plan r tid)
    where
      from : Visited plan r tid (visit plan r tid) → Lowers r tid (visit plan r tid)
      from (skipped e) =
          rw e (record { lower = λ d. omega arith; strict = λ h. cc h; idle = λ h. refl })
      from (submitted free is_ready can open_now e) = rw e (record {
        lower = λ d. unfold submit in ground arith;
        strict = λ h. unfold submit in ground arith;
        idle = λ h. cc h;
      })
      from (blocked_by parent free waits ordinary bad e) = rw e (record {
        lower = λ d.
            unfold block same in ground (arith, blocked_task_status (r.tasks tid) parent waits);
        strict = λ h.
            unfold block same in ground (arith, blocked_task_status (r.tasks tid) parent waits);
        idle = λ h. cc h;
      })

  -- A visit that does not set `changed` leaves the state as it is.
  pub visit_idle :
      (r : RunState) (tid : ℕ) → (visit plan r tid).1 ≡ false → visit plan r tid ≡ (r, false)
  visit_idle r tid h = (visit-Lowers r tid).idle h

  -- What a pass over some tasks of the plan changes lowers the total of all of them.
  pass-Lowers :
      (r : RunState) (tids all_tids : List ℕ)
      → ((d : ℕ) → elem d tids ≡ true → elem d all_tids ≡ true)
      → ((d : ℕ) → weight (pass plan r tids).0 d ≤ weight r d)
        × ((pass plan r tids).1 ≡ true → total (pass plan r tids).0 all_tids < total r all_tids)
        × ((pass plan r tids).1 ≡ false → pass plan r tids ≡ (r, false))
  unfolding pass
  pass-Lowers r [] all_tids sub = (λ d. omega arith, λ h. cc h, λ h. refl)
  pass-Lowers r (tid ∷ tids) all_tids sub =
      from (visit-Lowers r tid)
        (pass-Lowers (visit plan r tid).0 tids all_tids (λ d m. sub d (ground arith)))
    where
      here_in : elem tid (tid ∷ tids) ≡ true
      here_in = ground arith

      from :
          Lowers r tid (visit plan r tid)
          → ((d : ℕ)
              → weight (pass plan (visit plan r tid).0 tids).0 d ≤ weight (visit plan r tid).0 d)
            × ((pass plan (visit plan r tid).0 tids).1 ≡ true
                → total (pass plan (visit plan r tid).0 tids).0 all_tids
                  < total (visit plan r tid).0 all_tids)
            × ((pass plan (visit plan r tid).0 tids).1 ≡ false
                → pass plan (visit plan r tid).0 tids ≡ ((visit plan r tid).0, false))
          → ((d : ℕ) → weight (pass plan r (tid ∷ tids)).0 d ≤ weight r d)
            × ((pass plan r (tid ∷ tids)).1 ≡ true
                → total (pass plan r (tid ∷ tids)).0 all_tids < total r all_tids)
            × ((pass plan r (tid ∷ tids)).1 ≡ false → pass plan r (tid ∷ tids) ≡ (r, false))
      from first (low, less, same_state) = (
        λ d. let l = low d in let l' = first.lower d in omega arith,
        λ h.
            let mono = total_mono r (visit plan r tid).0 all_tids first.lower in
            let mono' =
              total_mono (visit plan r tid).0 (pass plan (visit plan r tid).0 tids).0 all_tids
                low in
            elim (Bool-cases (visit plan r tid).1) [
              | inl a ↦
                  let l =
                    total_less r (visit plan r tid).0 tid all_tids (sub tid here_in) first.lower
                      (first.strict a) in
                  omega arith
              | inr a ↦ let l = less (ground arith) in omega arith
            ],
        λ h.
            let a : (visit plan r tid).1 ≡ false = ground arith in
            let b : (pass plan (visit plan r tid).0 tids).1 ≡ false = ground arith in
            rw (same_state b, first.idle a) refl,
      )

  advance_lem :
      (fuel : ℕ) (r : RunState)
      → total r plan.order < fuel
      → (r' : RunState) × (advance plan fuel r ≡ some r') × (pass plan r' plan.order ≡ (r', false))
  unfolding advance
  advance_lem zero r h = absurd (omega arith)
  advance_lem (suc fuel) r h =
      let (low, less, same_state) = pass-Lowers r plan.order plan.order (λ d m. m) in
      elim (Bool-cases (pass plan r plan.order).1) [
        | inl changed ↦
            let l = less changed in
            rw changed (advance_lem fuel (pass plan r plan.order).0 (omega arith))
        | inr done ↦ (r, rw (same_state done) refl, same_state done)
      ]

  -- Where no worker and no caller of `cancel` comes in between, the loop of `schedule` ends within
  -- 2 n + 1 passes over a graph of n tasks: with any fuel above 2 n it returns a state, and one more
  -- pass leaves that state unchanged.
  pub advance_enough :
      (fuel : ℕ) (r : RunState)
      → 2 * length plan.order < fuel
      → (r' : RunState) × (advance plan fuel r ≡ some r') × (pass plan r' plan.order ≡ (r', false))
  advance_enough fuel r h = let l = total_bound r plan.order in advance_lem fuel r (omega arith)
