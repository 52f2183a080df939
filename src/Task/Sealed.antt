-- ===== src/Task/Sealed.antt =====
-- A SUCCEEDED task of src/ttasks/_task.py cannot be changed by its callers, and which timeouts a
-- task can have.
use ttasks.Common.{
  ℕ, String, ◌≡◌, refl, ◌↔◌, ◌⊎◌, inl, inr, Bool-cases, false, Option, none, some, List, [], ◌∷◌,
  arith,
}
use ttasks.Common.Values.{Float, Arg, typed, untyped, le_zero}
use ttasks.Status.{TaskType, succeeded}
use ttasks.Errors.{Message, ok}
use ttasks.Task.{Task, fresh_task, new_task, setattr, transition_to, cancel}
use ttasks.Task.Lifecycle.{Call, write, move, cancel_task, perform, after, perform_all}

perform_sealed : (t : Task) (c : Call) → t.status ≡ succeeded → after t (perform t c) ≡ t
unfolding perform
perform_sealed t (write a p) h = unfold setattr in ground arith
perform_sealed t (move untyped e) h = unfold transition_to in refl
perform_sealed t (move (typed s) e) h = unfold transition_to in ground arith
perform_sealed t cancel_task h = unfold cancel in ground arith

-- Whatever calls are made on it, a task that has SUCCEEDED stays as it is, in every field.
pub perform_all-succeeded :
    (t : Task) (cs : List Call) → t.status ≡ succeeded → perform_all t cs ≡ t
unfolding perform_all
perform_all-succeeded t [] h = refl
perform_all-succeeded t (c ∷ cs) h = rw (perform_sealed t c h) (perform_all-succeeded t cs h)

-- A task is constructed exactly when its type is a TaskType and its timeout, if it has one, is not
-- at most 0.
pub new_task_iff :
    (label body : String) (k : Arg TaskType) (about : String) (e : Option Message)
    (limit : Option Float) (id now : ℕ)
    → ((t : Task) × (new_task label body k about e limit id now ≡ ok t)) ↔ (
        ((kind : TaskType) × (k ≡ typed kind))
        × ((limit ≡ none) ⊎ ((x : Float) × (limit ≡ some x) × (le_zero x ≡ false))))
unfolding new_task
new_task_iff label body untyped about e limit id now = (λ h. cc h.1, λ h. cc h.0.1)
new_task_iff label body (typed kind) about e none id now =
    (λ h. ((kind, refl), inl refl), λ h. (_, refl))
new_task_iff label body (typed kind) about e (some x) id now = elim (Bool-cases (le_zero x)) [
  | inl small ↦ (λ h. absurd (ground arith), λ h. absurd (ground arith))
  | inr big ↦ (
    λ h. ((kind, refl), inr (x, refl, big)),
    λ h. (fresh_task label body kind about e (some x) id now, rw big),
  )
]
