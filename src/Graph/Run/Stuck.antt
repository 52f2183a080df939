-- ===== src/Graph/Run/Stuck.antt =====
-- A case that the scheduler of src/ttasks/_graph.py does not foresee: a PENDING task below one that
-- came into the run BLOCKED and that cannot recover.
use ttasks.Common.{ℕ, ◌≡◌, Bool, true, false, none, some, elem, any, keep, List, [], ◌∷◌, arith}
use ttasks.Status.{pending, blocked}
use ttasks.Graph.Run.{Plan, RunState, status_of, is_live, first_bad_parent}

-- `b` came into the run BLOCKED and still has a bad parent, and `c` is a PENDING task that depends
-- on `b` alone. Nothing is live.
pub record IsStranded (plan : Plan) (r : RunState) (b c : ℕ) : Type 0 where
  pub b_free : r.futures b ≡ none
  pub b_fine : r.errors b ≡ none
  pub b_blocked : status_of r b ≡ blocked
  pub b_entering : elem b plan.entering_blocked ≡ true
  pub b_ordinary : plan.is_finally b ≡ false
  pub parent : ℕ
  pub b_parent : first_bad_parent plan r b ≡ some parent
  pub c_free : r.futures c ≡ none
  pub c_pending : status_of r c ≡ pending
  pub c_ordinary : plan.is_finally c ≡ false
  pub c_after : plan.deps c ≡ b ∷ []
  pub c_in : elem c plan.order ≡ true
  pub none_live : any (λ tid. is_live (r.futures tid)) plan.order ≡ false

pub elem-keep :
    (p : ℕ → Bool) (k : ℕ) (ks : List ℕ) → elem k ks ≡ true → p k ≡ true → elem k (keep p ks) ≡ true
elem-keep p k [] h m = h
elem-keep p k (j ∷ ks) h m = ground (arith, elem-keep p k ks)
