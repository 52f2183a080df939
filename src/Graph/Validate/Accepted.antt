-- ===== src/Graph/Validate/Accepted.antt =====
-- Which graphs `_validate` of src/ttasks/_graph.py accepts.
use ttasks.Common.{
  ℕ, ◌≡◌, refl, ◌↔◌, ◌≢◌, String, inl, inr, true, false, some, List, [], ◌∷◌, elem, arith, ◌==◌,
  Bool-cases,
}
use ttasks.Common.Dict.{Dict, lookup, has, keys, elem-keys}
use ttasks.Status.{running, same}
use ttasks.Errors.{Exn, depends_on, value_error, Result, ok, raise, ◌>>=◌, ◌>>◌}
use ttasks.Task.{Task}
use ttasks.Graph.{TaskGraph}
use ttasks.Graph.WellFormed.{nodup, IsWellFormed}
use ttasks.Graph.Validate.{
  check_running, title_of, check_edges, check_registered, check_cycles, validate,
}
use ttasks.Graph.Validate.Acyclic.{Acyclic, Registered, check_cycles_iff}

-- No task of the graph is RUNNING.
abbrev pub NoneRunning : Dict Task → Type 0
NoneRunning tasks = (k : ℕ) (t : Task) → lookup k tasks ≡ some t → same t.status running ≡ false

-- Both calls of a sequence return.
both : (m k : Result (Unit {0})) → (m >> k) ≡ ok tt → (m ≡ ok tt) × (k ≡ ok tt)
both (ok tt) k h = (refl, h)
both (raise e) k h = cc

never : (m : Result String) (f : String → Exn) → (m >>= λ x. raise (f x)) ≢ ok (tt {0})
never (ok x) f h = cc
never (raise e) f h = cc

idle_of_check :
    (tasks : Dict Task) (k : ℕ) (t : Task)
    → check_running tasks ≡ ok tt
    → lookup k tasks ≡ some t
    → same t.status running ≡ false
unfolding check_running lookup
idle_of_check [] k t h e = cc
idle_of_check ((j, u) ∷ tasks) k t h e = elim (Bool-cases (same u.status running)) [
  | inl bad ↦ cc (rw bad at h)
  | inr good ↦ elim (Bool-cases (k == j)) [
    | inl here ↦ ground arith
    | inr there ↦ idle_of_check tasks k t (rw good at h) (rw there at e)
  ]
]

check_of_idle :
    (tasks : Dict Task)
    → nodup (keys tasks) ≡ true
    → NoneRunning tasks
    → check_running tasks ≡ ok tt
unfolding check_running lookup keys
check_of_idle [] once free = refl
check_of_idle ((j, u) ∷ tasks) once free = ground (
  arith,
  free j u,
  check_of_idle tasks (ground arith) (λ k t e. ground (arith, free k t, elem-keys k tasks)),
)

registered_of_edges :
    (g : TaskGraph) (tid d : ℕ) (ds : List ℕ)
    → check_edges g tid ds ≡ ok tt
    → elem d ds ≡ true
    → has d g.deps ≡ true
unfolding check_edges title_of
registered_of_edges g tid d [] h m = cc
registered_of_edges g tid d (e ∷ ds) h m = elim (Bool-cases (has e g.deps)) [
  | inl good ↦ ground (arith, registered_of_edges g tid d ds (rw good at h))
  | inr bad ↦
      absurd
        (never (title_of g.tasks tid) (λ title. value_error (depends_on title e)) (rw bad at h))
]

edges_of_registered :
    (g : TaskGraph) (tid : ℕ) (ds : List ℕ)
    → ((d : ℕ) → elem d ds ≡ true → has d g.deps ≡ true)
    → check_edges g tid ds ≡ ok tt
unfolding check_edges
edges_of_registered g tid [] h = refl
edges_of_registered g tid (d ∷ ds) h =
    ground (arith, h d, edges_of_registered g tid ds (λ k m. h k (ground arith)))

module _ (g : TaskGraph) where
  registered_of_check :
      (deps : Dict (List ℕ)) (t d : ℕ) (ds : List ℕ)
      → check_registered g deps ≡ ok tt
      → lookup t deps ≡ some ds
      → elem d ds ≡ true
      → has d g.deps ≡ true
  unfolding check_registered lookup
  registered_of_check [] t d ds h e m = cc
  registered_of_check ((k, es) ∷ deps) t d ds h e m = elim (Bool-cases (t == k)) [
    | inl here ↦
        registered_of_edges g k d es (both (check_edges g k es) (check_registered g deps) h).0
          (ground arith)
    | inr there ↦
        registered_of_check deps t d ds (both (check_edges g k es) (check_registered g deps) h).1
          (rw there at e) m
  ]

  check_of_registered :
      (deps : Dict (List ℕ))
      → nodup (keys deps) ≡ true
      → ((t d : ℕ) (ds : List ℕ) → lookup t deps ≡ some ds → elem d ds ≡ true → has d g.deps ≡ true)
      → check_registered g deps ≡ ok tt
  unfolding check_registered lookup keys
  check_of_registered [] once h = refl
  check_of_registered ((k, es) ∷ deps) once h =
      rw (edges_of_registered g k es (λ d m. h k d es (ground arith) m)) (
        check_of_registered deps (ground arith)
          (λ t d ds e m. h t d ds (ground (arith, elem-keys k deps)) m))

-- `_validate` accepts a well-formed graph, in whose dictionaries no key stands twice, exactly where
-- no task is RUNNING, every dependency is a task of the graph and the dependencies have no cycle.
pub validate_iff :
    (g : TaskGraph)
    → IsWellFormed g
    → nodup (keys g.tasks) ≡ true
    → nodup (keys g.deps) ≡ true
    → (validate g ≡ ok tt) ↔ (NoneRunning g.tasks × Registered g.deps × Acyclic g.deps)
unfolding validate
validate_iff g w tasks_once deps_once = (
  λ h.
      let (free, rest) =
        both (check_running g.tasks) (check_registered g g.deps >> check_cycles g.deps) h in
      let (closed, cycles) = both (check_registered g g.deps) (check_cycles g.deps) rest in
      (
        λ k t e. idle_of_check g.tasks k t free e,
        λ t d ds e m. registered_of_check g g.deps t d ds closed e m,
        (check_cycles_iff g.deps deps_once w.distinct
              (λ t d ds e m. registered_of_check g g.deps t d ds closed e m)).0
            cycles,
      ),
  λ (free, registered, acyclic). rw (check_of_idle g.tasks tasks_once free) (
      rw (check_of_registered g g.deps deps_once registered)
        ((check_cycles_iff g.deps deps_once w.distinct registered).1 acyclic)),
)
