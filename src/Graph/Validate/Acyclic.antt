-- ===== src/Graph/Validate/Acyclic.antt =====
-- What `_validate` of src/ttasks/_graph.py decides: whether the dependencies have a cycle.
use ttasks.Common.{
  ℕ, zero, suc, ◌≤◌, ◌<◌, ◌≡◌, ◌↔◌, inl, inr, true, some, List, [], ◌∷◌, length, elem, arith, ◌==◌,
  ==_iff, Bool-cases, Option-cases, if◌then◌else◌, all-elem, all_of_elem,
}
use ttasks.Common.Dict.{Dict, lookup, has, keys, elem-keys}
use ttasks.Errors.{ok}
use ttasks.Graph.WellFormed.{nodup}
use ttasks.Graph.Validate.{check_cycles, kahn, in_degrees, sources, backwards}
use ttasks.Graph.Validate.Counting.{elem_of_length, length_le_of_elem}
use ttasks.Graph.Validate.Order.{
  pending-all, all-pending, Topo, Topo-pending, Topo-nodup, length-keys,
}
use ttasks.Graph.Validate.Kahn.{Visited, kahn-Visited}
use ttasks.Graph.Validate.Start.{start-Inv}

-- The tasks can be numbered such that each one has a greater number than those it depends on.
abbrev pub Acyclic : Dict (List ℕ) → Type 0
Acyclic deps =
    (rank : ℕ → ℕ) × ((t d : ℕ) (ds : List ℕ)
      → lookup t deps ≡ some ds
      → elem d ds ≡ true
      → rank d < rank t)

-- All dependencies are tasks of the graph.
abbrev pub Registered : Dict (List ℕ) → Type 0
Registered deps =
    (t d : ℕ) (ds : List ℕ) → lookup t deps ≡ some ds → elem d ds ≡ true → has d deps ≡ true

-- The round in which a task was visited, from 1
abbrev round : ℕ → List ℕ → ℕ
round t [] = 0
round t (k ∷ done) = if t == k then suc (length done) else round t done

round-le : (t : ℕ) (done : List ℕ) → round t done ≤ length done
round-le t [] = omega arith
round-le t (k ∷ done) = ground (arith, round-le t done)

-- The dependencies of a visited task were visited in earlier rounds.
round-lt :
    (deps : Dict (List ℕ)) (done : List ℕ) (t d : ℕ) (ds : List ℕ)
    → Topo deps done
    → elem t done ≡ true
    → lookup t deps ≡ some ds
    → elem d ds ≡ true
    → round d done < round t done
round-lt deps [] t d ds topo m e dep = cc
round-lt deps (k ∷ done) t d ds topo m e dep = elim (Bool-cases (t == k)) [
  | inl here ↦
      let visited =
        all-elem (λ i. elem i done) d ds
          (pending-all ds done (topo.1 ds (rw (← (==_iff t k).0 here) e))) dep in
      ground (arith, round-le d done)
  | inr there ↦
      let visited =
        all-elem (λ i. elem i done) d ds
          (pending-all ds done (Topo-pending deps done t ds topo.2 (ground arith) e)) dep in
      ground (arith, round-lt deps done t d ds topo.2)
]

module _ (deps : Dict (List ℕ)) (closed : Registered deps) (n : ℕ) (v : Visited deps n) where
  -- Without a cycle every task is visited.
  visited_of_rank :
      (rank : ℕ → ℕ)
      → ((t d : ℕ) (ds : List ℕ) → lookup t deps ≡ some ds → elem d ds ≡ true → rank d < rank t)
      → (bound t : ℕ) (ds : List ℕ) → lookup t deps ≡ some ds
      → rank t < bound
      → elem t v.done ≡ true
  visited_of_rank rank lower zero t ds e lt = absurd (omega arith)
  visited_of_rank rank lower (suc bound) t ds e lt = v.due t ds e (
      all-pending ds v.done (
        all_of_elem (λ d. elem d v.done) ds
          (λ d m. elim (Option-cases (lookup d deps)) [
            | inl absent ↦ absurd (ground (arith, closed t d ds e m))
            | inr (es, f) ↦
                visited_of_rank rank lower bound d es f (omega (arith, lower t d ds e m))
          ])))

module _ (deps : Dict (List ℕ)) (n : ℕ) (v : Visited deps n) where
  done_once : nodup v.done ≡ true
  done_once = Topo-nodup deps v.done v.topo

  -- Where every task was visited there is no cycle.
  no_cycle_of_count : n ≡ length deps → Acyclic deps
  no_cycle_of_count same_count = (
    λ t. round t v.done,
    λ t d ds e m.
        round-lt deps v.done t d ds v.topo
          (elem_of_length v.done (keys deps) done_once v.known
            (omega (arith, v.counts, length-keys deps)) t (ground (arith, elem-keys t deps)))
          e m,
  )

  -- Without a cycle the count is the number of tasks.
  count_of_no_cycle : nodup (keys deps) ≡ true → Registered deps → Acyclic deps → n ≡ length deps
  count_of_no_cycle keys_once closed (rank, lower) =
      let le = length_le_of_elem v.done (keys deps) done_once v.known in
      let ge = length_le_of_elem (keys deps) v.done keys_once (λ t m.
        elim (Option-cases (lookup t deps)) [
          | inl absent ↦ absurd (ground (arith, elem-keys t deps))
          | inr (ds, e) ↦
              visited_of_rank deps closed n v rank lower (suc (rank t)) t ds e (omega arith)
        ]) in
      omega (arith, v.counts, length-keys deps)

-- The last part of `_validate` decides whether there is a cycle, and its loop ends.
pub check_cycles_iff :
    (deps : Dict (List ℕ))
    → nodup (keys deps) ≡ true
    → ((t : ℕ) (ds : List ℕ) → lookup t deps ≡ some ds → nodup ds ≡ true)
    → Registered deps
    → (check_cycles deps ≡ ok tt) ↔ Acyclic deps
unfolding check_cycles
check_cycles_iff deps keys_once deps_once closed =
    let (n, returns, v) =
      kahn-Visited deps keys_once deps_once (length deps) (in_degrees deps)
        (backwards (sources (in_degrees deps)) []) [] (start-Inv deps keys_once) (omega arith) in
    (
      λ h. no_cycle_of_count deps n v (ground (arith, returns)),
      λ a. ground (arith, returns, count_of_no_cycle deps n v keys_once closed a),
    )

-- Where no task has two entries and no entry names a dependency twice, the `while` loop of
-- `_validate` ends with the number of tasks as fuel, also where the dependencies have a cycle, and it
-- has visited at most that many tasks.
pub kahn_ends :
    (deps : Dict (List ℕ))
    → nodup (keys deps) ≡ true
    → ((t : ℕ) (ds : List ℕ) → lookup t deps ≡ some ds → nodup ds ≡ true)
    → (visited : ℕ) × (kahn deps
          (length deps)
          (in_degrees deps)
          (backwards (sources (in_degrees deps)) [])
          0
        ≡ some visited)
      × (visited ≤ length deps)
kahn_ends deps keys_once deps_once =
    let (n, returns, v) =
      kahn-Visited deps keys_once deps_once (length deps) (in_degrees deps)
        (backwards (sources (in_degrees deps)) []) [] (start-Inv deps keys_once) (omega arith) in
    let le = length_le_of_elem v.done (keys deps) (done_once deps n v) v.known in
    (n, returns, omega (arith, v.counts, length-keys deps))
