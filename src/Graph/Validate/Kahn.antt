-- ===== src/Graph/Validate/Kahn.antt =====
-- Kahn's algorithm in `_validate` of src/ttasks/_graph.py: what the loop keeps, and how it ends.
use ttasks.Common.{
  ℕ, zero, suc, ◌+◌, ◌≤◌, ◌≡◌, refl, ◌⊎◌, inl, inr, true, false, ◌||◌, some, List, [], ◌∷◌, length,
  elem, arith, Bool-cases, Option-cases,
}
use ttasks.Common.Dict.{Dict, lookup, has, keys}
use ttasks.Graph.WellFormed.{nodup}
use ttasks.Graph.Validate.{degree, relax, kahn}
use ttasks.Graph.Validate.Order.{
  pending, pending-visit, pending_mono, Topo, Topo-pending, Topo-nodup, elem-keys_of_has,
  length-keys,
}
use ttasks.Graph.Validate.Counting.{length_le_of_elem}
use ttasks.Graph.Validate.Relax.{hits, degree-relax, elem-relax, relax-nodup}

module _ (deps : Dict (List ℕ)) where
  -- What the loop keeps. `done` are the visited tasks.
  pub record Inv (degrees : Dict ℕ) (queue done : List ℕ) : Type 0 where
    pub counted :
        (t : ℕ) (ds : List ℕ) → lookup t deps ≡ some ds → degree t degrees ≡ pending ds done
    pub once : nodup queue ≡ true
    pub apart : (t : ℕ) → elem t queue ≡ true → elem t done ≡ false
    pub known : (t : ℕ) → (elem t queue || elem t done) ≡ true → has t deps ≡ true
    pub due :
        (t : ℕ) (ds : List ℕ)
        → lookup t deps ≡ some ds
        → pending ds done ≡ 0
        → (elem t queue || elem t done) ≡ true
    pub clear :
        (t : ℕ) (ds : List ℕ) → lookup t deps ≡ some ds → elem t queue ≡ true → pending ds done ≡ 0
    pub topo : Topo deps done

  module _ (keys_once : nodup (keys deps) ≡ true)
      (deps_once : (t : ℕ) (ds : List ℕ) → lookup t deps ≡ some ds → nodup ds ≡ true) (cur : ℕ)
      (degrees : Dict ℕ) (queue done : List ℕ) (v : Inv degrees (cur ∷ queue) done) where
    fresh : elem cur done ≡ false
    fresh = v.apart cur (ground arith)

    counted_next :
        (t : ℕ) (ds : List ℕ)
        → lookup t deps ≡ some ds
        → degree t (relax cur deps degrees queue).0 ≡ pending ds (cur ∷ done)
    counted_next t ds e = ground (
      arith,
      degree-relax cur t deps degrees queue keys_once,
      v.counted t ds e,
      pending-visit cur ds done (deps_once t ds e) fresh,
    )

    -- A task that enters the queue had one dependency left, so it was neither queued nor visited.
    entering :
        (t : ℕ) (ds : List ℕ)
        → lookup t deps ≡ some ds
        → degree t degrees ≡ 1
        → (elem t (cur ∷ queue) ≡ false) × (elem t done ≡ false)
    entering t ds e one = (
      elim (Bool-cases (elem t (cur ∷ queue))) [
        | inl queued ↦ absurd (omega (arith, v.counted t ds e, v.clear t ds e queued))
        | inr other ↦ other
      ],
      elim (Bool-cases (elem t done)) [
        | inl visited ↦
            absurd (omega (arith, v.counted t ds e, Topo-pending deps done t ds v.topo visited e))
        | inr other ↦ other
      ],
    )

    -- Why a task is in the queue of the next round.
    queued_next :
        (t : ℕ)
        → elem t (relax cur deps degrees queue).1 ≡ true
        → (elem t queue ≡ true)
          ⊎ ((ds : List ℕ) × (lookup t deps ≡ some ds)
              × (elem cur ds ≡ true)
              × (degree t degrees ≡ 1))
    queued_next t m = elim (Bool-cases (elem t queue)) [
      | inl old ↦ inl old
      | inr new ↦ elim (Option-cases (lookup t deps)) [
        | inl absent ↦ absurd (ground (arith, elem-relax cur t deps degrees queue keys_once))
        | inr (ds, e) ↦ inr (
          ds,
          e,
          ground (arith, elem-relax cur t deps degrees queue keys_once),
          ground (arith, elem-relax cur t deps degrees queue keys_once),
        )
      ]
    ]

    apart_next :
        (t : ℕ) → elem t (relax cur deps degrees queue).1 ≡ true → elem t (cur ∷ done) ≡ false
    apart_next t m = elim (queued_next t m) [
      | inl old ↦ ground (arith, v.apart t, v.once)
      | inr (ds, e, hit, one) ↦ ground (arith, entering t ds e one)
    ]

    known_next :
        (t : ℕ)
        → (elem t (relax cur deps degrees queue).1 || elem t (cur ∷ done)) ≡ true
        → has t deps ≡ true
    known_next t m = elim (Bool-cases (elem t (relax cur deps degrees queue).1)) [
      | inl queued ↦ elim (queued_next t queued) [
        | inl old ↦ v.known t (ground arith)
        | inr (ds, e, hit, one) ↦ rw e
      ]
      | inr visited ↦ v.known t (ground arith)
    ]

    due_next :
        (t : ℕ) (ds : List ℕ)
        → lookup t deps ≡ some ds
        → pending ds (cur ∷ done) ≡ 0
        → (elem t (relax cur deps degrees queue).1 || elem t (cur ∷ done)) ≡ true
    due_next t ds e none_left = ground (
      arith,
      elem-relax cur t deps degrees queue keys_once,
      v.counted t ds e,
      v.due t ds e,
      pending-visit cur ds done (deps_once t ds e) fresh,
    )

    clear_next :
        (t : ℕ) (ds : List ℕ)
        → lookup t deps ≡ some ds
        → elem t (relax cur deps degrees queue).1 ≡ true
        → pending ds (cur ∷ done) ≡ 0
    clear_next t ds e m = elim (Bool-cases (elem t queue)) [
      | inl old ↦ pending_mono cur ds done (v.clear t ds e (ground arith))
      | inr new ↦ ground (
        arith,
        elem-relax cur t deps degrees queue keys_once,
        v.counted t ds e,
        pending-visit cur ds done (deps_once t ds e) fresh,
      )
    ]

    not_queued :
        (t : ℕ) → hits cur (lookup t deps) ≡ true → degree t degrees ≡ 1 → elem t queue ≡ false
    not_queued t hit one = elim (Option-cases (lookup t deps)) [
      | inl absent ↦ cc (rw absent at hit)
      | inr (ds, e) ↦ ground (arith, entering t ds e one)
    ]

    next-Inv : Inv (relax cur deps degrees queue).0 (relax cur deps degrees queue).1 (cur ∷ done)
    next-Inv = record {
      counted = counted_next;
      once = relax-nodup cur deps degrees queue keys_once (ground (arith, v.once)) not_queued;
      apart = apart_next;
      known = known_next;
      due = due_next;
      clear = clear_next;
      topo = (fresh, λ ds e. v.clear cur ds e (ground arith), v.topo);
    }

-- The visited tasks at the end of the loop, as the last state has them.
pub record Visited (deps : Dict (List ℕ)) (visited : ℕ) : Type 0 where
  pub done : List ℕ
  pub counts : visited ≡ length done
  pub topo : Topo deps done
  pub known : (t : ℕ) → elem t done ≡ true → elem t (keys deps) ≡ true
  pub due :
      (t : ℕ) (ds : List ℕ) → lookup t deps ≡ some ds → pending ds done ≡ 0 → elem t done ≡ true

module _ (deps : Dict (List ℕ)) (keys_once : nodup (keys deps) ≡ true)
    (deps_once : (t : ℕ) (ds : List ℕ) → lookup t deps ≡ some ds → nodup ds ≡ true) where
  -- With fuel for the tasks that have not been visited the loop ends.
  pub kahn-Visited :
      (fuel : ℕ) (degrees : Dict ℕ) (queue done : List ℕ)
      → Inv deps degrees queue done
      → length deps ≤ fuel + length done
      → (visited : ℕ) × (kahn deps fuel degrees queue (length done) ≡ some visited)
        × Visited deps visited
  unfolding kahn
  kahn-Visited fuel degrees [] done v enough = (
    length done,
    refl,
    record {
      done = done;
      counts = refl;
      topo = v.topo;
      known = λ t m. elem-keys_of_has t deps (v.known t m);
      due = λ t ds e none_left. v.due t ds e none_left;
    },
  )
  kahn-Visited zero degrees (cur ∷ queue) done v enough =
      let w = next-Inv deps keys_once deps_once cur degrees queue done v in
      let le =
        length_le_of_elem (cur ∷ done) (keys deps) (Topo-nodup deps (cur ∷ done) w.topo)
          (λ k m. elem-keys_of_has k deps (w.known k (ground arith))) in
      absurd (omega (arith, length-keys deps))
  kahn-Visited (suc fuel) degrees (cur ∷ queue) done v enough =
      kahn-Visited fuel (relax cur deps degrees queue).0 (relax cur deps degrees queue).1
        (cur ∷ done) (next-Inv deps keys_once deps_once cur degrees queue done v) (omega arith)
