-- ===== src/Graph/Validate/Order.antt =====
-- The order in which `_validate` of src/ttasks/_graph.py visits the tasks.
use ttasks.Common.{
  ℕ, suc, ◌≡◌, refl, ap, inl, inr, true, false, not, some, List, [], ◌∷◌, all, keep, length, elem,
  arith, ◌==◌, Bool-cases, ==_iff, if◌then◌else◌,
}
use ttasks.Common.Dict.{Dict, lookup, has, keys, elem-keys}
use ttasks.Graph.WellFormed.{nodup}

-- How many of `ds` have not been visited.
abbrev pub pending : List ℕ → List ℕ → ℕ
pending ds done = length (keep (λ d. not (elem d done)) ds)

-- A visit lowers the count of the tasks that depend on the visited one, by one.
pub pending-visit :
    (cur : ℕ) (ds done : List ℕ)
    → nodup ds ≡ true
    → elem cur done ≡ false
    → (if elem cur ds then suc (pending ds (cur ∷ done)) else pending ds (cur ∷ done))
      ≡ pending ds done
pending-visit cur [] done once fresh = omega arith
pending-visit cur (d ∷ ds) done once fresh = ground (arith, pending-visit cur ds done)

-- Nothing is left of a list of visited tasks, and conversely.
pub pending-all : (ds done : List ℕ) → pending ds done ≡ 0 → all (λ d. elem d done) ds ≡ true
pending-all [] done h = refl
pending-all (d ∷ ds) done h = ground (arith, pending-all ds done)

pub all-pending : (ds done : List ℕ) → all (λ d. elem d done) ds ≡ true → pending ds done ≡ 0
all-pending [] done h = refl
all-pending (d ∷ ds) done h = ground (arith, all-pending ds done)

-- The visited tasks, the last one first: each after all that it depends on, and none twice.
abbrev pub Topo : Dict (List ℕ) → List ℕ → Type 0
Topo deps [] = Unit {0}
Topo deps (t ∷ done) =
    (elem t done ≡ false)
    × ((ds : List ℕ) → lookup t deps ≡ some ds → pending ds done ≡ 0)
    × Topo deps done

pub pending_mono : (cur : ℕ) (ds done : List ℕ) → pending ds done ≡ 0 → pending ds (cur ∷ done) ≡ 0
pending_mono cur [] done h = omega arith
pending_mono cur (d ∷ ds) done h = ground (arith, pending_mono cur ds done)

-- Nothing is pending for a visited task.
pub Topo-pending :
    (deps : Dict (List ℕ)) (done : List ℕ) (t : ℕ) (ds : List ℕ)
    → Topo deps done
    → elem t done ≡ true
    → lookup t deps ≡ some ds
    → pending ds done ≡ 0
Topo-pending deps [] t ds topo m e = cc
Topo-pending deps (k ∷ done) t ds topo m e = elim (Bool-cases (t == k)) [
  | inl here ↦ pending_mono k ds done (topo.1 ds (rw (← (==_iff t k).0 here) e))
  | inr there ↦ pending_mono k ds done (Topo-pending deps done t ds topo.2 (ground arith) e)
]

pub Topo-nodup : (deps : Dict (List ℕ)) (done : List ℕ) → Topo deps done → nodup done ≡ true
Topo-nodup deps [] topo = refl
Topo-nodup deps (t ∷ done) topo = ground (arith, Topo-nodup deps done topo.2)

pub elem-keys_of_has :
    (t : ℕ) (deps : Dict (List ℕ)) → has t deps ≡ true → elem t (keys deps) ≡ true
elem-keys_of_has t deps h = rw (elem-keys t deps) h

pub length-keys : (deps : Dict (List ℕ)) → length (keys deps) ≡ length deps
unfolding keys
length-keys [] = refl
length-keys ((k, ds) ∷ deps) = ap suc (length-keys deps)
