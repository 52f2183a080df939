-- ===== src/Graph/Validate/Start.antt =====
-- How the loop of `_validate` in src/ttasks/_graph.py begins: the in-degrees and the first queue.
use ttasks.Common.{
  ℕ, ◌≡◌, refl, Bool, true, false, ◌||◌, Option, none, some, List, [], ◌∷◌, length, elem, arith,
  ◌==◌, Option-cases, inl, inr,
}
use ttasks.Common.Dict.{Dict, lookup, keys, elem-keys}
use ttasks.Graph.WellFormed.{nodup}
use ttasks.Graph.Validate.{in_degrees, sources, degree, backwards}
use ttasks.Graph.Validate.Order.{pending}
use ttasks.Graph.Validate.Kahn.{Inv}

pending_nil : (ds : List ℕ) → pending ds [] ≡ length ds
pending_nil [] = refl
pending_nil (d ∷ ds) = ground (arith, pending_nil ds)

degree-in_degrees :
    (t : ℕ) (ds : List ℕ) (deps : Dict (List ℕ))
    → lookup t deps ≡ some ds
    → degree t (in_degrees deps) ≡ pending ds []
unfolding degree lookup in_degrees
degree-in_degrees t ds [] e = cc
degree-in_degrees t ds ((k, es) ∷ deps) e =
    ground (arith, degree-in_degrees t ds deps, pending_nil es)

-- A task without dependencies
abbrev free : Option (List ℕ) → Bool
free none = false
free (some ds) = length ds == 0

elem-sources :
    (t : ℕ) (deps : Dict (List ℕ))
    → nodup (keys deps) ≡ true
    → elem t (sources (in_degrees deps)) ≡ free (lookup t deps)
unfolding sources in_degrees lookup keys
elem-sources t [] once = refl
elem-sources t ((k, ds) ∷ deps) once = ground (arith, elem-sources t deps, elem-keys k deps)

sources-nodup :
    (deps : Dict (List ℕ)) → nodup (keys deps) ≡ true → nodup (sources (in_degrees deps)) ≡ true
unfolding sources in_degrees keys
sources-nodup [] once = refl
sources-nodup ((k, ds) ∷ deps) once =
    ground (arith, sources-nodup deps, elem-sources k deps, elem-keys k deps)

elem-backwards : (t : ℕ) (ks out : List ℕ) → elem t (backwards ks out) ≡ (elem t ks || elem t out)
unfolding backwards
elem-backwards t [] out = refl
elem-backwards t (k ∷ ks) out = ground (arith, elem-backwards t ks (k ∷ out))

backwards-nodup :
    (ks out : List ℕ)
    → nodup ks ≡ true
    → nodup out ≡ true
    → ((t : ℕ) → elem t ks ≡ true → elem t out ≡ false)
    → nodup (backwards ks out) ≡ true
unfolding backwards
backwards-nodup [] out once d apart = d
backwards-nodup (k ∷ ks) out once d apart =
    backwards-nodup ks (k ∷ out) (ground arith) (ground (arith, apart k))
      (λ t m. ground (arith, apart t))

module _ (deps : Dict (List ℕ)) (keys_once : nodup (keys deps) ≡ true) where
  first_queue : List ℕ
  first_queue = backwards (sources (in_degrees deps)) []

  elem-first_queue : (t : ℕ) → elem t first_queue ≡ free (lookup t deps)
  unfolding first_queue
  elem-first_queue t =
      ground (arith, elem-backwards t (sources (in_degrees deps)) [], elem-sources t deps keys_once)

  -- What the loop keeps holds when it begins.
  pub start-Inv : Inv deps (in_degrees deps) (backwards (sources (in_degrees deps)) []) []
  unfolding first_queue
  start-Inv = record {
    counted = λ t ds e. degree-in_degrees t ds deps e;
    once =
        backwards-nodup (sources (in_degrees deps)) [] (sources-nodup deps keys_once) refl
          (λ t m. refl);
    apart = λ t m. refl;
    known = λ t m. elim (Option-cases (lookup t deps)) [
      | inl absent ↦ absurd (ground (arith, elem-first_queue t))
      | inr (ds, e) ↦ rw e
    ];
    due = λ t ds e none_left. ground (arith, elem-first_queue t, pending_nil ds);
    clear = λ t ds e m. ground (arith, elem-first_queue t, pending_nil ds);
    topo = tt;
  }
