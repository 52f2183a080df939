-- ===== src/Graph/Validate/Relax.antt =====
-- One round of the loop of `_validate` in src/ttasks/_graph.py.
use ttasks.Common.{
  ℕ, ◌-◌, ◌≡◌, refl, Bool, true, false, ◌&&◌, ◌||◌, Option, none, some, List, [], ◌∷◌, elem, arith,
  ◌==◌, if◌then◌else◌,
}
use ttasks.Common.Dict.{Dict, lookup, insert, keys, elem-keys, lookup-insert}
use ttasks.Graph.WellFormed.{nodup}
use ttasks.Graph.Validate.{degree, relax}

-- Whether a task depends on `cur`
abbrev pub hits : ℕ → Option (List ℕ) → Bool
hits cur none = false
hits cur (some ds) = elem cur ds

pub degree-insert :
    (t k n : ℕ) (degrees : Dict ℕ)
    → degree t (insert k n degrees) ≡ (if t == k then n else degree t degrees)
unfolding degree
degree-insert t k n degrees = ground (arith, lookup-insert k t n degrees)

pub degree-relax :
    (cur t : ℕ) (deps : Dict (List ℕ)) (degrees : Dict ℕ) (queue : List ℕ)
    → nodup (keys deps) ≡ true
    → degree t (relax cur deps degrees queue).0
      ≡ (if hits cur (lookup t deps) then degree t degrees - 1 else degree t degrees)
unfolding relax lookup keys
degree-relax cur t [] degrees queue once = refl
degree-relax cur t ((tid, ds) ∷ deps) degrees queue once = ground (
  arith,
  degree-relax cur t deps
      (if elem cur ds then insert tid (degree tid degrees - 1) degrees else degrees)
      (if elem cur ds then (if degree tid degrees == 1 then tid ∷ queue else queue) else queue),
  degree-insert t tid (degree tid degrees - 1) degrees,
  elem-keys tid deps,
)

pub elem-relax :
    (cur t : ℕ) (deps : Dict (List ℕ)) (degrees : Dict ℕ) (queue : List ℕ)
    → nodup (keys deps) ≡ true
    → elem t (relax cur deps degrees queue).1
      ≡ (elem t queue || hits cur (lookup t deps) && degree t degrees == 1)
unfolding relax lookup keys
elem-relax cur t [] degrees queue once = ground arith
elem-relax cur t ((tid, ds) ∷ deps) degrees queue once = ground (
  arith,
  elem-relax cur t deps
      (if elem cur ds then insert tid (degree tid degrees - 1) degrees else degrees)
      (if elem cur ds then (if degree tid degrees == 1 then tid ∷ queue else queue) else queue),
  degree-insert t tid (degree tid degrees - 1) degrees,
  elem-keys tid deps,
)

pub relax-nodup :
    (cur : ℕ) (deps : Dict (List ℕ)) (degrees : Dict ℕ) (queue : List ℕ)
    → nodup (keys deps) ≡ true
    → nodup queue ≡ true
    → ((t : ℕ) → hits cur (lookup t deps) ≡ true → degree t degrees ≡ 1 → elem t queue ≡ false)
    → nodup (relax cur deps degrees queue).1 ≡ true
unfolding relax keys lookup
relax-nodup cur [] degrees queue once d apart = d
relax-nodup cur ((tid, ds) ∷ deps) degrees queue once d apart =
    relax-nodup cur deps
      (if elem cur ds then insert tid (degree tid degrees - 1) degrees else degrees)
      (if elem cur ds then (if degree tid degrees == 1 then tid ∷ queue else queue) else queue)
      (ground arith) (ground (arith, apart tid))
      (λ t h one.
        ground (
          arith,
          apart t,
          degree-insert t tid (degree tid degrees - 1) degrees,
          elem-keys tid deps,
        ))
