-- ===== src/Graph/WellFormed.antt =====
-- What `add` of src/ttasks/_graph.py keeps true of a graph, also where it raises.
use ttasks.Common.{
  ℕ, ◌≡◌, refl, Bool, true, false, ◌&&◌, ◌||◌, not, some, List, [], ◌∷◌, ◌++◌, elem, elem-append,
  arith, ◌==◌, Bool-cases, inl, inr,
}
use ttasks.Common.Dict.{lookup, insert, has, lookup-insert}
use ttasks.Common.Values.{Arg, typed, untyped}
use ttasks.Errors.{Result, ok, raise}
use ttasks.Task.{Task}
use ttasks.Graph.{TaskGraph, set_add, set_discard, collect, register, check_flags, add_task, add}

-- No identity twice.
abbrev pub nodup : List ℕ → Bool
nodup [] = true
nodup (k ∷ ks) = not (elem k ks) && nodup ks

-- Every identity with edges has its task, no list of dependencies names one twice, and every
-- optional task is a finally task.
pub record IsWellFormed (g : TaskGraph) : Type 0 where
  pub registered : (k : ℕ) → has k g.deps ≡ true → has k g.tasks ≡ true
  pub distinct : (k : ℕ) (ds : List ℕ) → lookup k g.deps ≡ some ds → nodup ds ≡ true
  pub optional_finally : (k : ℕ) → elem k g.optional ≡ true → elem k g.finally_ ≡ true

nodup-snoc :
    (k : ℕ) (ks : List ℕ) → nodup ks ≡ true → elem k ks ≡ false → nodup (ks ++ k ∷ []) ≡ true
nodup-snoc k [] h m = refl
nodup-snoc k (j ∷ ks) h m = ground (arith, nodup-snoc k ks, elem-append j ks (k ∷ []))

-- The collected dependencies are distinct.
collect-nodup :
    (ts : List (Arg Task)) (ds : List ℕ) {out : List ℕ}
    → nodup ds ≡ true
    → collect ts ds ≡ ok out
    → nodup out ≡ true
unfolding collect
collect-nodup [] ds h e = ground arith
collect-nodup (untyped ∷ ts) ds h e = cc
collect-nodup (typed t ∷ ts) ds h e = elim (Bool-cases (elem t.id ds)) [
  | inl old ↦ collect-nodup ts ds h (rw old at e)
  | inr new ↦ collect-nodup ts (ds ++ t.id ∷ []) (nodup-snoc t.id ds h new) (rw new at e)
]

elem-set_add : (k j : ℕ) (ks : List ℕ) → elem j (set_add k ks) ≡ (j == k || elem j ks)
unfolding set_add
elem-set_add k j ks = ground (arith, elem-append j ks (k ∷ []))

pub elem-set_discard :
    (k j : ℕ) (ks : List ℕ) → elem j (set_discard k ks) ≡ (not (j == k) && elem j ks)
unfolding set_discard
elem-set_discard k j [] = ground arith
elem-set_discard k j (i ∷ ks) = ground (arith, elem-set_discard k j ks)

store_task :
    (g : TaskGraph) (t : Task)
    → IsWellFormed g
    → IsWellFormed (record g { tasks = insert t.id t g.tasks })
store_task g t w = record {
  registered = λ k h. ground (arith, lookup-insert t.id k t g.tasks, w.registered k h);
  distinct = w.distinct;
  optional_finally = w.optional_finally;
}

register-IsWellFormed :
    (g : TaskGraph) (id : ℕ) (ds : List ℕ) (f r : Bool)
    → has id g.tasks ≡ true
    → nodup ds ≡ true
    → IsWellFormed g
    → IsWellFormed (register g id ds f r)
unfolding register
register-IsWellFormed g id ds f r stored distinct w = record {
  registered = λ k h. ground (arith, lookup-insert id k ds g.deps, w.registered k);
  distinct = λ k es h. ground (arith, lookup-insert id k ds g.deps, w.distinct k es);
  optional_finally = λ k h. ground (
    arith,
    elem-set_add id k g.optional,
    elem-set_discard id k g.optional,
    elem-set_add id k g.finally_,
    elem-set_discard id k g.finally_,
    w.optional_finally k,
  );
}

add_task-IsWellFormed :
    (g : TaskGraph) (t : Task) (ts : List (Arg Task)) (f r : Bool)
    → IsWellFormed g
    → IsWellFormed (add_task g t ts f r).1
unfolding add_task
add_task-IsWellFormed g t ts f r w = from (collect ts []) refl
  where
    from : (o : Result (List ℕ)) → collect ts [] ≡ o → IsWellFormed (add_task g t ts f r).1
    from (raise e) h = rw (h, add_task) (store_task g t w)
    from (ok ds) h =
        rw (h, add_task)
          (register-IsWellFormed (record g { tasks = insert t.id t g.tasks }) t.id ds f r
            (ground (arith, lookup-insert t.id t.id t g.tasks)) (collect-nodup ts [] refl h)
            (store_task g t w))

-- `add` keeps a graph well formed, with any arguments and also where it raises.
pub add-IsWellFormed :
    (g : TaskGraph) (task : Arg Task) (ts : List (Arg Task)) (f r : Arg Bool)
    → IsWellFormed g
    → IsWellFormed (add g task ts f r).1
unfolding add
add-IsWellFormed g untyped ts f r w = w
add-IsWellFormed g (typed t) ts f r w = from (check_flags f r) refl
  where
    from :
        (o : Result (Bool × Bool)) → check_flags f r ≡ o → IsWellFormed (add g (typed t) ts f r).1
    from (raise e) h = rw (h, add) w
    from (ok (f', r')) h = rw (h, add) (add_task-IsWellFormed g t ts f' r' w)
