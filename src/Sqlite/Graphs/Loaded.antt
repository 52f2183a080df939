-- ===== src/Sqlite/Graphs/Loaded.antt =====
-- The loop of `__getitem__` of `SQLiteGraphCollection` in src/ttasks/_sqlite.py that adds the members
-- to the new graph.
use ttasks.Common.{
  ℕ, suc, ◌≡◌, refl, ap, ◌∙◌, Bool, true, false, ◌||◌, not, some, List, [], ◌∷◌, ◌++◌, map, elem,
  keep, arith, ◌==◌, if◌then◌else◌, append-nil, append_assoc, elem-append,
}
use ttasks.Common.Dict.{Dict, lookup, insert, has}
use ttasks.Common.Values.{typed}
use ttasks.Errors.{ok}
use ttasks.Task.{Task}
use ttasks.Graph.{TaskGraph, register, set_add, set_discard, add}
use ttasks.Graph.WellFormed.{nodup}
use ttasks.Graph.Mapping.{ids, add-typed}
use ttasks.Graph.Run.Outer.{deps_of}
use ttasks.Sqlite.{Datetime, Database}
use ttasks.Sqlite.Tasks.{get_item}
use ttasks.Sqlite.Tasks.RoundTrip.{snapshot}
use ttasks.Sqlite.Graphs.{load_tasks, load_member, load_members}
use ttasks.Sqlite.Graphs.Inserted.{member_row, member_rows}

-- Tasks as they are read back, by identity
abbrev pub snapshots : List Task → Dict Task
snapshots [] = []
snapshots (t ∷ ts) = (t.id, snapshot t) ∷ snapshots ts

-- The edges of some tasks
abbrev pub edges_of : Dict (List ℕ) → List ℕ → Dict (List ℕ)
edges_of deps [] = []
edges_of deps (k ∷ ks) = (k, deps_of deps k) ∷ edges_of deps ks

-- A new graph, with these members of `g` behind its own
abbrev pub grown : TaskGraph → TaskGraph → List Task → TaskGraph
grown g new ts = record new {
  tasks = new.tasks ++ snapshots ts;
  deps = new.deps ++ edges_of g.deps (ids ts);
  finally_ = new.finally_ ++ keep (λ k. elem k g.finally_) (ids ts);
  optional = new.optional ++ keep (λ k. elem k g.optional) (ids ts);
}

insert_new {ℓ} :
    {V : Type ℓ} (k : ℕ) (v : V) (d : Dict V) → has k d ≡ false → insert k v d ≡ d ++ (k, v) ∷ []
unfolding insert lookup
insert_new k v [] h = refl
insert_new k v ((j, w) ∷ d) h = ground (arith, insert_new k v d)

has-snoc {ℓ} :
    {V : Type ℓ} (k j : ℕ) (v : V) (d : Dict V) → has k (d ++ (j, v) ∷ []) ≡ (k == j || has k d)
unfolding lookup
has-snoc k j v [] = ground arith
has-snoc k j v ((i, w) ∷ d) = ground (arith, has-snoc k j v d)

set_discard_absent : (k : ℕ) (ks : List ℕ) → elem k ks ≡ false → set_discard k ks ≡ ks
unfolding set_discard
set_discard_absent k [] h = refl
set_discard_absent k (j ∷ ks) h = ground (arith, set_discard_absent k ks)

set_add_absent : (k : ℕ) (ks : List ℕ) → elem k ks ≡ false → set_add k ks ≡ ks ++ k ∷ []
unfolding set_add
set_add_absent k ks h = rw h refl

-- No member has this identity yet.
pub record IsNew (g : TaskGraph) (k : ℕ) : Type 0 where
  pub no_task : has k g.tasks ≡ false
  pub no_edges : has k g.deps ≡ false
  pub not_finally : elem k g.finally_ ≡ false
  pub not_optional : elem k g.optional ≡ false

register_new :
    (g new : TaskGraph) (t : Task)
    → IsNew new t.id
    → (elem t.id g.optional ≡ true → elem t.id g.finally_ ≡ true)
    → register
        (record new { tasks = insert t.id (snapshot t) new.tasks })
        t.id
        (deps_of g.deps t.id)
        (elem t.id g.finally_)
        (not (elem t.id g.optional))
      ≡ grown g new (t ∷ [])
unfolding register
register_new g new t fresh opt = ground (
  arith,
  insert_new t.id (snapshot t) new.tasks fresh.no_task,
  insert_new t.id (deps_of g.deps t.id) new.deps fresh.no_edges,
  set_add_absent t.id new.finally_ fresh.not_finally,
  set_add_absent t.id new.optional fresh.not_optional,
  set_discard_absent t.id new.finally_ fresh.not_finally,
  set_discard_absent t.id new.optional fresh.not_optional,
  append-nil new.finally_,
  append-nil new.optional,
)

module _ (dt : Datetime) (db : Database) where
  -- What is read back under an identity is a task of that identity.
  abbrev pub IsLoadable : ℕ → Type 0
  IsLoadable k = (u : Task) × (get_item dt db k ≡ ok u) × (u.id ≡ k)

  load_tasks_lem :
      (ks : List ℕ)
      → ((k : ℕ) → elem k ks ≡ true → IsLoadable k)
      → (us : List Task) × (load_tasks dt db ks ≡ ok us) × (ids us ≡ ks)
  unfolding load_tasks
  load_tasks_lem [] h = ([], refl, refl)
  load_tasks_lem (k ∷ ks) h =
      let (u, e, own) = h k (ground arith) in
      let (us, es, named) = load_tasks_lem ks (λ j m. h j (ground arith)) in
      (u ∷ us, rw (e, es) refl, cc)

  module _ (g : TaskGraph) (deps_by_task : Dict (List ℕ)) where
    -- What the loop needs of a member
    pub record Member (t : Task) : Type 0 where
      pub read : get_item dt db t.id ≡ ok (snapshot t)
      pub grouped : lookup t.id deps_by_task ≡ some (deps_of g.deps t.id)
      pub loadable : (d : ℕ) → elem d (deps_of g.deps t.id) ≡ true → IsLoadable d
      pub once : nodup (deps_of g.deps t.id) ≡ true
      pub optional_finally : elem t.id g.optional ≡ true → elem t.id g.finally_ ≡ true

    abbrev pub AllMembers : List Task → Type 0
    AllMembers [] = Unit {0}
    AllMembers (t ∷ ts) = Member t × AllMembers ts

    add_member :
        (new : TaskGraph) (t : Task) (us : List Task) (f o : Bool)
        → nodup (ids us) ≡ true
        → (o ≡ true → f ≡ true)
        → (if f
            then add new (typed t) (map typed us) (typed true) (typed (not o))
            else add new (typed t) (map typed us) (typed false) (typed true))
          ≡ (
            ok tt,
            register (record new { tasks = insert t.id t new.tasks }) t.id (ids us) f (not o),
          )
    add_member new t us true o once opt = add-typed new t us true (not o) once (ground arith)
    add_member new t us false false once opt = add-typed new t us false true once refl
    add_member new t us false true once opt = cc (opt refl)

    load_member_lem :
        (new : TaskGraph) (t : Task) (position : ℕ)
        → Member t
        → IsNew new t.id
        → load_member dt db deps_by_task new (member_row g t.id position)
          ≡ ok (grown g new (t ∷ []))
    unfolding load_member
    load_member_lem new t position m fresh =
        let (us, es, named) = load_tasks_lem (deps_of g.deps t.id) m.loadable in
        rw (m.read, m.grouped)
          (rw es (
            rw
              (add_member new (snapshot t) us (elem t.id g.finally_) (elem t.id g.optional)
                (rw named m.once) m.optional_finally)
              (rw named (ap ok (register_new g new t fresh m.optional_finally)))))

    grown_cons :
        (new : TaskGraph) (t : Task) (ts : List Task)
        → grown g (grown g new (t ∷ [])) ts ≡ grown g new (t ∷ ts)
    grown_cons new t ts = ground (
      arith,
      append_assoc new.tasks ((t.id, snapshot t) ∷ []) (snapshots ts),
      append_assoc new.deps ((t.id, deps_of g.deps t.id) ∷ []) (edges_of g.deps (ids ts)),
      append_assoc new.finally_ (t.id ∷ []) (keep (λ k. elem k g.finally_) (ids ts)),
      append_assoc new.optional (t.id ∷ []) (keep (λ k. elem k g.optional) (ids ts)),
      append-nil new.finally_,
      append-nil new.optional,
    )

    IsNew-grown :
        (new : TaskGraph) (t : Task) (k : ℕ)
        → k == t.id ≡ false
        → IsNew new k
        → IsNew (grown g new (t ∷ [])) k
    IsNew-grown new t k other v = ground (
      arith,
      has-snoc k t.id (snapshot t) new.tasks,
      has-snoc k t.id (deps_of g.deps t.id) new.deps,
      elem-append k new.finally_ (t.id ∷ []),
      elem-append k new.optional (t.id ∷ []),
      append-nil new.finally_,
      append-nil new.optional,
    )

    pub load_members_lem :
        (new : TaskGraph) (ts : List Task) (position : ℕ)
        → nodup (ids ts) ≡ true
        → AllMembers ts
        → ((k : ℕ) → elem k (ids ts) ≡ true → IsNew new k)
        → load_members dt db deps_by_task new (member_rows g (ids ts) position)
          ≡ ok (grown g new ts)
    unfolding load_members
    load_members_lem new [] position once ms fresh = ground (
      arith,
      append-nil new.tasks,
      append-nil new.deps,
      append-nil new.finally_,
      append-nil new.optional,
    )
    load_members_lem new (t ∷ ts) position once ms fresh =
        rw (load_member_lem new t position ms.0 (fresh t.id (ground arith))) (
          load_members_lem (grown g new (t ∷ [])) ts (suc position) (ground arith) ms.1
            (λ k m. IsNew-grown new t k (ground arith) (fresh k (ground arith)))
          ∙ ap ok (grown_cons new t ts))
