-- ===== src/Sqlite/Schema/Tables.antt =====
-- Look-ups after the statements by which src/ttasks/_sqlite.py makes and drops tables.
use ttasks.Common.{
  String, ◌≡◌, refl, ◌∙◌, true, false, Option, none, some, List, [], ◌∷◌, ◌++◌, any, arith,
  Option-cases, inl, inr, if◌then◌else◌,
}
use package.text.Mathlib.Text.{◌==◌}
use package.text.Mathlib.TextEquality.{eq_iff}
use ttasks.Errors.{text}
use ttasks.Sqlite.Schema.{
  File, find, schema_version, is_known, any_known, is_version, drop_known, create_table,
  create_tables, stamp_rows, stamp, created_tables,
}

pub find-append :
    {A : Type 0} (k : String) (xs ys : List (String × A))
    → find k (xs ++ ys)
      ≡ (elim (find k xs) as (λ _. Option A) [ none ↦ find k ys | some a ↦ some a ])
unfolding find
find-append k [] ys = refl
find-append k ((j, a) ∷ xs) ys = ground (arith, find-append k xs ys)

find-create_table :
    (k name : String) (file : File)
    → find k (create_table name file)
      ≡ (elim (find k file) as (λ _. Option (List (String × String))) [
        | none ↦ if k == name then some [] else none
        | some a ↦ some a
      ])
unfolding create_table find
find-create_table k name file = ground (arith, find-append k file ((name, []) ∷ []), eq_iff k name)

pub find-drop_known :
    (k : String) (file : File)
    → find k (drop_known file) ≡ (if is_known k then none else find k file)
unfolding find drop_known
find-drop_known k [] = ground arith
find-drop_known k ((j, a) ∷ file) = ground (arith, find-drop_known k file, eq_iff k j)

-- After the statements that make tables, every old table has its rows, and each of `names` is there.
find-create_tables :
    (k : String) (names : List String) (file : File)
    → find k (create_tables names file)
      ≡ (elim (find k file) as (λ _. Option (List (String × String))) [
        | none ↦ if any (λ name. k == name) names then some [] else none
        | some a ↦ some a
      ])
unfolding create_tables
find-create_tables k [] file = ground arith
find-create_tables k (name ∷ names) file =
    ground
      (arith, find-create_tables k names (create_table name file), find-create_table k name file)

find-stamp :
    (k : String) (file : File)
    → find k (stamp file) ≡ (elim (find k file) as (λ _. Option (List (String × String))) [
      | none ↦ none
      | some rows ↦ if k == "metadata" then some (stamp_rows rows) else some rows
    ])
unfolding find stamp
find-stamp k [] = refl
find-stamp k ((j, a) ∷ file) =
    ground (arith, find-stamp k file, eq_iff k j, eq_iff j "metadata", eq_iff k "metadata")

-- The version that `stamp_rows` leaves.
pub find-stamp_rows :
    (rows : List (String × String))
    → find "schema_version" (stamp_rows rows)
      ≡ (elim (find "schema_version" rows) as (λ _. Option String) [
        | none ↦ some schema_version
        | some v ↦ some v
      ])
unfolding stamp_rows
find-stamp_rows rows = elim (Option-cases (find "schema_version" rows)) [
  | inl absent ↦ rw absent (find-append "schema_version" rows _ ∙ rw absent (unfold find in refl))
  | inr (v, there) ↦ rw there (there)
]

created_known : (k : String) → any (λ name. k == name) created_tables ≡ is_known k
unfolding is_known
created_known k = ground arith

pub find-unknown :
    (k : String) (file : File) → any_known file ≡ false → is_known k ≡ true → find k file ≡ none
unfolding find any_known
find-unknown k [] h m = refl
find-unknown k ((j, a) ∷ file) h m = ground (arith, find-unknown k file, eq_iff k j)

pub stamp_rows-stamped :
    (rows : List (String × String))
    → is_version (find "schema_version" rows) ≡ true
    → stamp_rows rows ≡ rows
unfolding stamp_rows
stamp_rows-stamped rows h = elim (Option-cases (find "schema_version" rows)) [
  | inl absent ↦ cc (rw absent at h)
  | inr (v, there) ↦ rw there
]

-- The tables after the statements of `_init_schema`.
abbrev pub made : File → File
made file = stamp (create_tables created_tables file)

pub find-made :
    (k : String) (file : File)
    → find k (made file) ≡ (elim (find k file) as (λ _. Option (List (String × String))) [
      | none ↦
          if is_known k then (if k == "metadata" then some (stamp_rows []) else some []) else none
      | some rows ↦ if k == "metadata" then some (stamp_rows rows) else some rows
    ])
find-made k file = ground (
  arith,
  find-stamp k (create_tables created_tables file),
  find-create_tables k created_tables file,
  created_known k,
)
