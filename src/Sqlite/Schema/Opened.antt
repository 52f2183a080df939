-- ===== src/Sqlite/Schema/Opened.antt =====
-- What the opening of a database file by src/ttasks/_sqlite.py does to its tables.
use ttasks.Common.{
  String, ◌≡◌, refl, subst, ◌∙◌, ap, Bool, true, false, not, ◌||◌, none, some, List, [], is_some,
  ◌⊎◌, arith, Bool-cases, Option-cases, inl, inr, if◌then◌else◌,
}
use package.text.Mathlib.Text.{◌==◌}
use package.text.Mathlib.TextEquality.{eq_iff}
use ttasks.Errors.{text, Exn, Result, ok, raise}
use ttasks.Sqlite.Schema.{
  File, find, is_known, any_known, stored_version, is_version, drop_known, enforce_schema_version,
  stamp_rows, init_schema,
}
use ttasks.Sqlite.Schema.Tables.{
  find-drop_known, find-stamp_rows, find-unknown, stamp_rows-stamped, made, find-made,
}

metadata_known : is_known "metadata" ≡ true
unfolding is_known
metadata_known = refl

metadata_is_known : (k : String) → (k == "metadata") ≡ true → is_known k ≡ true
unfolding is_known
metadata_is_known k h = ground arith

stored_version-found :
    (file : File) (rows : List (String × String))
    → find "metadata" file ≡ some rows
    → stored_version file ≡ find "schema_version" rows
unfolding stored_version
stored_version-found file rows h = rw (h, stored_version) refl

stamped_version :
    (rows : List (String × String))
    → (find "schema_version" rows ≡ none) ⊎ (is_version (find "schema_version" rows) ≡ true)
    → is_version (find "schema_version" (stamp_rows rows)) ≡ true
stamped_version rows (inl absent) = rw (find-stamp_rows rows, absent)
stamped_version rows (inr current) = rw (stamp_rows-stamped rows current) current

-- Every table of the schema is there, and the version is the current one.
pub record IsCurrent (file : File) : Type 0 where
  pub complete : (k : String) → is_known k ≡ true → is_some (find k file) ≡ true
  pub version : is_version (stored_version file) ≡ true

made_version :
    (file : File)
    → (stored_version file ≡ none) ⊎ (is_version (stored_version file) ≡ true)
    → is_version (stored_version (made file)) ≡ true
made_version file start = elim (Option-cases (find "metadata" file)) [
  | inl absent ↦
      rw
        (stored_version-found (made file) (stamp_rows [])
          (find-made "metadata" file ∙ rw (absent, metadata_known)))
        (stamped_version [] (inl (unfold find in refl)))
  | inr (rows, there) ↦
      rw (stored_version-found (made file) (stamp_rows rows) (find-made "metadata" file ∙ rw there))
        (stamped_version rows (rw (stored_version-found file rows there) at start))
]

made-IsCurrent :
    (file : File)
    → (stored_version file ≡ none) ⊎ (is_version (stored_version file) ≡ true)
    → IsCurrent (made file)
made-IsCurrent file start = record {
  complete = λ k known. ground (arith, find-made k file);
  version = made_version file start;
}

-- Whether the tables of the file may be taken as they are.
abbrev pub Accepted : File → Type 0
Accepted file = (any_known file ≡ false) ⊎ (is_version (stored_version file) ≡ true)

Accepted-start :
    (file : File)
    → Accepted file
    → (stored_version file ≡ none) ⊎ (is_version (stored_version file) ≡ true)
unfolding stored_version
Accepted-start file (inl empty) =
    inl (rw (find-unknown "metadata" file empty metadata_known, stored_version) refl)
Accepted-start file (inr current) = inr current

metadata_unchanged :
    (file : File) (rows : List (String × String))
    → Accepted file
    → find "metadata" file ≡ some rows
    → stamp_rows rows ≡ rows
metadata_unchanged file rows (inl empty) there =
    absurd (ground (arith, find-unknown "metadata" file empty metadata_known))
metadata_unchanged file rows (inr current) there =
    stamp_rows-stamped rows (rw (stored_version-found file rows there) at current)

made_keeps :
    (file : File) (k : String) (rows : List (String × String))
    → Accepted file
    → find k file ≡ some rows
    → find k (made file) ≡ some rows
made_keeps file k rows accepted there = elim (Bool-cases (k == "metadata")) [
  | inr other ↦ find-made k file ∙ rw (there, other)
  | inl meta ↦
      let is_meta = (eq_iff k "metadata").0 meta in
      let unchanged : stamp_rows rows ≡ rows =
        metadata_unchanged file rows accepted
          (subst (λ j. find j file ≡ some rows) is_meta there) in
      find-made k file ∙ rw (there, meta) (ap some unchanged)
]

-- The three ways in which a file is opened.
pub data Opened (file : File) (allow : Bool) (o : Result (File × Bool)) : Type 0 where
  -- A file without known tables, or with the current version, keeps every row of every table.
  kept :
      (file' : File)
      → Accepted file
      → o ≡ ok (file', false)
      → ((k : String) (rows : List (String × String))
          → find k file ≡ some rows
          → find k file' ≡ some rows)
      → IsCurrent file'
      → Opened file allow o
  -- Any other file is refused without the permission to destroy.
  refused : ¬ Accepted file → allow ≡ false → (e : Exn) → o ≡ raise e → Opened file allow o
  -- With the permission, a warning is given and the known tables are made anew. The other tables
  -- stay.
  rebuilt :
      (file' : File)
      → ¬ Accepted file
      → allow ≡ true
      → o ≡ ok (file', true)
      → ((k : String)
          → find k file' ≡ (
              if is_known k
              then (if k == "metadata" then some (stamp_rows []) else some [])
              else find k file))
      → IsCurrent file'
      → Opened file allow o

Accepted-test :
    (file : File)
    → (not (any_known file) || is_version (stored_version file)) ≡ true
    → Accepted file
Accepted-test file h = ground arith

test_refuses :
    (file : File)
    → (not (any_known file) || is_version (stored_version file)) ≡ false
    → ¬ Accepted file
test_refuses file h (inl empty) = ground arith
test_refuses file h (inr current) = ground arith

-- No version is left where the known tables are dropped.
dropped_version : (file : File) → stored_version (drop_known file) ≡ none
unfolding stored_version
dropped_version file =
    let gone : find "metadata" (drop_known file) ≡ none =
      rw (find-drop_known "metadata" file, metadata_known) refl in
    rw (gone, stored_version) refl

-- A database file is opened in one of three ways, as the documentation of `_enforce_schema_version`
-- says: it keeps every row of every table, or it is refused as it is, or, with the permission to
-- destroy, its known tables are made anew and all others stay. Where it is opened, the tables of the
-- schema are there, under the current version.
pub init_schema-Opened : (file : File) (allow : Bool) → Opened file allow (init_schema file allow)
unfolding init_schema enforce_schema_version
init_schema-Opened file allow =
    elim (Bool-cases (not (any_known file) || is_version (stored_version file))) [
      | inl yes_current ↦
          let accepted = Accepted-test file yes_current in
          rw yes_current (
            kept (made file) accepted refl (λ k rows. made_keeps file k rows accepted)
              (made-IsCurrent file (Accepted-start file accepted)))
      | inr stale ↦
          let not_accepted = test_refuses file stale in
          elim (Bool-cases allow) [
            | inr denied ↦ rw (stale, denied) (refused not_accepted refl _ refl)
            | inl allowed ↦
                rw (stale, allowed)
                  (rebuilt (made (drop_known file)) not_accepted refl refl
                    (λ k.
                      find-made k (drop_known file)
                      ∙ rw (find-drop_known k file) (ground (arith, metadata_is_known k)))
                    (made-IsCurrent (drop_known file) (inl (dropped_version file))))
          ]
    ]
