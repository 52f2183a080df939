-- ===== src/Sqlite/Schema.antt =====
-- src/ttasks/_sqlite.py: how `_Connection` opens a database file: `_enforce_schema_version` and
-- `_init_schema`. A row is a pair of texts; only the rows of `metadata` are looked at here.
pub mod Tables
pub mod Opened
use ttasks.Common.{
  String, Bool, true, false, not, ◌&&◌, ◌||◌, Option, none, some, List, [], ◌∷◌, ◌++◌, any, keep,
  is_some, if◌then◌else◌,
}
use package.text.Mathlib.Text.{◌==◌}
use ttasks.Errors.{text, runtime_error, Result, ok, raise, ◌>>=◌}

-- A table by its name: `sqlite_master` and the rows.
abbrev pub Table : Type 0
Table = String × List (String × String)

abbrev pub File : Type 0
File = List Table

-- `SELECT ... WHERE key = ?`, and the look-up of a table
unfoldable pub find : {A : Type 0} → String → List (String × A) → Option A
find k [] = none
find k ((j, a) ∷ rest) = if k == j then some a else find k rest

-- _SCHEMA_VERSION
abbrev pub schema_version : String
schema_version = "4"

-- _KNOWN_TABLES
abbrev pub known_tables : List String
known_tables =
    "graph_dependencies" ∷ "graph_tasks" ∷ "graphs" ∷ "task_results" ∷ "tasks" ∷ "metadata" ∷ []

unfoldable pub is_known : String → Bool
is_known name = any (λ known. name == known) known_tables

-- `known_present`, as a test
unfoldable pub any_known : File → Bool
any_known file = any (λ t. is_known t.0) file

-- `version`: of the row of `metadata`, if there is one
unfoldable pub stored_version : File → Option String
stored_version file = elim (find "metadata" file) [
  | none ↦ none
  | some rows ↦ find "schema_version" rows
]

abbrev pub is_version : Option String → Bool
is_version none = false
is_version (some v) = v == schema_version

-- `DROP TABLE IF EXISTS` for every known table
unfoldable pub drop_known : File → File
drop_known file = keep (λ (t : Table). not (is_known t.0)) file

-- _enforce_schema_version: the file, and whether a warning was given
unfoldable pub enforce_schema_version : File → (allow_destructive : Bool) → Result (File × Bool)
enforce_schema_version file allow_destructive =
    if not (any_known file) || is_version (stored_version file)
    then ok (file, false)
    else if allow_destructive
    then ok (drop_known file, true)
    else raise (runtime_error (text "allow_destructive_migration=True to drop and rebuild"))

-- `CREATE TABLE IF NOT EXISTS`
unfoldable pub create_table : String → File → File
create_table name file = if is_some (find name file) then file else file ++ (name, []) ∷ []

unfoldable pub create_tables : List String → File → File
create_tables [] file = file
create_tables (name ∷ names) file = create_tables names (create_table name file)

-- `INSERT OR IGNORE INTO metadata` of the version
unfoldable pub stamp_rows : List (String × String) → List (String × String)
stamp_rows rows =
    if is_some (find "schema_version" rows)
    then rows
    else rows ++ ("schema_version", schema_version) ∷ []

unfoldable pub stamp : File → File
stamp [] = []
stamp ((name, rows) ∷ file) =
    if name == "metadata" then (name, stamp_rows rows) ∷ file else (name, rows) ∷ stamp file

-- The order in which `_init_schema` makes its tables
abbrev pub created_tables : List String
created_tables =
    "metadata" ∷ "tasks" ∷ "task_results" ∷ "graphs" ∷ "graph_tasks" ∷ "graph_dependencies" ∷ []

-- _init_schema, and with it the opening of a store
unfoldable pub init_schema : File → (allow_destructive : Bool) → Result (File × Bool)
init_schema file allow_destructive = enforce_schema_version file allow_destructive >>= λ o.
    ok (stamp (create_tables created_tables o.0), o.1)
