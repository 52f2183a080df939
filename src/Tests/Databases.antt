-- ===== src/Tests/Databases.antt =====
-- The durable store at concrete contents.
use ttasks.Common.{
  ℕ, String, zero, suc, ◌≡◌, refl, true, false, some, none, [], ◌∷◌, ◌==◌, ltb, Bool-cases, inl,
  inr, subst, if◌then◌else◌, arith,
}
use ttasks.Common.Dict.{lookup, keys}
use ttasks.Status.{pending, failed}
use ttasks.Errors.{text, value_error, Result, ok, raise, ◌>>=◌}
use ttasks.Sqlite.{
  Datetime, Database, empty_database, bind_optional_real, task_values, upsert_task, write_result,
}
use ttasks.Sqlite.Rows.{ReadsBack, timeout_ok}
use ttasks.Sqlite.Tasks.{save, get_item}
use ttasks.Sqlite.Tasks.RoundTrip.{snapshot, save_get_item}
use ttasks.Sqlite.Schema.{File, init_schema}
use ttasks.Sqlite.Schema.Opened.{Opened, init_schema-Opened}
use ttasks.Task.{Task}
use ttasks.Graph.{TaskGraph}
use ttasks.Sqlite.Graphs.Upserted.{savable}
use ttasks.Sqlite.Graphs
use ttasks.Sqlite.Graphs.Storable.{IsStorable}
use ttasks.Sqlite.Graphs.RoundTrip.{restored, save-get_item}
use ttasks.Tests.Samples.{sample}
use ttasks.Tests.Graphs.{empty}

-- Points of time as texts of that length.
unfoldable tally : ℕ → String
tally zero = String.[]
tally (suc n) = String.◌∷◌ "1" (tally n)

unfoldable count_tally : String → Result ℕ
count_tally String.[] = ok zero
count_tally (String.◌∷◌ c s) = count_tally s >>= λ n. ok (suc n)

abbrev tallies : Datetime
tallies = record { isoformat = tally; fromisoformat = count_tally }

tallies-ReadsBack : ReadsBack tallies
unfolding tally count_tally
tallies-ReadsBack zero = refl
tallies-ReadsBack (suc n) = rw (tallies-ReadsBack n)

save_get_item_example :
    (db' : Database) × (save tallies empty_database (sample 1 failed) ≡ ok db')
    × (get_item tallies db' 1 ≡ (
        if timeout_ok (bind_optional_real none)
        then ok (snapshot (sample 1 failed))
        else raise (value_error (text "timeout must be greater than 0"))))
    × ((k : ℕ) → k == 1 ≡ false → get_item tallies db' k ≡ get_item tallies empty_database k)
save_get_item_example =
    save_get_item tallies empty_database (sample 1 failed) tallies-ReadsBack refl

-- A file of an older version, with a table of another program.
abbrev old_file : File
old_file =
    ("metadata", ("schema_version", "3") ∷ [])
    ∷ ("tasks", ("1", "build") ∷ [])
    ∷ ("notes", ("a", "b") ∷ [])
    ∷ []

init_schema-Opened_example : Opened old_file true (init_schema old_file true)
init_schema-Opened_example = init_schema-Opened old_file true

-- One task, and a graph of it.
abbrev one_task : Database
one_task = record empty_database {
  tasks = (1, task_values tallies (sample 1 pending)) ∷ [];
  graphs = (5, record { title = "release"; created_at = "" }) ∷ [];
  graph_tasks =
      record { graph_id = 5; task_id = 1; is_finally = false; is_optional = false; position = 0 }
      ∷ [];
}

-- 2 is an optional finally task after 1.
abbrev report : TaskGraph
report = record empty {
  tasks = (1, sample 1 pending) ∷ (2, sample 2 failed) ∷ [];
  deps = (1, []) ∷ (2, 1 ∷ []) ∷ [];
  finally_ = 2 ∷ [];
  optional = 2 ∷ [];
}

report_savable : (k : ℕ) (t : Task) → lookup k report.tasks ≡ some t → savable t ≡ true
unfolding lookup bind_optional_real
report_savable k t h = elim (Bool-cases (k == 1)) [
  | inl e ↦
      let own : sample 1 pending ≡ t = cc (rw e at h) in
      subst (λ (u : Task). savable u ≡ true) own refl
  | inr e ↦ elim (Bool-cases (k == 2)) [
    | inl e₂ ↦
        let own : sample 2 failed ≡ t = cc (rw (e, e₂) at h) in
        subst (λ (u : Task). savable u ≡ true) own refl
    | inr e₂ ↦ absurd (ground arith)
  ]
]

report-IsStorable : IsStorable report
unfolding lookup keys
report-IsStorable = record {
  well = record {
    registered = λ k h. ground arith;
    distinct = λ k ds h. ground arith;
    optional_finally = λ k h. h;
  };
  keyed = λ k t h. ground arith;
  once = refl;
  closed = λ t d ds h m. ground arith;
  fits = λ k t h. report_savable k t;
}

save-get_item_example :
    (db' : Database) × (ttasks.Sqlite.Graphs.save tallies one_task report ≡ ok db')
    × (ttasks.Sqlite.Graphs.get_item tallies ltb db' 7 ≡ ok (restored report))
save-get_item_example =
    save-get_item tallies ltb one_task report tallies-ReadsBack report-IsStorable
