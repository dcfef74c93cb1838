-- ===== src/Updater/File.antt =====
-- tspl-fahrplan-updater/src/import.rs: a whole file. An error out of the loop over the lines drops the
-- transaction, so its caller keeps the database that it had. A line is its bytes, and comes with the
-- UUID that would be made for it; how a text is parsed is a parameter. Not modelled: logging, I/O
-- errors.
pub mod Stuck
pub mod Valid
pub mod Examples
use trainsplorer.Updater.Engine.{Engine}
use trainsplorer.Prelude.{
  ℕ, ◌+◌, ◌%◌, Option, none, some, List, [], ◌∷◌, ◌++◌, Bool, true, false, ◌&&◌, ◌||◌, nat_eq,
  string_eq, ◌==◌, ltb, if◌then◌else◌,
}
use trainsplorer.Sqlite.{any_row}
use trainsplorer.Ntrod.Schedule.{ScheduleRecord, TimetableRecord, Record, schedule, timetable}
use trainsplorer.Fahrplan.Types.{FahrplanDb}
use trainsplorer.Updater.Import.{
  ImportError, no_timetable, inserted_already, greater_sequence, ImportResult, ok, err, ◌>>=◌,
  apply_schedule_record,
}

abbrev pub bail_if : Bool → ImportError → ImportResult (Unit {0})
bail_if true e = err e
bail_if false e = ok tt

-- The lines of a file, each with the UUID that would be made for it.
abbrev pub Lines : Type 0
Lines = List (ℕ × List ℕ)

-- `serde_json::from_str`, where it gives a record
abbrev pub Parser : Type 0
Parser = List ℕ → Option Record

-- The variables of the loop over the lines. `line` is the buffer that `read_line` appends to.
pub record FileState : Type 0 where
  pub db : FahrplanDb
  pub metaseq : Option ℕ
  pub inserted : ℕ
  pub line : List ℕ

abbrev pub at_start : FahrplanDb → FileState
at_start db = record { db = db; metaseq = none; inserted = 0; line = [] }

module _ (sq : Engine) where
  -- `schedule::Record::Schedule`
  pub on_schedule : ℕ → FileState → ScheduleRecord → ImportResult FileState
  on_schedule uuid st rec = elim st.metaseq [
    | some ms ↦ apply_schedule_record sq uuid st.db rec ms >>= λ db'.
        ok (record st { db = db'; inserted = st.inserted + 1 })
    | none ↦ err no_timetable
  ]

  -- `schedule::Record::Timetable`
  pub on_timetable : FileState → TimetableRecord → ImportResult FileState
  on_timetable st rec = do
    _ ← bail_if (any_row (λ f. f.timestamp == rec.timestamp) st.db.files) inserted_already
    _ ← bail_if (any_row (λ f. ltb rec.metadata.sequence f.sequence) st.db.files) greater_sequence
    ok (record st {
      db = record st.db {
        files =
            st.db.files
            ++ record { sequence = rec.metadata.sequence; timestamp = rec.timestamp } ∷ [];
      };
      metaseq = some rec.metadata.sequence;
    })

  -- The `match` on the record, and `line.clear()`.
  pub on_record : ℕ → FileState → Record → ImportResult FileState
  unfolding on_schedule on_timetable
  on_record uuid st (schedule rec) = on_schedule uuid st rec
  on_record uuid st (timetable rec) = on_timetable st rec
  on_record uuid st _ = ok st

  -- One turn of the loop. A text that does not parse stays in the buffer: the `continue` passes over
  -- `line.clear()`.
  pub on_line : Parser → FileState → ℕ × List ℕ → ImportResult FileState
  unfolding on_record
  on_line parse st (uuid, text) = elim (parse (st.line ++ text)) [
    | none ↦ ok (record st { line = st.line ++ text })
    | some rec ↦ on_record uuid st rec >>= λ st'. ok (record st' { line = [] })
  ]

  pub on_lines : Parser → FileState → Lines → ImportResult FileState
  unfolding on_line
  on_lines parse st [] = ok st
  on_lines parse st (line ∷ lines) = on_line parse st line >>= λ st'. on_lines parse st' lines

  -- The database after the transaction, and whether it failed.
  unfoldable pub apply_schedule_records :
      Parser → FahrplanDb → Lines → FahrplanDb × Option ImportError
  unfolding on_lines
  apply_schedule_records parse db lines = elim (on_lines parse (at_start db) lines) [
    | ok st ↦ (st.db, none)
    | err e ↦ (db, some e)
  ]
