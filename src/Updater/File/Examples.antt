-- ===== src/Updater/File/Examples.antt =====
-- The theorems about a file, for one with a timetable record, a schedule, a line that does not parse,
-- and another schedule. The text of a record is one byte.
use trainsplorer.Prelude.{
  ℕ, nat_eq, ◌==◌, if◌then◌else◌, ◌≡◌, refl, ◌⊎◌, Option, none, some, [], ◌∷◌, ◌++◌,
}
use trainsplorer.Updater.Engine.{plain}
use trainsplorer.Ntrod.Schedule.{Record, schedule, create, timetable, eof}
use trainsplorer.Updater.Import.Examples.{example_create, empty, empty-IsValid}
use trainsplorer.Updater.File.{Lines, Parser, apply_schedule_records}
use trainsplorer.Updater.File.Valid.{DbValid, apply_schedule_records-DbValid}
use trainsplorer.Updater.File.Stuck.{IsBroken, apply_schedule_records-stuck}

abbrev header : Record
header = timetable (record {
  classification = "public";
  timestamp = 100;
  owner = "Network Rail";
  metadata = record { ty = "full"; sequence = 5 };
})

abbrev record_of : ℕ → Option Record
record_of c =
    if c == 1
    then some header
    else if c == 2
    then some eof
    else if c == 3
    then some (schedule (create example_create))
    else none

abbrev pub parse : Parser
parse (c ∷ []) = record_of c
parse (c ∷ d ∷ cs) = none
parse [] = none

abbrev good_lines : Lines
good_lines = (1, 1 ∷ []) ∷ (3, 3 ∷ []) ∷ []

abbrev last_lines : Lines
last_lines = (4, 3 ∷ []) ∷ (5, 2 ∷ []) ∷ []

apply_schedule_records-DbValid_example :
    DbValid (apply_schedule_records plain parse empty good_lines).0
    × (((apply_schedule_records plain parse empty good_lines).1 ≡ none)
        ⊎ ((apply_schedule_records plain parse empty good_lines).0 ≡ empty))
apply_schedule_records-DbValid_example =
    apply_schedule_records-DbValid plain parse empty good_lines
      (record { tables = empty-IsValid; files = record { sequences = tt; timestamps = tt } })

nine-IsBroken : IsBroken parse (9 ∷ [])
nine-IsBroken [] = refl
nine-IsBroken (c ∷ cs) = refl

apply_schedule_records-stuck_example :
    apply_schedule_records plain parse empty (good_lines ++ (2, 9 ∷ []) ∷ last_lines)
    ≡ apply_schedule_records plain parse empty good_lines
apply_schedule_records-stuck_example =
    apply_schedule_records-stuck plain parse empty good_lines last_lines 2 (9 ∷ [])
      (refl, (refl, tt)) nine-IsBroken
