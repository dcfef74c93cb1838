-- ===== src/Updater/Job/Examples.antt =====
-- The theorems about a run, where the first download fails and the second gives a file.
use trainsplorer.Updater.Engine.{plain}
use trainsplorer.Prelude.{
  ℕ, suc, zero, ◌+◌, ◌*◌, ◌^◌, ◌≤◌, ◌<◌, ◌≡◌, refl, String, true, Option, none, some, List, [], ◌∷◌,
  arith,
}
use trainsplorer.Sqlite.{any_row}
use trainsplorer.Fahrplan.Types.{FahrplanDb, ScheduleFile}
use trainsplorer.Updater.Import.Examples.{empty}
use trainsplorer.Updater.File.{Lines, apply_schedule_records}
use trainsplorer.Updater.File.Examples.{parse}
use trainsplorer.Updater.Job.{mon, Lines, World, updated, timed_out, do_update, update}
use trainsplorer.Updater.Job.Retries.{waits, total, update-succeeds, update-gives_up}

-- A file with a header and no schedules.
abbrev header_only : Lines
header_only = (1, 1 ∷ []) ∷ (2, 2 ∷ []) ∷ []

abbrev second_only : ℕ → String → Option Lines
second_only zero path = none
second_only (suc zero) path = some header_only
second_only (suc (suc n)) path = none

abbrev flaky : World
flaky = record {
  weekd = λ try. mon;
  download = second_only;
  is_timestamp = λ ts. true;
  parse = parse;
}

abbrev down : World
down = record {
  weekd = λ try. mon;
  download = λ try path. none;
  is_timestamp = λ ts. true;
  parse = parse;
}

first_fails : (i : ℕ) → i < 1 → do_update plain flaky i empty ≡ none
unfolding do_update
first_fails zero h = refl
first_fails (suc i) h = absurd (omega (arith, h))

all_fail : (i : ℕ) → i ≤ 9 → do_update plain down i empty ≡ none
unfolding do_update
all_fail i h = refl

abbrev database : Option FahrplanDb → FahrplanDb
database none = empty
database (some db) = db

update-succeeds_example :
    update plain flaky 10 9 16000 empty
    ≡ updated (database (do_update plain flaky 1 empty)) (waits 1 16000)
unfolding do_update apply_schedule_records any_row
update-succeeds_example =
    update-succeeds plain flaky 9 (omega arith) 1 16000 empty
      (database (do_update plain flaky 1 empty)) (omega arith) first_fails refl

update-gives_up_example :
    (update plain down 10 9 16000 empty ≡ timed_out (waits 9 16000))
    × (total (waits 9 16000) + 16000 ≡ 16000 * 2 ^ 9)
update-gives_up_example =
    update-gives_up plain down 9 (omega arith) 16000 empty (omega arith) all_fail

abbrev two_files : List ScheduleFile
two_files = record { sequence = 4; timestamp = 10 } ∷ record { sequence = 5; timestamp = 20 } ∷ []
