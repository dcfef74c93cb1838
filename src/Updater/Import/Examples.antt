-- ===== src/Updater/Import/Examples.antt =====
-- The theorems about an import, for a schedule that passes midnight, put into an empty database or
-- beside another.
use trainsplorer.Updater.Engine.{plain}
use trainsplorer.Prelude.{
  ◌≡◌, refl, arith, none, List, [], ◌∷◌, IsSorted, sort, is_sorted, Perm, select,
}
use trainsplorer.Sqlite.{any_row, one_more}
use trainsplorer.Ntrod.Cif.{permanent, as_char}
use trainsplorer.Ntrod.Days.{all}
use trainsplorer.Ntrod.Schedule.{LocationRecord, originating, terminating, Create, create, delete}
use trainsplorer.Fahrplan.Types.{FahrplanDb, mvt_lt}
use trainsplorer.Fahrplan.Days.{from_ntrod}
use trainsplorer.Fahrplan.Examples.{example_schedule, example_mvt}
use trainsplorer.Updater.Import.Outcome.{IsImported, apply_schedule_record-IsImported}
use trainsplorer.Updater.Import.Undone.{deletion_of, apply_schedule_record-undone}
use trainsplorer.Updater.Import.{
  ImportResult, ok, err, convert_all, import_mvts, apply_schedule_record,
}
use trainsplorer.Updater.Import.Midnight.{Follows, convert_all-Follows, import_mvts-IsSorted}
use trainsplorer.Updater.Import.Again.{apply_schedule_record-again}
use trainsplorer.Updater.Import.Valid.{IsValid}

abbrev example_locations : List LocationRecord
example_locations =
    originating
      (record { tiploc_code = "EUSTON"; departure = 9; public_departure = none; platform = none })
    ∷ terminating
        (record { tiploc_code = "CREWE"; arrival = 1; public_arrival = none; platform = none })
    ∷ []

abbrev pub example_create : Create
example_create = record {
  train_uid = "C10000";
  schedule_start_date = 0;
  schedule_end_date = 30;
  schedule_days_runs = all;
  stp_indicator = permanent;
  schedule_segment = record { signalling_id = none; schedule_location = example_locations };
}

abbrev pub empty : FahrplanDb
empty = record { schedules = []; movements = []; files = [] }

abbrev result_db : ImportResult FahrplanDb → FahrplanDb
result_db (ok db) = db
result_db (err _) = empty

pub empty-IsValid : IsValid empty
empty-IsValid = record { ids = tt; keys = tt; mvt_ids = tt; parents = tt }

convert_all-Follows_example :
    Follows 0 0
      (convert_all (record { day_offset = 0; last_time = 0; mvts = [] }) example_locations).mvts
convert_all-Follows_example = convert_all-Follows example_locations (omega arith)

import_mvts-IsSorted_example :
    IsSorted mvt_lt (import_mvts plain example_locations)
    × Perm
        (import_mvts plain example_locations)
        (convert_all (record { day_offset = 0; last_time = 0; mvts = [] }) example_locations).mvts
import_mvts-IsSorted_example = import_mvts-IsSorted plain example_locations

apply_schedule_record-again_example :
    apply_schedule_record plain 8
      (result_db (apply_schedule_record plain 7 empty (create example_create) 1))
      (create example_create)
      2
    ≡ ok (result_db (apply_schedule_record plain 7 empty (create example_create) 1))
unfolding apply_schedule_record import_mvts is_sorted sort any_row select one_more as_char
    from_ntrod all
apply_schedule_record-again_example =
    apply_schedule_record-again plain 7 8 1 2 empty
      (result_db (apply_schedule_record plain 7 empty (create example_create) 1)) example_create
      empty-IsValid ((refl, (refl, tt)), ((refl, (refl, tt)), tt)) refl

-- A database with another schedule, and a movement of it.
abbrev one_scheduled : FahrplanDb
one_scheduled = record {
  schedules = record (example_schedule 2 "O") { uid = "C30000" } ∷ [];
  movements = example_mvt 2 "CREWE" ∷ [];
  files = [];
}

one_scheduled-IsValid : IsValid one_scheduled
unfolding any_row
one_scheduled-IsValid = record {
  ids = (tt, tt);
  keys = (tt, tt);
  mvt_ids = (tt, tt);
  parents = (refl, tt);
}

apply_schedule_record-undone_example :
    apply_schedule_record plain 8
      (result_db (apply_schedule_record plain 7 one_scheduled (create example_create) 1))
      (delete (deletion_of example_create))
      2
    ≡ ok one_scheduled
unfolding apply_schedule_record import_mvts is_sorted sort any_row select one_more as_char
    from_ntrod all
apply_schedule_record-undone_example =
    apply_schedule_record-undone plain 7 8 1 2 one_scheduled
      (result_db (apply_schedule_record plain 7 one_scheduled (create example_create) 1))
      example_create one_scheduled-IsValid refl refl

apply_schedule_record-IsImported_example :
    IsImported plain one_scheduled
      (result_db (apply_schedule_record plain 7 one_scheduled (create example_create) 1))
      example_create
unfolding apply_schedule_record import_mvts is_sorted sort any_row select one_more as_char
    from_ntrod all
apply_schedule_record-IsImported_example =
    apply_schedule_record-IsImported plain 7 1 one_scheduled
      (result_db (apply_schedule_record plain 7 one_scheduled (create example_create) 1))
      example_create one_scheduled-IsValid refl
