-- ===== src/Updater/Job.antt =====
-- A run of tspl-fahrplan-updater: download.rs, updater.rs, db_init.rs and main.rs of
-- tspl-fahrplan-updater/src. What lies outside is a parameter: what each download gives, the clock,
-- the storage bucket, the opening of a file and its removal. A `u32` wraps, as in a release build.
pub mod Retries
pub mod Run
pub mod Examples
use trainsplorer.Updater.Engine.{Engine}
use trainsplorer.Prelude.{
  ℕ, zero, suc, ◌+◌, ◌-◌, ◌*◌, ◌%◌, ◌^◌, String, Option, none, some, List, [], ◌∷◌, ◌++◌, Bool,
  true, false, not, ◌&&◌, nat_eq, ◌==◌, ltb, length, if◌then◌else◌,
}
use trainsplorer.Fahrplan.Types.{ScheduleFile, FahrplanDb}
use trainsplorer.Updater.Import.{ImportError}
use trainsplorer.Updater.File.{Lines, Parser, apply_schedule_records}

abbrev pub u32 : ℕ → ℕ
u32 n = n % 2 ^ 32

-- `chrono::Weekday`
pub data Weekday : Type 0 where
  mon tue wed thu fri sat sun : Weekday

-- What surrounds the program: for each try, the day of the week and what the server answers to a
-- request for a file.
pub record World : Type 0 where
  -- `Utc::now().weekday().pred()`
  pub weekd : ℕ → Weekday
  pub download : ℕ → String → Option Lines
  -- `NaiveDateTime::from_timestamp_opt(ts, 0)` is `Some`
  pub is_timestamp : ℕ → Bool
  -- how a line is parsed
  pub parse : Parser

-- `match weekd { .. }`, and the path that it is put into
unfoldable pub update_path : Weekday → String
update_path mon = "/ntrod/CifFileAuthenticate?type=CIF_ALL_UPDATE_DAILY&day=toc-update-mon"
update_path tue = "/ntrod/CifFileAuthenticate?type=CIF_ALL_UPDATE_DAILY&day=toc-update-tue"
update_path wed = "/ntrod/CifFileAuthenticate?type=CIF_ALL_UPDATE_DAILY&day=toc-update-wed"
update_path thu = "/ntrod/CifFileAuthenticate?type=CIF_ALL_UPDATE_DAILY&day=toc-update-thu"
update_path fri = "/ntrod/CifFileAuthenticate?type=CIF_ALL_UPDATE_DAILY&day=toc-update-fri"
update_path sat = "/ntrod/CifFileAuthenticate?type=CIF_ALL_UPDATE_DAILY&day=toc-update-sat"
update_path sun = "/ntrod/CifFileAuthenticate?type=CIF_ALL_UPDATE_DAILY&day=toc-update-sun"

abbrev pub full_path : String
full_path = "/ntrod/CifFileAuthenticate?type=CIF_ALL_FULL_DAILY&day=toc-full"

-- How the retries end, with the waits between them in milliseconds.
pub data Retried : Type 0 where
  updated : FahrplanDb → List ℕ → Retried
  timed_out : List ℕ → Retried
  out_of_fuel : Retried

abbrev pub imported : FahrplanDb × Option ImportError → Option FahrplanDb
imported (db, none) = some db
imported (db, some e) = none

abbrev pub import_download : Engine → World → FahrplanDb → Option Lines → Option FahrplanDb
import_download sq w db none = none
import_download sq w db (some lines) = imported (apply_schedule_records sq w.parse db lines)

module _ (sq : Engine) (w : World) where
  unfoldable pub do_full : FahrplanDb → Option FahrplanDb
  do_full db = import_download sq w db (w.download 0 full_path)

  -- Whether it succeeds on this try; if not, the database is as it was.
  unfoldable pub do_update : ℕ → FahrplanDb → Option FahrplanDb
  unfolding update_path
  do_update try db = import_download sq w db (w.download try (update_path (w.weekd try)))

  -- The loop, from its variables. `try` counts the tries, as `cur` does until it wraps.
  unfoldable pub update_loop : ℕ → ℕ → ℕ → ℕ → ℕ → List ℕ → FahrplanDb → Retried
  update_loop zero retries try cur timeout_ms slept db = out_of_fuel
  update_loop (suc fuel) retries try cur timeout_ms slept db = elim (do_update try db) [
    | some db' ↦ updated db' slept
    | none ↦
        let again =
          update_loop fuel retries (suc try) (u32 (cur + 1)) (u32 (timeout_ms * 2))
            (slept ++ timeout_ms ∷ []) db in
        if ltb retries (u32 (cur + 1)) then timed_out slept else again
  ]

  unfoldable pub update : ℕ → ℕ → ℕ → FahrplanDb → Retried
  unfolding update_loop
  update fuel retries timeout_ms db = update_loop fuel retries 0 0 timeout_ms [] db

-- The loop over the files, `last` being the sequence number of the one before.
unfoldable pub check_files : World → ℕ → List ScheduleFile → Bool
check_files w last [] = true
check_files w last (file ∷ files) =
    let rest = check_files w file.sequence files in
    if not (last == 0) && not (file.sequence - 1 == last)
    then false
    else if w.is_timestamp file.timestamp
    then rest
    else false

unfoldable pub check_schedule_files : World → List ScheduleFile → Bool
unfolding check_files
check_schedule_files w files = if length files == 0 then false else check_files w 0 files

-- `sqlite_initialize_db`: a file is opened and brought up to date, or it is broken; where there is no
-- file, an empty database is made.
pub record Files : Type 0 where
  pub initialize : Option FahrplanDb → Option FahrplanDb
  pub removes : Bool

unfoldable pub try_load_existing : World → Files → FahrplanDb → Option FahrplanDb
unfolding check_schedule_files
try_load_existing w f file = elim (f.initialize (some file)) [
  | none ↦ none
  | some db ↦ if check_schedule_files w db.files then some db else none
]

abbrev pub with_flag : Bool → Option FahrplanDb → Option (FahrplanDb × Bool)
with_flag b none = none
with_flag b (some db) = some (db, b)

-- The database, and whether it can be updated.
unfoldable pub load_or_create_db : World → Files → Option FahrplanDb → Option (FahrplanDb × Bool)
unfolding try_load_existing
load_or_create_db w f none = with_flag false (f.initialize none)
load_or_create_db w f (some file) = elim (try_load_existing w f file) [
  | some db ↦ some (db, true)
  | none ↦ if f.removes then with_flag false (f.initialize none) else none
]

abbrev pub database_of : Retried → Option FahrplanDb
database_of (updated db _) = some db
database_of (timed_out _) = none
database_of out_of_fuel = none

-- `gcs.download_object`
pub data Fetched : Type 0 where
  fetched : FahrplanDb → Fetched
  object_not_found fetch_failed : Fetched

module _ (sq : Engine) (w : World) (f : Files) (retries timeout_ms : ℕ) where
  -- The database that is copied into the backup file.
  unfoldable pub prepare : Option FahrplanDb → Option FahrplanDb
  unfolding load_or_create_db update do_full
  prepare file = elim (load_or_create_db w f file) [
    | none ↦ none
    | some (db, true) ↦ database_of (update sq w (retries + 1) retries timeout_ms db)
    | some (db, false) ↦ do_full sq w db
  ]

  -- `main`: the backup file that an earlier run has left, the current file, and what the bucket holds;
  -- the result is the database that is uploaded.
  unfoldable pub main : Option FahrplanDb → Option FahrplanDb → Fetched → Option FahrplanDb
  unfolding prepare
  main (some backup) current object = some backup
  main none current (fetched db) = prepare (some db)
  main none current object_not_found = prepare current
  main none current fetch_failed = none
