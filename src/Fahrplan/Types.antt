-- ===== src/Fahrplan/Types.antt =====
-- tspl-fahrplan/src/types.rs: the rows of the schedule database. A 64-bit id is its bit pattern, so
-- that -1, the id of a row that is not stored yet, is 2 ^ 64 - 1; ids are compared and never counted
-- with. A date is a day number, a time of day its nanoseconds, a UUID a number.
use trainsplorer.Prelude.{
  ℕ, ◌-◌, ◌^◌, String, Bool, false, Option, none, List, ◌&&◌, nat_eq, string_eq, ◌==◌, ltb,
  if◌then◌else◌,
}
use trainsplorer.Prelude.Maps.{Map}

abbrev pub unset : ℕ
unset = 2 ^ 64 - 1

pub record Schedule : Type 0 where
  pub id : ℕ
  pub tspl_id : ℕ
  pub uid : String
  pub start_date : ℕ
  pub end_date : ℕ
  -- the bits of `ScheduleDays`
  pub days : ℕ
  pub stp_indicator : String
  pub signalling_id : Option String
  pub source : ℕ
  pub file_metaseq : Option ℕ
  pub darwin_id : Option String
  pub crosses_midnight : Bool

abbrev pub source_itps : ℕ
source_itps = 0

abbrev pub source_vstp : ℕ
source_vstp = 1

abbrev pub source_darwin : ℕ
source_darwin = 2

pub record ScheduleMvt : Type 0 where
  pub id : ℕ
  pub parent_sched : ℕ
  pub tiploc : String
  pub action : ℕ
  pub time : ℕ
  pub day_offset : ℕ
  pub platform : Option String
  pub public_time : Option ℕ

abbrev pub action_arrival : ℕ
action_arrival = 0

abbrev pub action_departure : ℕ
action_departure = 1

abbrev pub action_pass : ℕ
action_pass = 2

abbrev pub dummy : ScheduleMvt
dummy = record {
  id = unset;
  parent_sched = unset;
  tiploc = "";
  action = 255;
  time = 0;
  day_offset = 0;
  platform = none;
  public_time = none;
}

-- `PartialEq for ScheduleMvt`
abbrev pub mvt_eq : ScheduleMvt → ScheduleMvt → Bool
mvt_eq a b =
    a.tiploc == b.tiploc
    && (a.action == b.action && (a.time == b.time && a.day_offset == b.day_offset))

-- `Ord for ScheduleMvt`, as "less": by day offset, then time, then action.
abbrev pub mvt_lt : ScheduleMvt → ScheduleMvt → Bool
mvt_lt a b =
    if ltb a.day_offset b.day_offset
    then Bool.true
    else if ltb b.day_offset a.day_offset
    then false
    else if ltb a.time b.time
    then Bool.true
    else if ltb b.time a.time
    then false
    else ltb a.action b.action

pub record ScheduleFile : Type 0 where
  pub sequence : ℕ
  pub timestamp : ℕ

pub record ScheduleDetails : Type 0 where
  pub sched : Schedule
  pub mvts : List ScheduleMvt

pub record MvtQueryResponse : Type 0 where
  pub mvts : Map ℕ ScheduleMvt
  pub schedules : Map ℕ Schedule

pub record ConnectingMvtQueryResponse : Type 0 where
  pub mvts : Map ℕ ScheduleMvt
  pub connecting_mvts : Map ℕ ScheduleMvt
  pub schedules : Map ℕ Schedule

-- The database file of the service: its three tables.
pub record FahrplanDb : Type 0 where
  pub schedules : List Schedule
  pub movements : List ScheduleMvt
  pub files : List ScheduleFile
