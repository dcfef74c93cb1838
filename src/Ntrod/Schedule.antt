-- ===== src/Ntrod/Schedule.antt =====
-- ntrod-types/src/schedule.rs: the records of a schedule file. The fields that no crate of the
-- system reads are left out, and so are the unit fields that only name the variant.
use trainsplorer.Prelude.{ℕ, String, Option, List}
use trainsplorer.Ntrod.Cif.{StpIndicator}
use trainsplorer.Ntrod.Days.{Days}

pub record OriginatingStop : Type 0 where
  pub tiploc_code : String
  pub departure : ℕ
  pub public_departure : Option ℕ
  pub platform : Option String

pub record IntermediateStop : Type 0 where
  pub tiploc_code : String
  pub arrival : ℕ
  pub departure : ℕ
  pub public_arrival : Option ℕ
  pub public_departure : Option ℕ
  pub platform : Option String

pub record PassStop : Type 0 where
  pub tiploc_code : String
  pub pass : ℕ

pub record TerminatingStop : Type 0 where
  pub tiploc_code : String
  pub arrival : ℕ
  pub public_arrival : Option ℕ
  pub platform : Option String

pub data LocationRecord : Type 0 where
  originating : OriginatingStop → LocationRecord
  intermediate : IntermediateStop → LocationRecord
  passing : PassStop → LocationRecord
  terminating : TerminatingStop → LocationRecord

pub record ScheduleSegment : Type 0 where
  pub signalling_id : Option String
  pub schedule_location : List LocationRecord

-- `ScheduleRecord::Create`; a date is the day number that `naive_utc()` gives.
pub record Create : Type 0 where
  pub train_uid : String
  pub schedule_start_date : ℕ
  pub schedule_end_date : ℕ
  pub schedule_days_runs : Days
  pub stp_indicator : StpIndicator
  pub schedule_segment : ScheduleSegment

-- `ScheduleRecord::Delete`
pub record Delete : Type 0 where
  pub train_uid : String
  pub schedule_start_date : ℕ
  pub stp_indicator : StpIndicator

pub data ScheduleRecord : Type 0 where
  create : Create → ScheduleRecord
  delete : Delete → ScheduleRecord

pub record TimetableMetadata : Type 0 where
  pub ty : String
  pub sequence : ℕ

pub record TimetableRecord : Type 0 where
  pub classification : String
  pub timestamp : ℕ
  pub owner : String
  pub metadata : TimetableMetadata

-- A line of a schedule file. Associations and TIPLOC records are skipped by the importer.
pub data Record : Type 0 where
  schedule : ScheduleRecord → Record
  association tiploc : Record
  timetable : TimetableRecord → Record
  eof : Record
