-- ===== src/Ntrod/Movements.antt =====
-- ntrod-types/src/movements.rs: the messages of the train movements feed, as they are after parsing. A
-- date is a day number and a timestamp its nanoseconds, as for chrono; a `char` is a string of one.
use trainsplorer.Prelude.{ℕ, String, Bool, Option}
use trainsplorer.Ntrod.Cif.{StpIndicator}

pub data ScheduleSource : Type 0 where
  cif_itps vstp_tops : ScheduleSource

pub data AutomaticOrManual : Type 0 where
  automatic manual : AutomaticOrManual

pub data CallMode : Type 0 where
  normal overnight : CallMode

pub data EventType : Type 0 where
  arrival departure destination : EventType

pub data CanxType : Type 0 where
  on_activation at_origin en_route off_route : CanxType

pub data VariationStatus : Type 0 where
  on_time early late off_route : VariationStatus

pub data UpOrDown : Type 0 where
  up down neither : UpOrDown

pub record Activation : Type 0 where
  pub schedule_source : ScheduleSource
  pub train_file_address : Option String
  pub schedule_end_date : ℕ
  pub train_id : String
  pub tp_origin_timestamp : ℕ
  pub creation_timestamp : ℕ
  pub tp_origin_stanox : Option String
  pub origin_dep_timestamp : ℕ
  pub train_service_code : String
  pub toc_id : String
  pub d1266_record_number : String
  pub train_call_type : AutomaticOrManual
  pub train_uid : String
  pub train_call_mode : CallMode
  pub schedule_type : StpIndicator
  pub sched_origin_stanox : String
  pub schedule_wtt_id : String
  pub schedule_start_date : ℕ

pub record Cancellation : Type 0 where
  pub train_service_code : String
  pub train_file_address : Option String
  pub orig_loc_stanox : Option String
  pub toc_id : String
  pub dep_timestamp : ℕ
  pub division_code : String
  pub loc_stanox : String
  pub canx_timestamp : ℕ
  pub canx_reason_code : String
  pub train_id : String
  pub orig_loc_timestamp : Option ℕ
  pub canx_type : CanxType

pub record Movement : Type 0 where
  pub event_type : EventType
  pub gbtt_timestamp : Option ℕ
  pub original_loc_stanox : Option String
  pub planned_timestamp : Option ℕ
  pub timetable_variation : ℕ
  pub original_loc_timestamp : Option ℕ
  pub current_train_id : Option String
  pub delay_monitoring_point : Bool
  pub next_report_run_time : Option ℕ
  pub reporting_stanox : Option String
  pub actual_timestamp : ℕ
  pub correction_ind : Bool
  pub event_source : AutomaticOrManual
  pub train_file_address : Option String
  pub platform : Option String
  pub division_code : String
  pub train_terminated : Bool
  pub train_id : String
  pub offroute_ind : Bool
  pub variation_status : VariationStatus
  pub train_service_code : String
  pub toc_id : String
  pub loc_stanox : String
  pub auto_expected : Option Bool
  pub direction_ind : UpOrDown
  pub route : Option String
  pub planned_event_type : EventType
  pub next_report_stanox : Option String
  pub line_ind : Option String

-- No handler reads what the last five hold.
pub data MvtBody : Type 0 where
  activation : Activation → MvtBody
  cancellation : Cancellation → MvtBody
  movement : Movement → MvtBody
  reinstatement change_of_origin change_of_identity change_of_location unknown : MvtBody
