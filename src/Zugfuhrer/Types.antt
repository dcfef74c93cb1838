-- ===== src/Zugfuhrer/Types.antt =====
-- tspl-zugfuhrer/src/types.rs: the rows of the database of running trains. Ids and times are as in
-- the schedule database.
use trainsplorer.Prelude.{ℕ, String, Bool, false, Option, none, List, nat_eq, string_eq}
use trainsplorer.Prelude.Maps.{Map}
use trainsplorer.Fahrplan.Types.{ScheduleMvt, unset}

pub record Train : Type 0 where
  pub id : ℕ
  pub tspl_id : ℕ
  pub parent_uid : String
  pub parent_start_date : ℕ
  pub parent_stp_indicator : String
  pub date : ℕ
  pub trust_id : Option String
  pub darwin_rid : Option String
  pub headcode : Option String
  pub crosses_midnight : Bool
  pub parent_source : ℕ
  pub terminated : Bool
  pub cancelled : Bool
  pub activated : Bool

pub record TrainMvt : Type 0 where
  pub id : ℕ
  pub parent_train : ℕ
  pub updates : Option ℕ
  pub tiploc : String
  pub action : ℕ
  pub actual : Bool
  pub time : ℕ
  pub public_time : Option ℕ
  pub day_offset : ℕ
  pub source : ℕ
  pub platform : Option String
  pub pfm_suppr : Bool
  pub unknown_delay : Bool

abbrev pub source_sched_itps : ℕ
source_sched_itps = 0

abbrev pub source_sched_darwin : ℕ
source_sched_darwin = 1

abbrev pub source_sched_vstp : ℕ
source_sched_vstp = 2

abbrev pub source_trust : ℕ
source_trust = 3

abbrev pub source_darwin : ℕ
source_darwin = 4

abbrev pub source_trust_naive : ℕ
source_trust_naive = 5

abbrev pub from_itps : ScheduleMvt → TrainMvt
from_itps sched = record {
  id = unset;
  parent_train = unset;
  updates = none;
  tiploc = sched.tiploc;
  action = sched.action;
  actual = false;
  time = sched.time;
  public_time = sched.public_time;
  day_offset = sched.day_offset;
  source = source_sched_itps;
  platform = sched.platform;
  pfm_suppr = false;
  unknown_delay = false;
}

pub record DarwinMvtUpdate : Type 0 where
  pub tiploc : String
  pub planned_time : ℕ
  pub planned_day_offset : ℕ
  pub planned_action : ℕ
  pub updated_time : ℕ
  pub time_actual : Bool
  pub delay_unknown : Bool
  pub platform : Option String
  pub platsup : Bool

pub record TrustMvtUpdate : Type 0 where
  pub stanox : String
  pub planned_time : ℕ
  pub planned_day_offset : ℕ
  pub planned_action : ℕ
  pub actual_time : ℕ
  pub actual_public_time : Option ℕ
  pub platform : Option String

-- `corpus_entries`, by the two columns that the service reads.
pub record CorpusEntry : Type 0 where
  pub stanox : Option String
  pub tiploc : Option String

pub record ZugDb : Type 0 where
  pub trains : List Train
  pub movements : List TrainMvt
  pub corpus : List CorpusEntry

pub record MvtQueryResponse : Type 0 where
  pub mvts : Map ℕ (List TrainMvt)
  pub trains : Map ℕ Train

pub record ConnectingMvtQueryResponse : Type 0 where
  pub mvts : Map ℕ (List TrainMvt)
  pub connecting_mvts : Map ℕ (List TrainMvt)
  pub trains : Map ℕ Train

pub record TrainDetails : Type 0 where
  pub train : Train
  pub mvts : List TrainMvt
