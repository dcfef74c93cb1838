-- ===== src/Verknupfen.antt =====
-- tspl-verknupfen/src/types.rs and ctx.rs: the join of what tspl-fahrplan and tspl-zugfuhrer know of
-- a place. What the two services answer is an argument. `HashSet` is a list with a membership test.
-- A panic (`unwrap` of `None`, a failed `assert_eq!`) is a result of its own.
pub mod Dedup
pub mod Answer
pub mod Totality
pub mod Service
pub mod Examples
use trainsplorer.Prelude.{
  ℕ, String, Bool, true, false, not, Option, none, some, List, [], ◌∷◌, ◌++◌, ◌&&◌, nat_eq,
  string_eq, ◌==◌, length, map, select, if◌then◌else◌,
}
use trainsplorer.Prelude.Maps.{Map, get}
use trainsplorer.Sqlite.{any_row}
use trainsplorer.Util.Rpc.{RpcError, RpcResult}
use trainsplorer.Fahrplan.Types.{Schedule, ScheduleMvt}
use trainsplorer.Fahrplan.Types as FahrplanTypes
use trainsplorer.Zugfuhrer.Types.{Train, TrainMvt, source_sched_itps, source_trust, source_darwin}
use trainsplorer.Zugfuhrer.Types as ZugTypes

pub data VerknupfenError : Type 0 where
  invalid_path remote_invariants_violated : VerknupfenError
  rpc : RpcError → VerknupfenError

pub data VerknupfenResult {ℓ} (A : Type ℓ) : Type ℓ where
  ok : A → VerknupfenResult A
  err : VerknupfenError → VerknupfenResult A
  panicked : VerknupfenResult A

infixl 5 ◌>>=◌
abbrev pub ◌>>=◌ {ℓ κ} :
    {A : Type ℓ} {B : Type κ} → VerknupfenResult A → (A → VerknupfenResult B) → VerknupfenResult B
ok a >>= f = f a
err e >>= f = err e
panicked >>= f = panicked

abbrev pub from_rpc {ℓ} : {A : Type ℓ} → RpcResult A → VerknupfenResult A
from_rpc (RpcResult.ok a) = ok a
from_rpc (RpcResult.err e) = err (rpc e)

abbrev pub ok_or {ℓ} : {A : Type ℓ} → Option A → VerknupfenError → VerknupfenResult A
ok_or none e = err e
ok_or (some a) e = ok a

abbrev pub unwrap {ℓ} : {A : Type ℓ} → Option A → VerknupfenResult A
unwrap none = panicked
unwrap (some a) = ok a

pub record TimeWithSource : Type 0 where
  pub source : ℕ
  pub time : ℕ

pub data DeduplicatedMvtSource : Type 0 where
  schedule : ℕ → DeduplicatedMvtSource
  train : ℕ → DeduplicatedMvtSource

pub record DeduplicatedMvt : Type 0 where
  pub src : DeduplicatedMvtSource
  pub tiploc : String
  pub action : ℕ
  pub time : TimeWithSource
  pub actual : Bool
  pub time_scheduled : Option TimeWithSource
  pub canx : Bool
  pub pfm_scheduled : Option String
  pub pfm_actual : Option String
  pub pfm_suppr : Bool

pub record MvtQueryResponse : Type 0 where
  pub mvts : List DeduplicatedMvt
  pub schedules : Map ℕ Schedule
  pub trains : Map ℕ Train

-- `scheds.contains(..)`, where `scheds` holds the schedules that the trains run to.
abbrev pub runs_schedule : Schedule → Train → Bool
runs_schedule sched t =
    t.parent_uid == sched.uid
    && (t.parent_start_date == sched.start_date
        && (t.parent_stp_indicator == sched.stp_indicator && t.parent_source == sched.source))

abbrev pub has_train : Map ℕ Train → Schedule → Bool
has_train trains sched = any_row (λ e. runs_schedule sched e.1) trains

-- The variables of the loop over the movements of one group.
pub record Seen : Type 0 where
  pub time_scheduled : Option TimeWithSource
  pub time : Option TimeWithSource
  pub pfm_scheduled : Option String
  pub pfm_actual : Option String
  pub pfm_suppr : Bool
  pub actual : Bool
  pub tiploc : Option String
  pub action : Option ℕ

abbrev pub nothing_seen : Seen
nothing_seen = record {
  time_scheduled = none;
  time = none;
  pfm_scheduled = none;
  pfm_actual = none;
  pfm_suppr = false;
  actual = false;
  tiploc = none;
  action = none;
}

abbrev pub time_of : TrainMvt → TimeWithSource
time_of mvt = record { source = mvt.source; time = mvt.time }

-- `a.or(b)`
abbrev pub or_else {ℓ} : {A : Type ℓ} → Option A → Option A → Option A
or_else (some a) b = some a
or_else none b = b

-- The `match` on the movement's source.
abbrev pub see_source : Seen → TrainMvt → Seen
see_source s mvt =
    if mvt.source == source_sched_itps
    then record s { pfm_scheduled = mvt.platform; time_scheduled = some (time_of mvt) }
    else if mvt.source == source_trust
    then record s { actual = true; time = some (time_of mvt); pfm_actual = mvt.platform }
    else if mvt.source == source_darwin
    then record s {
      pfm_actual = or_else s.pfm_actual mvt.platform;
      time = if not s.actual then some (time_of mvt) else s.time;
    }
    else s

abbrev pub see : Seen → TrainMvt → Seen
see s mvt =
    let s' = see_source (record s { tiploc = some mvt.tiploc; action = some mvt.action }) mvt in
    if mvt.pfm_suppr then record s' { pfm_suppr = true } else s'

unfoldable pub see_all : Seen → List TrainMvt → Seen
see_all s [] = s
see_all s (mvt ∷ mvts) = see_all (see s mvt) mvts

-- The time to show, and the scheduled time where it is another.
pub times : Seen → VerknupfenResult (TimeWithSource × Option TimeWithSource)
times s = elim s.time [
  | some time ↦ ok (time, s.time_scheduled)
  | none ↦ if s.actual then panicked else unwrap s.time_scheduled >>= λ time. ok (time, none)
]

abbrev pub merged :
    ℕ → Train → Seen → TimeWithSource × Option TimeWithSource → String → ℕ → DeduplicatedMvt
merged tid parent seen (time, time_scheduled) tiploc action = record {
  src = train tid;
  tiploc = tiploc;
  action = action;
  time = time;
  actual = seen.actual;
  time_scheduled = time_scheduled;
  canx = parent.cancelled;
  pfm_scheduled = seen.pfm_scheduled;
  pfm_actual = seen.pfm_actual;
  pfm_suppr = seen.pfm_suppr;
}

-- The body of the loop over the groups: the train is that of the group's first movement.
unfoldable pub deduplicate : Map ℕ Train → List TrainMvt → VerknupfenResult DeduplicatedMvt
unfolding times
deduplicate trains [] = err remote_invariants_violated
deduplicate trains (mvt ∷ mvts) = do
  let seen = see_all nothing_seen (mvt ∷ mvts)
  parent ← ok_or (get mvt.parent_train trains) remote_invariants_violated
  shown ← times seen
  tiploc ← unwrap seen.tiploc
  action ← unwrap seen.action
  ok (merged mvt.parent_train parent seen shown tiploc action)

unfoldable pub deduplicate_all :
    Map ℕ Train → Map ℕ (List TrainMvt) → VerknupfenResult (List DeduplicatedMvt)
unfolding deduplicate
deduplicate_all trains [] = ok []
deduplicate_all trains ((mid, tmvts) ∷ rest) = deduplicate trains tmvts >>= λ dmvt.
    (deduplicate_all trains rest >>= λ dmvts. ok (dmvt ∷ dmvts))

abbrev pub schedule_mvt : ℕ → ScheduleMvt → DeduplicatedMvt
schedule_mvt sid mvt = record {
  src = schedule sid;
  tiploc = mvt.tiploc;
  action = mvt.action;
  time = record { source = source_sched_itps; time = mvt.time };
  actual = false;
  time_scheduled = none;
  canx = false;
  pfm_scheduled = mvt.platform;
  pfm_actual = none;
  pfm_suppr = false;
}

-- `for (sid, mvt) in fahrplan.mvts`: the key of that map is the movement's id, and it is looked up
-- among the schedules.
unfoldable pub schedule_mvts : Map ℕ Schedule → Map ℕ ScheduleMvt → List DeduplicatedMvt
schedule_mvts schedules [] = []
schedule_mvts schedules ((sid, mvt) ∷ rest) = elim (get sid schedules) [
  | some s ↦ schedule_mvt sid mvt ∷ schedule_mvts schedules rest
  | none ↦ schedule_mvts schedules rest
]

-- `fahrplan.schedules.retain(..)`
abbrev pub retained : FahrplanTypes.MvtQueryResponse → ZugTypes.MvtQueryResponse → Map ℕ Schedule
retained fahrplan zugfuhrer = select (λ e. not (has_train zugfuhrer.trains e.1)) fahrplan.schedules

-- The response: the movements of trains, and then those of the remaining schedules.
abbrev pub joined :
    FahrplanTypes.MvtQueryResponse
    → ZugTypes.MvtQueryResponse
    → List DeduplicatedMvt
    → MvtQueryResponse
joined fahrplan zugfuhrer dmvts = record {
  mvts = dmvts ++ schedule_mvts (retained fahrplan zugfuhrer) fahrplan.mvts;
  schedules = retained fahrplan zugfuhrer;
  trains = zugfuhrer.trains;
}

unfoldable pub get_mvts_passing_through :
    RpcResult FahrplanTypes.MvtQueryResponse
    → RpcResult ZugTypes.MvtQueryResponse
    → VerknupfenResult MvtQueryResponse
unfolding deduplicate_all
get_mvts_passing_through from_fahrplan from_zugfuhrer = do
  fahrplan ← from_rpc from_fahrplan
  zugfuhrer ← from_rpc from_zugfuhrer
  dmvts ← deduplicate_all zugfuhrer.trains zugfuhrer.mvts
  ok (joined fahrplan zugfuhrer dmvts)
