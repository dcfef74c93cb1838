-- ===== src/Web.antt =====
-- tspl-web: the page of the movements through a place, of movements.rs and util.rs in tspl-web/src.
pub mod Answer
pub mod Served
pub mod Examples
use trainsplorer.Prelude.{
  ℕ, String, Bool, true, false, not, Option, none, some, List, [], ◌∷◌, ◌&&◌, ◌||◌, nat_eq,
  string_eq, ◌==◌, ltb, map, select, first, sort, if◌then◌else◌,
}
use trainsplorer.Prelude.Maps.{Map, get, is_some}
use trainsplorer.Util.Rpc.{RpcError, RpcResult}
use trainsplorer.Fahrplan.Types.{Schedule, ScheduleMvt, ScheduleDetails}
use trainsplorer.Zugfuhrer.Types.{Train, TrainMvt, TrainDetails}
use trainsplorer.Zugfuhrer.Store.{sql_eq}
use trainsplorer.Verknupfen.{
  DeduplicatedMvtSource, schedule, train, TimeWithSource, DeduplicatedMvt, MvtQueryResponse,
}

-- The errors that the page can end with. A failure of the station names' database is left out.
pub data WebError : Type 0 where
  details_fetch_failed remote_invariants_violated : WebError
  rpc : RpcError → WebError

pub data WebResult {ℓ} (A : Type ℓ) : Type ℓ where
  ok : A → WebResult A
  err : WebError → WebResult A

infixl 5 ◌>>=◌
abbrev pub ◌>>=◌ {ℓ κ} : {A : Type ℓ} {B : Type κ} → WebResult A → (A → WebResult B) → WebResult B
ok a >>= f = f a
err e >>= f = err e

abbrev pub ok_or {ℓ} : {A : Type ℓ} → Option A → WebError → WebResult A
ok_or none e = err e
ok_or (some a) e = ok a

-- `StationName` of tspl-nennen, by the columns that the page reads.
pub record StationName : Type 0 where
  pub tiploc : Option String
  pub name : String

-- What the page takes from elsewhere: the answers of the services to requests for details, the station
-- names, and how chrono and a UUID are printed.
pub record Backend : Type 0 where
  pub train_details : ℕ → RpcResult TrainDetails
  pub schedule_details : ℕ → RpcResult ScheduleDetails
  pub names : List StationName
  pub second : ℕ → ℕ
  pub format : String → ℕ → String
  pub show_uuid : ℕ → String

unfoldable pub tiploc_nice_name : List StationName → String → String
tiploc_nice_name names tpl = elim (first (select (λ x. sql_eq x.tiploc (some tpl)) names)) [
  | some x ↦ x.name
  | none ↦ tpl
]

unfoldable pub action_to_icon : ℕ → String
action_to_icon act =
    if act == 0
    then "arrow-alt-circle-right"
    else if act == 1
    then "arrow-alt-circle-left"
    else if act == 2
    then "arrow-alt-circle-up"
    else "?"

unfoldable pub action_past_tense : ℕ → String
action_past_tense act =
    if act == 0
    then "Arrived"
    else if act == 1
    then "Departed"
    else if act == 2
    then "Passed through"
    else "???"

unfoldable pub format_time_with_half : Backend → ℕ → String
format_time_with_half b time =
    if b.second time == 0
    then b.format "%H:%M" time
    else if b.second time == 30
    then b.format "%H:%M½" time
    else b.format "%H:%M:%S" time

pub record MovementOrigDest : Type 0 where
  pub orig : String
  pub dest : String

pub record MovementDesc : Type 0 where
  pub parent_sched : Option String
  pub parent_train : Option String
  pub tiploc : String
  pub action : String
  pub time : String
  pub time_scheduled : Option String
  pub actual : Bool
  pub platform : Option String
  pub pfm_changed : Bool
  pub pfm_suppr : Bool
  pub action_past_tense : String
  pub delayed : Bool
  pub canx : Bool
  pub orig_dest : MovementOrigDest
  pub _time : ℕ
  pub _action : ℕ

abbrev pub last_of : List String → Option String
last_of [] = none
last_of (x ∷ []) = some x
last_of (x ∷ y ∷ xs) = last_of (y ∷ xs)

abbrev pub or_nowhere : Option String → String
or_nowhere none = "nowhere"
or_nowhere (some x) = x

-- The first place and the last, by their nice names.
abbrev pub orig_dest_of : Backend → List String → MovementOrigDest
orig_dest_of b places = record {
  orig = tiploc_nice_name b.names (or_nowhere (first places));
  dest = tiploc_nice_name b.names (or_nowhere (last_of places));
}

-- `flat_map` over the trains: one whose details cannot be fetched is logged and left out.
unfoldable pub train_origdests : Backend → Map ℕ Train → Map ℕ MovementOrigDest
train_origdests b [] = []
train_origdests b ((id, x) ∷ rest) = elim (b.train_details x.tspl_id) [
  | RpcResult.ok d ↦ (id, orig_dest_of b (map (λ m. m.tiploc) d.mvts)) ∷ train_origdests b rest
  | RpcResult.err e ↦ train_origdests b rest
]

unfoldable pub sched_origdests : Backend → Map ℕ Schedule → Map ℕ MovementOrigDest
sched_origdests b [] = []
sched_origdests b ((id, x) ∷ rest) = elim (b.schedule_details x.tspl_id) [
  | RpcResult.ok d ↦ (id, orig_dest_of b (map (λ m. m.tiploc) d.mvts)) ∷ sched_origdests b rest
  | RpcResult.err e ↦ sched_origdests b rest
]

-- `(ps, pt, odest, canx)`
abbrev pub Origin : Type 0
Origin = Option ℕ × Option ℕ × MovementOrigDest × Bool

unfoldable pub origin_of :
    MvtQueryResponse
    → Map ℕ MovementOrigDest
    → Map ℕ MovementOrigDest
    → DeduplicatedMvtSource
    → WebResult Origin
origin_of mqr trains scheds (schedule s) = do
  sched ← ok_or (get s mqr.schedules) remote_invariants_violated
  odest ← ok_or (get s scheds) details_fetch_failed
  ok (some sched.tspl_id, none, odest, false)
origin_of mqr trains scheds (train t) = do
  tr ← ok_or (get t mqr.trains) remote_invariants_violated
  odest ← ok_or (get t trains) details_fetch_failed
  ok (none, some tr.tspl_id, odest, tr.cancelled)

-- `a != b`
abbrev pub differ : Option String → Option String → Bool
differ none none = false
differ (some a) (some b) = not (a == b)
differ _ _ = true

abbrev pub is_delayed : Option TimeWithSource → ℕ → Bool
is_delayed none time = false
is_delayed (some ts) time = not (ts.time == time)

abbrev pub map_some {ℓ κ} : {A : Type ℓ} {B : Type κ} → (A → B) → Option A → Option B
map_some f none = none
map_some f (some a) = some (f a)

unfoldable pub describe : Backend → DeduplicatedMvt → Origin → MovementDesc
unfolding action_to_icon action_past_tense format_time_with_half
describe b mvt (ps, pt, odest, canx) = record {
  parent_sched = map_some b.show_uuid ps;
  parent_train = map_some b.show_uuid pt;
  tiploc = mvt.tiploc;
  action = action_to_icon mvt.action;
  time = format_time_with_half b mvt.time.time;
  time_scheduled = map_some (λ x. format_time_with_half b x.time) mvt.time_scheduled;
  actual = mvt.actual;
  platform = mvt.pfm_actual;
  pfm_changed = is_some mvt.pfm_scheduled && differ mvt.pfm_actual mvt.pfm_scheduled;
  pfm_suppr = mvt.pfm_suppr;
  action_past_tense = action_past_tense mvt.action;
  delayed = is_delayed mvt.time_scheduled mvt.time.time;
  canx = canx;
  orig_dest = odest;
  _time = mvt.time.time;
  _action = mvt.action;
}

unfoldable pub describe_all :
    Backend
    → MvtQueryResponse
    → Map ℕ MovementOrigDest
    → Map ℕ MovementOrigDest
    → List DeduplicatedMvt
    → WebResult (List MovementDesc)
unfolding origin_of describe
describe_all b mqr trains scheds [] = ok []
describe_all b mqr trains scheds (mvt ∷ mvts) = origin_of mqr trains scheds mvt.src >>= λ origin.
    (describe_all b mqr trains scheds mvts >>= λ descs. ok (describe b mvt origin ∷ descs))

-- `sort_by_key(|d| (d._time, d._action))`
abbrev pub desc_lt : MovementDesc → MovementDesc → Bool
desc_lt a c = ltb a._time c._time || a._time == c._time && ltb a._action c._action

abbrev pub from_rpc {ℓ} : {A : Type ℓ} → RpcResult A → WebResult A
from_rpc (RpcResult.ok a) = ok a
from_rpc (RpcResult.err e) = err (rpc e)

unfoldable pub get_movements_through_tiploc :
    Backend → RpcResult MvtQueryResponse → WebResult (List MovementDesc)
unfolding train_origdests sched_origdests describe_all
get_movements_through_tiploc b answer = do
  mqr ← from_rpc answer
  ret ← describe_all b mqr (train_origdests b mqr.trains) (sched_origdests b mqr.schedules) mqr.mvts
  ok (sort desc_lt ret)
