-- ===== src/Fahrplan/Query.antt =====
-- The movement queries of tspl-fahrplan/src/ctx.rs. A `SELECT` is the list of the rows that its
-- joins and its `WHERE` clause leave, in some order; `from_row` reads the columns of one row.
-- `LEFT OUTER JOIN ... s2` is followed by tests on `s2`, so a row with no `s2` does not pass.
pub mod Join
pub mod Rows
pub mod Loop
pub mod Through
pub mod Connecting
pub mod Examples
use Prim.Native.Nat.{bit_and}
use trainsplorer.Prelude.{
  ℕ, String, Option, none, some, List, [], ◌∷◌, Bool, not, ◌&&◌, nat_eq, string_eq, ◌==◌, leb,
  str_lt, map, select, concat_map, if◌then◌else◌,
}
use trainsplorer.Prelude.Maps.{Map, get, insert, contains_key}
use trainsplorer.Chrono.{Chrono}
use trainsplorer.Util.Time.{calculate_non_midnight_aware_times}
use trainsplorer.Fahrplan.Types.{
  Schedule, ScheduleMvt, FahrplanDb, MvtQueryResponse, ConnectingMvtQueryResponse,
}
use trainsplorer.Fahrplan.Days.{from_iso_weekday}

-- `*sched = updating_sched`, if it supersedes; the key is there, so `unwrap` does not fail.
supersede : String → Option Schedule → Map String Schedule → Map String Schedule
supersede uid none scheds = scheds
supersede uid (some updating) scheds = elim (get uid scheds) [
  | none ↦ scheds
  | some sched ↦
      if str_lt updating.stp_indicator sched.stp_indicator
      then insert uid updating scheds
      else scheds
]

unfoldable pub process_schedule_join :
    Map String Schedule → Schedule → Option Schedule → Map String Schedule
unfolding supersede
process_schedule_join scheds sched updating =
    supersede sched.uid updating
      (if not (contains_key sched.uid scheds) then insert sched.uid sched scheds else scheds)

pub insert_ids : Map String Schedule → Map ℕ Schedule → Map ℕ Schedule
insert_ids [] out = out
insert_ids ((uid, schedule) ∷ rest) out = insert_ids rest (insert schedule.id schedule out)

unfoldable pub uid_scheds_to_id_scheds : Map String Schedule → Map ℕ Schedule
unfolding insert_ids
uid_scheds_to_id_scheds inp = insert_ids inp []

-- `:date BETWEEN s.start_date AND s.end_date AND s.days & :days`
abbrev pub in_force : ℕ → ℕ → Schedule → Bool
in_force date days s =
    leb s.start_date date && (leb date s.end_date && not (bit_and s.days days == 0))

-- `smvts.tiploc = :tpl AND smvts.time BETWEEN :start_time AND :end_time AND smvts.day_offset = 0`
abbrev pub passes : String → ℕ → ℕ → ScheduleMvt → Bool
passes tpl start_time end_time m =
    m.tiploc == tpl && (leb start_time m.time && (leb m.time end_time && m.day_offset == 0))

abbrev pub JoinRow : Type 0
JoinRow = ScheduleMvt × Schedule × Schedule

unfoldable pub rows_through : FahrplanDb → String → ℕ → ℕ → ℕ → ℕ → List JoinRow
rows_through db tpl start_time end_time date days =
    concat_map
      (λ m.
        concat_map
          (λ s.
            map (λ s2. (m, s, s2))
              (select (λ s2. s.uid == s2.uid && in_force date days s2) db.schedules))
          (select (λ s. s.id == m.parent_sched && in_force date days s) db.schedules))
      (select (passes tpl start_time end_time) db.movements)

-- The variables of the loop over the rows.
pub record Found : Type 0 where
  pub smvts : Map ℕ ScheduleMvt
  pub schedules : Map String Schedule

pub found_row : Found → JoinRow → Found
found_row f (smvt, sched, updating) = record {
  smvts = insert smvt.id smvt f.smvts;
  schedules = process_schedule_join f.schedules sched (some updating);
}

pub found_rows : Found → List JoinRow → Found
found_rows f [] = f
found_rows f (row ∷ rows) = found_rows (found_row f row) rows

-- `from_iso_weekday(...).unwrap()`: a date's weekday is one of the seven.
abbrev pub flag_of : Option ℕ → ℕ
flag_of none = 0
flag_of (some flag) = flag

-- The query and the loop, once the arguments are computed.
pub mvts_within : FahrplanDb → String → ℕ → ℕ → ℕ → ℕ → MvtQueryResponse
mvts_within db tpl start_time end_time date days =
    let rows = rows_through db tpl start_time end_time date days in
    let found = found_rows (record { smvts = []; schedules = [] }) rows in
    let id_schedules = uid_scheds_to_id_scheds found.schedules in
    record {
      mvts = select (λ e. contains_key e.1.parent_sched id_schedules) found.smvts;
      schedules = id_schedules;
    }

module _ (c : Chrono) where
  unfoldable pub get_mvts_passing_through : FahrplanDb → String → ℕ → ℕ → MvtQueryResponse
  unfolding found_row found_rows mvts_within
  get_mvts_passing_through db tpl ts within_dur =
      let (start_time, end_time) = calculate_non_midnight_aware_times c ts within_dur in
      let days = flag_of (from_iso_weekday (c.number_from_monday (c.date ts))) in
      mvts_within db tpl start_time end_time (c.date ts) days
