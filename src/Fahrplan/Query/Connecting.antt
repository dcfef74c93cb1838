-- ===== src/Fahrplan/Query/Connecting.antt =====
-- `get_connecting_mvts` of tspl-fahrplan/src/ctx.rs: the schedules that pass one place and call at
-- another.
pub mod Answer
use trainsplorer.Prelude.{
  ℕ, String, List, [], ◌∷◌, Bool, ◌&&◌, nat_eq, string_eq, ◌==◌, some, map, select, concat_map,
}
use trainsplorer.Prelude.Maps.{Map, insert, contains_key}
use trainsplorer.Chrono.{Chrono}
use trainsplorer.Util.Time.{calculate_non_midnight_aware_times}
use trainsplorer.Fahrplan.Types.{Schedule, ScheduleMvt, FahrplanDb, ConnectingMvtQueryResponse}
use trainsplorer.Fahrplan.Days.{from_iso_weekday}
use trainsplorer.Fahrplan.Query.{
  in_force, passes, flag_of, process_schedule_join, uid_scheds_to_id_scheds,
}

-- The movement, the connecting movement, their schedule, and one that may supersede it.
abbrev pub ConnectingRow : Type 0
ConnectingRow = ScheduleMvt × ScheduleMvt × Schedule × Schedule

-- `smvts.parent_sched = connecting.parent_sched ... AND connecting.tiploc = :tpl_conn`
abbrev pub connects : String → ScheduleMvt → ScheduleMvt → Bool
connects conn m n = m.parent_sched == n.parent_sched && n.tiploc == conn

unfoldable pub rows_connecting : FahrplanDb → String → String → ℕ → ℕ → ℕ → ℕ → List ConnectingRow
rows_connecting db tpl conn start_time end_time date days =
    concat_map
      (λ m.
        concat_map
          (λ n.
            concat_map
              (λ s.
                map (λ s2. (m, n, s, s2))
                  (select (λ s2. s.uid == s2.uid && in_force date days s2) db.schedules))
              (select (λ s. s.id == m.parent_sched && in_force date days s) db.schedules))
          (select (connects conn m) db.movements))
      (select (passes tpl start_time end_time) db.movements)

-- The variables of the loop over the rows.
pub record FoundConnecting : Type 0 where
  pub smvts : Map ℕ ScheduleMvt
  pub connecting_smvts : Map ℕ ScheduleMvt
  pub schedules : Map String Schedule

pub found_connecting_row : FoundConnecting → ConnectingRow → FoundConnecting
found_connecting_row f (smvt, connecting_smvt, sched, updating) = record {
  connecting_smvts = insert smvt.id connecting_smvt f.connecting_smvts;
  smvts = insert smvt.id smvt f.smvts;
  schedules = process_schedule_join f.schedules sched (some updating);
}

pub found_connecting_rows : FoundConnecting → List ConnectingRow → FoundConnecting
unfolding found_connecting_row
found_connecting_rows f [] = f
found_connecting_rows f (row ∷ rows) = found_connecting_rows (found_connecting_row f row) rows

-- What the two `retain`s leave.
pub connecting_of : FoundConnecting → ConnectingMvtQueryResponse
connecting_of found =
    let id_schedules = uid_scheds_to_id_scheds found.schedules in
    let smvts = select (λ e. contains_key e.1.parent_sched id_schedules) found.smvts in
    record {
      mvts = smvts;
      connecting_mvts = select (λ e. contains_key e.0 smvts) found.connecting_smvts;
      schedules = id_schedules;
    }

module _ (c : Chrono) where
  unfoldable pub get_connecting_mvts :
      FahrplanDb → String → ℕ → ℕ → String → ConnectingMvtQueryResponse
  unfolding rows_connecting found_connecting_rows connecting_of
  get_connecting_mvts db tpl ts within_dur conn =
      let (start_time, end_time) = calculate_non_midnight_aware_times c ts within_dur in
      let days = flag_of (from_iso_weekday (c.number_from_monday (c.date ts))) in
      connecting_of (
        found_connecting_rows (record { smvts = []; connecting_smvts = []; schedules = [] })
          (rows_connecting db tpl conn start_time end_time (c.date ts) days))
