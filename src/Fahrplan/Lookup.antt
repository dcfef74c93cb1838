-- ===== src/Fahrplan/Lookup.antt =====
-- The lookups of tspl-fahrplan/src/ctx.rs that the other services call.
use trainsplorer.Prelude.{
  ℕ, String, List, Bool, ◌&&◌, nat_eq, string_eq, ◌==◌, select, first, Sorter,
}
use trainsplorer.Fahrplan.Types.{Schedule, ScheduleDetails, FahrplanDb, mvt_lt}
use trainsplorer.Fahrplan.Errors.{FahrplanResult, ok, not_found, ◌>>=◌, ok_or}

unfoldable pub find_schedules_with_uid : FahrplanDb → String → List Schedule
find_schedules_with_uid db uid = select (λ s. s.uid == uid) db.schedules

-- `WHERE uid = ? AND stp_indicator = ? AND start_date = ? AND source = ?`
abbrev pub activates : String → String → ℕ → ℕ → Schedule → Bool
activates uid stp_indicator start_date source s =
    s.uid == uid
    && (s.stp_indicator == stp_indicator && (s.start_date == start_date && s.source == source))

unfoldable pub find_schedule_for_activation :
    FahrplanDb → String → String → ℕ → ℕ → FahrplanResult Schedule
find_schedule_for_activation db uid stp_indicator start_date source =
    ok_or (first (select (activates uid stp_indicator start_date source) db.schedules)) not_found

-- The order of `ORDER BY day_offset, time, action` is a parameter: it leaves ties open.
unfoldable pub request_schedule_details :
    Sorter mvt_lt → FahrplanDb → ℕ → FahrplanResult ScheduleDetails
request_schedule_details order_by db uu = do
  sched ← ok_or (first (select (λ s. s.tspl_id == uu) db.schedules)) not_found
  ok (record {
    sched = sched;
    mvts = order_by.run (select (λ m. m.parent_sched == sched.id) db.movements);
  })
