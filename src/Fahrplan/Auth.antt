-- ===== src/Fahrplan/Auth.antt =====
-- `get_auth_schedule` and `find_schedule_on_date` of tspl-fahrplan/src/ctx.rs: which schedule of a
-- train is authoritative on a date.
pub mod Outcome
use trainsplorer.Prelude.{
  ℕ, String, Option, none, some, List, [], ◌∷◌, Bool, not, ◌&&◌, nat_eq, string_eq, ◌==◌, leb,
  str_lt, select, if◌then◌else◌,
}
use trainsplorer.Chrono.{Chrono}
use trainsplorer.Fahrplan.Types.{Schedule, FahrplanDb}
use trainsplorer.Fahrplan.Days.{runs_on_iso_weekday}
use trainsplorer.Fahrplan.Errors.{
  FahrplanResult, ok, err, not_found, stp_indicators_equal, ◌>>=◌, ok_or,
}

-- The loop's body, for a schedule that runs on the day.
pub consider : Schedule → Option Schedule → FahrplanResult (Option Schedule)
consider sched none = ok (some sched)
consider sched (some other) =
    if str_lt sched.stp_indicator other.stp_indicator
    then ok (some sched)
    else if sched.stp_indicator == other.stp_indicator && not (sched.stp_indicator == "C")
    then err stp_indicators_equal
    else ok (some other)

pub auth_loop :
    (Schedule → Bool) → Option Schedule → List Schedule → FahrplanResult (Option Schedule)
auth_loop runs ret [] = ok ret
auth_loop runs ret (sched ∷ scheds) =
    (if not (runs sched) then ok ret else consider sched ret) >>= λ ret'. auth_loop runs ret' scheds

-- `WHERE uid = ?1 AND start_date <= ?2 AND end_date >= ?2 AND source = ?3`
abbrev pub matches : String → ℕ → ℕ → Schedule → Bool
matches uid on_date source s =
    s.uid == uid && (leb s.start_date on_date && (leb on_date s.end_date && s.source == source))

module _ (c : Chrono) where
  unfoldable pub get_auth_schedule : FahrplanDb → String → ℕ → ℕ → FahrplanResult (Option Schedule)
  unfolding consider auth_loop
  get_auth_schedule db uid on_date source =
      let scheds = select (matches uid on_date source) db.schedules in
      auth_loop (λ s. runs_on_iso_weekday s.days (c.number_from_monday on_date)) none scheds

  unfoldable pub find_schedule_on_date : FahrplanDb → String → ℕ → ℕ → FahrplanResult Schedule
  find_schedule_on_date db uid on_date source = do
    auth_sched ← get_auth_schedule db uid on_date source
    ok_or auth_sched not_found
