-- ===== src/Fahrplan/Examples.antt =====
-- The theorems about days, the order of movements and authoritative schedules, for a train with a
-- permanent schedule and an overlay.
use trainsplorer.Prelude.{ℕ, ◌+◌, String, Bool, ◌≡◌, refl, none, [], ◌∷◌, string_eq, ◌==◌}
use trainsplorer.Chrono.{proleptic}
use trainsplorer.Ntrod.Days.{all, value_for_iso_weekday}
use trainsplorer.Fahrplan.Types.{Schedule, ScheduleMvt, FahrplanDb, dummy, mvt_eq}
use trainsplorer.Fahrplan.Days.{
  from_ntrod, runs_on_iso_weekday, or_false, from_ntrod-runs_on_iso_weekday,
}
use trainsplorer.Fahrplan.Order.{mvt_eq_of_incomparable}
use trainsplorer.Fahrplan.Auth.{get_auth_schedule}
use trainsplorer.Fahrplan.Auth.Outcome.{Outcome, Applies, get_auth_schedule-Outcome}

abbrev pub example_schedule : ℕ → String → Schedule
example_schedule id stp = record {
  id = id;
  tspl_id = 100 + id;
  uid = "C10000";
  start_date = 0;
  end_date = 30;
  days = 127;
  stp_indicator = stp;
  signalling_id = none;
  source = 0;
  file_metaseq = none;
  darwin_id = none;
  crosses_midnight = Bool.false;
}

abbrev pub example_mvt : ℕ → String → ScheduleMvt
example_mvt id tpl = record dummy { id = id; parent_sched = 2; tiploc = tpl; action = 1; time = 5 }

abbrev pub example_db : FahrplanDb
example_db = record {
  schedules = example_schedule 1 "P" ∷ example_schedule 2 "O" ∷ [];
  movements = example_mvt 1 "EUSTON" ∷ example_mvt 2 "CREWE" ∷ [];
  files = [];
}

from_ntrod-runs_on_iso_weekday_example :
    runs_on_iso_weekday (from_ntrod all) 3 ≡ or_false (value_for_iso_weekday all 3)
from_ntrod-runs_on_iso_weekday_example = from_ntrod-runs_on_iso_weekday all 3

mvt_eq_of_incomparable_example :
    mvt_eq (example_mvt 1 "EUSTON") (example_mvt 2 "CREWE")
    ≡ ((example_mvt 1 "EUSTON").tiploc == (example_mvt 2 "CREWE").tiploc)
mvt_eq_of_incomparable_example =
    mvt_eq_of_incomparable (example_mvt 1 "EUSTON") (example_mvt 2 "CREWE") refl refl

get_auth_schedule-Outcome_example :
    Outcome
      (Applies proleptic "C10000" 3 0)
      example_db.schedules
      (get_auth_schedule proleptic example_db "C10000" 3 0)
get_auth_schedule-Outcome_example = get_auth_schedule-Outcome proleptic example_db "C10000" 3 0
