-- ===== src/Nrod/Trust/Examples.antt =====
-- The theorems about the TRUST worker, for a train that the worker knows and a batch with a movement
-- and a cancellation of it, and a message that it does not handle; the months all have 31 days.
use trainsplorer.Prelude.{
  ℕ, ◌+◌, ◌*◌, ◌%◌, ◌≡◌, ◌≢◌, refl, String, Bool, true, false, none, some, List, [], ◌∷◌, All, inl,
  inr, arith, nat_eq,
}
use trainsplorer.Chrono.{proleptic, day, second}
use trainsplorer.Sqlite.{counting}
use trainsplorer.Ntrod.Movements.{
  Movement, Cancellation, MvtBody, movement, cancellation, reinstatement, departure, automatic,
  on_time, neither, at_origin,
}
use trainsplorer.Fahrplan.Examples.{example_db}
use trainsplorer.Zugfuhrer.Types.{TrustMvtUpdate}
use trainsplorer.Zugfuhrer.Activation.{served_by}
use trainsplorer.Fahrplan.Order.{stable}
use trainsplorer.Zugfuhrer.Activation.Uuids.{Knows}
use trainsplorer.Zugfuhrer.App.{App}
use trainsplorer.Zugfuhrer.App.Examples.{example_app}
use trainsplorer.Nrod.Worker.{Worker}
use trainsplorer.Nrod.Trust.{trust_id_extract_day_of_month, movement_headers, on_mvt_message}
use trainsplorer.Nrod.Trust.DayOffset.{movement_headers-day_offset}
use trainsplorer.Nrod.Trust.Running.{zugfuhrer, on_mvt_message-known}

abbrev day_of_month : ℕ → ℕ
day_of_month d = d % 31 + 1

months_of_31 : (d : ℕ) → day_of_month d ≢ day_of_month (d + 1)
months_of_31 d h = omega (arith, h)

abbrev fits : String → Bool
fits h = true

-- Planned for twenty minutes past midnight, on the day after the one on which the train set off.
abbrev report : Movement
report = record {
  event_type = departure;
  gbtt_timestamp = none;
  original_loc_stanox = none;
  planned_timestamp = some (36 * day + 1200 * second);
  timetable_variation = 0;
  original_loc_timestamp = none;
  current_train_id = none;
  delay_monitoring_point = true;
  next_report_run_time = none;
  reporting_stanox = none;
  actual_timestamp = 36 * day + 1260 * second;
  correction_ind = false;
  event_source = automatic;
  train_file_address = none;
  platform = some "2";
  division_code = "42";
  train_terminated = true;
  train_id = "422A01MT05";
  offroute_ind = false;
  variation_status = on_time;
  train_service_code = "22721000";
  toc_id = "20";
  loc_stanox = "42140";
  auto_expected = none;
  direction_ind = neither;
  route = none;
  planned_event_type = departure;
  next_report_stanox = none;
  line_ind = none;
}

abbrev withdrawn : Cancellation
withdrawn = record {
  train_service_code = "22721000";
  train_file_address = none;
  orig_loc_stanox = none;
  toc_id = "20";
  dep_timestamp = 35 * day;
  division_code = "42";
  loc_stanox = "42140";
  canx_timestamp = 36 * day;
  canx_reason_code = "YI";
  train_id = "422A01MT05";
  orig_loc_timestamp = none;
  canx_type = at_origin;
}

abbrev knowing : Worker App
knowing = record { to_tspl = ("422A01MT05", 9) ∷ []; service = example_app }

abbrev batch : List MvtBody
batch = movement report ∷ reinstatement ∷ cancellation withdrawn ∷ []

abbrev after : Worker App
after =
    on_mvt_message
      (zugfuhrer counting (served_by stable proleptic example_db) proleptic (λ app. 10)) proleptic
      day_of_month fits knowing batch

on_mvt_message-known_example : All (λ (e : String × ℕ). Knows e.1 after.service.db) after.to_tspl
on_mvt_message-known_example =
    on_mvt_message-known counting (served_by stable proleptic example_db) proleptic (λ app. 10)
      day_of_month fits batch knowing (inl refl, tt)

abbrev sent : TrustMvtUpdate
sent = record {
  stanox = "42140";
  planned_time = 1200 * second;
  planned_day_offset = 1;
  planned_action = 1;
  actual_time = 1260 * second;
  actual_public_time = none;
  platform = some "2";
}

movement_headers-day_offset_example :
    (35 + sent.planned_day_offset ≡ proleptic.date (36 * day + 1200 * second))
    × (sent.planned_time ≡ proleptic.time (36 * day + 1200 * second))
    × (sent.actual_time ≡ proleptic.time (36 * day + 1260 * second))
unfolding movement_headers trust_id_extract_day_of_month
movement_headers-day_offset_example =
    movement_headers-day_offset
      (zugfuhrer counting (served_by stable proleptic example_db) proleptic (λ app. 10)) proleptic
      day_of_month fits report (36 * day + 1200 * second) 35 sent months_of_31 refl (inr refl) refl
