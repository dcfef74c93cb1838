-- ===== src/Fahrplan/Query/Examples.antt =====
-- The theorems about the movement query, for the train with an overlay.
use trainsplorer.Fahrplan.Types.{Schedule}
use trainsplorer.Fahrplan.Query.Through.Complete.{get_mvts_passing_through-finds}
use trainsplorer.Prelude.{
  true, ap, In, In-nil, inr, ◌⊎◌, ◌*◌, ◌+◌, ◌≡◌, refl, inl, some, [], ◌∷◌, string_eq, nat_eq,
  select, concat_map, str_lt,
}
use trainsplorer.Prelude.Maps.{get, insert}
use trainsplorer.Chrono.{proleptic, day}
use trainsplorer.Util.Time.{calculate_non_midnight_aware_times}
use trainsplorer.Fahrplan.Days.{from_iso_weekday}
use trainsplorer.Fahrplan.Examples.{example_schedule, example_mvt, example_db}
use trainsplorer.Fahrplan.Query.{
  process_schedule_join, found_rows, flag_of, uid_scheds_to_id_scheds, rows_through,
  get_mvts_passing_through,
}
use trainsplorer.Fahrplan.Query.Connecting.{rows_connecting, get_connecting_mvts}
use trainsplorer.Fahrplan.Query.Connecting.Answer.{IsPair, get_connecting_mvts-IsPair}
use trainsplorer.Fahrplan.Query.Join.{Floor, found_rows-Floor}
use trainsplorer.Fahrplan.Query.Through.{IsAnswer, get_mvts_passing_through-IsAnswer}

found_rows-Floor_example :
    Floor "C10000"
      (example_schedule 2 "O")
      (found_rows
        (record { smvts = []; schedules = [] })
        ((example_mvt 1 "EUSTON", example_schedule 1 "P", example_schedule 2 "O") ∷ [])).schedules
found_rows-Floor_example =
    found_rows-Floor (record { smvts = []; schedules = [] })
      ((example_mvt 1 "EUSTON", example_schedule 1 "P", example_schedule 2 "O") ∷ [])
      (example_mvt 1 "EUSTON", example_schedule 1 "P", example_schedule 2 "O") (inl refl)

get_connecting_mvts-IsPair_example :
    IsPair example_db "CREWE" "CREWE"
      (calculate_non_midnight_aware_times proleptic (3 * day + 20) 30).0
      (calculate_non_midnight_aware_times proleptic (3 * day + 20) 30).1
      (get_connecting_mvts proleptic example_db "CREWE" (3 * day + 20) 30 "CREWE")
      2
unfolding get get_connecting_mvts rows_connecting insert select concat_map
    calculate_non_midnight_aware_times from_iso_weekday uid_scheds_to_id_scheds
    process_schedule_join str_lt
get_connecting_mvts-IsPair_example =
    get_connecting_mvts-IsPair proleptic example_db "CREWE" (3 * day + 20) 30 "CREWE" 2 (inl refl)

get_mvts_passing_through-IsAnswer_example :
    IsAnswer example_db "CREWE"
      (calculate_non_midnight_aware_times proleptic (3 * day + 20) 30).0
      (calculate_non_midnight_aware_times proleptic (3 * day + 20) 30).1
      (proleptic.date (3 * day + 20))
      (flag_of (from_iso_weekday (proleptic.number_from_monday (proleptic.date (3 * day + 20)))))
      (get_mvts_passing_through proleptic example_db "CREWE" (3 * day + 20) 30)
      2
      (example_mvt 2 "CREWE")
unfolding get get_mvts_passing_through insert select concat_map calculate_non_midnight_aware_times
    from_iso_weekday uid_scheds_to_id_scheds process_schedule_join rows_through str_lt
get_mvts_passing_through-IsAnswer_example =
    get_mvts_passing_through-IsAnswer proleptic example_db "CREWE" (3 * day + 20) 30 2
      (example_mvt 2 "CREWE") refl

overlay_overrides :
    (t : Schedule)
    → In t example_db.schedules
    → (t ≡ example_schedule 2 "O") ⊎ (str_lt "O" t.stp_indicator ≡ true)
unfolding str_lt
overlay_overrides t (inl e) = inr (ap (λ s. str_lt "O" s.stp_indicator) e)
overlay_overrides t (inr (inl e)) = inl e
overlay_overrides t (inr (inr h)) = In-nil t h

get_mvts_passing_through-finds_example :
    get 2 (get_mvts_passing_through proleptic example_db "CREWE" (3 * day + 20) 30).mvts
    ≡ some (example_mvt 2 "CREWE")
unfolding calculate_non_midnight_aware_times from_iso_weekday
get_mvts_passing_through-finds_example =
    get_mvts_passing_through-finds proleptic example_db "CREWE" (3 * day + 20) 30
      (example_mvt 2 "CREWE") ((refl, tt), (tt, tt))
      (record {
        movement_in = inr (inl refl);
        movement_passes = refl;
        parent = example_schedule 2 "O";
        parent_in = inr (inl refl);
        parent_is = refl;
        parent_in_force = refl;
        overrides = λ t h same force. overlay_overrides t h;
      })
