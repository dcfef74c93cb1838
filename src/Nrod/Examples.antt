-- ===== src/Nrod/Examples.antt =====
-- The theorems about Darwin, for a train that leaves at 23:00 and has three locations after midnight.
use trainsplorer.Prelude.{◌*◌, ◌≡◌, arith, none, some, Bool, [], ◌∷◌, length, select}
use trainsplorer.Prelude.Maps.{is_some}
use trainsplorer.Chrono.{second}
use trainsplorer.Nrod.Darwin.{Timings, TsLocation, midnight, flatten_locations}
use trainsplorer.Nrod.Darwin.Offsets.{after_times, wraps, after_times-offset}
use trainsplorer.Nrod.Darwin.Requests.{all_planned, flatten_locations-is_some}

abbrev no_times : Timings
no_times = record { wta = none; pta = none; wtd = none; ptd = none; wtp = none }

abbrev pub example_location : TsLocation
example_location = record {
  tiploc = "CREWE";
  timings = record no_times { ptd = some 5 };
  arr = none;
  dep = some (record { at = some 6; wet = none; et = none; delayed = Bool.false });
  pass = none;
  plat = none;
}

after_times-offset_example :
    (after_times midnight
      (82800 * second ∷ 600 * second ∷ 1200 * second ∷ 1800 * second ∷ [])).day_offset
    ≡ length (select (wraps (82800 * second)) (600 * second ∷ 1200 * second ∷ 1800 * second ∷ []))
after_times-offset_example =
    after_times-offset (82800 * second) (600 * second ∷ 1200 * second ∷ 1800 * second ∷ [])
      (omega arith, (omega arith, (omega arith, tt))) (omega arith)

flatten_locations-is_some_example :
    is_some (flatten_locations (example_location ∷ [])) ≡ all_planned (example_location ∷ [])
flatten_locations-is_some_example = flatten_locations-is_some (example_location ∷ [])
