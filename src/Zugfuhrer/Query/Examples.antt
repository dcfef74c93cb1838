-- ===== src/Zugfuhrer/Query/Examples.antt =====
-- The theorems about the movement queries, for a movement that Darwin has reported once.
use trainsplorer.Prelude.{◌*◌, true, nat_eq, ◌≡◌, refl, some, List, ◌∷◌, In, inl}
use trainsplorer.Prelude.Maps.{get}
use trainsplorer.Chrono.{proleptic, day, second}
use trainsplorer.Util.Time.{calculate_non_midnight_aware_times}
use trainsplorer.Zugfuhrer.Types.{TrainMvt}
use trainsplorer.Zugfuhrer.App.Examples.{
  example_app, example_app-IsValid, example_train, example_tmvt,
}
use trainsplorer.Zugfuhrer.Query.{updates_of, get_connecting_mvts}
use trainsplorer.Zugfuhrer.Query.Connecting.{Connections, get_connecting_mvts-Connections}
use trainsplorer.Zugfuhrer.Query.Groups.{
  Groups, answer, from, upto, get_mvts_passing_through-Groups,
}
use trainsplorer.Zugfuhrer.Query.Complete.{get_mvts_passing_through-finds_updates}

get_mvts_passing_through-Groups_example :
    Groups example_app.db "CREWE"
      (from proleptic (3 * day) second)
      (upto proleptic (3 * day) second)
      (answer proleptic example_app.db "CREWE" (3 * day) second).trains
      (answer proleptic example_app.db "CREWE" (3 * day) second).mvts
get_mvts_passing_through-Groups_example =
    get_mvts_passing_through-Groups proleptic example_app.db "CREWE" (3 * day) second

get_mvts_passing_through-finds_updates_example :
    (rest : List TrainMvt) × (get 1 (answer proleptic example_app.db "CREWE" (3 * day) second).mvts
      ≡ some (example_tmvt ∷ rest))
    × ((u : TrainMvt)
        → In u example_app.db.movements
        → updates_of 1 u ≡ true
        → In u (example_tmvt ∷ rest))
unfolding calculate_non_midnight_aware_times
get_mvts_passing_through-finds_updates_example =
    get_mvts_passing_through-finds_updates proleptic example_app.db "CREWE" (3 * day) second
      example_tmvt example_train example_app-IsValid (inl refl) refl (inl refl) refl

get_connecting_mvts-Connections_example :
    Connections example_app.db "CREWE" "CREWE"
      (from proleptic (3 * day) second)
      (upto proleptic (3 * day) second)
      (get_connecting_mvts proleptic example_app.db "CREWE" (3 * day) second "CREWE").mvts
      (get_connecting_mvts proleptic example_app.db "CREWE"
        (3 * day)
        second
        "CREWE").connecting_mvts
get_connecting_mvts-Connections_example =
    get_connecting_mvts-Connections proleptic example_app.db "CREWE" (3 * day) second "CREWE"
      example_app-IsValid
