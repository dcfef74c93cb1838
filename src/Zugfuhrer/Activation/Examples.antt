-- ===== src/Zugfuhrer/Activation/Examples.antt =====
-- The theorems about activation, for a train that tspl-fahrplan knows, and an empty database.
use trainsplorer.Prelude.{◌≡◌, refl, [], ◌∷◌, select, update_where}
use trainsplorer.Sqlite.{counting, any_row, one_more}
use trainsplorer.Fahrplan.Examples.{example_mvt}
use trainsplorer.Zugfuhrer.Types.{Train, ZugDb, from_itps}
use trainsplorer.Zugfuhrer.Errors.{ZugResult, ok, err}
use trainsplorer.Zugfuhrer.Store.{insert_train, insert_mvt}
use trainsplorer.Zugfuhrer.Store.Valid.{IsValid}
use trainsplorer.Zugfuhrer.Activation.{ActivationDetails, new_train, activate_lowlevel}
use trainsplorer.Zugfuhrer.Activation.Idempotent.{activate_lowlevel-idempotent}

abbrev example_activation : ActivationDetails
example_activation = record {
  uid = "C10000";
  start_date = 0;
  stp_indicator = "O";
  source = 0;
  run_date = 3;
}

abbrev no_trains : ZugDb
no_trains = record { trains = []; movements = []; corpus = [] }

abbrev result : ZugResult (Train × ZugDb) → Train × ZugDb
result (ok r) = r
result (err _) = (new_train 0 example_activation, no_trains)

abbrev activated : Train × ZugDb
activated = result (
    activate_lowlevel counting 9 no_trains example_activation
      (from_itps (example_mvt 1 "EUSTON") ∷ from_itps (example_mvt 2 "CREWE") ∷ []))

no_trains-IsValid : IsValid no_trains
no_trains-IsValid = record {
  train_ids = tt;
  mvts = record { ids = tt; parents = tt; updated = tt };
}

activate_lowlevel-idempotent_example :
    activate_lowlevel counting 10
      (activated.1)
      example_activation
      (from_itps (example_mvt 1 "EUSTON") ∷ from_itps (example_mvt 2 "CREWE") ∷ [])
    ≡ ok activated
unfolding activate_lowlevel insert_train insert_mvt any_row select update_where one_more
activate_lowlevel-idempotent_example =
    activate_lowlevel-idempotent counting 9 10 no_trains (activated.1) example_activation
      (from_itps (example_mvt 1 "EUSTON") ∷ from_itps (example_mvt 2 "CREWE") ∷ []) (activated.0)
      refl
