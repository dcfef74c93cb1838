-- ===== src/Nrod/Darwin/Worker/Examples.antt =====
-- The theorems about the Darwin worker, for a status of a train that it knows, and of one that it does
-- not.
use trainsplorer.Prelude.{ℕ, String, ◌≡◌, refl, Bool, true, some, [], ◌∷◌, All, inl, string_eq}
use trainsplorer.Prelude.Maps.{get}
use trainsplorer.Chrono.{proleptic}
use trainsplorer.Sqlite.{counting}
use trainsplorer.Fahrplan.Examples.{example_db}
use trainsplorer.Zugfuhrer.Activation.{served_by}
use trainsplorer.Fahrplan.Order.{stable}
use trainsplorer.Zugfuhrer.Activation.Uuids.{Knows}
use trainsplorer.Zugfuhrer.App.{App}
use trainsplorer.Zugfuhrer.App.Examples.{example_app}
use trainsplorer.Nrod.Worker.{Worker}
use trainsplorer.Nrod.Examples.{example_location}
use trainsplorer.Nrod.Darwin.Worker.{DarwinService, PportElement, data_response, process_pport}
use trainsplorer.Nrod.Darwin.Worker.Stable.{process_pport-stable}
use trainsplorer.Nrod.Darwin.Worker.Running.{zugfuhrer_for_darwin, process_pport-known}

abbrev fits : String → Bool
fits h = true

abbrev service : DarwinService App
service = zugfuhrer_for_darwin counting (served_by stable proleptic example_db) (λ app. 10)

abbrev knowing : Worker App
knowing = record { to_tspl = ("202001030000001", 9) ∷ []; service = example_app }

abbrev message : PportElement
message = data_response (
    record {
      locations = example_location ∷ [];
      rid = "202001030000001";
      uid = "C10000";
      start_date = 3;
    }
    ∷ record {
      locations = example_location ∷ [];
      rid = "202001030000002";
      uid = "C20000";
      start_date = 3;
    }
    ∷ [])

process_pport-known_example :
    All
      (λ (e : String × ℕ). Knows e.1 (process_pport service fits knowing message).service.db)
      (process_pport service fits knowing message).to_tspl
process_pport-known_example =
    process_pport-known counting (served_by stable proleptic example_db) (λ app. 10) fits knowing
      message (inl refl, tt)

process_pport-stable_example :
    get "202001030000001" (process_pport service fits knowing message).to_tspl ≡ some 9
unfolding get
process_pport-stable_example =
    process_pport-stable service fits "202001030000001" 9 knowing message refl
