-- ===== src/Nrod/Darwin/Worker/Running.antt =====
-- The worker of tspl-nrod/src/darwin.rs with tspl-zugfuhrer as its service.
use trainsplorer.Prelude.{ℕ, String, subst, Bool, All, string_eq}
use trainsplorer.Sqlite.{Rowids}
use trainsplorer.Zugfuhrer.Activation.{Fahrplan}
use trainsplorer.Zugfuhrer.Activation.Uuids.{Knows}
use trainsplorer.Zugfuhrer.App.{
  App, process_darwin_mvt_update, activate_train_darwin_rid, get_train_for_darwin_rid,
}
use trainsplorer.Zugfuhrer.App.Uuids
use trainsplorer.Nrod.Worker.{Worker}
use trainsplorer.Nrod.Trust.Running.{served, served_with, served-tspl_id}
use trainsplorer.Nrod.Darwin.Worker.{DarwinService, PportElement, process_pport}
use trainsplorer.Nrod.Darwin.Worker.Known.{KeepsTrains, process_pport-IsCoherent}

module _ (sq : Rowids) (f : Fahrplan) (new_v4 : App → ℕ) where
  abbrev pub zugfuhrer_for_darwin : DarwinService App
  zugfuhrer_for_darwin = record {
    by_darwin_rid = λ app rid. served (get_train_for_darwin_rid app.db rid);
    activate_fuzzy = λ app uid date rid.
        served_with (activate_train_darwin_rid sq f (new_v4 app) app uid date rid);
    darwin_update = λ app tid upd. served_with (process_darwin_mvt_update sq app tid upd);
  }

  zugfuhrer_for_darwin-KeepsTrains :
      KeepsTrains zugfuhrer_for_darwin (λ app uuid. Knows uuid app.db)
  zugfuhrer_for_darwin-KeepsTrains = record {
    found = λ app rid uuid h.
        let (t, e, is) = served-tspl_id (get_train_for_darwin_rid app.db rid) uuid h in
        subst (λ u. Knows u app.db) is (Uuids.get_train_for_darwin_rid-Knows app.db rid t e);
    activate_returns = λ app uid date rid uuid h.
        let (t, e, is) =
          served-tspl_id (activate_train_darwin_rid sq f (new_v4 app) app uid date rid).0 uuid h in
        subst (λ u. Knows u (activate_train_darwin_rid sq f (new_v4 app) app uid date rid).1.db) is
          (Uuids.activate_train_darwin_rid-returns sq f (new_v4 app) app uid date rid t e);
    activate_keeps = λ app uid date rid uuid.
        Uuids.activate_train_darwin_rid-Knows sq f (new_v4 app) app uid date rid uuid;
    update_keeps = λ app tid upd uuid. Uuids.process_darwin_mvt_update-Knows sq uuid app tid upd;
  }

  -- Whatever tspl-fahrplan answers: if every UUID in the map of the Darwin worker is that of a train in the
  -- train database, then this is so after any message.
  pub process_pport-known :
      (is_header : String → Bool) (wk : Worker App) (pp : PportElement)
      → All (λ (e : String × ℕ). Knows e.1 wk.service.db) wk.to_tspl
      → All
          (λ (e : String × ℕ).
            Knows e.1 (process_pport zugfuhrer_for_darwin is_header wk pp).service.db)
          (process_pport zugfuhrer_for_darwin is_header wk pp).to_tspl
  process_pport-known is_header wk pp h =
      process_pport-IsCoherent zugfuhrer_for_darwin is_header (λ app uuid. Knows uuid app.db)
        zugfuhrer_for_darwin-KeepsTrains wk pp h
