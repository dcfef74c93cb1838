-- ===== src/Zugfuhrer/App/Reach.antt =====
-- The states that the requests of tspl-zugfuhrer/src/ctx.rs lead to, in any order, whatever
-- tspl-fahrplan answers to each, from a database without trains.
use trainsplorer.Prelude.{ℕ, String, refl, List, [], nat_eq}
use trainsplorer.Sqlite.{Rowids}
use trainsplorer.Zugfuhrer.Types.{CorpusEntry, DarwinMvtUpdate, TrustMvtUpdate}
use trainsplorer.Zugfuhrer.Activation.{Fahrplan}
use trainsplorer.Zugfuhrer.App.{
  App, process_darwin_mvt_update, process_trust_mvt_update, activate_train,
  activate_train_darwin_rid, terminate_train, cancel_train, associate_trust_id,
}
use trainsplorer.Zugfuhrer.App.Sound.{
  IsSound, activate_train_darwin_rid-IsSound, activate_train-IsSound, darwin-IsSound, trust-IsSound,
  update_by_tspl_id-IsSound,
}

-- One request, or an import of CORPUS data.
pub data Step (sq : Rowids) (app : App) : App → Type 0 where
  activated :
      (f : Fahrplan) (uuid : ℕ) (uid : String) (start_date : ℕ) (stp_indicator : String)
      (source date : ℕ)
      → Step sq app (activate_train sq f uuid app uid start_date stp_indicator source date).1
  activated_darwin :
      (f : Fahrplan) (uuid : ℕ) (uid : String) (date : ℕ) (rid : String)
      → Step sq app (activate_train_darwin_rid sq f uuid app uid date rid).1
  updated_darwin :
      (tid : ℕ) (upd : DarwinMvtUpdate) → Step sq app (process_darwin_mvt_update sq app tid upd).1
  updated_trust :
      (tid : ℕ) (upd : TrustMvtUpdate) → Step sq app (process_trust_mvt_update sq app tid upd).1
  terminated : (tid : ℕ) → Step sq app (terminate_train app tid).1
  cancelled : (tid : ℕ) → Step sq app (cancel_train app tid).1
  associated : (tid : ℕ) (trust_id : String) → Step sq app (associate_trust_id app tid trust_id).1
  imported :
      (corpus : List CorpusEntry)
      → Step sq app (record app { db = record app.db { corpus = corpus } })

pub data Reachable (sq : Rowids) : App → Type 0 where
  start :
      Reachable sq (record { db = record { trains = []; movements = []; corpus = [] }; cast = [] })
  then_step : {app app' : App} → Reachable sq app → Step sq app app' → Reachable sq app'

Step-IsSound : (sq : Rowids) (app app' : App) → Step sq app app' → IsSound app.db → IsSound app'.db
unfolding terminate_train cancel_train associate_trust_id
Step-IsSound sq app _ (activated f uuid uid start_date stp source date) s =
    activate_train-IsSound sq f uuid app uid start_date stp source date s
Step-IsSound sq app _ (activated_darwin f uuid uid date rid) s =
    activate_train_darwin_rid-IsSound sq f uuid app uid date rid s
Step-IsSound sq app _ (updated_darwin tid upd) s = darwin-IsSound sq app tid upd s
Step-IsSound sq app _ (updated_trust tid upd) s = trust-IsSound sq app tid upd s
Step-IsSound sq app _ (terminated tid) s = update_by_tspl_id-IsSound _ app tid (λ t. refl) s
Step-IsSound sq app _ (cancelled tid) s = update_by_tspl_id-IsSound _ app tid (λ t. refl) s
Step-IsSound sq app _ (associated tid trust_id) s =
    update_by_tspl_id-IsSound _ app tid (λ t. refl) s
Step-IsSound sq app _ (imported corpus) s = record {
  valid = record { train_ids = s.valid.train_ids; mvts = s.valid.mvts };
  grounded = s.grounded;
}

-- Whatever requests came before, in whatever order, and whatever tspl-fahrplan answered: the train
-- database is well formed, and every movement that updates no other comes from the schedule.
pub Reachable-IsSound : (sq : Rowids) (app : App) → Reachable sq app → IsSound app.db
Reachable-IsSound sq _ start = record {
  valid = record { train_ids = tt; mvts = record { ids = tt; parents = tt; updated = tt } };
  grounded = tt;
}
Reachable-IsSound sq _ (then_step {app} {app'} before step) =
    Step-IsSound sq app app' step (Reachable-IsSound sq app before)
