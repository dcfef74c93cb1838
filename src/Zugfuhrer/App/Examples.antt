-- ===== src/Zugfuhrer/App/Examples.antt =====
-- The theorems about updates and TRUST ids, for a train with one movement that Darwin has already
-- reported once.
use trainsplorer.Prelude.{true, false, ◌≡◌, refl, none, some, [], ◌∷◌, In, select, update_where}
use trainsplorer.Chrono.{proleptic}
use trainsplorer.Sqlite.{counting, any_row, one_more}
use trainsplorer.Fahrplan.Examples.{example_db, example_mvt}
use trainsplorer.Zugfuhrer.Types.{Train, TrainMvt, DarwinMvtUpdate, TrustMvtUpdate, from_itps}
use trainsplorer.Zugfuhrer.Errors.{ZugResult, ok, err}
use trainsplorer.Zugfuhrer.Store.{insert_mvt, delete_mvts, update_trains}
use trainsplorer.Zugfuhrer.Store.Valid.{IsValid}
use trainsplorer.Zugfuhrer.App.{
  App, activate_train_darwin_rid, terminate_train, process_darwin_mvt_update, associate_trust_id,
  get_train_for_trust_id,
}
use trainsplorer.Zugfuhrer.App.Updates.Outcome.{
  IsOnlyDarwinUpdate, process_darwin_mvt_update-replaces,
}
use trainsplorer.Zugfuhrer.Activation.{served_by}
use trainsplorer.Fahrplan.Order.{stable}
use trainsplorer.Zugfuhrer.App.Reach.{
  Reachable, start, then_step, activated_darwin, terminated, Reachable-IsSound,
}
use trainsplorer.Zugfuhrer.App.Sound.{IsSound}
use trainsplorer.Zugfuhrer.App.Trains.{associate_trust_id-lookup}

abbrev pub example_train : Train
example_train = record {
  id = 1;
  tspl_id = 9;
  parent_uid = "C10000";
  parent_start_date = 0;
  parent_stp_indicator = "O";
  date = 3;
  trust_id = none;
  darwin_rid = none;
  headcode = none;
  crosses_midnight = false;
  parent_source = 0;
  terminated = false;
  cancelled = false;
  activated = true;
}

abbrev pub example_tmvt : TrainMvt
example_tmvt = record (from_itps (example_mvt 2 "CREWE")) { id = 1; parent_train = 1 }

abbrev pub reported : TrainMvt
reported = record example_tmvt { id = 2; updates = some 1; source = 4; time = 6 }

abbrev pub example_app : App
example_app = record {
  db = record {
    trains = example_train ∷ [];
    movements = example_tmvt ∷ reported ∷ [];
    corpus = record { stanox = some "42140"; tiploc = some "CREWE" } ∷ [];
  };
  cast = [];
}

abbrev darwin_update : DarwinMvtUpdate
darwin_update = record {
  tiploc = "CREWE";
  planned_time = 5;
  planned_day_offset = 0;
  planned_action = 1;
  updated_time = 7;
  time_actual = false;
  delay_unknown = false;
  platform = none;
  platsup = false;
}

abbrev trust_update : TrustMvtUpdate
trust_update = record {
  stanox = "42140";
  planned_time = 5;
  planned_day_offset = 0;
  planned_action = 1;
  actual_time = 8;
  actual_public_time = none;
  platform = none;
}

abbrev mvt_of : ZugResult TrainMvt → TrainMvt
mvt_of (ok m) = m
mvt_of (err _) = example_tmvt

pub example_app-IsValid : IsValid example_app.db
unfolding any_row
example_app-IsValid = record {
  train_ids = (tt, tt);
  mvts = record {
    ids = ((refl, tt), (tt, tt));
    parents = (refl, (refl, tt));
    updated = (tt, (refl, tt));
  };
}

abbrev running : App
running =
    (activate_train_darwin_rid counting (served_by stable proleptic example_db) 9
      (record { db = record { trains = []; movements = []; corpus = [] }; cast = [] }) "C10000" 3
      "202001030000001").1

-- A train is activated from Darwin, and then terminated.
abbrev pub terminated_train : App
terminated_train = (terminate_train running 9).1

pub terminated_train-Reachable : Reachable counting terminated_train
terminated_train-Reachable =
    then_step
      (then_step start
        (activated_darwin (served_by stable proleptic example_db) 9 "C10000" 3 "202001030000001"))
      (terminated 9)

Reachable-IsSound_example : IsSound terminated_train.db
Reachable-IsSound_example = Reachable-IsSound counting terminated_train terminated_train-Reachable

abbrev updated : ZugResult TrainMvt × App
updated = process_darwin_mvt_update counting example_app 9 darwin_update

process_darwin_mvt_update-replaces_example :
    (t : TrainMvt) × In t example_app.db.movements
    × (t.updates ≡ none)
    × (t.tiploc ≡ "CREWE")
    × IsOnlyDarwinUpdate example_app (updated.1) darwin_update t (mvt_of (updated.0))
unfolding process_darwin_mvt_update insert_mvt delete_mvts any_row select one_more
process_darwin_mvt_update-replaces_example =
    process_darwin_mvt_update-replaces counting example_app 9 darwin_update (mvt_of (updated.0))
      refl

associate_trust_id-lookup_example :
    get_train_for_trust_id proleptic
      (associate_trust_id example_app 9 "1A2B3C4D03").1.db
      "1A2B3C4D03"
      3
    ≡ ok (record example_train { trust_id = some "1A2B3C4D03" })
unfolding associate_trust_id update_trains any_row select update_where
associate_trust_id-lookup_example =
    associate_trust_id-lookup proleptic example_app 9 "1A2B3C4D03" example_train
      (record { ids = (tt, tt); uuids = (tt, tt) }) (refl, tt) refl refl
