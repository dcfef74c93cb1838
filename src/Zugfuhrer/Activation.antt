-- ===== src/Zugfuhrer/Activation.antt =====
-- tspl-zugfuhrer/src/activation.rs. A failed statement drops the transaction: the caller keeps the
-- database that it had. `Uuid::new_v4()` is called once at most: its value is an argument. What
-- tspl-fahrplan answers is a parameter; `served_by` is that service itself.
pub mod Idempotent
pub mod Valid
pub mod Uuids
pub mod Examples
use trainsplorer.Prelude.{
  ℕ, String, Bool, true, false, not, Option, none, some, List, [], ◌∷◌, ◌&&◌, nat_eq, string_eq,
  ◌==◌, ltb, length, map, select, first, Sorter, update_where, if◌then◌else◌,
}
use trainsplorer.Chrono.{Chrono}
use trainsplorer.Sqlite.{Rowids}
use trainsplorer.Util.Rpc.{RpcResult, receive}
use trainsplorer.Fahrplan.Errors
use trainsplorer.Fahrplan.Errors.{FahrplanResult}
use trainsplorer.Fahrplan.Types.{Schedule, ScheduleDetails, FahrplanDb, mvt_lt, source_itps, unset}
use trainsplorer.Fahrplan.Auth.{find_schedule_on_date}
use trainsplorer.Fahrplan.Lookup.{find_schedule_for_activation, request_schedule_details}
use trainsplorer.Zugfuhrer.Types.{Train, TrainMvt, ZugDb, from_itps}
use trainsplorer.Zugfuhrer.Errors.{ZugError, ZugResult, ok, err, ◌>>=◌, from_rpc, optional}
use trainsplorer.Zugfuhrer.Store.{train_with_id, insert_train, insert_mvt}

pub record ActivationDetails : Type 0 where
  pub uid : String
  pub start_date : ℕ
  pub stp_indicator : String
  pub source : ℕ
  pub run_date : ℕ

-- The requests that the activator makes of tspl-fahrplan.
pub record Fahrplan : Type 0 where
  -- GET /schedules/by-uid-on-date/{uid}/{on_date}/{source}
  pub by_uid_on_date : String → ℕ → ℕ → RpcResult Schedule
  -- GET /schedules/for-activation/{uid}/{start_date}/{stp_indicator}/{source}
  pub for_activation : String → ℕ → String → ℕ → RpcResult Schedule
  -- GET /schedule/{uuid}
  pub details : ℕ → RpcResult ScheduleDetails

-- A handler's result, as a response with a status, received by the caller.
abbrev pub served {ℓ} : {A : Type ℓ} → FahrplanResult A → RpcResult A
served (FahrplanResult.ok a) = receive 200 (some a)
served (FahrplanResult.err e) = receive (Errors.status_code e) none

unfoldable pub served_by : Sorter mvt_lt → Chrono → FahrplanDb → Fahrplan
served_by order_by c db = record {
  by_uid_on_date = λ uid on_date source. served (find_schedule_on_date c db uid on_date source);
  for_activation = λ uid start_date stp source.
      served (find_schedule_for_activation db uid stp start_date source);
  details = λ uuid. served (request_schedule_details order_by db uuid);
}

-- `WHERE parent_uid = ? AND parent_start_date = ? AND parent_stp_indicator = ? AND
-- parent_source = ? AND date = ?`
abbrev pub runs_to : ActivationDetails → Train → Bool
runs_to ad t =
    t.parent_uid == ad.uid
    && (t.parent_start_date == ad.start_date
        && (t.parent_stp_indicator == ad.stp_indicator
            && (t.parent_source == ad.source && t.date == ad.run_date)))

abbrev pub new_train : ℕ → ActivationDetails → Train
new_train uuid ad = record {
  id = unset;
  tspl_id = uuid;
  parent_uid = ad.uid;
  parent_start_date = ad.start_date;
  parent_stp_indicator = ad.stp_indicator;
  date = ad.run_date;
  trust_id = none;
  darwin_rid = none;
  headcode = none;
  crosses_midnight = false;
  parent_source = ad.source;
  terminated = false;
  cancelled = false;
  activated = false;
}

module _ (sq : Rowids) where
  -- `for mut mvt in mvts { mvt.parent_train = train.id; mvt.insert_self(&trans)?; }`
  pub copy_mvts : ZugDb → ℕ → List TrainMvt → ZugResult ZugDb
  copy_mvts db tid [] = ok db
  copy_mvts db tid (m ∷ ms) =
      insert_mvt sq db (record m { parent_train = tid }) >>= λ r. copy_mvts r.1 tid ms

  -- `train.activated = true`, and the `UPDATE` that goes with it.
  abbrev pub set_activated : ℕ → ZugDb → ZugDb
  set_activated tid db = record db {
    trains = update_where (train_with_id tid) (λ t. record t { activated = true }) db.trains;
  }

  pub finish : ZugDb → Train → List TrainMvt → ZugResult (Train × ZugDb)
  unfolding copy_mvts
  finish db train mvts =
      if not train.activated && ltb 0 (length mvts)
      then (copy_mvts db train.id mvts >>= λ db'.
          ok (record train { activated = true }, set_activated train.id db'))
      else ok (train, db)

  unfoldable pub activate_lowlevel :
      ℕ → ZugDb → ActivationDetails → List TrainMvt → ZugResult (Train × ZugDb)
  unfolding finish
  activate_lowlevel uuid db ad mvts = elim (first (select (runs_to ad) db.trains)) [
    | some ret ↦
        if not ret.activated && ltb 0 (length mvts) then finish db ret mvts else ok (ret, db)
    | none ↦ insert_train sq db (new_train uuid ad) >>= λ r.
        finish r.1 (record (new_train uuid ad) { id = r.0 }) mvts
  ]

  module _ (f : Fahrplan) where
    unfoldable pub get_tmvts_for_schedule : Schedule → ZugResult (List TrainMvt)
    get_tmvts_for_schedule sched = do
      details ← from_rpc (f.details sched.tspl_id)
      ok (map from_itps details.mvts)

    unfoldable pub activate_train_darwin : ℕ → ZugDb → String → ℕ → ZugResult (Train × ZugDb)
    unfolding activate_lowlevel
    activate_train_darwin uuid db uid run_date = do
      sched ← from_rpc (f.by_uid_on_date uid run_date source_itps)
      tmvts ← get_tmvts_for_schedule sched
      activate_lowlevel uuid db
          (record {
            uid = uid;
            start_date = sched.start_date;
            stp_indicator = sched.stp_indicator;
            source = sched.source;
            run_date = run_date;
          })
          tmvts

    mvts_if_found : Option Schedule → ZugResult (List TrainMvt)
    mvts_if_found none = ok []
    mvts_if_found (some sched) = get_tmvts_for_schedule sched

    unfoldable pub activate_train_nrod :
        ℕ → ZugDb → String → ℕ → String → ℕ → ℕ → ZugResult (Train × ZugDb)
    unfolding mvts_if_found
    activate_train_nrod uuid db uid start_date stp_indicator source date = do
      sched ← optional (from_rpc (f.for_activation uid start_date stp_indicator source))
      mvts ← mvts_if_found sched
      activate_lowlevel uuid db
          (record {
            uid = uid;
            start_date = start_date;
            stp_indicator = stp_indicator;
            source = source;
            run_date = date;
          })
          mvts
