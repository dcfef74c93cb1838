-- ===== src/Zugfuhrer/App.antt =====
-- tspl-zugfuhrer/src/ctx.rs: the requests that change a train or look one up. The state is the
-- database and what was broadcast; a request returns its result and the new state. A transaction
-- that fails leaves the database as it was.
pub mod Updates
pub mod Trains
pub mod Sound
pub mod Reach
pub mod Uuids
pub mod Examples
use trainsplorer.Prelude.{
  ℕ, String, Bool, true, false, not, Option, none, some, List, [], ◌∷◌, ◌++◌, ◌&&◌, ◌||◌, nat_eq,
  string_eq, ◌==◌, ltb, length, select, first, Sorter, if◌then◌else◌,
}
use trainsplorer.Prelude.Maps.{is_some}
use trainsplorer.Chrono.{Chrono}
use trainsplorer.Sqlite.{Rowids, any_row}
use trainsplorer.Zugfuhrer.Types.{
  Train, TrainMvt, DarwinMvtUpdate, TrustMvtUpdate, CorpusEntry, ZugDb, TrainDetails,
  source_sched_itps, source_trust, source_darwin,
}
use trainsplorer.Fahrplan.Types.{unset}
use trainsplorer.Zugfuhrer.Errors.{
  ZugResult, ok, err, not_found, movements_not_found, movements_ambiguous, ◌>>=◌, ok_or,
}
use trainsplorer.Zugfuhrer.Store.{
  sql_eq, train_with_id, with_tspl_id, update_trains, delete_mvts, insert_mvt,
}
use trainsplorer.Zugfuhrer.Activation.{Fahrplan, activate_train_darwin, activate_train_nrod}

-- `BroadcastUpdate`
pub data Broadcast : Type 0 where
  train_mvt : TrainMvt → Broadcast
  train_activation : Train → Broadcast

pub record App : Type 0 where
  pub db : ZugDb
  pub cast : List Broadcast

-- After a transaction: its database and a broadcast if it succeeded, nothing if it did not.
abbrev pub commit {ℓ} :
    {A : Type ℓ} → App → (A → Broadcast) → ZugResult (A × ZugDb) → ZugResult A × App
commit app send (ok (a, db)) = (ok a, record { db = db; cast = app.cast ++ send a ∷ [] })
commit app send (err e) = (err e, app)

unfoldable pub find_train : ZugDb → ℕ → ZugResult Train
find_train db tid = ok_or (first (select (with_tspl_id tid) db.trains)) not_found

abbrev is_null {ℓ} : {A : Type ℓ} → Option A → Bool
is_null o = not (is_some o)

-- The movement that an update is about, by `WHERE parent_train = ? AND time = ? AND action = ? AND
-- day_offset = ? AND updates IS NULL AND source = ? AND tiploc = ?`.
abbrev pub darwin_target : ℕ → DarwinMvtUpdate → TrainMvt → Bool
darwin_target tid upd m =
    m.parent_train == tid
    && (m.time == upd.planned_time
        && (m.action == upd.planned_action
            && (m.day_offset == upd.planned_day_offset
                && (is_null m.updates
                    && (m.source == source_sched_itps && m.tiploc == upd.tiploc)))))

-- `tiploc IN (SELECT tiploc FROM corpus_entries WHERE corpus_entries.stanox = ?)`
abbrev pub at_stanox : List CorpusEntry → String → String → Bool
at_stanox corpus stanox tiploc =
    any_row (λ e. sql_eq e.stanox (some stanox) && sql_eq e.tiploc (some tiploc)) corpus

abbrev pub trust_target : ZugDb → ℕ → TrustMvtUpdate → TrainMvt → Bool
trust_target db tid upd m =
    m.parent_train == tid
    && (m.time == upd.planned_time
        && ((m.action == 2 || m.action == upd.planned_action)
            && (m.day_offset == upd.planned_day_offset
                && (is_null m.updates
                    && (m.source == source_sched_itps
                        && at_stanox db.corpus upd.stanox m.tiploc)))))

-- More than one match is ambiguous, none is an error.
pub only : List TrainMvt → ZugResult TrainMvt
only tmvts =
    if ltb 1 (length tmvts)
    then err movements_ambiguous
    else ok_or (first tmvts) movements_not_found

abbrev pub darwin_mvt : Train → TrainMvt → DarwinMvtUpdate → TrainMvt
darwin_mvt train updates upd = record {
  id = unset;
  parent_train = train.id;
  updates = some updates.id;
  tiploc = upd.tiploc;
  action = upd.planned_action;
  actual = upd.time_actual;
  time = upd.updated_time;
  public_time = none;
  day_offset = upd.planned_day_offset;
  source = source_darwin;
  platform = upd.platform;
  pfm_suppr = upd.platsup;
  unknown_delay = upd.delay_unknown;
}

abbrev pub trust_mvt : Train → TrainMvt → TrustMvtUpdate → TrainMvt
trust_mvt train updates upd = record {
  id = unset;
  parent_train = train.id;
  updates = some updates.id;
  tiploc = updates.tiploc;
  action = upd.planned_action;
  actual = true;
  time = upd.actual_time;
  public_time = upd.actual_public_time;
  day_offset = upd.planned_day_offset;
  source = source_trust;
  platform = upd.platform;
  pfm_suppr = false;
  unknown_delay = false;
}

-- `DELETE FROM train_movements WHERE updates = ? AND source = ?`
abbrev pub darwin_update_of : ℕ → TrainMvt → Bool
darwin_update_of id m = sql_eq m.updates (some id) && m.source == source_darwin

module _ (sq : Rowids) where
  -- `tmvt.id = tmvt.insert_self(&trans)?`
  pub insert_tmvt : ZugDb → TrainMvt → ZugResult (TrainMvt × ZugDb)
  insert_tmvt db tmvt = insert_mvt sq db tmvt >>= λ r. ok (record tmvt { id = r.0 }, r.1)

  pub darwin_transaction : ZugDb → ℕ → DarwinMvtUpdate → ZugResult (TrainMvt × ZugDb)
  unfolding find_train only insert_tmvt
  darwin_transaction db tid upd = do
    train ← find_train db tid
    updates ← only (select (darwin_target train.id upd) db.movements)
    insert_tmvt (delete_mvts (darwin_update_of updates.id) db) (darwin_mvt train updates upd)

  unfoldable pub process_darwin_mvt_update : App → ℕ → DarwinMvtUpdate → ZugResult TrainMvt × App
  unfolding darwin_transaction
  process_darwin_mvt_update app tid upd = commit app train_mvt (darwin_transaction app.db tid upd)

  pub trust_transaction : ZugDb → ℕ → TrustMvtUpdate → ZugResult (TrainMvt × ZugDb)
  unfolding find_train only insert_tmvt
  trust_transaction db tid upd = do
    train ← find_train db tid
    updates ← only (select (trust_target db train.id upd) db.movements)
    insert_tmvt db (trust_mvt train updates upd)

  unfoldable pub process_trust_mvt_update : App → ℕ → TrustMvtUpdate → ZugResult TrainMvt × App
  unfolding trust_transaction
  process_trust_mvt_update app tid upd = commit app train_mvt (trust_transaction app.db tid upd)

  module _ (f : Fahrplan) where
    unfoldable pub activate_train : ℕ → App → String → ℕ → String → ℕ → ℕ → ZugResult Train × App
    activate_train uuid app uid start_date stp_indicator source date =
        commit app train_activation
          (activate_train_nrod sq f uuid app.db uid start_date stp_indicator source date)

    -- `UPDATE trains SET darwin_rid = ? WHERE id = ?`, in a statement of its own: if it fails, the
    -- activation stays.
    pub set_rid : App → String → Train × ZugDb → ZugResult Train × App
    set_rid app rid (ret, db) =
        elim (update_trains (train_with_id ret.id) (λ t. record t { darwin_rid = some rid }) db) [
          | ok db' ↦ commit app train_activation (ok (record ret { darwin_rid = some rid }, db'))
          | err e ↦ (err e, record app { db = db })
        ]

    unfoldable pub activate_train_darwin_rid : ℕ → App → String → ℕ → String → ZugResult Train × App
    unfolding set_rid
    activate_train_darwin_rid uuid app uid date rid =
        elim (activate_train_darwin sq f uuid app.db uid date) [
          | ok r ↦ set_rid app rid r
          | err e ↦ (err e, app)
        ]

-- An `UPDATE` by UUID, which must reach a row.
pub update_by_tspl_id : (Train → Train) → App → ℕ → ZugResult (Unit {0}) × App
update_by_tspl_id f app tid = elim (update_trains (with_tspl_id tid) f app.db) [
  | err e ↦ (err e, app)
  | ok db' ↦
      if length (select (with_tspl_id tid) app.db.trains) == 0
      then (err not_found, record app { db = db' })
      else (ok tt, record app { db = db' })
]

unfoldable pub terminate_train : App → ℕ → ZugResult (Unit {0}) × App
unfolding update_by_tspl_id
terminate_train = update_by_tspl_id (λ t. record t { terminated = true })

unfoldable pub cancel_train : App → ℕ → ZugResult (Unit {0}) × App
unfolding update_by_tspl_id
cancel_train = update_by_tspl_id (λ t. record t { cancelled = true })

unfoldable pub associate_trust_id : App → ℕ → String → ZugResult (Unit {0}) × App
unfolding update_by_tspl_id
associate_trust_id app tid trust_id =
    update_by_tspl_id (λ t. record t { trust_id = some trust_id }) app tid

unfoldable pub get_train_for_darwin_rid : ZugDb → String → ZugResult Train
get_train_for_darwin_rid db rid =
    ok_or (first (select (λ t. sql_eq t.darwin_rid (some rid)) db.trains)) not_found

abbrev pub trust_id_on : Chrono → String → ℕ → Train → Bool
trust_id_on c trust_id date t =
    sql_eq t.trust_id (some trust_id)
    && (t.date == date || t.crosses_midnight && t.date == c.pred_date date)

unfoldable pub get_train_for_trust_id : Chrono → ZugDb → String → ℕ → ZugResult Train
get_train_for_trust_id c db trust_id date =
    ok_or (first (select (trust_id_on c trust_id date) db.trains)) not_found

-- `ORDER BY day_offset, time, action, updates ASC`, in which a NULL comes first.
abbrev null_lt : Option ℕ → Option ℕ → Bool
null_lt none none = false
null_lt none (some b) = true
null_lt (some a) none = false
null_lt (some a) (some b) = ltb a b

abbrev pub tmvt_lt : TrainMvt → TrainMvt → Bool
tmvt_lt a b =
    if ltb a.day_offset b.day_offset
    then true
    else if ltb b.day_offset a.day_offset
    then false
    else if ltb a.time b.time
    then true
    else if ltb b.time a.time
    then false
    else if ltb a.action b.action
    then true
    else if ltb b.action a.action
    then false
    else null_lt a.updates b.updates

unfoldable pub get_train_details : Sorter tmvt_lt → ZugDb → ℕ → ZugResult TrainDetails
unfolding find_train
get_train_details order_by db tid = do
  train ← find_train db tid
  ok (record {
    train = train;
    mvts = order_by.run (select (λ m. m.parent_train == train.id) db.movements);
  })
