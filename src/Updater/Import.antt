-- ===== src/Updater/Import.antt =====
-- tspl-fahrplan-updater/src/import.rs: one record. The database is the state, and a failure is a
-- value. `Uuid::new_v4()` is called at most once per record: the value that it would give is an
-- argument.
pub mod Midnight
pub mod Valid
pub mod Files
pub mod Stored
pub mod Again
pub mod Undone
pub mod Outcome
pub mod Examples
use trainsplorer.Updater.Engine.{Engine}
use trainsplorer.Prelude.{
  ℕ, ◌+◌, ◌%◌, String, none, some, List, [], ◌∷◌, ◌++◌, Bool, true, false, not, ◌&&◌, ◌||◌, map,
  nat_eq, string_eq, ◌==◌, ltb, select, delete_where, update_where, first, is_sorted, if◌then◌else◌,
}
use trainsplorer.Sqlite.{any_row}
use trainsplorer.Ntrod.Cif.{as_char}
use trainsplorer.Ntrod.Schedule.{
  OriginatingStop, IntermediateStop, PassStop, TerminatingStop, LocationRecord, originating,
  intermediate, passing, terminating, Create, ScheduleRecord, create, delete, tiploc,
}
use trainsplorer.Fahrplan.Types.{
  Schedule, ScheduleMvt, FahrplanDb, source_itps, action_arrival, action_departure, action_pass,
  dummy, unset, mvt_eq, mvt_lt,
}
use trainsplorer.Fahrplan.Days.{from_ntrod}

pub data ImportError : Type 0 where
  constraint_failed no_timetable inserted_already greater_sequence : ImportError

pub data ImportResult {ℓ} (A : Type ℓ) : Type ℓ where
  ok : A → ImportResult A
  err : ImportError → ImportResult A

infixl 5 ◌>>=◌
abbrev pub ◌>>=◌ {ℓ κ} :
    {A : Type ℓ} {B : Type κ} → ImportResult A → (A → ImportResult B) → ImportResult B
ok a >>= f = f a
err e >>= f = err e

-- The mutable variables of the loop over the locations. `day_offset` is a `u8`, which wraps.
pub record Progress : Type 0 where
  pub day_offset : ℕ
  pub last_time : ℕ
  pub mvts : List ScheduleMvt

pub midnight_check : Progress → ℕ → Progress
midnight_check p time = record p {
  day_offset = if ltb time p.last_time then (p.day_offset + 1) % 256 else p.day_offset;
  last_time = time;
}

pub push : Progress → ScheduleMvt → Progress
push p m = record p { mvts = p.mvts ++ record m { day_offset = p.day_offset } ∷ [] }

-- The movements that a location stands for, their day offset apart.
abbrev pub origin_mvt : OriginatingStop → ScheduleMvt
origin_mvt l = record dummy {
  tiploc = l.tiploc_code;
  time = l.departure;
  public_time = l.public_departure;
  action = action_departure;
  platform = l.platform;
}

abbrev pub arrival_mvt : IntermediateStop → ScheduleMvt
arrival_mvt l = record dummy {
  tiploc = l.tiploc_code;
  time = l.arrival;
  public_time = l.public_arrival;
  action = action_arrival;
  platform = l.platform;
}

abbrev pub departure_mvt : IntermediateStop → ScheduleMvt
departure_mvt l = record dummy {
  tiploc = l.tiploc_code;
  time = l.departure;
  public_time = l.public_departure;
  action = action_departure;
  platform = l.platform;
}

abbrev pub pass_mvt : PassStop → ScheduleMvt
pass_mvt l = record dummy { tiploc = l.tiploc_code; time = l.pass; action = action_pass }

abbrev pub terminus_mvt : TerminatingStop → ScheduleMvt
terminus_mvt l = record dummy {
  tiploc = l.tiploc_code;
  time = l.arrival;
  public_time = l.public_arrival;
  action = action_arrival;
  platform = l.platform;
}

-- The body of the loop over `schedule_location`.
pub convert : Progress → LocationRecord → Progress
unfolding midnight_check push
convert p (originating l) = push (midnight_check p l.departure) (origin_mvt l)
convert p (intermediate l) =
    let arrived = push (midnight_check p l.arrival) (arrival_mvt l) in
    push (midnight_check arrived l.departure) (departure_mvt l)
convert p (passing l) = push (midnight_check p l.pass) (pass_mvt l)
convert p (terminating l) = push (midnight_check p l.arrival) (terminus_mvt l)

pub convert_all : Progress → List LocationRecord → Progress
convert_all p [] = p
convert_all p (loc ∷ locs) = convert_all (convert p loc) locs

-- `WHERE uid = ? AND start_date = ? AND stp_indicator = ? AND source = ?`
abbrev pub has_key : String → ℕ → String → ℕ → Schedule → Bool
has_key uid start_date stp_indicator source s =
    s.uid == uid
    && (s.start_date == start_date && (s.stp_indicator == stp_indicator && s.source == source))

abbrev pub with_id : ℕ → Schedule → Bool
with_id id s = s.id == id

-- `DELETE FROM schedules WHERE ...`, which takes the movements of those schedules along.
pub delete_schedules : (Schedule → Bool) → FahrplanDb → FahrplanDb
delete_schedules p db =
    let gone = select p db.schedules in
    record db {
      schedules = delete_where p db.schedules;
      movements = delete_where (λ m. any_row (with_id m.parent_sched) gone) db.movements;
    }

-- `UNIQUE` on the UUID, and on the four fields that identify a schedule.
abbrev pub conflicts : Schedule → Schedule → Bool
conflicts s t = t.tspl_id == s.tspl_id || has_key s.uid s.start_date s.stp_indicator s.source t

-- The row for a schedule that is not there yet.
abbrev pub new_schedule : ℕ → Create → ℕ → Schedule
new_schedule uuid rec metaseq = record {
  id = unset;
  tspl_id = uuid;
  uid = rec.train_uid;
  start_date = rec.schedule_start_date;
  end_date = rec.schedule_end_date;
  days = from_ntrod rec.schedule_days_runs;
  stp_indicator = as_char rec.stp_indicator;
  signalling_id = rec.schedule_segment.signalling_id;
  source = source_itps;
  file_metaseq = some metaseq;
  darwin_id = none;
  crosses_midnight = false;
}

-- `Vec` equality by `PartialEq for ScheduleMvt`.
pub mvts_eq : List ScheduleMvt → List ScheduleMvt → Bool
mvts_eq [] [] = true
mvts_eq (a ∷ as') (b ∷ bs) = mvt_eq a b && mvts_eq as' bs
mvts_eq _ _ = false

module _ (sq : Engine) where
  -- The movements of a schedule, sorted if they are not.
  pub import_mvts : List LocationRecord → List ScheduleMvt
  unfolding convert convert_all
  import_mvts locs =
      let mvts = (convert_all (record { day_offset = 0; last_time = 0; mvts = [] }) locs).mvts in
      if not (is_sorted mvt_lt mvts) then sq.sort_unstable.run mvts else mvts

  pub insert_schedule : FahrplanDb → Schedule → ImportResult (ℕ × FahrplanDb)
  insert_schedule db s =
      let id = sq.rowids.next (map (λ t. t.id) db.schedules) in
      if any_row (conflicts s) db.schedules
      then err constraint_failed
      else ok (id, record db { schedules = db.schedules ++ record s { id = id } ∷ [] })

  -- The parent must be there.
  pub insert_mvt : FahrplanDb → ScheduleMvt → ImportResult FahrplanDb
  insert_mvt db m =
      let id = sq.rowids.next (map (λ n. n.id) db.movements) in
      if any_row (with_id m.parent_sched) db.schedules
      then ok (record db { movements = db.movements ++ record m { id = id } ∷ [] })
      else err constraint_failed

  -- `for mut mvt in mvts { mvt.parent_sched = sid; mvt.insert_self(conn)?; }`
  pub insert_mvts : FahrplanDb → ℕ → List ScheduleMvt → ImportResult FahrplanDb
  unfolding insert_mvt
  insert_mvts db sid [] = ok db
  insert_mvts db sid (m ∷ ms) =
      insert_mvt db (record m { parent_sched = sid }) >>= λ db'. insert_mvts db' sid ms

  -- `SELECT id ...`, or a new row: the id, whether it was there, and the database.
  pub find_or_insert : ℕ → FahrplanDb → Create → ℕ → ImportResult (ℕ × Bool × FahrplanDb)
  unfolding insert_schedule
  find_or_insert uuid db rec metaseq =
      elim (first (
        select
          (has_key rec.train_uid rec.schedule_start_date (as_char rec.stp_indicator) source_itps)
          db.schedules)) [
            | some s ↦ ok (s.id, true, db)
            | none ↦
                insert_schedule db (new_schedule uuid rec metaseq) >>= λ r. ok (r.0, false, r.1)
          ]

  pub stored_mvts : FahrplanDb → ℕ → List ScheduleMvt
  stored_mvts db sid = sq.order_by.run (select (λ m. m.parent_sched == sid) db.movements)

  -- A new UUID for a schedule whose movements are replaced.
  pub renew : ℕ → ℕ → FahrplanDb → ImportResult FahrplanDb
  renew uuid sid db =
      if any_row (λ t. t.tspl_id == uuid && not (t.id == sid)) db.schedules
      then err constraint_failed
      else ok (record db {
        movements = delete_where (λ m. m.parent_sched == sid) db.movements;
        schedules = update_where (with_id sid) (λ s. record s { tspl_id = uuid }) db.schedules;
      })

  pub store_mvts : ℕ → FahrplanDb → ℕ → Bool → List ScheduleMvt → ImportResult FahrplanDb
  unfolding insert_mvts stored_mvts renew
  store_mvts uuid db sid false mvts = insert_mvts db sid mvts
  store_mvts uuid db sid true mvts =
      if not (mvts_eq (stored_mvts db sid) mvts)
      then (renew uuid sid db >>= λ db'. insert_mvts db' sid mvts)
      else ok db

  pub apply_schedule_record : ℕ → FahrplanDb → ScheduleRecord → ℕ → ImportResult FahrplanDb
  unfolding find_or_insert store_mvts import_mvts
  apply_schedule_record uuid db (delete rec) metaseq = ok (
      delete_schedules
        (has_key rec.train_uid rec.schedule_start_date (as_char rec.stp_indicator) source_itps) db)
  apply_schedule_record uuid db (create rec) metaseq = do
    found ← find_or_insert uuid db rec metaseq
    store_mvts uuid found.2 found.0 found.1 (import_mvts rec.schedule_segment.schedule_location)
