-- ===== src/Updater/Import/Again.antt =====
-- A record that is imported twice.
use trainsplorer.Updater.Engine.{Engine}
use trainsplorer.Prelude.{
  ℕ, ◌≡◌, refl, sym, ap, subst, ◌∙◌, inl, inr, Bool, true, false, not, ◌&&◌, none, some, List, [],
  ◌∷◌, ◌++◌, All, All-mono, All-of_map, All-of_In, In-All, In-select, arith, nat_eq, string_eq,
  ◌==◌, eq→==, Bool-cases, Option-cases, first, map, select, select_none, update_where,
}
use trainsplorer.Sqlite.{
  first-select-update_where, first-select-append_none, In-of_any_row, any_row,
}
use trainsplorer.Ntrod.Cif.{as_char}
use trainsplorer.Ntrod.Schedule.{Create, create}
use trainsplorer.Fahrplan.Types.{Schedule, ScheduleMvt, FahrplanDb, source_itps}
use trainsplorer.Updater.Import.{
  ok, has_key, with_id, conflicts, insert_schedule, insert_mvts, find_or_insert, new_schedule,
  stored_mvts, renew, store_mvts, mvts_eq, import_mvts, apply_schedule_record,
}
use trainsplorer.Updater.Import.Midnight.{import_mvts-IsSorted}
use trainsplorer.Updater.Import.Valid.{IsValid, >>=-eq-ok, ok-injective, err≢ok}
use trainsplorer.Updater.Import.Stored.{TiesAgree, of_schedule, insert_mvts-Same, stored_mvts-Same}

abbrev pub key_of : Create → Schedule → Bool
key_of rec = has_key rec.train_uid rec.schedule_start_date (as_char rec.stp_indicator) source_itps

-- The database holds the schedule of a record, with the record's movements.
record Holds (sq : Engine) (db : FahrplanDb) (rec : Create) : Type 0 where
  row : Schedule
  found : first (select (key_of rec) db.schedules) ≡ some row
  same :
      mvts_eq (stored_mvts sq db row.id) (import_mvts sq rec.schedule_segment.schedule_location)
      ≡ true

module _ (sq : Engine) where
  -- A record that the database holds changes nothing.
  apply_held :
      (uuid : ℕ) (db : FahrplanDb) (rec : Create) (metaseq : ℕ)
      → Holds sq db rec
      → apply_schedule_record sq uuid db (create rec) metaseq ≡ ok db
  unfolding apply_schedule_record
  apply_held uuid db rec metaseq h = rw (h.found, find_or_insert) (rw (h.same, store_mvts) refl)

  inserted-Holds :
      (db db' : FahrplanDb) (rec : Create) (row : Schedule)
      → first (select (key_of rec) db.schedules) ≡ some row
      → select (of_schedule row.id) db.movements ≡ []
      → insert_mvts sq db row.id (import_mvts sq rec.schedule_segment.schedule_location) ≡ ok db'
      → TiesAgree (import_mvts sq rec.schedule_segment.schedule_location)
      → Holds sq db' rec
  inserted-Holds db db' rec row found none_yet h told =
      let (placed, same, movements_are, schedules_are) = insert_mvts-Same sq db db' row.id _ h in
      record {
        row = row;
        found = ap (λ l. first (select (key_of rec) l)) schedules_are ∙ found;
        same =
            stored_mvts-Same sq db db' row.id _ h none_yet
              (import_mvts-IsSorted sq rec.schedule_segment.schedule_location).0 told;
      }

  pub renew-ok :
      (uuid sid : ℕ) (db db' : FahrplanDb)
      → renew sq uuid sid db ≡ ok db'
      → (db'.schedules ≡ update_where (with_id sid) (λ s. record s { tspl_id = uuid }) db.schedules)
        × (select (of_schedule sid) db'.movements ≡ [])
  unfolding renew
  renew-ok uuid sid db db' h =
      elim (Bool-cases (any_row (λ t. t.tspl_id == uuid && not (t.id == sid)) db.schedules)) [
        | inl y ↦ absurd (err≢ok (rw y at h))
        | inr n ↦
            let e = ok-injective _ db' (rw n at h) in
            (
              ap (λ d. d.schedules) (sym e),
              ap (λ d. select (of_schedule sid) d.movements) (sym e)
                  ∙ select_none (of_schedule sid) _ (
                      All-of_In _ _ λ m i.
                        ground (
                          arith,
                          (In-select (λ l. not (l.parent_sched == sid)) m db.movements i).1,
                        )),
            )
      ]

  -- No movement refers to a row that is not there yet.
  pub unused_id :
      (db : FahrplanDb)
      → IsValid db
      → All
          (λ m. of_schedule (sq.rowids.next (map (λ t. t.id) db.schedules)) m ≡ false)
          db.movements
  unused_id db v =
      All-mono _ _
        (λ m e.
          let (t, t_there, t_is) = In-of_any_row (with_id m.parent_sched) db.schedules e in
          ground (
            arith,
            t_is,
            In-All (λ s. (s.id == sq.rowids.next (map (λ s. s.id) db.schedules)) ≡ false) t
                db.schedules
                (All-of_map (λ i. (i == sq.rowids.next (map (λ s. s.id) db.schedules)) ≡ false)
                  (λ s. s.id) db.schedules (sq.rowids.fresh (map (λ s. s.id) db.schedules)))
                t_there,
          ))
        db.movements v.parents

  pub insert_schedule-ok :
      (db db1 : FahrplanDb) (s : Schedule) (id : ℕ)
      → IsValid db
      → insert_schedule sq db s ≡ ok (id, db1)
      → (db1.schedules ≡ db.schedules ++ record s { id = id } ∷ [])
        × (select (of_schedule id) db1.movements ≡ [])
  unfolding insert_schedule
  insert_schedule-ok db db1 s id v h = elim (Bool-cases (any_row (conflicts s) db.schedules)) [
    | inl y ↦ absurd (err≢ok (rw y at h))
    | inr n ↦
        subst
          (λ r.
            (r.1.schedules ≡ db.schedules ++ record s { id = r.0 } ∷ [])
            × (select (of_schedule r.0) r.1.movements ≡ []))
          (ok-injective _ (id, db1) (rw n at h))
          (
            refl,
            select_none (of_schedule (sq.rowids.next (map (λ t. t.id) db.schedules))) db.movements
                (unused_id db v),
          )
  ]

  unchanged_or_replaced-Holds :
      (uuid : ℕ) (db db' : FahrplanDb) (rec : Create) (row : Schedule)
      → first (select (key_of rec) db.schedules) ≡ some row
      → store_mvts sq uuid db row.id true (import_mvts sq rec.schedule_segment.schedule_location)
        ≡ ok db'
      → TiesAgree (import_mvts sq rec.schedule_segment.schedule_location)
      → Holds sq db' rec
  unfolding store_mvts
  unchanged_or_replaced-Holds uuid db db' rec row found h told =
      elim (Bool-cases (
        mvts_eq (stored_mvts sq db row.id)
          (import_mvts sq rec.schedule_segment.schedule_location))) [
            | inl same ↦
                subst (λ d. Holds sq d rec) (ok-injective db db' (rw same at h))
                  (record { row = row; found = found; same = same })
            | inr new ↦
                let (db1, h1, h2) =
                  >>=-eq-ok (renew sq uuid row.id db)
                    (λ d.
                      insert_mvts sq d row.id
                        (import_mvts sq rec.schedule_segment.schedule_location))
                    (rw new at h) in
                let (schedules_are, none_left) = renew-ok uuid row.id db db1 h1 in
                inserted-Holds db1 db' rec (record row { tspl_id = uuid })
                  (ap (λ l. first (select (key_of rec) l)) schedules_are
                    ∙ first-select-update_where (key_of rec) (with_id row.id)
                        (λ s. record s { tspl_id = uuid }) db.schedules row (λ s. refl) found
                        (eq→== row.id row.id refl))
                  none_left h2 told
          ]

  new-Holds :
      (uuid id metaseq : ℕ) (db db1 db' : FahrplanDb) (rec : Create)
      → IsValid db
      → first (select (key_of rec) db.schedules) ≡ none
      → insert_schedule sq db (new_schedule uuid rec metaseq) ≡ ok (id, db1)
      → insert_mvts sq db1 id (import_mvts sq rec.schedule_segment.schedule_location) ≡ ok db'
      → TiesAgree (import_mvts sq rec.schedule_segment.schedule_location)
      → Holds sq db' rec
  new-Holds uuid id metaseq db db1 db' rec v missing h1 h2 told =
      let (schedules_are, none_yet) =
        insert_schedule-ok db db1 (new_schedule uuid rec metaseq) id v h1 in
      inserted-Holds db1 db' rec (record (new_schedule uuid rec metaseq) { id = id })
        (ap (λ l. first (select (key_of rec) l)) schedules_are
          ∙ first-select-append_none (key_of rec) db.schedules _ missing (
              ground (
                arith,
                eq→== rec.train_uid rec.train_uid refl,
                eq→== (as_char rec.stp_indicator) (as_char rec.stp_indicator) refl,
              )))
        none_yet h2 told

store_new :
    (sq : Engine) (uuid : ℕ) (db db' : FahrplanDb) (sid : ℕ) (ms : List ScheduleMvt)
    → store_mvts sq uuid db sid false ms ≡ ok db'
    → insert_mvts sq db sid ms ≡ ok db'
unfolding store_mvts
store_new sq uuid db db' sid ms h = h

created-Holds :
    (sq : Engine) (uuid metaseq : ℕ) (db db' : FahrplanDb) (rec : Create)
    (r : ℕ × Bool × FahrplanDb)
    → IsValid db
    → find_or_insert sq uuid db rec metaseq ≡ ok r
    → store_mvts sq uuid r.2 r.0 r.1 (import_mvts sq rec.schedule_segment.schedule_location)
      ≡ ok db'
    → TiesAgree (import_mvts sq rec.schedule_segment.schedule_location)
    → Holds sq db' rec
unfolding find_or_insert
created-Holds sq uuid metaseq db db' rec r v h1 h2 told =
    elim (Option-cases (first (select (key_of rec) db.schedules))) [
      | inr (row, e) ↦
          unchanged_or_replaced-Holds sq uuid db db' rec row e
            (subst
              (λ q.
                store_mvts sq uuid q.2 q.0 q.1
                  (import_mvts sq rec.schedule_segment.schedule_location)
                ≡ ok db')
              (sym (ok-injective _ r (rw (e, find_or_insert) at h1))) h2)
            told
      | inl e ↦
          let ((id, db1), g1, g2) =
            >>=-eq-ok (insert_schedule sq db (new_schedule uuid rec metaseq)) _
              (rw (e, find_or_insert) at h1) in
          new-Holds sq uuid id metaseq db db1 db' rec v e g1
            (store_new sq uuid db1 db' id _ (
              subst
                (λ q.
                  store_mvts sq uuid q.2 q.0 q.1
                    (import_mvts sq rec.schedule_segment.schedule_location)
                  ≡ ok db')
                (sym (ok-injective _ r g2)) h2))
            told
    ]

-- In a well-formed database, a record that was imported without an error, and of whose movements no
-- two at different places have the same day, time and action, can be imported again, with whatever
-- UUID and file number: this succeeds and changes nothing.
pub apply_schedule_record-again :
    (sq : Engine) (uuid uuid' metaseq metaseq' : ℕ) (db db' : FahrplanDb) (rec : Create)
    → IsValid db
    → TiesAgree (import_mvts sq rec.schedule_segment.schedule_location)
    → apply_schedule_record sq uuid db (create rec) metaseq ≡ ok db'
    → apply_schedule_record sq uuid' db' (create rec) metaseq' ≡ ok db'
unfolding apply_schedule_record store_mvts
apply_schedule_record-again sq uuid uuid' metaseq metaseq' db db' rec v told h =
    let (r, h1, h2) = >>=-eq-ok (find_or_insert sq uuid db rec metaseq) _ h in
    apply_held sq uuid' db' rec metaseq' (created-Holds sq uuid metaseq db db' rec r v h1 h2 told)
