-- ===== src/Updater/Import/Files.antt =====
-- A schedule record leaves the table of files alone.
use trainsplorer.Updater.Engine.{Engine}
use trainsplorer.Prelude.{
  ℕ, ◌≡◌, sym, ap, ◌∙◌, inl, inr, Bool, true, false, not, ◌&&◌, List, [], ◌∷◌, nat_eq, string_eq,
  ◌==◌, Bool-cases, Option-cases, first, select,
}
use trainsplorer.Sqlite.{any_row}
use trainsplorer.Ntrod.Cif.{as_char}
use trainsplorer.Ntrod.Schedule.{Create, ScheduleRecord, create, delete}
use trainsplorer.Fahrplan.Types.{Schedule, ScheduleMvt, FahrplanDb, source_itps}
use trainsplorer.Updater.Import.{
  ok, has_key, with_id, conflicts, delete_schedules, insert_schedule, insert_mvt, insert_mvts,
  find_or_insert, new_schedule, stored_mvts, renew, store_mvts, mvts_eq, apply_schedule_record,
}
use trainsplorer.Updater.Import.Valid.{>>=-eq-ok, ok-injective, err≢ok}

module _ (sq : Engine) where
  insert_mvt-files :
      (db db' : FahrplanDb) (m : ScheduleMvt) → insert_mvt sq db m ≡ ok db' → db'.files ≡ db.files
  unfolding insert_mvt
  insert_mvt-files db db' m h = elim (Bool-cases (any_row (with_id m.parent_sched) db.schedules)) [
    | inl y ↦ ap (λ d. d.files) (sym (ok-injective _ db' (rw y at h)))
    | inr n ↦ absurd (err≢ok (rw n at h))
  ]

  insert_mvts-files :
      (db db' : FahrplanDb) (sid : ℕ) (ms : List ScheduleMvt)
      → insert_mvts sq db sid ms ≡ ok db'
      → db'.files ≡ db.files
  unfolding insert_mvts
  insert_mvts-files db db' sid [] h = ap (λ d. d.files) (sym (ok-injective db db' h))
  insert_mvts-files db db' sid (m ∷ ms) h =
      let (db1, h1, h2) = >>=-eq-ok (insert_mvt sq db (record m { parent_sched = sid })) _ h in
      insert_mvts-files db1 db' sid ms h2
      ∙ insert_mvt-files db db1 (record m { parent_sched = sid }) h1

  renew-files :
      (uuid sid : ℕ) (db db' : FahrplanDb) → renew sq uuid sid db ≡ ok db' → db'.files ≡ db.files
  unfolding renew
  renew-files uuid sid db db' h =
      elim (Bool-cases (any_row (λ t. t.tspl_id == uuid && not (t.id == sid)) db.schedules)) [
        | inl y ↦ absurd (err≢ok (rw y at h))
        | inr n ↦ ap (λ d. d.files) (sym (ok-injective _ db' (rw n at h)))
      ]

  store_mvts-files :
      (uuid : ℕ) (db db' : FahrplanDb) (sid : ℕ) (updated : Bool) (ms : List ScheduleMvt)
      → store_mvts sq uuid db sid updated ms ≡ ok db'
      → db'.files ≡ db.files
  unfolding store_mvts
  store_mvts-files uuid db db' sid false ms h = insert_mvts-files db db' sid ms h
  store_mvts-files uuid db db' sid true ms h =
      elim (Bool-cases (mvts_eq (stored_mvts sq db sid) ms)) [
        | inl y ↦ ap (λ d. d.files) (sym (ok-injective _ db' (rw y at h)))
        | inr n ↦
            let (db1, h1, h2) = >>=-eq-ok (renew sq uuid sid db) _ (rw n at h) in
            insert_mvts-files db1 db' sid ms h2 ∙ renew-files uuid sid db db1 h1
      ]

  insert_schedule-files :
      (db : FahrplanDb) (s : Schedule) (r : ℕ × FahrplanDb)
      → insert_schedule sq db s ≡ ok r
      → r.1.files ≡ db.files
  unfolding insert_schedule
  insert_schedule-files db s r h = elim (Bool-cases (any_row (conflicts s) db.schedules)) [
    | inl y ↦ absurd (err≢ok (rw y at h))
    | inr n ↦ ap (λ q. q.1.files) (sym (ok-injective _ r (rw n at h)))
  ]

  find_or_insert-files :
      (uuid : ℕ) (db : FahrplanDb) (rec : Create) (metaseq : ℕ) (r : ℕ × Bool × FahrplanDb)
      → find_or_insert sq uuid db rec metaseq ≡ ok r
      → r.2.files ≡ db.files
  unfolding find_or_insert
  find_or_insert-files uuid db rec metaseq r h =
      elim (Option-cases (
        first (
          select
            (has_key rec.train_uid rec.schedule_start_date (as_char rec.stp_indicator) source_itps)
            db.schedules))) [
              | inr (s, e) ↦
                  ap (λ q. q.2.files) (sym (ok-injective _ r (rw (e, find_or_insert) at h)))
              | inl e ↦
                  let ((id, db1), h1, h2) =
                    >>=-eq-ok (insert_schedule sq db (new_schedule uuid rec metaseq)) _
                      (rw (e, find_or_insert) at h) in
                  ap (λ q. q.2.files) (sym (ok-injective _ r h2))
                  ∙ insert_schedule-files db (new_schedule uuid rec metaseq) (id, db1) h1
            ]

  pub apply_schedule_record-files :
      (uuid : ℕ) (db db' : FahrplanDb) (rec : ScheduleRecord) (metaseq : ℕ)
      → apply_schedule_record sq uuid db rec metaseq ≡ ok db'
      → db'.files ≡ db.files
  unfolding apply_schedule_record delete_schedules
  apply_schedule_record-files uuid db db' (delete rec) metaseq h =
      ap (λ d. d.files) (sym (ok-injective _ db' h))
  apply_schedule_record-files uuid db db' (create rec) metaseq h =
      let (found, h1, h2) = >>=-eq-ok (find_or_insert sq uuid db rec metaseq) _ h in
      store_mvts-files uuid found.2 db' found.0 found.1 _ h2
      ∙ find_or_insert-files uuid db rec metaseq found h1
