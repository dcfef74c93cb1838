-- ===== src/Updater/File/Valid.antt =====
-- What the import of a file keeps.
use trainsplorer.Updater.Engine.{Engine}
use trainsplorer.Prelude.{
  ℕ, ◌≤◌, ◌≡◌, ◌⊎◌, refl, sym, subst, inl, inr, Bool, true, false, none, List, [], ◌∷◌, ◌++◌,
  All-mono, arith, nat_eq, ◌==◌, Option-cases, ltb,
}
use trainsplorer.Sqlite.{any_row, Pairwise, Pairwise-append_one, All-of_any_row}
use trainsplorer.Ntrod.Schedule.{
  ScheduleRecord, TimetableRecord, Record, schedule, association, tiploc, timetable, eof,
}
use trainsplorer.Fahrplan.Types.{ScheduleFile, FahrplanDb}
use trainsplorer.Updater.Import.{ImportError, ImportResult, ok, err, apply_schedule_record}
use trainsplorer.Updater.Import.Files.{apply_schedule_record-files}
use trainsplorer.Updater.Import.Valid.{
  IsValid, >>=-eq-ok, ok-injective, err≢ok, apply_schedule_record-IsValid,
}
use trainsplorer.Updater.File.{
  bail_if, Lines, Parser, FileState, at_start, on_schedule, on_timetable, on_record, on_line,
  on_lines, apply_schedule_records,
}

-- The files came in the order of their sequence numbers, and no two have the same timestamp.
pub record FilesValid (files : List ScheduleFile) : Type 0 where
  pub sequences : Pairwise (λ (f : ScheduleFile) g. f.sequence ≤ g.sequence) files
  pub timestamps : Pairwise (λ (f : ScheduleFile) g. (f.timestamp == g.timestamp) ≡ false) files

pub record DbValid (db : FahrplanDb) : Type 0 where
  pub tables : IsValid db
  pub files : FilesValid db.files

bail_if-ok : (b : Bool) (e : ImportError) (u : Unit {0}) → bail_if b e ≡ ok u → b ≡ false
bail_if-ok true e u h = absurd (err≢ok h)
bail_if-ok false e u h = refl

module _ (sq : Engine) where
  on_timetable-DbValid :
      (st st' : FileState) (rec : TimetableRecord)
      → DbValid st.db
      → on_timetable sq st rec ≡ ok st'
      → DbValid st'.db
  unfolding on_timetable
  on_timetable-DbValid st st' rec v h =
      let (u1, h1, g1) =
        >>=-eq-ok (bail_if (any_row (λ f. f.timestamp == rec.timestamp) st.db.files) _) _ h in
      let (u2, h2, g2) =
        >>=-eq-ok (bail_if (any_row (λ f. ltb rec.metadata.sequence f.sequence) st.db.files) _) _
          g1 in
      subst (λ s. DbValid s.db) (ok-injective _ st' g2)
        (record {
          tables = record {
            ids = v.tables.ids;
            keys = v.tables.keys;
            mvt_ids = v.tables.mvt_ids;
            parents = v.tables.parents;
          };
          files = record {
            sequences = Pairwise-append_one _ st.db.files _ v.files.sequences (
                All-mono _ _ (λ f n. ground (arith, n)) st.db.files
                  (All-of_any_row (λ f. ltb rec.metadata.sequence f.sequence) st.db.files
                    (bail_if-ok _ _ u2 h2)));
            timestamps = Pairwise-append_one _ st.db.files _ v.files.timestamps (
                All-of_any_row (λ f. f.timestamp == rec.timestamp) st.db.files
                  (bail_if-ok _ _ u1 h1));
          };
        })

  on_schedule-DbValid :
      (uuid : ℕ) (st st' : FileState) (rec : ScheduleRecord)
      → DbValid st.db
      → on_schedule sq uuid st rec ≡ ok st'
      → DbValid st'.db
  unfolding on_schedule
  on_schedule-DbValid uuid st st' rec v h = elim (Option-cases st.metaseq) [
    | inl e ↦ absurd (err≢ok (rw e at h))
    | inr (ms, e) ↦
        let (db', h1, h2) = >>=-eq-ok (apply_schedule_record sq uuid st.db rec ms) _ (rw e at h) in
        subst (λ s. DbValid s.db) (ok-injective _ st' h2)
          (record {
            tables = apply_schedule_record-IsValid sq uuid st.db db' rec ms v.tables h1;
            files =
                subst FilesValid (sym (apply_schedule_record-files sq uuid st.db db' rec ms h1))
                  v.files;
          })
  ]

  on_record-DbValid :
      (uuid : ℕ) (st st' : FileState) (rec : Record)
      → DbValid st.db
      → on_record sq uuid st rec ≡ ok st'
      → DbValid st'.db
  unfolding on_record
  on_record-DbValid uuid st st' (schedule rec) v h = on_schedule-DbValid uuid st st' rec v h
  on_record-DbValid uuid st st' (timetable rec) v h = on_timetable-DbValid st st' rec v h
  on_record-DbValid uuid st st' association v h = subst (λ s. DbValid s.db) (ok-injective _ st' h) v
  on_record-DbValid uuid st st' tiploc v h = subst (λ s. DbValid s.db) (ok-injective _ st' h) v
  on_record-DbValid uuid st st' eof v h = subst (λ s. DbValid s.db) (ok-injective _ st' h) v

  on_line-DbValid :
      (parse : Parser) (st st' : FileState) (line : ℕ × List ℕ)
      → DbValid st.db
      → on_line sq parse st line ≡ ok st'
      → DbValid st'.db
  unfolding on_line
  on_line-DbValid parse st st' (uuid, text) v h = elim (Option-cases (parse (st.line ++ text))) [
    | inl e ↦ subst (λ s. DbValid s.db) (ok-injective _ st' (rw (e, on_line) at h)) v
    | inr (rec, e) ↦
        let (st1, h1, h2) = >>=-eq-ok (on_record sq uuid st rec) _ (rw (e, on_line) at h) in
        subst (λ s. DbValid s.db) (ok-injective _ st' h2) (on_record-DbValid uuid st st1 rec v h1)
  ]

  on_lines-DbValid :
      (parse : Parser) (st st' : FileState) (lines : Lines)
      → DbValid st.db
      → on_lines sq parse st lines ≡ ok st'
      → DbValid st'.db
  unfolding on_lines
  on_lines-DbValid parse st st' [] v h = subst (λ s. DbValid s.db) (ok-injective _ st' h) v
  on_lines-DbValid parse st st' (line ∷ lines) v h =
      let (st1, h1, h2) = >>=-eq-ok (on_line sq parse st line) _ h in
      on_lines-DbValid parse st1 st' lines (on_line-DbValid parse st st1 line v h1) h2

pub ImportResult-cases {ℓ} :
    {A : Type ℓ} (r : ImportResult A) → ((a : A) × (r ≡ ok a)) ⊎ ((e : ImportError) × (r ≡ err e))
ImportResult-cases (ok a) = inl (a, refl)
ImportResult-cases (err e) = inr (e, refl)

-- The import of a file, whether it succeeds or fails, leaves a well-formed database, in which the
-- imported files stand in the order of their sequence numbers, no two with one timestamp; if it
-- fails, it leaves the database as it was.
pub apply_schedule_records-DbValid :
    (sq : Engine) (parse : Parser) (db : FahrplanDb) (lines : Lines)
    → DbValid db
    → DbValid (apply_schedule_records sq parse db lines).0
      × (((apply_schedule_records sq parse db lines).1 ≡ none)
          ⊎ ((apply_schedule_records sq parse db lines).0 ≡ db))
unfolding apply_schedule_records
apply_schedule_records-DbValid sq parse db lines v =
    elim (ImportResult-cases (on_lines sq parse (at_start db) lines)) [
      | inl (st, e) ↦
          rw (e, apply_schedule_records) (on_lines-DbValid sq parse _ st lines v e, inl refl)
      | inr (d, e) ↦ rw (e, apply_schedule_records) (v, inr refl)
    ]
