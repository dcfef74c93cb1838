-- ===== src/Updater/Import/Valid.antt =====
-- What the schema of the schedule database promises, and that an import keeps it.
use trainsplorer.Updater.Engine.{Engine}
use trainsplorer.Prelude.{
  ℕ, ◌≡◌, refl, ap, subst, ◌∙◌, inl, inr, Bool, true, false, not, ◌&&◌, List, [], ◌∷◌, All,
  All-mono, All-append, All-select, All-of_map, All-of_In, In-All, In-select, nat_eq, string_eq,
  ◌==◌, eq→==, arith, Bool-cases, Option-cases, select, first, map,
}
use trainsplorer.Sqlite.{
  any_row, Pairwise, All-of_any_row, Pairwise-append_one, Pairwise-select, Pairwise-update_where,
  any_row-append, any_row-append_last, any_row-delete_where, any_row-update_where,
}
use trainsplorer.Ntrod.Cif.{as_char}
use trainsplorer.Ntrod.Schedule.{Create, ScheduleRecord, create, delete}
use trainsplorer.Fahrplan.Types.{Schedule, ScheduleMvt, FahrplanDb, source_itps}
use trainsplorer.Updater.Import.{
  ImportError, ImportResult, ok, err, ◌>>=◌, has_key, with_id, conflicts, delete_schedules,
  insert_schedule, insert_mvt, insert_mvts, find_or_insert, new_schedule, stored_mvts, renew,
  store_mvts, apply_schedule_record, mvts_eq,
}

abbrev pub same_key : Schedule → Schedule → Bool
same_key s t = has_key s.uid s.start_date s.stp_indicator s.source t

-- Ids are unique, so are the four fields that identify a schedule, and each movement's schedule is
-- there.
pub record IsValid (db : FahrplanDb) : Type 0 where
  pub ids : Pairwise (λ s t. (s.id == t.id) ≡ false) db.schedules
  pub keys : Pairwise (λ s t. same_key t s ≡ false) db.schedules
  pub mvt_ids : Pairwise (λ (m : ScheduleMvt) n. (m.id == n.id) ≡ false) db.movements
  pub parents : All (λ m. any_row (with_id m.parent_sched) db.schedules ≡ true) db.movements

pub >>=-eq-ok {ℓ κ} :
    {A : Type ℓ} {B : Type κ} (r : ImportResult A) (next : A → ImportResult B) {y : B}
    → (r >>= next) ≡ ok y
    → (x : A) × (r ≡ ok x) × (next x ≡ ok y)
>>=-eq-ok (ok x) next h = (x, refl, h)
>>=-eq-ok (err e) next h = cc

pub ok-injective {ℓ} : {A : Type ℓ} (a b : A) → ok a ≡ ok b → a ≡ b
ok-injective {A} a b e = ap value e
  where
    value : ImportResult A → A
    value (ok x) = x
    value (err _) = a

pub delete_schedules-IsValid :
    (p : Schedule → Bool) (db : FahrplanDb) → IsValid db → IsValid (delete_schedules p db)
unfolding delete_schedules
delete_schedules-IsValid p db v = record {
  ids = Pairwise-select _ _ db.schedules v.ids;
  keys = Pairwise-select _ _ db.schedules v.keys;
  mvt_ids = Pairwise-select _ _ db.movements v.mvt_ids;
  parents = All-of_In _ _ λ m h.
      let (in_m, kept) = In-select _ m db.movements h in
      any_row-delete_where (with_id m.parent_sched) p db.schedules
        (In-All _ m db.movements v.parents in_m) (ground (arith, kept));
}

pub err≢ok {ℓ} : {A : Type ℓ} {a : A} {e : ImportError} → err e ≡ ok a → ⊥
err≢ok h = cc

no_conflict : (s t : Schedule) → conflicts s t ≡ false → same_key s t ≡ false
no_conflict s t h = ground (arith, h)

module _ (sq : Engine) where
  abbrev new_id : FahrplanDb → ℕ
  new_id db = sq.rowids.next (map (λ t. t.id) db.schedules)

  abbrev new_mvt_id : FahrplanDb → ℕ
  new_mvt_id db = sq.rowids.next (map (λ m. m.id) db.movements)

  pub insert_schedule-IsValid :
      (db db' : FahrplanDb) (s : Schedule) (id : ℕ)
      → IsValid db
      → insert_schedule sq db s ≡ ok (id, db')
      → IsValid db' × (any_row (with_id id) db'.schedules ≡ true)
  unfolding insert_schedule
  insert_schedule-IsValid db db' s id v h = elim (Bool-cases (any_row (conflicts s) db.schedules)) [
    | inl y ↦ absurd (err≢ok (rw y at h))
    | inr n ↦
        let no_key =
          All-mono _ (λ t. same_key s t ≡ false) (λ t. no_conflict s t) db.schedules
            (All-of_any_row (conflicts s) db.schedules n) in
        subst (λ r. IsValid r.1 × (any_row (with_id r.0) r.1.schedules ≡ true))
          (ok-injective _ (id, db') (rw n at h))
          (
            record {
              ids =
                  Pairwise-append_one _ db.schedules (record s { id = new_id db }) v.ids
                    (All-of_map (λ i. (i == new_id db) ≡ false) (λ t. t.id) db.schedules
                      (sq.rowids.fresh (map (λ t. t.id) db.schedules)));
              keys = Pairwise-append_one _ db.schedules (record s { id = new_id db }) v.keys no_key;
              mvt_ids = v.mvt_ids;
              parents =
                  All-mono _ _ (λ m. any_row-append (with_id m.parent_sched) db.schedules _)
                    db.movements v.parents;
            },
            any_row-append_last (with_id (new_id db)) db.schedules (record s { id = new_id db })
                (eq→== (new_id db) (new_id db) refl),
          )
  ]

  pub insert_mvt-IsValid :
      (db db' : FahrplanDb) (m : ScheduleMvt)
      → IsValid db
      → insert_mvt sq db m ≡ ok db'
      → IsValid db'
  unfolding insert_mvt
  insert_mvt-IsValid db db' m v h =
      elim (Bool-cases (any_row (with_id m.parent_sched) db.schedules)) [
        | inr n ↦ absurd (err≢ok (rw n at h))
        | inl y ↦ subst IsValid (ok-injective _ db' (rw y at h)) (record {
          ids = v.ids;
          keys = v.keys;
          mvt_ids =
              Pairwise-append_one _ db.movements (record m { id = new_mvt_id db }) v.mvt_ids
                (All-of_map (λ i. (i == new_mvt_id db) ≡ false) (λ n. n.id) db.movements
                  (sq.rowids.fresh (map (λ n. n.id) db.movements)));
          parents = All-append _ db.movements _ v.parents (y, tt);
        })
      ]

  pub insert_mvts-IsValid :
      (db db' : FahrplanDb) (sid : ℕ) (ms : List ScheduleMvt)
      → IsValid db
      → insert_mvts sq db sid ms ≡ ok db'
      → IsValid db'
  unfolding insert_mvts
  insert_mvts-IsValid db db' sid [] v h = subst IsValid (ok-injective db db' h) v
  insert_mvts-IsValid db db' sid (m ∷ ms) v h =
      let (db1, h1, h2) = >>=-eq-ok (insert_mvt sq db (record m { parent_sched = sid })) _ h in
      insert_mvts-IsValid db1 db' sid ms
        (insert_mvt-IsValid db db1 (record m { parent_sched = sid }) v h1) h2

  renew-IsValid :
      (uuid sid : ℕ) (db db' : FahrplanDb)
      → IsValid db
      → renew sq uuid sid db ≡ ok db'
      → IsValid db'
  unfolding renew
  renew-IsValid uuid sid db db' v h =
      elim (Bool-cases (any_row (λ t. t.tspl_id == uuid && not (t.id == sid)) db.schedules)) [
        | inl y ↦ absurd (err≢ok (rw y at h))
        | inr n ↦ subst IsValid (ok-injective _ db' (rw n at h)) (record {
          ids = Pairwise-update_where _ _ _ db.schedules (λ x y r. r) (λ x y r. r) v.ids;
          keys = Pairwise-update_where _ _ _ db.schedules (λ x y r. r) (λ x y r. r) v.keys;
          mvt_ids = Pairwise-select _ _ db.movements v.mvt_ids;
          parents =
              All-mono _ _
                (λ m e.
                  any_row-update_where (with_id m.parent_sched) _ _ db.schedules (λ x. refl) ∙ e)
                _ (All-select _ _ db.movements v.parents);
        })
      ]

  store_mvts-IsValid :
      (uuid : ℕ) (db db' : FahrplanDb) (sid : ℕ) (there : Bool) (mvts : List ScheduleMvt)
      → IsValid db
      → store_mvts sq uuid db sid there mvts ≡ ok db'
      → IsValid db'
  unfolding store_mvts
  store_mvts-IsValid uuid db db' sid false mvts v h = insert_mvts-IsValid db db' sid mvts v h
  store_mvts-IsValid uuid db db' sid true mvts v h =
      elim (Bool-cases (mvts_eq (stored_mvts sq db sid) mvts)) [
        | inl same ↦ subst IsValid (ok-injective db db' (rw same at h)) v
        | inr new ↦
            let (db1, h1, h2) =
              >>=-eq-ok (renew sq uuid sid db) (λ d. insert_mvts sq d sid mvts) (rw new at h) in
            insert_mvts-IsValid db1 db' sid mvts (renew-IsValid uuid sid db db1 v h1) h2
      ]

  find_or_insert-IsValid :
      (uuid : ℕ) (db : FahrplanDb) (rec : Create) (metaseq : ℕ) (r : ℕ × Bool × FahrplanDb)
      → IsValid db
      → find_or_insert sq uuid db rec metaseq ≡ ok r
      → IsValid r.2
  unfolding find_or_insert
  find_or_insert-IsValid uuid db rec metaseq r v h =
      elim (Option-cases (
        first (
          select
            (has_key rec.train_uid rec.schedule_start_date (as_char rec.stp_indicator) source_itps)
            db.schedules))) [
              | inr (s, e) ↦
                  subst (λ q. IsValid q.2) (ok-injective _ r (rw (e, find_or_insert) at h)) v
              | inl e ↦
                  let ((id, db1), h1, h2) =
                    >>=-eq-ok (insert_schedule sq db (new_schedule uuid rec metaseq)) _
                      (rw (e, find_or_insert) at h) in
                  subst (λ q. IsValid q.2) (ok-injective _ r h2)
                    (insert_schedule-IsValid db db1 (new_schedule uuid rec metaseq) id v h1).0
            ]

-- An import keeps the database well formed, whether it creates, replaces or deletes.
pub apply_schedule_record-IsValid :
    (sq : Engine) (uuid : ℕ) (db db' : FahrplanDb) (rec : ScheduleRecord) (metaseq : ℕ)
    → IsValid db
    → apply_schedule_record sq uuid db rec metaseq ≡ ok db'
    → IsValid db'
unfolding apply_schedule_record
apply_schedule_record-IsValid sq uuid db db' (delete rec) metaseq v h =
    subst IsValid (ok-injective _ db' h) (delete_schedules-IsValid _ db v)
apply_schedule_record-IsValid sq uuid db db' (create rec) metaseq v h =
    let (found, h1, h2) = >>=-eq-ok (find_or_insert sq uuid db rec metaseq) _ h in
    store_mvts-IsValid sq uuid found.2 db' found.0 found.1 _
      (find_or_insert-IsValid sq uuid db rec metaseq found v h1) h2
