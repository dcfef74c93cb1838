-- ===== src/Updater/Import/Outcome.antt =====
-- What the import of a record leaves in the tables.
use trainsplorer.Prelude.{
  ℕ, ◌≡◌, refl, sym, ap, subst, ◌∙◌, inl, inr, Bool, true, false, not, ◌&&◌, some, List, [], ◌∷◌,
  ◌++◌, All-mono, In, In-append_right, In-select, Perm, arith, nat_eq, string_eq, ◌==◌, eq→==,
  Bool-cases, Option-cases, first, select, select_none, select-append, delete_where, update_where,
}
use mathlib.Core.List.{append-nil}
use mathlib.Core.List.Perm
use mathlib.Core.Option.{some-injective}
use trainsplorer.Updater.Engine.{Engine}
use trainsplorer.Sqlite.{any_row}
use trainsplorer.Ntrod.Schedule.{Create, create}
use trainsplorer.Fahrplan.Types.{Schedule, ScheduleMvt, FahrplanDb}
use trainsplorer.Updater.Import.{
  ok, with_id, insert_schedule, insert_mvts, find_or_insert, new_schedule, stored_mvts, import_mvts,
  renew, store_mvts, mvts_eq, apply_schedule_record,
}
use trainsplorer.Updater.Import.Valid.{IsValid, >>=-eq-ok, ok-injective, err≢ok}
use trainsplorer.Updater.Import.Stored.{Same, of_schedule, insert_mvts-Same}
use trainsplorer.Updater.Import.Again.{key_of, renew-ok, insert_schedule-ok}
use trainsplorer.Updater.Import.Undone.{
  insert_mvts-appended, insert_schedule-appended, key_of-own, store_mvts-new,
}

-- The database has a schedule with the record's key, the movements of that schedule are the record's,
-- and those of every other schedule are what they were.
pub record IsImported (sq : Engine) (db db' : FahrplanDb) (rec : Create) : Type 0 where
  pub row : Schedule
  pub row_in : In row db'.schedules
  pub row_key : key_of rec row ≡ true
  pub placed : List ScheduleMvt
  pub arranged : Perm (select (of_schedule row.id) db'.movements) placed
  pub same : Same placed (import_mvts sq rec.schedule_segment.schedule_location)
  pub others :
      (sid : ℕ)
      → (row.id == sid) ≡ false
      → select (of_schedule sid) db'.movements ≡ select (of_schedule sid) db.movements

Same-of_mvts_eq : (ps ms : List ScheduleMvt) → mvts_eq ps ms ≡ true → Same ps ms
unfolding mvts_eq
Same-of_mvts_eq [] [] h = tt
Same-of_mvts_eq [] (m ∷ ms) h = absurd (cc)
Same-of_mvts_eq (p ∷ ps) [] h = absurd (cc)
Same-of_mvts_eq (p ∷ ps) (m ∷ ms) h = (
  (string_eq.beq_iff p.tiploc m.tiploc).0 (ground (arith, h)),
  ground (arith, h),
  ground (arith, h),
  ground (arith, h),
  Same-of_mvts_eq ps ms (ground (arith, h)),
)

-- A deletion of movements of one schedule leaves those of another.
select-delete_others :
    (sid other : ℕ) (ms : List ScheduleMvt)
    → (sid == other) ≡ false
    → select (of_schedule other) (delete_where (λ m. m.parent_sched == sid) ms)
      ≡ select (of_schedule other) ms
unfolding select
select-delete_others sid other [] h = refl
select-delete_others sid other (m ∷ ms) h =
    let rest = select-delete_others sid other ms h in
    elim (Bool-cases (m.parent_sched == sid)) [
      | inl y ↦ let no : (m.parent_sched == other) ≡ false = ground (arith, y, h) in rw (y, no) rest
      | inr n ↦ elim (Bool-cases (m.parent_sched == other)) [
        | inl z ↦ rw (n, z) (ap (λ l. m ∷ l) rest)
        | inr z ↦ rw (n, z) rest
      ]
    ]

In-update_where {ℓ} :
    {A : Type ℓ} (p : A → Bool) (f : A → A) (a : A) (xs : List A)
    → In a xs
    → p a ≡ true
    → In (f a) (update_where p f xs)
unfolding update_where
In-update_where p f a [] m h = absurd (m tt)
In-update_where p f a (x ∷ xs) (inl e) h = inl (rw (subst (λ y. p y ≡ true) e h) (ap f e))
In-update_where p f a (x ∷ xs) (inr m) h = inr (In-update_where p f a xs m h)

In-of_first {ℓ} : {A : Type ℓ} (a : A) (xs : List A) → first xs ≡ some a → In a xs
In-of_first a [] h = absurd (cc)
In-of_first a (x ∷ xs) h = inl (sym (some-injective x a h))

module _ (sq : Engine) where
  -- The movements are inserted for a schedule without any.
  inserted-IsImported :
      (base db db' : FahrplanDb) (rec : Create) (row : Schedule)
      → In row db.schedules
      → key_of rec row ≡ true
      → select (of_schedule row.id) db.movements ≡ []
      → ((sid : ℕ)
          → (row.id == sid) ≡ false
          → select (of_schedule sid) db.movements ≡ select (of_schedule sid) base.movements)
      → insert_mvts sq db row.id (import_mvts sq rec.schedule_segment.schedule_location) ≡ ok db'
      → IsImported sq base db' rec
  inserted-IsImported base db db' rec row there has none_yet apart h =
      let (placed, same, movements_are, schedules_are) = insert_mvts-Same sq db db' row.id _ h in
      let (new, own, db'_is) = insert_mvts-appended sq db db' row.id _ h in
      record {
        row = row;
        row_in = subst (In row) (sym schedules_are) there;
        row_key = has;
        placed = placed;
        arranged =
            subst (λ l. Perm l placed) (sym (movements_are ∙ ap (λ l. l ++ placed) none_yet))
              (Perm.refl placed);
        same = same;
        others = λ sid other.
            ap (λ (d : FahrplanDb). select (of_schedule sid) d.movements) db'_is
            ∙ select-append (of_schedule sid) db.movements new
            ∙ ap (λ l. select (of_schedule sid) db.movements ++ l)
                (select_none (of_schedule sid) new
                  (All-mono _ _ (λ m k. ground (arith, k, other)) new own))
            ∙ append-nil _
            ∙ apart sid other;
      }

  renew-others :
      (uuid sid other : ℕ) (db db' : FahrplanDb)
      → renew sq uuid sid db ≡ ok db'
      → (sid == other) ≡ false
      → select (of_schedule other) db'.movements ≡ select (of_schedule other) db.movements
  unfolding renew
  renew-others uuid sid other db db' h apart =
      elim (Bool-cases (any_row (λ t. t.tspl_id == uuid && not (t.id == sid)) db.schedules)) [
        | inl y ↦ absurd (err≢ok (rw y at h))
        | inr n ↦
            ap (λ (d : FahrplanDb). select (of_schedule other) d.movements)
              (sym (ok-injective _ db' (rw n at h)))
            ∙ select-delete_others sid other db.movements apart
      ]

  updated-IsImported :
      (uuid : ℕ) (db db' : FahrplanDb) (rec : Create) (row : Schedule)
      → In row db.schedules
      → key_of rec row ≡ true
      → store_mvts sq uuid db row.id true (import_mvts sq rec.schedule_segment.schedule_location)
        ≡ ok db'
      → IsImported sq db db' rec
  unfolding store_mvts stored_mvts
  updated-IsImported uuid db db' rec row there has h =
      elim (Bool-cases (
        mvts_eq (stored_mvts sq db row.id)
          (import_mvts sq rec.schedule_segment.schedule_location))) [
            | inl equal ↦
                subst (λ d. IsImported sq db d rec) (ok-injective db db' (rw equal at h))
                  (record {
                    row = row;
                    row_in = there;
                    row_key = has;
                    placed = stored_mvts sq db row.id;
                    arranged = Perm.symm (sq.order_by.rearranged _);
                    same = Same-of_mvts_eq _ _ equal;
                    others = λ sid other. refl;
                  })
            | inr differ ↦
                let (db1, h1, h2) =
                  >>=-eq-ok (renew sq uuid row.id db)
                    (λ d.
                      insert_mvts sq d row.id
                        (import_mvts sq rec.schedule_segment.schedule_location))
                    (rw differ at h) in
                let (schedules_are, none_left) = renew-ok sq uuid row.id db db1 h1 in
                inserted-IsImported db db1 db' rec (record row { tspl_id = uuid })
                  (subst (In (record row { tspl_id = uuid })) (sym schedules_are) (
                    In-update_where (with_id row.id) (λ s. record s { tspl_id = uuid }) row
                      db.schedules there (eq→== row.id row.id refl)))
                  has none_left (λ sid other. renew-others uuid row.id sid db db1 h1 other) h2
          ]

  insert_schedule-movements :
      (db db1 : FahrplanDb) (id : ℕ) (s : Schedule)
      → insert_schedule sq db s ≡ ok (id, db1)
      → db1.movements ≡ db.movements
  insert_schedule-movements db db1 id s h =
      ap (λ (d : FahrplanDb). d.movements) (insert_schedule-appended sq db db1 s id h).1

  found_or_new-IsImported :
      (uuid metaseq : ℕ) (db db' : FahrplanDb) (rec : Create) (r : ℕ × Bool × FahrplanDb)
      → IsValid db
      → find_or_insert sq uuid db rec metaseq ≡ ok r
      → store_mvts sq uuid r.2 r.0 r.1 (import_mvts sq rec.schedule_segment.schedule_location)
        ≡ ok db'
      → IsImported sq db db' rec
  unfolding find_or_insert
  found_or_new-IsImported uuid metaseq db db' rec r v h1 h2 =
      elim (Option-cases (first (select (key_of rec) db.schedules))) [
        | inr (row, e) ↦
            let (there, has) = In-select (key_of rec) row db.schedules (In-of_first row _ e) in
            updated-IsImported uuid db db' rec row there has (
              subst
                (λ q.
                  store_mvts sq uuid q.2 q.0 q.1
                    (import_mvts sq rec.schedule_segment.schedule_location)
                  ≡ ok db')
                (sym (ok-injective _ r (rw (e, find_or_insert) at h1))) h2)
        | inl e ↦
            let ((id, db1), g1, g2) =
              >>=-eq-ok (insert_schedule sq db (new_schedule uuid rec metaseq)) _
                (rw (e, find_or_insert) at h1) in
            let (schedules_are, none_yet) =
              insert_schedule-ok sq db db1 (new_schedule uuid rec metaseq) id v g1 in
            let stored =
              subst
                (λ q.
                  store_mvts sq uuid q.2 q.0 q.1
                    (import_mvts sq rec.schedule_segment.schedule_location)
                  ≡ ok db')
                (sym (ok-injective _ r g2)) h2 in
            inserted-IsImported db db1 db' rec (record (new_schedule uuid rec metaseq) { id = id })
              (subst (In (record (new_schedule uuid rec metaseq) { id = id })) (sym schedules_are)
                (In-append_right _ db.schedules _ (inl refl)))
              (key_of-own sq uuid metaseq id rec) none_yet
              (λ sid other.
                ap (select (of_schedule sid))
                  (insert_schedule-movements db db1 id (new_schedule uuid rec metaseq) g1))
              (store_mvts-new sq uuid db1 db' id false _ refl stored)
      ]

-- In a well-formed database, a record that is imported without an error leaves a schedule with its
-- UID, start date and STP indicator, whose movements are, in some order, those of the record by place,
-- action, time and day, whether the schedule is new, changed or unchanged; and every other schedule
-- has the movements that it had.
pub apply_schedule_record-IsImported :
    (sq : Engine) (uuid metaseq : ℕ) (db db' : FahrplanDb) (rec : Create)
    → IsValid db
    → apply_schedule_record sq uuid db (create rec) metaseq ≡ ok db'
    → IsImported sq db db' rec
unfolding apply_schedule_record
apply_schedule_record-IsImported sq uuid metaseq db db' rec v h =
    let (r, h1, h2) = >>=-eq-ok (find_or_insert sq uuid db rec metaseq) _ h in
    found_or_new-IsImported sq uuid metaseq db db' rec r v h1 h2
