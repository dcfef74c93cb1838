-- ===== src/Updater/Import/Undone.antt =====
-- A record whose import is undone by the deletion of its schedule.
use trainsplorer.Updater.Engine.{Engine}
use trainsplorer.Prelude.{
  ℕ, ◌≡◌, refl, sym, ap, subst, ◌∙◌, inl, inr, Bool, true, false, not, none, List, [], ◌∷◌, ◌++◌,
  All, All-mono, arith, nat_eq, string_eq, ◌==◌, eq→==, Bool-cases, first, map, select, select_none,
  select_all, select-append, delete_where,
}
use mathlib.Core.List.{append_assoc, append-nil}
use trainsplorer.Sqlite.{any_row, All-of_any_row}
use trainsplorer.Ntrod.Cif.{as_char}
use trainsplorer.Ntrod.Schedule.{Create, Delete, create, delete}
use trainsplorer.Fahrplan.Types.{Schedule, ScheduleMvt, FahrplanDb}
use trainsplorer.Updater.Import.{
  ok, with_id, conflicts, delete_schedules, insert_schedule, insert_mvt, insert_mvts,
  find_or_insert, new_schedule, store_mvts, apply_schedule_record,
}
use trainsplorer.Updater.Import.Valid.{IsValid, >>=-eq-ok, ok-injective, err≢ok}
use trainsplorer.Updater.Import.Stored.{select-one, insert_mvt-ok}
use trainsplorer.Updater.Import.Again.{key_of, unused_id}

-- The deletion of the schedule that a record creates.
abbrev pub deletion_of : Create → Delete
deletion_of rec = record {
  train_uid = rec.train_uid;
  schedule_start_date = rec.schedule_start_date;
  stp_indicator = rec.stp_indicator;
}

delete_where-appended {ℓ} :
    {A : Type ℓ} (p : A → Bool) (xs ys : List A)
    → All (λ x. p x ≡ false) xs
    → All (λ y. p y ≡ true) ys
    → delete_where p (xs ++ ys) ≡ xs
delete_where-appended p xs ys h k =
    select-append (λ x. not (p x)) xs ys
    ∙ ap (λ l. l ++ select (λ x. not (p x)) ys)
        (select_all (λ x. not (p x)) xs (All-mono _ _ (λ x e. ap not e) xs h))
    ∙ ap (λ l. xs ++ l) (select_none (λ x. not (p x)) ys (All-mono _ _ (λ x e. ap not e) ys k))
    ∙ append-nil xs

select-appended {ℓ} :
    {A : Type ℓ} (p : A → Bool) (xs : List A) (a : A)
    → All (λ x. p x ≡ false) xs
    → p a ≡ true
    → select p (xs ++ a ∷ []) ≡ a ∷ []
select-appended p xs a h k =
    select-append p xs (a ∷ [])
    ∙ ap (λ l. l ++ select p (a ∷ [])) (select_none p xs h)
    ∙ select-one p a k

no_other :
    (m : ScheduleMvt) (s : Schedule)
    → s.id == m.parent_sched ≡ false
    → any_row (with_id m.parent_sched) (s ∷ []) ≡ false
unfolding any_row
no_other m s h = rw h refl

is_parent :
    (m : ScheduleMvt) (s : Schedule)
    → s.id == m.parent_sched ≡ true
    → any_row (with_id m.parent_sched) (s ∷ []) ≡ true
unfolding any_row
is_parent m s h = rw h refl

-- A schedule and its movements, put behind what is there, are what a deletion by its key takes.
delete_schedules-appended :
    (p : Schedule → Bool) (db : FahrplanDb) (s : Schedule) (placed : List ScheduleMvt)
    → All (λ t. p t ≡ false) db.schedules
    → p s ≡ true
    → All (λ (m : ScheduleMvt). (s.id == m.parent_sched) ≡ false) db.movements
    → All (λ (m : ScheduleMvt). (s.id == m.parent_sched) ≡ true) placed
    → delete_schedules p
        (record db { schedules = db.schedules ++ s ∷ []; movements = db.movements ++ placed })
      ≡ db
unfolding delete_schedules
delete_schedules-appended p db s placed none_has has unused own =
    let gone : select p (db.schedules ++ s ∷ []) ≡ s ∷ [] =
      select-appended p db.schedules s none_has has in
    let kept : delete_where p (db.schedules ++ s ∷ []) ≡ db.schedules =
      delete_where-appended p db.schedules (s ∷ []) none_has (has, tt) in
    let left : delete_where (λ m. any_row (with_id m.parent_sched) (s ∷ []))
          (db.movements ++ placed)
        ≡ db.movements =
      delete_where-appended (λ m. any_row (with_id m.parent_sched) (s ∷ [])) db.movements placed
        (All-mono _ _ (λ m. no_other m s) db.movements unused)
        (All-mono _ _ (λ m. is_parent m s) placed own) in
    ap
      (λ l. record db {
        schedules = delete_where p (db.schedules ++ s ∷ []);
        movements = delete_where (λ m. any_row (with_id m.parent_sched) l) (db.movements ++ placed);
      })
      gone
    ∙ ap
        (λ l. record db {
          schedules = l;
          movements =
              delete_where (λ m. any_row (with_id m.parent_sched) (s ∷ []))
                (db.movements ++ placed);
        })
        kept
    ∙ ap (λ l. record db { schedules = db.schedules; movements = l }) left

module _ (sq : Engine) where
  -- Inserted movements stand behind the others, and are all of the schedule.
  pub insert_mvts-appended :
      (db db' : FahrplanDb) (sid : ℕ) (ms : List ScheduleMvt)
      → insert_mvts sq db sid ms ≡ ok db'
      → (placed : List ScheduleMvt) × All
          (λ (m : ScheduleMvt). (sid == m.parent_sched) ≡ true)
          placed
        × (db' ≡ record db { movements = db.movements ++ placed })
  unfolding insert_mvts
  insert_mvts-appended db db' sid [] h = (
    [],
    tt,
    sym (ok-injective db db' h)
        ∙ ap (λ l. record db { movements = l }) (sym (append-nil db.movements)),
  )
  insert_mvts-appended db db' sid (m ∷ ms) h =
      let (db1, h1, h2) = >>=-eq-ok (insert_mvt sq db (record m { parent_sched = sid })) _ h in
      let (placed, own, db'_is) = insert_mvts-appended db1 db' sid ms h2 in
      let new : ScheduleMvt = record m {
        parent_sched = sid;
        id = sq.rowids.next (map (λ n. n.id) db.movements);
      } in
      (
        new ∷ placed,
        (eq→== sid sid refl, own),
        db'_is
            ∙ ap (λ (d : FahrplanDb). record d { movements = d.movements ++ placed })
                (insert_mvt-ok sq db db1 (record m { parent_sched = sid }) h1)
            ∙ ap (λ l. record db { movements = l }) (append_assoc db.movements (new ∷ []) placed),
      )

  pub insert_schedule-appended :
      (db db1 : FahrplanDb) (s : Schedule) (id : ℕ)
      → insert_schedule sq db s ≡ ok (id, db1)
      → (id ≡ sq.rowids.next (map (λ t. t.id) db.schedules))
        × (db1 ≡ record db { schedules = db.schedules ++ record s { id = id } ∷ [] })
  unfolding insert_schedule
  insert_schedule-appended db db1 s id h = elim (Bool-cases (any_row (conflicts s) db.schedules)) [
    | inl y ↦ absurd (err≢ok (rw y at h))
    | inr n ↦
        subst
          (λ r.
            (r.0 ≡ sq.rowids.next (map (λ t. t.id) db.schedules))
            × (r.1 ≡ record db { schedules = db.schedules ++ record s { id = r.0 } ∷ [] }))
          (ok-injective _ (id, db1) (rw n at h)) (refl, refl)
  ]

  pub find_or_insert-new :
      (uuid metaseq : ℕ) (db : FahrplanDb) (rec : Create) (r : ℕ × Bool × FahrplanDb)
      → any_row (key_of rec) db.schedules ≡ false
      → find_or_insert sq uuid db rec metaseq ≡ ok r
      → (insert_schedule sq db (new_schedule uuid rec metaseq) ≡ ok (r.0, r.2)) × (r.1 ≡ false)
  unfolding find_or_insert
  find_or_insert-new uuid metaseq db rec r missing h =
      let none_found : first (select (key_of rec) db.schedules) ≡ none = ap first (
        select_none (key_of rec) db.schedules (All-of_any_row (key_of rec) db.schedules missing)) in
      let (q, h1, h2) =
        >>=-eq-ok (insert_schedule sq db (new_schedule uuid rec metaseq)) _
          (rw (none_found, find_or_insert) at h) in
      subst
        (λ (x : ℕ × Bool × FahrplanDb).
          (insert_schedule sq db (new_schedule uuid rec metaseq) ≡ ok (x.0, x.2)) × (x.1 ≡ false))
        (ok-injective _ r h2) (h1, refl)

  pub store_mvts-new :
      (uuid : ℕ) (db db' : FahrplanDb) (sid : ℕ) (found : Bool) (ms : List ScheduleMvt)
      → found ≡ false
      → store_mvts sq uuid db sid found ms ≡ ok db'
      → insert_mvts sq db sid ms ≡ ok db'
  unfolding store_mvts
  store_mvts-new uuid db db' sid true ms e h = absurd (cc)
  store_mvts-new uuid db db' sid false ms e h = h

  pub key_of-own :
      (uuid metaseq id : ℕ) (rec : Create)
      → key_of rec (record (new_schedule uuid rec metaseq) { id = id }) ≡ true
  key_of-own uuid metaseq id rec = ground (
    arith,
    eq→== rec.train_uid rec.train_uid refl,
    eq→== (as_char rec.stp_indicator) (as_char rec.stp_indicator) refl,
  )

-- In a well-formed database without the schedule of a record, the deletion of that schedule undoes
-- the import of the record: no schedule or movement is left of it, and none of the others is gone.
pub apply_schedule_record-undone :
    (sq : Engine) (uuid uuid' metaseq metaseq' : ℕ) (db db' : FahrplanDb) (rec : Create)
    → IsValid db
    → any_row (key_of rec) db.schedules ≡ false
    → apply_schedule_record sq uuid db (create rec) metaseq ≡ ok db'
    → apply_schedule_record sq uuid' db' (delete (deletion_of rec)) metaseq' ≡ ok db
unfolding apply_schedule_record
apply_schedule_record-undone sq uuid uuid' metaseq metaseq' db db' rec v missing h =
    let (r, h1, h2) = >>=-eq-ok (find_or_insert sq uuid db rec metaseq) _ h in
    let (inserted, new) = find_or_insert-new sq uuid metaseq db rec r missing h1 in
    let (id_is, with_row) =
      insert_schedule-appended sq db r.2 (new_schedule uuid rec metaseq) r.0 inserted in
    let (placed, own, db'_is) =
      insert_mvts-appended sq r.2 db' r.0 _ (store_mvts-new sq uuid r.2 db' r.0 r.1 _ new h2) in
    let all_is =
      db'_is ∙ ap (λ (d : FahrplanDb). record d { movements = d.movements ++ placed }) with_row in
    ap (λ d. ok (delete_schedules (key_of rec) d)) all_is
    ∙ ap ok (
        delete_schedules-appended (key_of rec) db
          (record (new_schedule uuid rec metaseq) { id = r.0 }) placed
          (All-of_any_row (key_of rec) db.schedules missing) (key_of-own sq uuid metaseq r.0 rec)
          (subst (λ i. All (λ (m : ScheduleMvt). (i == m.parent_sched) ≡ false) db.movements)
            (sym id_is) (All-mono _ _ (λ m k. ground (arith, k)) db.movements (unused_id sq db v)))
          own)
