-- ===== src/Zugfuhrer/Store/Valid.antt =====
-- What the schema of the train database promises, with what the service adds to it: an update refers
-- to a movement of the schedule, never to another update.
use trainsplorer.Prelude.{
  ℕ, zero, suc, ◌≡◌, sym, ap, subst, ◌∙◌, inl, inr, Bool, true, false, not, ◌&&◌, Option, none,
  some, List, [], ◌∷◌, ◌++◌, All, In-select, All-of_In, All-mono, All-append, All-select,
  All-of_map, arith, nat_eq, string_eq, ◌==◌, Bool-cases, length, map, select, delete_where,
  update_where,
}
use trainsplorer.Prelude.Maps.{is_some}
use trainsplorer.Sqlite.{
  Rowids, any_row, Pairwise, Pairwise-append_one, Pairwise-select, Pairwise-update_where,
  any_row-append, any_row-delete_where, any_row-update_where, any_row_none,
}
use trainsplorer.Zugfuhrer.Types.{Train, TrainMvt, ZugDb}
use trainsplorer.Zugfuhrer.Errors.{ok, ok-injective, err≢ok}
use trainsplorer.Zugfuhrer.Store.{
  train_with_id, train_conflicts, mvt_conflicts, update_is_there, updates_one_of, cascade,
  delete_mvts, insert_train, insert_mvt,
}

-- A movement of the schedule, with this id.
abbrev pub original : ℕ → TrainMvt → Bool
original id n = n.id == id && not (is_some n.updates)

abbrev pub UpdatesOriginal : List TrainMvt → Option ℕ → Type 0
UpdatesOriginal mvts none = Unit
UpdatesOriginal mvts (some id) = any_row (original id) mvts ≡ true

pub record MvtsValid (trains : List Train) (mvts : List TrainMvt) : Type 0 where
  pub ids : Pairwise (λ (m : TrainMvt) n. (m.id == n.id) ≡ false) mvts
  pub parents : All (λ m. any_row (train_with_id m.parent_train) trains ≡ true) mvts
  pub updated : All (λ m. UpdatesOriginal mvts m.updates) mvts

pub record IsValid (db : ZugDb) : Type 0 where
  pub train_ids : Pairwise (λ (s : Train) t. (s.id == t.id) ≡ false) db.trains
  pub mvts : MvtsValid db.trains db.movements

pub UpdatesOriginal-delete :
    (p : TrainMvt → Bool) (mvts : List TrainMvt) (o : Option ℕ)
    → ((n : TrainMvt) → p n ≡ true → is_some n.updates ≡ true)
    → UpdatesOriginal mvts o
    → UpdatesOriginal (delete_where p mvts) o
UpdatesOriginal-delete p mvts none only h = tt
UpdatesOriginal-delete p mvts (some id) only h =
    any_row-delete_where (original id) p mvts h (none_gone mvts)
  where
    none_gone : (l : List TrainMvt) → any_row (original id) (select p l) ≡ false
    none_gone l =
        any_row_none (original id) (select p l)
          (All-of_In _ _ λ n m. ground (arith, only n (In-select p n l m).1))

-- Deleting updates leaves a well-formed table.
pub MvtsValid-delete :
    (p : TrainMvt → Bool) (trains : List Train) (mvts : List TrainMvt)
    → ((n : TrainMvt) → p n ≡ true → is_some n.updates ≡ true)
    → MvtsValid trains mvts
    → MvtsValid trains (delete_where p mvts)
MvtsValid-delete p trains mvts only v = record {
  ids = Pairwise-select _ _ mvts v.ids;
  parents = All-select _ _ mvts v.parents;
  updated =
      All-mono _ _ (λ m. UpdatesOriginal-delete p mvts m.updates only) _
        (All-select _ _ mvts v.updated);
}

-- What every round of the cascade keeps, the cascade keeps.
pub cascade-keeps {ℓ} :
    (P : List TrainMvt → Type ℓ)
    → ((gone l : List TrainMvt) → P l → P (delete_where (updates_one_of gone) l))
    → (fuel : ℕ) (gone rest : List TrainMvt) → P rest
    → P (cascade fuel gone rest)
unfolding cascade
cascade-keeps P round zero gone rest h = h
cascade-keeps P round (suc fuel) gone rest h =
    elim (Bool-cases (any_row (updates_one_of gone) rest)) [
      | inl y ↦ rw y (cascade-keeps P round fuel _ _ (round gone rest h))
      | inr n ↦ rw n h
    ]

pub updates_one_of-is_some :
    (gone : List TrainMvt) (n : TrainMvt) → updates_one_of gone n ≡ true → is_some n.updates ≡ true
updates_one_of-is_some gone n h = ground arith

pub delete_mvts-MvtsValid :
    (p : TrainMvt → Bool) (db : ZugDb)
    → ((n : TrainMvt) → p n ≡ true → is_some n.updates ≡ true)
    → MvtsValid db.trains db.movements
    → MvtsValid db.trains (delete_mvts p db).movements
unfolding delete_mvts
delete_mvts-MvtsValid p db only v =
    cascade-keeps (MvtsValid db.trains)
      (λ gone l. MvtsValid-delete (updates_one_of gone) db.trains l (updates_one_of-is_some gone))
      (length db.movements) _ _ (MvtsValid-delete p db.trains db.movements only v)

UpdatesOriginal-append :
    (mvts : List TrainMvt) (m : TrainMvt) (o : Option ℕ)
    → UpdatesOriginal mvts o
    → UpdatesOriginal (mvts ++ m ∷ []) o
UpdatesOriginal-append mvts m none h = tt
UpdatesOriginal-append mvts m (some id) h = any_row-append (original id) mvts (m ∷ []) h

module _ (sq : Rowids) where
  abbrev pub new_mvt_id : ZugDb → ℕ
  new_mvt_id db = sq.next (map (λ n. n.id) db.movements)

  -- What a successful `INSERT` did.
  pub insert_mvt-ok :
      (db db' : ZugDb) (m : TrainMvt) (id : ℕ)
      → insert_mvt sq db m ≡ ok (id, db')
      → (id ≡ new_mvt_id db)
        × (db' ≡ record db { movements = db.movements ++ record m { id = id } ∷ [] })
        × (any_row (train_with_id m.parent_train) db.trains ≡ true)
  unfolding insert_mvt
  insert_mvt-ok db db' m id h =
      elim (Bool-cases (
        any_row (train_with_id m.parent_train) db.trains
        && (update_is_there db.movements m.updates
            && not (any_row (mvt_conflicts m) db.movements)))) [
              | inr n ↦ absurd (err≢ok (rw n at h))
              | inl y ↦
                  let e = ok-injective _ (id, db') (rw y at h) in
                  let new_is_id : new_mvt_id db ≡ id = ap (λ r. r.0) e in
                  (
                    sym new_is_id,
                    sym (ap (λ r. r.1) e)
                        ∙ ap
                            (λ i. record db {
                              movements = db.movements ++ record m { id = i } ∷ [];
                            })
                            new_is_id,
                    ground (arith, y),
                  )
            ]

  pub insert_mvt-IsValid :
      (db db' : ZugDb) (m : TrainMvt) (id : ℕ)
      → IsValid db
      → UpdatesOriginal db.movements m.updates
      → insert_mvt sq db m ≡ ok (id, db')
      → IsValid db'
  insert_mvt-IsValid db db' m id v original_there h =
      let (id_is, db_is, parent) = insert_mvt-ok db db' m id h in
      subst IsValid (sym db_is) (record {
        train_ids = v.train_ids;
        mvts = record {
          ids =
              Pairwise-append_one _ db.movements (record m { id = id }) v.mvts.ids
                (subst (λ i. All (λ n. (n.id == i) ≡ false) db.movements) (sym id_is)
                  (All-of_map (λ i. (i == new_mvt_id db) ≡ false) (λ n. n.id) db.movements
                    (sq.fresh (map (λ n. n.id) db.movements))));
          parents = All-append _ db.movements _ v.mvts.parents (parent, tt);
          updated =
              All-append _ db.movements _
                (All-mono _ _ (λ n. UpdatesOriginal-append db.movements _ n.updates) db.movements
                  v.mvts.updated)
                (UpdatesOriginal-append db.movements _ m.updates original_there, tt);
        };
      })

  pub insert_train-IsValid :
      (db db' : ZugDb) (t : Train) (id : ℕ)
      → IsValid db
      → insert_train sq db t ≡ ok (id, db')
      → IsValid db'
  unfolding insert_train
  insert_train-IsValid db db' t id v h = elim (Bool-cases (any_row (train_conflicts t) db.trains)) [
    | inl y ↦ absurd (err≢ok (rw y at h))
    | inr n ↦
        subst (λ r. IsValid r.1) (ok-injective _ (id, db') (rw n at h))
          (record {
            train_ids =
                Pairwise-append_one _ db.trains
                  (record t { id = sq.next (map (λ u. u.id) db.trains) }) v.train_ids
                  (All-of_map (λ i. (i == sq.next (map (λ u. u.id) db.trains)) ≡ false) (λ u. u.id)
                    db.trains (sq.fresh (map (λ u. u.id) db.trains)));
            mvts = record {
              ids = v.mvts.ids;
              parents =
                  All-mono _ _ (λ m. any_row-append (train_with_id m.parent_train) db.trains _)
                    db.movements v.mvts.parents;
              updated = v.mvts.updated;
            };
          })
  ]

-- An `UPDATE` of trains that keeps their ids.
pub update_where-IsValid :
    (p : Train → Bool) (f : Train → Train) (db : ZugDb)
    → ((t : Train) → (f t).id ≡ t.id)
    → IsValid db
    → IsValid (record db { trains = update_where p f db.trains })
update_where-IsValid p f db keeps v = record {
  train_ids =
      Pairwise-update_where _ p f db.trains (λ x y r. ap (λ i. i == y.id) (keeps x) ∙ r)
        (λ x y r. ap (λ i. x.id == i) (keeps y) ∙ r) v.train_ids;
  mvts = record {
    ids = v.mvts.ids;
    parents =
        All-mono _ _
          (λ m e.
            any_row-update_where (train_with_id m.parent_train) p f db.trains
              (λ x. ap (λ i. i == m.parent_train) (keeps x))
            ∙ e)
          db.movements v.mvts.parents;
    updated = v.mvts.updated;
  };
}
