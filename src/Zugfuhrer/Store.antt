-- ===== src/Zugfuhrer/Store.antt =====
-- The statements of tspl-zugfuhrer on its tables, with the constraints of its migrations: `UNIQUE`
-- (in which a NULL equals nothing) and `REFERENCES`. A statement that breaks one fails.
pub mod Valid
use trainsplorer.Prelude.{
  ℕ, String, Bool, true, false, not, Option, none, some, List, [], ◌∷◌, ◌++◌, ◌&&◌, ◌||◌, nat_eq,
  string_eq, Eq, ◌==◌, zero, suc, length, map, select, delete_where, update_where, if◌then◌else◌,
}
use trainsplorer.Sqlite.{Rowids, any_row}
use trainsplorer.Zugfuhrer.Types.{Train, TrainMvt, ZugDb}
use trainsplorer.Zugfuhrer.Errors.{ZugResult, ok, err, internal}

-- SQL's `=` between columns that may be NULL.
abbrev pub sql_eq {ℓ} : {A : Type ℓ} ⦃e : Eq A⦄ → Option A → Option A → Bool
sql_eq (some a) (some b) = a == b
sql_eq _ _ = false

abbrev pub train_with_id : ℕ → Train → Bool
train_with_id id t = t.id == id

abbrev pub with_tspl_id : ℕ → Train → Bool
with_tspl_id tid t = t.tspl_id == tid

abbrev pub mvt_with_id : ℕ → TrainMvt → Bool
mvt_with_id id m = m.id == id

-- `tspl_id`, `darwin_rid` and `(date, trust_id)` are unique.
abbrev pub train_conflicts : Train → Train → Bool
train_conflicts s t =
    t.tspl_id == s.tspl_id
    || (sql_eq t.darwin_rid s.darwin_rid || t.date == s.date && sql_eq t.trust_id s.trust_id)

-- `train_movements_unique`
abbrev pub mvt_conflicts : TrainMvt → TrainMvt → Bool
mvt_conflicts a b =
    b.parent_train == a.parent_train
    && (sql_eq b.updates a.updates
        && (b.tiploc == a.tiploc
            && (b.action == a.action
                && (b.time == a.time && (b.day_offset == a.day_offset && b.source == a.source)))))

abbrev pub update_is_there : List TrainMvt → Option ℕ → Bool
update_is_there mvts none = true
update_is_there mvts (some id) = any_row (mvt_with_id id) mvts

-- `UPDATE trains SET f WHERE p`: every row that it changes must agree with all others.
unfoldable pub update_trains : (Train → Bool) → (Train → Train) → ZugDb → ZugResult ZugDb
update_trains p f db =
    if any_row (λ t. p t && any_row (λ u. not (u.id == t.id) && train_conflicts (f t) u) db.trains)
      db.trains
    then err internal
    else ok (record db { trains = update_where p f db.trains })

abbrev pub updates_one_of : List TrainMvt → TrainMvt → Bool
updates_one_of gone m = elim m.updates [ none ↦ false | some id ↦ any_row (mvt_with_id id) gone ]

-- `ON DELETE CASCADE` of `updates`: the updates of a deleted movement go too, and theirs in turn.
pub cascade : ℕ → List TrainMvt → List TrainMvt → List TrainMvt
cascade zero gone rest = rest
cascade (suc fuel) gone rest =
    let deeper =
      cascade fuel (select (updates_one_of gone) rest) (delete_where (updates_one_of gone) rest) in
    if any_row (updates_one_of gone) rest then deeper else rest

-- Each round but the last deletes a row, so the fuel suffices.
unfoldable pub delete_mvts : (TrainMvt → Bool) → ZugDb → ZugDb
unfolding cascade
delete_mvts p db = record db {
  movements = cascade (length db.movements) (select p db.movements) (delete_where p db.movements);
}

module _ (sq : Rowids) where
  unfoldable pub insert_train : ZugDb → Train → ZugResult (ℕ × ZugDb)
  insert_train db t =
      let id = sq.next (map (λ u. u.id) db.trains) in
      if any_row (train_conflicts t) db.trains
      then err internal
      else ok (id, record db { trains = db.trains ++ record t { id = id } ∷ [] })

  unfoldable pub insert_mvt : ZugDb → TrainMvt → ZugResult (ℕ × ZugDb)
  insert_mvt db m =
      let id = sq.next (map (λ n. n.id) db.movements) in
      if any_row (train_with_id m.parent_train) db.trains
        && (update_is_there db.movements m.updates && not (any_row (mvt_conflicts m) db.movements))
      then ok (id, record db { movements = db.movements ++ record m { id = id } ∷ [] })
      else err internal
