-- ===== src/Zugfuhrer/Query.antt =====
-- The movement queries of tspl-zugfuhrer/src/ctx.rs. A `SELECT` is the list of the rows that its joins
-- and its `WHERE` clause leave, in some order; the rows of a table differ in their ids, so `DISTINCT`
-- takes none away. A `LEFT OUTER JOIN` gives `none` where nothing joins.
pub mod Groups
pub mod Complete
pub mod Connecting
pub mod Examples
use trainsplorer.Prelude.{
  ℕ, String, Bool, not, Option, none, some, List, [], ◌∷◌, ◌++◌, ◌&&◌, nat_eq, string_eq, ◌==◌, leb,
  map, select, concat_map,
}
use trainsplorer.Prelude.Maps.{Map, get, insert, is_some}
use trainsplorer.Chrono.{Chrono}
use trainsplorer.Util.Time.{calculate_non_midnight_aware_times}
use trainsplorer.Zugfuhrer.Types.{
  Train, TrainMvt, ZugDb, MvtQueryResponse, ConnectingMvtQueryResponse,
}
use trainsplorer.Zugfuhrer.Store.{sql_eq}

-- `tmvts.tiploc = :tpl AND tmvts.time BETWEEN :start_time AND :end_time AND tmvts.day_offset = 0 AND
-- +tmvts.updates IS NULL`
abbrev pub passes : String → ℕ → ℕ → TrainMvt → Bool
passes tpl start_time end_time m =
    m.tiploc == tpl
    && (leb start_time m.time
        && (leb m.time end_time && (m.day_offset == 0 && not (is_some m.updates))))

abbrev pub updates_of : ℕ → TrainMvt → Bool
updates_of id m = sql_eq m.updates (some id)

abbrev pub or_null {ℓ} : {A : Type ℓ} → List A → List (Option A)
or_null [] = none ∷ []
or_null (x ∷ xs) = some x ∷ map (λ y. some y) xs

-- `LEFT OUTER JOIN train_movements AS updating ON updating.updates = tmvts.id`
abbrev pub updating : ZugDb → ℕ → List (Option TrainMvt)
updating db id = or_null (select (updates_of id) db.movements)

-- `INNER JOIN trains AS t ON t.id = tmvts.parent_train ... AND t.date = :date`
abbrev pub train_of : ℕ → TrainMvt → Train → Bool
train_of date m t = t.id == m.parent_train && t.date == date

abbrev pub MvtRow : Type 0
MvtRow = TrainMvt × Train × Option TrainMvt

unfoldable pub rows_through : ZugDb → String → ℕ → ℕ → ℕ → List MvtRow
rows_through db tpl start_time end_time date =
    concat_map
      (λ m.
        concat_map (λ t. map (λ u. (m, t, u)) (updating db m.id))
          (select (train_of date m) db.trains))
      (select (passes tpl start_time end_time) db.movements)

abbrev pub one_or_none {ℓ} : {A : Type ℓ} → Option A → List A
one_or_none none = []
one_or_none (some a) = a ∷ []

-- `if let Some(tmvts) = tmvts.get_mut(&id) { .. } else { .. }`
unfoldable pub add_to_group :
    ℕ → TrainMvt → Option TrainMvt → Map ℕ (List TrainMvt) → Map ℕ (List TrainMvt)
add_to_group id tmvt update tmvts = elim (get id tmvts) [
  | some group ↦ insert id (group ++ one_or_none update) tmvts
  | none ↦ insert id (tmvt ∷ one_or_none update) tmvts
]

unfoldable pub add_row : MvtQueryResponse → MvtRow → MvtQueryResponse
unfolding add_to_group
add_row r (tmvt, train, update) = record {
  mvts = add_to_group tmvt.id tmvt update r.mvts;
  trains = insert train.id train r.trains;
}

unfoldable pub add_rows : MvtQueryResponse → List MvtRow → MvtQueryResponse
unfolding add_row
add_rows r [] = r
add_rows r (row ∷ rows) = add_rows (add_row r row) rows

unfoldable pub get_mvts_passing_through : Chrono → ZugDb → String → ℕ → ℕ → MvtQueryResponse
unfolding rows_through add_rows
get_mvts_passing_through c db tpl ts within_dur =
    let (start_time, end_time) = calculate_non_midnight_aware_times c ts within_dur in
    add_rows (record { mvts = []; trains = [] })
      (rows_through db tpl start_time end_time (c.date ts))

-- `connecting.parent_train = tmvts.parent_train AND +connecting.updates IS NULL AND
-- connecting.tiploc = :tpl_conn`
abbrev pub connects : String → TrainMvt → TrainMvt → Bool
connects connection m n =
    n.parent_train == m.parent_train && (not (is_some n.updates) && n.tiploc == connection)

-- The movement, its train, the connecting movement, and an update of each.
abbrev pub ConnectingRow : Type 0
ConnectingRow = TrainMvt × Train × TrainMvt × Option TrainMvt × Option TrainMvt

unfoldable pub rows_connecting : ZugDb → String → ℕ → ℕ → ℕ → String → List ConnectingRow
rows_connecting db tpl start_time end_time date connection =
    concat_map
      (λ m.
        concat_map
          (λ t.
            concat_map
              (λ n.
                concat_map (λ u. map (λ v. (m, t, n, u, v)) (updating db n.id)) (updating db m.id))
              (select (connects connection m) db.movements))
          (select (train_of date m) db.trains))
      (select (passes tpl start_time end_time) db.movements)

unfoldable pub add_connecting_row :
    ConnectingMvtQueryResponse → ConnectingRow → ConnectingMvtQueryResponse
unfolding add_to_group
add_connecting_row r (tmvt, train, conn_tmvt, update, conn_update) = record {
  mvts = add_to_group tmvt.id tmvt update r.mvts;
  connecting_mvts = add_to_group tmvt.id conn_tmvt conn_update r.connecting_mvts;
  trains = insert train.id train r.trains;
}

unfoldable pub add_connecting_rows :
    ConnectingMvtQueryResponse → List ConnectingRow → ConnectingMvtQueryResponse
unfolding add_connecting_row
add_connecting_rows r [] = r
add_connecting_rows r (row ∷ rows) = add_connecting_rows (add_connecting_row r row) rows

unfoldable pub get_connecting_mvts :
    Chrono → ZugDb → String → ℕ → ℕ → String → ConnectingMvtQueryResponse
unfolding rows_connecting add_connecting_rows
get_connecting_mvts c db tpl ts within_dur connection =
    let (start_time, end_time) = calculate_non_midnight_aware_times c ts within_dur in
    add_connecting_rows (record { mvts = []; connecting_mvts = []; trains = [] })
      (rows_connecting db tpl start_time end_time (c.date ts) connection)
