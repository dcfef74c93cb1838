-- ===== src/Fahrplan/Query/Rows.antt =====
-- The rows that the query of `get_mvts_passing_through` joins (tspl-fahrplan/src/ctx.rs).
use trainsplorer.Prelude.{
  ℕ, String, ◌≡◌, sym, subst, Bool, true, ◌&&◌, In, In-select, In-select_of, In-concat_map,
  In-concat_map_of, In-map, In-map_of, arith, nat_eq, string_eq, eq→==,
}
use trainsplorer.Fahrplan.Types.{FahrplanDb}
use trainsplorer.Fahrplan.Query.{in_force, passes, JoinRow, rows_through}

and_true : (a b : Bool) → a ≡ true → b ≡ true → (a && b) ≡ true
and_true a b h k = ground (arith, h, k)

-- What a row of the join tells, beside the movement's own tests.
pub record IsRow (db : FahrplanDb) (tpl : String) (start_time end_time date days : ℕ)
    (row : JoinRow) : Type 0 where
  pub movement_in : In row.0 db.movements
  pub movement_passes : passes tpl start_time end_time row.0 ≡ true
  pub parent_in : In row.1 db.schedules
  pub parent_is : row.1.id ≡ row.0.parent_sched
  pub parent_in_force : in_force date days row.1 ≡ true
  pub updating_in : In row.2 db.schedules
  pub same_train : row.1.uid ≡ row.2.uid
  pub updating_in_force : in_force date days row.2 ≡ true

module _ (db : FahrplanDb) (tpl : String) (start_time end_time date days : ℕ) where
  pub rows_through-IsRow :
      (row : JoinRow)
      → In row (rows_through db tpl start_time end_time date days)
      → IsRow db tpl start_time end_time date days row
  unfolding rows_through
  rows_through-IsRow row h =
      let (m, in_m, h1) = In-concat_map _ row _ h in
      let (s, in_s, h2) = In-concat_map _ row _ h1 in
      let (s2, in_s2, e) = In-map _ row _ h2 in
      let fm = In-select _ m _ in_m in
      let fs = In-select _ s _ in_s in
      let fu = In-select _ s2 _ in_s2 in
      subst (IsRow db tpl start_time end_time date days) (sym e) (record {
        movement_in = fm.0;
        movement_passes = fm.1;
        parent_in = fs.0;
        parent_is = ground (arith, fs.1);
        parent_in_force = ground (arith, fs.1);
        updating_in = fu.0;
        same_train = ground (arith, fu.1, string_eq.beq_iff s.uid s2.uid);
        updating_in_force = ground (arith, fu.1);
      })

  pub rows_through-of_IsRow :
      (row : JoinRow)
      → IsRow db tpl start_time end_time date days row
      → In row (rows_through db tpl start_time end_time date days)
  unfolding rows_through
  rows_through-of_IsRow row r =
      In-concat_map_of _ row row.0 _
        (In-select_of _ row.0 db.movements r.movement_in r.movement_passes)
        (In-concat_map_of _ row row.1 _
          (In-select_of _ row.1 db.schedules r.parent_in
            (and_true _ _ (eq→== _ _ r.parent_is) r.parent_in_force))
          (In-map_of (λ s2. (row.0, row.1, s2)) row.2 _
            (In-select_of _ row.2 db.schedules r.updating_in
              (and_true _ _ (eq→== _ _ r.same_train) r.updating_in_force))))
