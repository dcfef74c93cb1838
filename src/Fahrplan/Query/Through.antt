-- ===== src/Fahrplan/Query/Through.antt =====
-- `get_mvts_passing_through` (tspl-fahrplan/src/ctx.rs): which movements the answer has.
pub mod Complete
use mathlib.Core.Option.{some-injective}
use trainsplorer.Prelude.{
  ℕ, String, ◌≡◌, sym, ap, subst, ◌∙◌, inl, inr, true, false, some, List, [], All, All-mono, In,
  All-of_In, In-All, nat_eq, string_eq, str_lt,
}
use trainsplorer.Prelude.Maps.{get, get-All, get-select, get_of_In}
use trainsplorer.Chrono.{Chrono}
use trainsplorer.Util.Time.{calculate_non_midnight_aware_times}
use trainsplorer.Fahrplan.Types.{Schedule, ScheduleMvt, FahrplanDb, MvtQueryResponse}
use trainsplorer.Fahrplan.Days.{from_iso_weekday}
use trainsplorer.Fahrplan.Query.{
  uid_scheds_to_id_scheds, in_force, passes, JoinRow, rows_through, Found, found_rows, flag_of,
  mvts_within, get_mvts_passing_through,
}
use trainsplorer.Fahrplan.Query.Join.{found_rows-Floor}
use trainsplorer.Fahrplan.Query.Rows.{IsRow, rows_through-IsRow, rows_through-of_IsRow}
use trainsplorer.Fahrplan.Query.Loop.{
  Entry, Loop, found_rows-Loop, insert_ids-All, some_of_contains_key,
}

-- A movement of the answer, with the schedule that it belongs to.
pub record IsAnswer (db : FahrplanDb) (tpl : String) (start_time end_time date days : ℕ)
    (resp : MvtQueryResponse) (k : ℕ) (m : ScheduleMvt) : Type 0 where
  pub key_is : k ≡ m.id
  pub movement_in : In m db.movements
  pub movement_passes : passes tpl start_time end_time m ≡ true
  pub parent : Schedule
  pub parent_found : get m.parent_sched resp.schedules ≡ some parent
  pub parent_is : parent.id ≡ m.parent_sched
  pub parent_in : In parent db.schedules
  pub parent_in_force : in_force date days parent ≡ true
  pub authoritative :
      (t : Schedule)
      → In t db.schedules
      → parent.uid ≡ t.uid
      → in_force date days t ≡ true
      → str_lt t.stp_indicator parent.stp_indicator ≡ false

-- A schedule that the loop leaves in its map.
record Chosen (db : FahrplanDb) (date days : ℕ) (s : Schedule) : Type 0 where
  chosen_in : In s db.schedules
  chosen_in_force : in_force date days s ≡ true
  strongest :
      (t : Schedule)
      → In t db.schedules
      → s.uid ≡ t.uid
      → in_force date days t ≡ true
      → str_lt t.stp_indicator s.stp_indicator ≡ false

module _ (db : FahrplanDb) (tpl : String) (start_time end_time date days : ℕ) where
  abbrev rows : List JoinRow
  rows = rows_through db tpl start_time end_time date days

  abbrev found : Found
  found = found_rows (record { smvts = []; schedules = [] }) rows

  is_row : (row : JoinRow) → In row rows → IsRow db tpl start_time end_time date days row
  is_row = rows_through-IsRow db tpl start_time end_time date days

  found-Loop : Loop rows found
  found-Loop =
      found_rows-Loop rows (λ row h. (is_row row h).same_train)
        (record { smvts = []; schedules = [] }) rows (λ row h. h)
        (record { smvts_from = tt; smvts_unique = tt; entries = tt; unique = tt })

  entry-Chosen : (e : String × Schedule) → In e found.schedules → Chosen db date days e.1
  entry-Chosen e in_e =
      let (uid_is, (row, in_row, row_uid, s_is)) =
        In-All (Entry rows) e found.schedules found-Loop.entries in_e in
      let r = is_row row in_row in
      let in_map : get e.0 found.schedules ≡ some e.1 =
        get_of_In e.0 e.1 found.schedules found-Loop.unique in_e in
      record {
        chosen_in = elim s_is [
          | inl q ↦ subst (λ s. In s db.schedules) (sym q) r.parent_in
          | inr q ↦ subst (λ s. In s db.schedules) (sym q) r.updating_in
        ];
        chosen_in_force = elim s_is [
          | inl q ↦ ap (in_force date days) q ∙ r.parent_in_force
          | inr q ↦ ap (in_force date days) q ∙ r.updating_in_force
        ];
        strongest = λ t in_t same force.
            let other : IsRow db tpl start_time end_time date days (row.0, row.1, t) = record {
              movement_in = r.movement_in;
              movement_passes = r.movement_passes;
              parent_in = r.parent_in;
              parent_is = r.parent_is;
              parent_in_force = r.parent_in_force;
              updating_in = in_t;
              same_train = row_uid ∙ (sym uid_is ∙ same);
              updating_in_force = force;
            } in
            let floor =
              found_rows-Floor (record { smvts = []; schedules = [] }) rows (row.0, row.1, t)
                (rows_through-of_IsRow db tpl start_time end_time date days (row.0, row.1, t)
                  other) in
            let is_entry : floor.entry ≡ e.1 = some-injective _ _ (
              sym (subst (λ u. get u found.schedules ≡ some floor.entry) row_uid floor.found)
              ∙ in_map) in
            subst (λ s. str_lt t.stp_indicator s.stp_indicator ≡ false) is_entry floor.not_before;
      }

  id_schedules-Chosen :
      All
        (λ (e : ℕ × Schedule). (e.0 ≡ e.1.id) × Chosen db date days e.1)
        (uid_scheds_to_id_scheds found.schedules)
  unfolding uid_scheds_to_id_scheds
  id_schedules-Chosen =
      insert_ids-All (Chosen db date days) found.schedules []
        (All-of_In _ found.schedules entry-Chosen) tt

  mvts_within-IsAnswer :
      (k : ℕ) (m : ScheduleMvt)
      → get k (mvts_within db tpl start_time end_time date days).mvts ≡ some m
      → IsAnswer db tpl start_time end_time date days
          (mvts_within db tpl start_time end_time date days)
          k
          m
  unfolding mvts_within
  mvts_within-IsAnswer k m h =
      let (in_smvts, has_parent) = get-select _ k m found.smvts h found-Loop.smvts_unique in
      let (key, (row, in_row, m_is)) = get-All _ k m found.smvts found-Loop.smvts_from in_smvts in
      let (s, s_found) = some_of_contains_key m.parent_sched _ has_parent in
      let (id_is, chosen) = get-All _ m.parent_sched s _ id_schedules-Chosen s_found in
      let r = is_row row in_row in
      record {
        key_is = key;
        movement_in = subst (λ x. In x db.movements) (sym m_is) r.movement_in;
        movement_passes = ap (passes tpl start_time end_time) m_is ∙ r.movement_passes;
        parent = s;
        parent_found = s_found;
        parent_is = sym id_is;
        parent_in = chosen.chosen_in;
        parent_in_force = chosen.chosen_in_force;
        authoritative = chosen.strongest;
      }

-- Every schedule of the answer is stored.
pub get_mvts_passing_through-schedules_stored :
    (c : Chrono) (db : FahrplanDb) (tpl : String) (ts within_dur : ℕ)
    → All
        (λ (e : ℕ × Schedule). In e.1 db.schedules)
        (get_mvts_passing_through c db tpl ts within_dur).schedules
unfolding get_mvts_passing_through mvts_within
get_mvts_passing_through-schedules_stored c db tpl ts within_dur =
    All-mono _ _ (λ e k. k.1.chosen_in) _ (id_schedules-Chosen db tpl _ _ (c.date ts) _)

-- Each movement of the answer is in the database under its own id, passes the place in the window of
-- time on the first day of its train, and belongs to a schedule which is also in the answer, which is
-- in force on the date, and which no other schedule of the train that is in force overrides.
pub get_mvts_passing_through-IsAnswer :
    (c : Chrono) (db : FahrplanDb) (tpl : String) (ts within_dur k : ℕ) (m : ScheduleMvt)
    → get k (get_mvts_passing_through c db tpl ts within_dur).mvts ≡ some m
    → IsAnswer db tpl
        (calculate_non_midnight_aware_times c ts within_dur).0
        (calculate_non_midnight_aware_times c ts within_dur).1
        (c.date ts)
        (flag_of (from_iso_weekday (c.number_from_monday (c.date ts))))
        (get_mvts_passing_through c db tpl ts within_dur)
        k
        m
unfolding get_mvts_passing_through
get_mvts_passing_through-IsAnswer c db tpl ts within_dur =
    mvts_within-IsAnswer db tpl _ _ (c.date ts) _
