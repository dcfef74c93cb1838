-- ===== src/Fahrplan/Query/Through/Complete.antt =====
-- `get_mvts_passing_through` (tspl-fahrplan/src/ctx.rs): which movements the answer must have.
use trainsplorer.Prelude.{
  ℕ, String, ◌≡◌, refl, sym, ap, subst, ◌∙◌, ◌⊎◌, inl, inr, true, false, Option, none, some, List,
  [], ◌∷◌, In, In-nil, arith, nat_eq, string_eq, ◌==◌, eq→==, str_lt,
}
use trainsplorer.Prelude.Maps.{
  Map, get, insert, contains_key, is_some, get-insert, get-All, get-select_of, In-of_get,
}
use trainsplorer.Chrono.{Chrono}
use trainsplorer.Sqlite.{Pairwise, Pairwise-same, true≢false}
use trainsplorer.Util.Time.{calculate_non_midnight_aware_times}
use trainsplorer.Fahrplan.Types.{Schedule, ScheduleMvt, FahrplanDb}
use trainsplorer.Fahrplan.Days.{from_iso_weekday}
use trainsplorer.Fahrplan.Query.{
  uid_scheds_to_id_scheds, insert_ids, in_force, passes, JoinRow, Found, found_row, found_rows,
  flag_of, mvts_within, get_mvts_passing_through,
}
use trainsplorer.Fahrplan.Query.Join.{found_rows-Floor}
use trainsplorer.Fahrplan.Query.Rows.{rows_through-of_IsRow}
use trainsplorer.Fahrplan.Query.Loop.{Entry}
use trainsplorer.Fahrplan.Query.Through.{rows, found, is_row, found-Loop, entry-Chosen}

-- The loop keeps the ids that it has seen.
found_rows-keeps_key :
    (k : ℕ) (f : Found) (rs : List JoinRow)
    → contains_key k f.smvts ≡ true
    → contains_key k (found_rows f rs).smvts ≡ true
unfolding found_rows found_row
found_rows-keeps_key k f [] h = h
found_rows-keeps_key k f (row ∷ rs) h =
    found_rows-keeps_key k (found_row f row) rs
      (ground (arith, h, get-insert row.0.id k row.0 f.smvts))

found_rows-key :
    (f : Found) (rs : List JoinRow) (row : JoinRow)
    → In row rs
    → contains_key row.0.id (found_rows f rs).smvts ≡ true
unfolding found_rows found_row
found_rows-key f [] row h = In-nil row h
found_rows-key f (r ∷ rs) row (inl e) = found_rows-keeps_key row.0.id (found_row f r) rs (
    subst (λ q. contains_key q.0.id (found_row f r).smvts ≡ true) (sym e)
      (ground (arith, eq→== r.0.id r.0.id refl, get-insert r.0.id r.0.id r.0 f.smvts)))
found_rows-key f (r ∷ rs) row (inr m) = found_rows-key (found_row f r) rs row m

insert_ids-keeps_key :
    (k : ℕ) (inp : Map String Schedule) (out : Map ℕ Schedule)
    → contains_key k out ≡ true
    → contains_key k (insert_ids inp out) ≡ true
unfolding insert_ids
insert_ids-keeps_key k [] out h = h
insert_ids-keeps_key k ((uid, s) ∷ inp) out h =
    insert_ids-keeps_key k inp (insert s.id s out) (ground (arith, h, get-insert s.id k s out))

insert_ids-key :
    (uid : String) (s : Schedule) (inp : Map String Schedule) (out : Map ℕ Schedule)
    → In (uid, s) inp
    → contains_key s.id (insert_ids inp out) ≡ true
unfolding insert_ids
insert_ids-key uid s [] out h = In-nil {A = String × Schedule} (uid, s) h
insert_ids-key uid s ((u, r) ∷ inp) out (inl e) =
    insert_ids-keeps_key s.id inp (insert r.id r out) (
      subst (λ q. contains_key q.1.id (insert r.id r out) ≡ true) (sym e)
        (ground (arith, eq→== r.id r.id refl, get-insert r.id r.id r out)))
insert_ids-key uid s ((u, r) ∷ inp) out (inr m) = insert_ids-key uid s inp (insert r.id r out) m

is_some-eq {ℓ} : {A : Type ℓ} (o : Option A) → is_some o ≡ true → (a : A) × (o ≡ some a)
is_some-eq none h = cc
is_some-eq (some a) h = (a, refl)

-- A movement that passes, of a schedule in force which every other one of its train that is in force
-- gives way to.
pub record Authoritative (db : FahrplanDb) (tpl : String) (start_time end_time date days : ℕ)
    (m : ScheduleMvt) : Type 0 where
  pub movement_in : In m db.movements
  pub movement_passes : passes tpl start_time end_time m ≡ true
  pub parent : Schedule
  pub parent_in : In parent db.schedules
  pub parent_is : parent.id ≡ m.parent_sched
  pub parent_in_force : in_force date days parent ≡ true
  pub overrides :
      (t : Schedule)
      → In t db.schedules
      → t.uid ≡ parent.uid
      → in_force date days t ≡ true
      → (t ≡ parent) ⊎ (str_lt parent.stp_indicator t.stp_indicator ≡ true)

module _ (db : FahrplanDb) (tpl : String) (start_time end_time date days : ℕ) (m : ScheduleMvt)
    (mvt_ids : Pairwise (λ (a : ScheduleMvt) b. (a.id == b.id) ≡ false) db.movements)
    (a : Authoritative db tpl start_time end_time date days m) where
  own_row : In (m, a.parent, a.parent) (rows db tpl start_time end_time date days)
  own_row =
      rows_through-of_IsRow db tpl start_time end_time date days (m, a.parent, a.parent)
        (record {
          movement_in = a.movement_in;
          movement_passes = a.movement_passes;
          parent_in = a.parent_in;
          parent_is = a.parent_is;
          parent_in_force = a.parent_in_force;
          updating_in = a.parent_in;
          same_train = refl;
          updating_in_force = a.parent_in_force;
        })

  smvts-found : get m.id (found db tpl start_time end_time date days).smvts ≡ some m
  smvts-found =
      let f = found db tpl start_time end_time date days in
      let loop = found-Loop db tpl start_time end_time date days in
      let (n, there) =
        is_some-eq (get m.id f.smvts)
          (found_rows-key (record { smvts = []; schedules = [] }) _ _ own_row) in
      let (id_is, (row, in_row, n_is)) = get-All _ m.id n f.smvts loop.smvts_from there in
      let n_in =
        subst (λ x. In x db.movements) (sym n_is)
          (is_row db tpl start_time end_time date days row in_row).movement_in in
      there
      ∙ ap (λ x. some x)
          (Pairwise-same (λ (x : ScheduleMvt) y. x.id == y.id) db.movements n m mvt_ids n_in
            a.movement_in (eq→== n.id m.id (sym id_is)) (eq→== m.id n.id id_is))

  schedules-found :
      In (a.parent.uid, a.parent) (found db tpl start_time end_time date days).schedules
  schedules-found =
      let f = found db tpl start_time end_time date days in
      let loop = found-Loop db tpl start_time end_time date days in
      let floor =
        found_rows-Floor (record { smvts = []; schedules = [] }) _ (m, a.parent, a.parent)
          own_row in
      let there = In-of_get a.parent.uid floor.entry f.schedules floor.found in
      let chosen =
        entry-Chosen db tpl start_time end_time date days (a.parent.uid, floor.entry) there in
      let uid_is =
        (get-All (Entry (rows db tpl start_time end_time date days)) a.parent.uid floor.entry
          f.schedules loop.entries floor.found).0 in
      elim (a.overrides floor.entry chosen.chosen_in uid_is chosen.chosen_in_force) [
        | inl e ↦ subst (λ s. In (a.parent.uid, s) f.schedules) e there
        | inr lt ↦ absurd (true≢false (sym lt ∙ floor.not_before))
      ]

  pub mvts_within-finds : get m.id (mvts_within db tpl start_time end_time date days).mvts ≡ some m
  unfolding mvts_within uid_scheds_to_id_scheds
  mvts_within-finds =
      let f = found db tpl start_time end_time date days in
      get-select_of _ m.id m f.smvts (found-Loop db tpl start_time end_time date days).smvts_unique
        smvts-found
        (subst (λ i. contains_key i (insert_ids f.schedules []) ≡ true) a.parent_is
          (insert_ids-key a.parent.uid a.parent f.schedules [] schedules-found))

-- Where the ids of movements are unique, the answer has each movement that passes the place in the
-- window of time on the first day of its train and belongs to a schedule in force on the date which
-- overrides all others of the train that are in force.
pub get_mvts_passing_through-finds :
    (c : Chrono) (db : FahrplanDb) (tpl : String) (ts within_dur : ℕ) (m : ScheduleMvt)
    → Pairwise (λ (a : ScheduleMvt) b. (a.id == b.id) ≡ false) db.movements
    → Authoritative db tpl
        (calculate_non_midnight_aware_times c ts within_dur).0
        (calculate_non_midnight_aware_times c ts within_dur).1
        (c.date ts)
        (flag_of (from_iso_weekday (c.number_from_monday (c.date ts))))
        m
    → get m.id (get_mvts_passing_through c db tpl ts within_dur).mvts ≡ some m
unfolding get_mvts_passing_through
get_mvts_passing_through-finds c db tpl ts within_dur m ids a =
    mvts_within-finds db tpl _ _ (c.date ts) _ m ids a
