-- ===== src/Fahrplan/Query/Connecting/Answer.antt =====
-- `get_connecting_mvts` (tspl-fahrplan/src/ctx.rs): which movements the answer pairs.
use trainsplorer.Prelude.{
  ℕ, String, ◌≡◌, ◌⊎◌, refl, sym, ap, subst, ◌∙◌, inl, inr, true, false, none, some, List, [], ◌∷◌,
  In, In-select, In-concat_map, In-map, arith, nat_eq, string_eq, ◌==◌, eq→==, ==→eq, Bool-cases,
}
use mathlib.Core.Option.{some-injective}
use trainsplorer.Prelude.Maps.{
  Map, get, insert, contains_key, is_some, get-insert, get-select, get-select_of, Unique,
  Unique-insert,
}
use trainsplorer.Chrono.{Chrono}
use trainsplorer.Util.Time.{calculate_non_midnight_aware_times}
use trainsplorer.Fahrplan.Types.{ScheduleMvt, FahrplanDb, ConnectingMvtQueryResponse}
use trainsplorer.Fahrplan.Query.{passes, uid_scheds_to_id_scheds}
use trainsplorer.Fahrplan.Query.Loop.{some_of_contains_key}
use trainsplorer.Fahrplan.Query.Connecting.{
  ConnectingRow, connects, rows_connecting, FoundConnecting, found_connecting_row,
  found_connecting_rows, connecting_of, get_connecting_mvts,
}

-- Both maps have the key from one row, or neither has it.
abbrev Paired : List ConnectingRow → FoundConnecting → ℕ → Type 0
Paired all f k =
    ((get k f.smvts ≡ none) × (get k f.connecting_smvts ≡ none))
    ⊎ ((row : ConnectingRow) × In row all
        × (get k f.smvts ≡ some row.0)
        × (get k f.connecting_smvts ≡ some row.1))

record Pairs (all : List ConnectingRow) (f : FoundConnecting) : Type 0 where
  paired : (k : ℕ) → Paired all f k
  smvts_unique : Unique f.smvts
  connecting_unique : Unique f.connecting_smvts

none≢some : {m : ScheduleMvt} → none ≡ some m → ⊥
none≢some h = cc

get-inserted : (k : ℕ) (v : ScheduleMvt) (m : Map ℕ ScheduleMvt) → get k (insert k v m) ≡ some v
get-inserted k v m = ground (arith, eq→== k k refl, get-insert k k v m)

get-insert_other :
    (j k : ℕ) (v : ScheduleMvt) (m : Map ℕ ScheduleMvt)
    → (j == k) ≡ false
    → get k (insert j v m) ≡ get k m
get-insert_other j k v m n = ground (arith, get-insert j k v m)

module _ (all : List ConnectingRow) where
  found_connecting_row-Pairs :
      (f : FoundConnecting) (row : ConnectingRow)
      → In row all
      → Pairs all f
      → Pairs all (found_connecting_row f row)
  unfolding found_connecting_row
  found_connecting_row-Pairs f row i p = record {
    paired = λ k. elim (Bool-cases (row.0.id == k)) [
      | inl y ↦
          subst
            (λ j.
              Paired all
                (record f {
                  smvts = insert row.0.id row.0 f.smvts;
                  connecting_smvts = insert row.0.id row.1 f.connecting_smvts;
                })
                j)
            (==→eq row.0.id k y)
            (inr (
              row,
              i,
              get-inserted row.0.id row.0 f.smvts,
              get-inserted row.0.id row.1 f.connecting_smvts,
            ))
      | inr n ↦
          let e = get-insert_other row.0.id k row.0 f.smvts n in
          let g = get-insert_other row.0.id k row.1 f.connecting_smvts n in
          elim (p.paired k) [
            | inl (a, b) ↦ inl (e ∙ a, g ∙ b)
            | inr (r, j, a, b) ↦ inr (r, j, e ∙ a, g ∙ b)
          ]
    ];
    smvts_unique = Unique-insert row.0.id row.0 f.smvts p.smvts_unique;
    connecting_unique = Unique-insert row.0.id row.1 f.connecting_smvts p.connecting_unique;
  }

  found_connecting_rows-Pairs :
      (rows : List ConnectingRow) (f : FoundConnecting)
      → ((row : ConnectingRow) → In row rows → In row all)
      → Pairs all f
      → Pairs all (found_connecting_rows f rows)
  unfolding found_connecting_rows
  found_connecting_rows-Pairs [] f sub p = p
  found_connecting_rows-Pairs (row ∷ rows) f sub p =
      found_connecting_rows-Pairs rows (found_connecting_row f row) (λ r h. sub r (inr h))
        (found_connecting_row-Pairs f row (sub row (inl refl)) p)

-- What the answer has under a key: a stored movement that passes, and a stored movement of the same
-- schedule at the connecting place; and the schedule is in the answer.
pub record IsPair (db : FahrplanDb) (tpl conn : String) (start_time end_time : ℕ)
    (resp : ConnectingMvtQueryResponse) (k : ℕ) : Type 0 where
  pub movement : ScheduleMvt
  pub connecting : ScheduleMvt
  pub movement_there : get k resp.mvts ≡ some movement
  pub connecting_there : get k resp.connecting_mvts ≡ some connecting
  pub movement_in : In movement db.movements
  pub movement_passes : passes tpl start_time end_time movement ≡ true
  pub connecting_in : In connecting db.movements
  pub connecting_at : connecting.tiploc ≡ conn
  pub same_schedule : movement.parent_sched ≡ connecting.parent_sched
  pub schedule_there : contains_key movement.parent_sched resp.schedules ≡ true

record IsConnectingRow (db : FahrplanDb) (tpl conn : String) (start_time end_time : ℕ)
    (row : ConnectingRow) : Type 0 where
  row_in : In row.0 db.movements
  row_passes : passes tpl start_time end_time row.0 ≡ true
  row_connecting_in : In row.1 db.movements
  row_connecting_at : row.1.tiploc ≡ conn
  row_same_schedule : row.0.parent_sched ≡ row.1.parent_sched

module _ (db : FahrplanDb) (tpl conn : String) (start_time end_time date days : ℕ) where
  abbrev rows : List ConnectingRow
  rows = rows_connecting db tpl conn start_time end_time date days

  rows_connecting-IsConnectingRow :
      (row : ConnectingRow) → In row rows → IsConnectingRow db tpl conn start_time end_time row
  unfolding rows_connecting
  rows_connecting-IsConnectingRow row h =
      let (m, in_m, h1) = In-concat_map _ row _ h in
      let (n, in_n, h2) = In-concat_map _ row _ h1 in
      let (s, in_s, h3) = In-concat_map _ row _ h2 in
      let (s2, in_s2, e) = In-map _ row _ h3 in
      let (m_in, m_passes) = In-select _ m _ in_m in
      let (n_in, n_connects) = In-select (connects conn m) n _ in_n in
      subst (IsConnectingRow db tpl conn start_time end_time) (sym e) (record {
        row_in = m_in;
        row_passes = m_passes;
        row_connecting_in = n_in;
        row_connecting_at = ground (arith, n_connects, string_eq.beq_iff n.tiploc conn);
        row_same_schedule = ground (arith, n_connects);
      })

  abbrev found : FoundConnecting
  found = found_connecting_rows (record { smvts = []; connecting_smvts = []; schedules = [] }) rows

  nothing_yet :
      (k : ℕ) → Paired rows (record { smvts = []; connecting_smvts = []; schedules = [] }) k
  unfolding get
  nothing_yet k = inl (refl, refl)

  found-Pairs : Pairs rows found
  found-Pairs =
      found_connecting_rows-Pairs rows rows
        (record { smvts = []; connecting_smvts = []; schedules = [] }) (λ row h. h)
        (record { paired = nothing_yet; smvts_unique = tt; connecting_unique = tt })

  abbrev resp : ConnectingMvtQueryResponse
  resp = connecting_of found

  row_of :
      (k : ℕ) (m : ScheduleMvt)
      → get k found.smvts ≡ some m
      → (row : ConnectingRow) × In row rows
        × (row.0 ≡ m)
        × (get k found.connecting_smvts ≡ some row.1)
  row_of k m h = elim (found-Pairs.paired k) [
    | inl (a, b) ↦ absurd (none≢some (sym a ∙ h))
    | inr (row, i, a, b) ↦ (row, i, some-injective row.0 m (sym a ∙ h), b)
  ]

  -- A movement that the first `retain` leaves has a partner that the second leaves.
  IsPair-of_movement :
      (k : ℕ) (m : ScheduleMvt)
      → get k resp.mvts ≡ some m
      → IsPair db tpl conn start_time end_time resp k
  unfolding connecting_of
  IsPair-of_movement k m h =
      let (there, has_schedule) = get-select _ k m found.smvts h found-Pairs.smvts_unique in
      let (row, i, m_is, partner) = row_of k m there in
      let r = rows_connecting-IsConnectingRow row i in
      record {
        movement = row.0;
        connecting = row.1;
        movement_there = h ∙ ap (λ x. some x) (sym m_is);
        connecting_there =
            get-select_of _ k row.1 found.connecting_smvts found-Pairs.connecting_unique partner
              (ap is_some h);
        movement_in = r.row_in;
        movement_passes = r.row_passes;
        connecting_in = r.row_connecting_in;
        connecting_at = r.row_connecting_at;
        same_schedule = r.row_same_schedule;
        schedule_there =
            subst
              (λ (x : ScheduleMvt).
                contains_key x.parent_sched (uid_scheds_to_id_scheds found.schedules) ≡ true)
              (sym m_is) has_schedule;
      }

  IsPair-of_connecting :
      (k : ℕ) (n : ScheduleMvt)
      → get k resp.connecting_mvts ≡ some n
      → IsPair db tpl conn start_time end_time resp k
  unfolding connecting_of
  IsPair-of_connecting k n h =
      let (there, has_movement) =
        get-select _ k n found.connecting_smvts h found-Pairs.connecting_unique in
      let (m, m_there) = some_of_contains_key k resp.mvts has_movement in
      IsPair-of_movement k m m_there

-- Under whatever key the answer has a movement or a connecting movement, it has both: a stored movement
-- that passes the first place in the time window, and one of the same schedule at the second place;
-- and it has their schedule.
pub get_connecting_mvts-IsPair :
    (c : Chrono) (db : FahrplanDb) (tpl : String) (ts within_dur : ℕ) (conn : String) (k : ℕ)
    → (contains_key k (get_connecting_mvts c db tpl ts within_dur conn).mvts ≡ true)
      ⊎ (contains_key k (get_connecting_mvts c db tpl ts within_dur conn).connecting_mvts ≡ true)
    → IsPair db tpl conn
        (calculate_non_midnight_aware_times c ts within_dur).0
        (calculate_non_midnight_aware_times c ts within_dur).1
        (get_connecting_mvts c db tpl ts within_dur conn)
        k
unfolding get_connecting_mvts
get_connecting_mvts-IsPair c db tpl ts within_dur conn k (inl h) =
    let (m, e) = some_of_contains_key k _ h in IsPair-of_movement db tpl conn _ _ _ _ k m e
get_connecting_mvts-IsPair c db tpl ts within_dur conn k (inr h) =
    let (n, e) = some_of_contains_key k _ h in IsPair-of_connecting db tpl conn _ _ _ _ k n e
