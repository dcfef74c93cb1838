-- ===== src/Zugfuhrer/Query/Connecting.antt =====
-- The groups of movements that `get_connecting_mvts` of tspl-zugfuhrer/src/ctx.rs answers with.
use trainsplorer.Prelude.{
  ℕ, String, ◌≡◌, refl, sym, ap, subst, inl, inr, true, Option, none, some, List, [], ◌∷◌, ◌++◌,
  select, All, All-mono, All-of_In, All-append, In, In-select, In-concat_map, In-map, nat_eq,
  string_eq, ◌==◌, eq→==, Option-cases,
}
use trainsplorer.Prelude.Maps.{Map, get, contains_key, get-All, All-insert}
use trainsplorer.Chrono.{Chrono}
use trainsplorer.Sqlite.{Pairwise-same}
use trainsplorer.Zugfuhrer.Types.{TrainMvt, ZugDb, ConnectingMvtQueryResponse}
use trainsplorer.Zugfuhrer.Store.Valid.{IsValid}
use trainsplorer.Zugfuhrer.Query.{
  passes, updates_of, updating, connects, ConnectingRow, rows_connecting, one_or_none, add_to_group,
  add_connecting_row, add_connecting_rows, get_connecting_mvts,
}
use trainsplorer.Zugfuhrer.Query.Groups.{
  In-or_null, updates_of-eq, add_to_group-none, add_to_group-some, contains_key-insert,
  contains_key-inserted, from, upto,
}

-- `v` updates a movement of the schedule at the connecting place, of the train of `m`.
abbrev pub UpdatesConnecting : ZugDb → String → TrainMvt → TrainMvt → Type 0
UpdatesConnecting db connection m v =
    (n : TrainMvt) × In n db.movements × (connects connection m n ≡ true) × (v.updates ≡ some n.id)

-- A group of connecting movements: it stands under the id of a movement that passes, which the answer
-- has too.
pub record IsConnection (db : ZugDb) (tpl connection : String) (start_time end_time : ℕ)
    (mvts : Map ℕ (List TrainMvt)) (id : ℕ) (group : List TrainMvt) : Type 0 where
  pub original : TrainMvt
  pub connecting : TrainMvt
  pub updates : List TrainMvt
  pub group_is : group ≡ connecting ∷ updates
  pub id_is : id ≡ original.id
  pub original_in : In original db.movements
  pub original_passes : passes tpl start_time end_time original ≡ true
  pub connecting_in : In connecting db.movements
  pub connecting_connects : connects connection original connecting ≡ true
  pub updates_are : All (UpdatesConnecting db connection original) updates
  pub original_there : contains_key id mvts ≡ true

module _ (db : ZugDb) (tpl connection : String) (start_time end_time : ℕ) where
  abbrev pub Connections : Map ℕ (List TrainMvt) → Map ℕ (List TrainMvt) → Type 0
  Connections mvts =
      All
        (λ (e : ℕ × List TrainMvt). IsConnection db tpl connection start_time end_time mvts e.0 e.1)

  -- What a row of the join tells.
  pub record IsConnectingRow (row : ConnectingRow) : Type 0 where
    pub row_in : In row.0 db.movements
    pub row_passes : passes tpl start_time end_time row.0 ≡ true
    pub row_connecting_in : In row.2 db.movements
    pub row_connects : connects connection row.0 row.2 ≡ true
    pub row_update : All (UpdatesConnecting db connection row.0) (one_or_none row.4)

  updating-connects :
      (m n : TrainMvt) (v : Option TrainMvt)
      → In n db.movements
      → connects connection m n ≡ true
      → In v (updating db n.id)
      → All (UpdatesConnecting db connection m) (one_or_none v)
  updating-connects m n none there is i = tt
  updating-connects m n (some v) there is i =
      let (v_in, v_is) =
        In-select (updates_of n.id) v db.movements
          (In-or_null v (select (updates_of n.id) db.movements) i) in
      ((n, there, is, updates_of-eq n.id v v_is), tt)

  rows_connecting-IsConnectingRow :
      (date : ℕ) (row : ConnectingRow)
      → In row (rows_connecting db tpl start_time end_time date connection)
      → IsConnectingRow row
  unfolding rows_connecting
  rows_connecting-IsConnectingRow date row h =
      let (m, in_m, h1) = In-concat_map _ row _ h in
      let (t, in_t, h2) = In-concat_map _ row _ h1 in
      let (n, in_n, h3) = In-concat_map _ row _ h2 in
      let (u, in_u, h4) = In-concat_map _ row _ h3 in
      let (v, in_v, e) = In-map _ row _ h4 in
      let (m_there, m_passes) = In-select _ m _ in_m in
      let (n_there, n_connects) = In-select (connects connection m) n _ in_n in
      subst IsConnectingRow (sym e) (record {
        row_in = m_there;
        row_passes = m_passes;
        row_connecting_in = n_there;
        row_connects = n_connects;
        row_update = updating-connects m n v n_there n_connects in_v;
      })

  Connections-mono :
      (mvts mvts' groups : Map ℕ (List TrainMvt))
      → ((id : ℕ) → contains_key id mvts ≡ true → contains_key id mvts' ≡ true)
      → Connections mvts groups
      → Connections mvts' groups
  Connections-mono mvts mvts' groups keeps =
      All-mono
        (λ (e : ℕ × List TrainMvt). IsConnection db tpl connection start_time end_time mvts e.0 e.1)
        (λ (e : ℕ × List TrainMvt).
          IsConnection db tpl connection start_time end_time mvts' e.0 e.1)
        (λ e g. record {
          original = g.original;
          connecting = g.connecting;
          updates = g.updates;
          group_is = g.group_is;
          id_is = g.id_is;
          original_in = g.original_in;
          original_passes = g.original_passes;
          connecting_in = g.connecting_in;
          connecting_connects = g.connecting_connects;
          updates_are = g.updates_are;
          original_there = keeps e.0 g.original_there;
        })
        groups

  add_connecting_row-Connections :
      (mvts groups : Map ℕ (List TrainMvt)) (row : ConnectingRow)
      → IsValid db
      → IsConnectingRow row
      → contains_key row.0.id mvts ≡ true
      → Connections mvts groups
      → Connections mvts (add_to_group row.0.id row.2 row.4 groups)
  add_connecting_row-Connections mvts groups row valid k there h =
      elim (Option-cases (get row.0.id groups)) [
        | inl e ↦ subst (Connections mvts) (sym (add_to_group-none row.0.id row.2 row.4 groups e)) (
            All-insert _ row.0.id (row.2 ∷ one_or_none row.4) groups h (record {
              original = row.0;
              connecting = row.2;
              updates = one_or_none row.4;
              group_is = refl;
              id_is = refl;
              original_in = k.row_in;
              original_passes = k.row_passes;
              connecting_in = k.row_connecting_in;
              connecting_connects = k.row_connects;
              updates_are = k.row_update;
              original_there = there;
            }))
        | inr (group, e) ↦
            let old = get-All _ row.0.id group groups h e in
            let same : row.0 ≡ old.original =
              Pairwise-same (λ (x : TrainMvt) y. x.id == y.id) db.movements row.0 old.original
                valid.mvts.ids k.row_in old.original_in (eq→== _ _ old.id_is)
                (eq→== _ _ (sym old.id_is)) in
            subst (Connections mvts) (sym (add_to_group-some row.0.id row.2 row.4 group groups e)) (
              All-insert _ row.0.id (group ++ one_or_none row.4) groups h (record {
                original = old.original;
                connecting = old.connecting;
                updates = old.updates ++ one_or_none row.4;
                group_is = ap (λ g. g ++ one_or_none row.4) old.group_is;
                id_is = old.id_is;
                original_in = old.original_in;
                original_passes = old.original_passes;
                connecting_in = old.connecting_in;
                connecting_connects = old.connecting_connects;
                updates_are = All-append _ old.updates (one_or_none row.4) old.updates_are (
                    subst (λ m. All (UpdatesConnecting db connection m) (one_or_none row.4)) same
                      k.row_update);
                original_there = there;
              }))
      ]

  add_to_group-keeps_key :
      (k id : ℕ) (m : TrainMvt) (u : Option TrainMvt) (mvts : Map ℕ (List TrainMvt))
      → contains_key k mvts ≡ true
      → contains_key k (add_to_group id m u mvts) ≡ true
  add_to_group-keeps_key k id m u mvts h = elim (Option-cases (get id mvts)) [
    | inl e ↦
        subst (λ g. contains_key k g ≡ true) (sym (add_to_group-none id m u mvts e))
          (contains_key-insert id k _ mvts h)
    | inr (group, e) ↦
        subst (λ g. contains_key k g ≡ true) (sym (add_to_group-some id m u group mvts e))
          (contains_key-insert id k _ mvts h)
  ]

  add_to_group-adds_key :
      (id : ℕ) (m : TrainMvt) (u : Option TrainMvt) (mvts : Map ℕ (List TrainMvt))
      → contains_key id (add_to_group id m u mvts) ≡ true
  add_to_group-adds_key id m u mvts = elim (Option-cases (get id mvts)) [
    | inl e ↦
        subst (λ g. contains_key id g ≡ true) (sym (add_to_group-none id m u mvts e))
          (contains_key-inserted id _ mvts)
    | inr (group, e) ↦
        subst (λ g. contains_key id g ≡ true) (sym (add_to_group-some id m u group mvts e))
          (contains_key-inserted id _ mvts)
  ]

  add_connecting_rows-Connections :
      (rows : List ConnectingRow) (r : ConnectingMvtQueryResponse)
      → IsValid db
      → All IsConnectingRow rows
      → Connections r.mvts r.connecting_mvts
      → Connections (add_connecting_rows r rows).mvts (add_connecting_rows r rows).connecting_mvts
  unfolding add_connecting_rows add_connecting_row
  add_connecting_rows-Connections [] r valid k h = h
  add_connecting_rows-Connections (row ∷ rows) r valid k h =
      add_connecting_rows-Connections rows (add_connecting_row r row) valid k.1 (
        add_connecting_row-Connections (add_to_group row.0.id row.0 row.3 r.mvts) r.connecting_mvts
          row valid k.0 (add_to_group-adds_key row.0.id row.0 row.3 r.mvts)
          (Connections-mono r.mvts _ r.connecting_mvts
            (λ id. add_to_group-keeps_key id row.0.id row.0 row.3 r.mvts) h))

-- In a well-formed database, every group of connecting movements stands under the id of a movement of
-- the schedule that passes the first place in the time window, and that the answer has too; it begins
-- with a movement of the schedule of the same train at the connecting place; and each other one of it
-- updates such a movement, though not always the one that the group begins with.
pub get_connecting_mvts-Connections :
    (c : Chrono) (db : ZugDb) (tpl : String) (ts within_dur : ℕ) (connection : String)
    → IsValid db
    → Connections db tpl connection
        (from c ts within_dur)
        (upto c ts within_dur)
        (get_connecting_mvts c db tpl ts within_dur connection).mvts
        (get_connecting_mvts c db tpl ts within_dur connection).connecting_mvts
unfolding get_connecting_mvts
get_connecting_mvts-Connections c db tpl ts within_dur connection valid =
    add_connecting_rows-Connections db tpl connection (from c ts within_dur) (upto c ts within_dur)
      _ (record { mvts = []; connecting_mvts = []; trains = [] }) valid
      (All-of_In _ _ (
        rows_connecting-IsConnectingRow db tpl connection (from c ts within_dur)
          (upto c ts within_dur) (c.date ts)))
      tt
