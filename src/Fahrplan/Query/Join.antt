-- ===== src/Fahrplan/Query/Join.antt =====
-- `process_schedule_join` (tspl-fahrplan/src/ctx.rs): for each train the map keeps the schedule with
-- the strongest indicator among those that the rows show.
use trainsplorer.Prelude.{
  String, ◌≡◌, refl, sym, subst, ◌∙◌, inl, inr, false, Option, none, some, List, [], ◌∷◌, In,
  In-nil, arith, nat_eq, string_eq, ◌==◌, eq→==, ==→eq, str_lt, str_lt_irrefl, str_lt_trans,
  Bool-cases, Option-cases, if◌then◌else◌,
}
use trainsplorer.Prelude.Maps.{Map, get, insert, contains_key, get-insert}
use trainsplorer.Fahrplan.Types.{Schedule}
use trainsplorer.Fahrplan.Query.{
  process_schedule_join, supersede, JoinRow, Found, found_row, found_rows,
}

-- The stronger of two, the second if they are alike.
abbrev pub stronger : Schedule → Schedule → Schedule
stronger u s = if str_lt u.stp_indicator s.stp_indicator then u else s

abbrev pub or_else : Option Schedule → Schedule → Schedule
or_else none s = s
or_else (some t) s = t

get-supersede :
    (k uid : String) (u e : Schedule) (m : Map String Schedule)
    → get k m ≡ some e
    → get uid (supersede k (some u) m) ≡ (if k == uid then some (stronger u e) else get uid m)
unfolding supersede
get-supersede k uid u e m h =
    rw (h, supersede)
      (elim (Bool-cases (str_lt u.stp_indicator e.stp_indicator)) [
        | inl y ↦ rw y (get-insert k uid u m)
        | inr n ↦ rw n (elim (Bool-cases (k == uid)) [
          | inl same ↦ rw same (subst (λ i. get i m ≡ some e) (==→eq k uid same) h)
          | inr other ↦ rw other
        ])
      ])

-- One row changes the entry of its own train and no other: the entry that is there, or else the
-- row's schedule, gives way to the updating schedule if that is stronger.
pub get-process_schedule_join :
    (m : Map String Schedule) (s u : Schedule) (uid : String)
    → get uid (process_schedule_join m s (some u))
      ≡ (if s.uid == uid then some (stronger u (or_else (get s.uid m) s)) else get uid m)
unfolding process_schedule_join
get-process_schedule_join m s u uid = elim (Option-cases (get s.uid m)) [
  | inr (t, there) ↦ rw (there, contains_key) (get-supersede s.uid uid u t m there)
  | inl missing ↦
      let added : get s.uid (insert s.uid s m) ≡ some s =
        get-insert s.uid s.uid s m ∙ rw (eq→== s.uid s.uid refl) in
      rw (missing, contains_key)
        (get-supersede s.uid uid u s (insert s.uid s m) added
          ∙ ground (arith, get-insert s.uid uid s m))
]

-- The map has a schedule of the train, and `t` does not override it.
pub record Floor (uid : String) (t : Schedule) (m : Map String Schedule) : Type 0 where
  pub entry : Schedule
  pub found : get uid m ≡ some entry
  pub not_before : str_lt t.stp_indicator entry.stp_indicator ≡ false

stronger_floor :
    (u e t : Schedule)
    → str_lt t.stp_indicator e.stp_indicator ≡ false
    → str_lt t.stp_indicator (stronger u e).stp_indicator ≡ false
stronger_floor u e t h =
    ground (arith, str_lt_trans t.stp_indicator u.stp_indicator e.stp_indicator)

stronger_self : (u e : Schedule) → str_lt u.stp_indicator (stronger u e).stp_indicator ≡ false
stronger_self u e = ground (arith, str_lt_irrefl u.stp_indicator)

-- A row keeps the floor that earlier rows have set, ...
Floor-keep :
    (uid : String) (t s u : Schedule) (m : Map String Schedule)
    → Floor uid t m
    → Floor uid t (process_schedule_join m s (some u))
Floor-keep uid t s u m f = elim (Bool-cases (s.uid == uid)) [
  | inr other ↦ record {
    entry = f.entry;
    found = get-process_schedule_join m s u uid ∙ rw other f.found;
    not_before = f.not_before;
  }
  | inl same ↦
      let there : get s.uid m ≡ some f.entry =
        subst (λ i. get i m ≡ some f.entry) (sym (==→eq s.uid uid same)) f.found in
      record {
        entry = stronger u f.entry;
        found = get-process_schedule_join m s u uid ∙ rw (same, there);
        not_before = stronger_floor u f.entry t f.not_before;
      }
]

-- ... and sets its own.
Floor-new :
    (s u : Schedule) (m : Map String Schedule) → Floor s.uid u (process_schedule_join m s (some u))
Floor-new s u m = record {
  entry = stronger u (or_else (get s.uid m) s);
  found = get-process_schedule_join m s u s.uid ∙ rw (eq→== s.uid s.uid refl);
  not_before = stronger_self u (or_else (get s.uid m) s);
}

Floor-found_rows :
    (uid : String) (t : Schedule) (f : Found) (rows : List JoinRow)
    → Floor uid t f.schedules
    → Floor uid t (found_rows f rows).schedules
unfolding found_rows found_row
Floor-found_rows uid t f [] h = h
Floor-found_rows uid t f ((m, s, u) ∷ rows) h =
    Floor-found_rows uid t (found_row f (m, s, u)) rows (Floor-keep uid t s u f.schedules h)

-- After the loop no row overrides what the map has for its train.
pub found_rows-Floor :
    (f : Found) (rows : List JoinRow) (row : JoinRow)
    → In row rows
    → Floor row.1.uid row.2 (found_rows f rows).schedules
unfolding found_rows found_row
found_rows-Floor f [] row h = In-nil row h
found_rows-Floor f ((m, s, u) ∷ rows) row (inl e) =
    Floor-found_rows row.1.uid row.2 (found_row f (m, s, u)) rows (
      subst (λ r. Floor r.1.uid r.2 (process_schedule_join f.schedules s (some u))) (sym e)
        (Floor-new s u f.schedules))
found_rows-Floor f ((m, s, u) ∷ rows) row (inr h) =
    found_rows-Floor (found_row f (m, s, u)) rows row h

-- The map is changed by `insert` only, at the row's train: of its schedule or of the updating one.
pub process_schedule_join-keeps {ℓ} :
    (P : Map String Schedule → Type ℓ) (m : Map String Schedule) (s u : Schedule)
    → P m
    → ((n : Map String Schedule) → P n → P (insert s.uid s n))
    → ((n : Map String Schedule) → P n → P (insert s.uid u n))
    → P (process_schedule_join m s (some u))
unfolding process_schedule_join
process_schedule_join-keeps P m s u h first second = elim (Bool-cases (contains_key s.uid m)) [
  | inl y ↦ rw y (supersede-keeps m h)
  | inr n ↦ rw n (supersede-keeps (insert s.uid s m) (first m h))
]
  where
    supersede-keeps : (n : Map String Schedule) → P n → P (supersede s.uid (some u) n)
    supersede-keeps n hn = elim (Option-cases (get s.uid n)) [
      | inl e ↦ subst P (sym (unfold supersede in rw (e, supersede))) hn
      | inr (t, e) ↦ elim (Bool-cases (str_lt u.stp_indicator t.stp_indicator)) [
        | inl y ↦ subst P (sym (unfold supersede in rw (e, supersede) (rw y))) (second n hn)
        | inr z ↦ subst P (sym (unfold supersede in rw (e, supersede) (rw z))) hn
      ]
    ]
