-- ===== src/Zugfuhrer/Query/Complete.antt =====
-- What `get_mvts_passing_through` of tspl-zugfuhrer/src/ctx.rs finds.
use trainsplorer.Prelude.{
  ℕ, String, ◌≡◌, refl, sym, ap, subst, ◌∙◌, inl, inr, true, false, Option, some, List, select, [],
  ◌∷◌, ◌++◌, In, In-nil, In-select_of, In-concat_map_of, In-map_of, In-append_left, In-append_right,
  arith, nat_eq, string_eq, ◌==◌, eq→==, ==→eq, Bool-cases, Option-cases,
}
use mathlib.Core.Option.{some-injective}
use trainsplorer.Prelude.Maps.{Map, get, insert, get-insert, get-All}
use trainsplorer.Chrono.{Chrono}
use trainsplorer.Sqlite.{Pairwise-same}
use trainsplorer.Zugfuhrer.Types.{Train, TrainMvt, ZugDb, MvtQueryResponse}
use trainsplorer.Zugfuhrer.Store.Valid.{IsValid}
use trainsplorer.Zugfuhrer.Query.{
  passes, updates_of, updating, train_of, MvtRow, rows_through, one_or_none, add_to_group, add_row,
  add_rows, get_mvts_passing_through,
}
use trainsplorer.Zugfuhrer.Query.Groups.{
  In-or_null_of, or_null-inhabited, add_to_group-none, add_to_group-some, answer, from, upto,
  IsGroupOf, get_mvts_passing_through-Groups,
}

-- A group stands under the id, and what is listed is in it.
abbrev pub Holds : Map ℕ (List TrainMvt) → ℕ → (TrainMvt → Type 0) → Type 0
Holds mvts id listed =
    (group : List TrainMvt) × (get id mvts ≡ some group) × ((x : TrainMvt) → listed x → In x group)

get-inserted : {V : Type 0} (k : ℕ) (v : V) (m : Map ℕ V) → get k (insert k v m) ≡ some v
get-inserted k v m = ground (arith, eq→== k k refl, get-insert k k v m)

get-insert_other :
    {V : Type 0} (j k : ℕ) (v : V) (m : Map ℕ V) → (j == k) ≡ false → get k (insert j v m) ≡ get k m
get-insert_other j k v m n = ground (arith, get-insert j k v m)

add_to_group-keeps :
    (listed : TrainMvt → Type 0) (j id : ℕ) (m : TrainMvt) (u : Option TrainMvt)
    (mvts : Map ℕ (List TrainMvt))
    → Holds mvts id listed
    → Holds (add_to_group j m u mvts) id listed
add_to_group-keeps listed j id m u mvts (group, there, all_in) = elim (Bool-cases (j == id)) [
  | inl y ↦
      let here : get j mvts ≡ some group = ap (λ i. get i mvts) (==→eq j id y) ∙ there in
      (
        group ++ one_or_none u,
        ap (get id) (add_to_group-some j m u group mvts here)
            ∙ subst
                (λ i.
                  get i (insert j (group ++ one_or_none u) mvts) ≡ some (group ++ one_or_none u))
                (==→eq j id y) (get-inserted j (group ++ one_or_none u) mvts),
        λ x h. In-append_left x group (one_or_none u) (all_in x h),
      )
  | inr n ↦ (
    group,
    elim (Option-cases (get j mvts)) [
      | inl e ↦
          ap (get id) (add_to_group-none j m u mvts e) ∙ get-insert_other j id _ mvts n ∙ there
      | inr (g, e) ↦
          ap (get id) (add_to_group-some j m u g mvts e) ∙ get-insert_other j id _ mvts n ∙ there
    ],
    all_in,
  )
]

add_to_group-lists :
    (id : ℕ) (m : TrainMvt) (u : Option TrainMvt) (mvts : Map ℕ (List TrainMvt))
    → Holds (add_to_group id m u mvts) id (λ x. In x (one_or_none u))
add_to_group-lists id m u mvts = elim (Option-cases (get id mvts)) [
  | inl e ↦ (
    m ∷ one_or_none u,
    ap (get id) (add_to_group-none id m u mvts e) ∙ get-inserted id _ mvts,
    λ x h. inr h,
  )
  | inr (g, e) ↦ (
    g ++ one_or_none u,
    ap (get id) (add_to_group-some id m u g mvts e) ∙ get-inserted id _ mvts,
    λ x h. In-append_right x g (one_or_none u) h,
  )
]

add_rows-keeps :
    (listed : TrainMvt → Type 0) (id : ℕ) (rows : List MvtRow) (r : MvtQueryResponse)
    → Holds r.mvts id listed
    → Holds (add_rows r rows).mvts id listed
unfolding add_rows add_row
add_rows-keeps listed id [] r h = h
add_rows-keeps listed id ((m, t, u) ∷ rows) r h =
    add_rows-keeps listed id rows (add_row r (m, t, u))
      (add_to_group-keeps listed m.id id m u r.mvts h)

add_rows-lists :
    (m : TrainMvt) (t : Train) (u : Option TrainMvt) (rows : List MvtRow) (r : MvtQueryResponse)
    → In (m, t, u) rows
    → Holds (add_rows r rows).mvts m.id (λ x. In x (one_or_none u))
unfolding add_rows add_row
add_rows-lists m t u [] r i = In-nil {A = MvtRow} (m, t, u) i
add_rows-lists m t u (row ∷ rows) r (inl e) = add_rows-keeps _ m.id rows (add_row r row) (
    subst (λ (q : MvtRow). Holds (add_row r q).mvts m.id (λ x. In x (one_or_none u))) e
      (add_to_group-lists m.id m u r.mvts))
add_rows-lists m t u (row ∷ rows) r (inr i) = add_rows-lists m t u rows (add_row r row) i

module _ (c : Chrono) (db : ZugDb) (tpl : String) (ts within_dur : ℕ) where
  row-lists :
      (m : TrainMvt) (t : Train) (u : Option TrainMvt)
      → In m db.movements
      → passes tpl (from c ts within_dur) (upto c ts within_dur) m ≡ true
      → In t db.trains
      → train_of (c.date ts) m t ≡ true
      → In u (updating db m.id)
      → Holds (answer c db tpl ts within_dur).mvts m.id (λ x. In x (one_or_none u))
  unfolding get_mvts_passing_through rows_through
  row-lists m t u m_in m_passes t_in t_is u_in = add_rows-lists m t u _ _ (
      In-concat_map_of _ (m, t, u) m _ (In-select_of _ m db.movements m_in m_passes)
        (In-concat_map_of _ (m, t, u) t _
          (In-select_of (train_of (c.date ts) m) t db.trains t_in t_is)
          (In-map_of (λ v. (m, t, v)) u _ u_in)))

  -- In a well-formed database, a movement of the schedule that passes the place in the time window on
  -- the date of its train is answered, at the head of the group under its id, and every update of it
  -- is in that group.
  pub get_mvts_passing_through-finds_updates :
      (m : TrainMvt) (t : Train)
      → IsValid db
      → In m db.movements
      → passes tpl (from c ts within_dur) (upto c ts within_dur) m ≡ true
      → In t db.trains
      → train_of (c.date ts) m t ≡ true
      → (rest : List TrainMvt) × (get m.id (answer c db tpl ts within_dur).mvts ≡ some (m ∷ rest))
        × ((u : TrainMvt) → In u db.movements → updates_of m.id u ≡ true → In u (m ∷ rest))
  get_mvts_passing_through-finds_updates m t valid m_in m_passes t_in t_is =
      let joined = select (updates_of m.id) db.movements in
      let (o, o_in) = or_null-inhabited joined in
      let (group, there, all_in) = row-lists m t o m_in m_passes t_in t_is o_in in
      let g =
        get-All
          (λ (e : ℕ × List TrainMvt).
            IsGroupOf db tpl (from c ts within_dur) (upto c ts within_dur)
              (answer c db tpl ts within_dur).trains e.0 e.1)
          m.id group _ (get_mvts_passing_through-Groups c db tpl ts within_dur) there in
      let head_is : g.original ≡ m =
        Pairwise-same (λ (x : TrainMvt) y. x.id == y.id) db.movements g.original m valid.mvts.ids
          g.original_in m_in (eq→== _ _ (sym g.id_is)) (eq→== _ _ g.id_is) in
      let group_is : group ≡ m ∷ g.updates = g.group_is ∙ ap (λ x. x ∷ g.updates) head_is in
      (
        g.updates,
        there ∙ ap (λ l. some l) group_is,
        λ u u_in u_is.
            let (group', there', all_in') =
              row-lists m t (some u) m_in m_passes t_in t_is (
                In-or_null_of u joined (In-select_of (updates_of m.id) u db.movements u_in u_is)) in
            subst (In u)
              (some-injective group' (m ∷ g.updates)
                (sym there' ∙ (there ∙ ap (λ l. some l) group_is)))
              (all_in' u (inl refl)),
      )
