-- ===== src/Fahrplan/Query/Loop.antt =====
-- The loop of `get_mvts_passing_through` over the joined rows (tspl-fahrplan/src/ctx.rs).
use trainsplorer.Prelude.{
  ℕ, String, ◌≡◌, refl, sym, ap, ◌⊎◌, inl, inr, true, some, List, [], ◌∷◌, All, In, nat_eq,
  string_eq, Option-cases,
}
use trainsplorer.Prelude.Maps.{
  Map, get, insert, contains_key, is_some, Unique, Unique-insert, All-insert,
}
use trainsplorer.Fahrplan.Types.{Schedule, ScheduleMvt}
use trainsplorer.Fahrplan.Query.{
  process_schedule_join, insert_ids, JoinRow, Found, found_row, found_rows,
}
use trainsplorer.Fahrplan.Query.Join.{process_schedule_join-keeps}

-- Each entry of the map by train comes from a row of that train.
abbrev pub Entry : List JoinRow → String × Schedule → Type 0
Entry all e =
    (e.1.uid ≡ e.0)
    × ((row : JoinRow) × In row all × (row.1.uid ≡ e.0) × ((e.1 ≡ row.1) ⊎ (e.1 ≡ row.2)))

-- The loop keeps what holds of every row.
pub record Loop (all : List JoinRow) (f : Found) : Type 0 where
  pub smvts_from :
      All
        (λ (e : ℕ × ScheduleMvt). (e.0 ≡ e.1.id) × ((row : JoinRow) × In row all × (e.1 ≡ row.0)))
        f.smvts
  pub smvts_unique : Unique f.smvts
  pub entries : All (Entry all) f.schedules
  pub unique : Unique f.schedules

module _ (all : List JoinRow)
    (same_train : (row : JoinRow) → In row all → row.1.uid ≡ row.2.uid) where
  abbrev Good : Map String Schedule → Type 0
  Good m = All (Entry all) m × Unique m

  found_row-Loop :
      (f : Found) (row : JoinRow) → In row all → Loop all f → Loop all (found_row f row)
  unfolding found_row
  found_row-Loop f row h l = record {
    smvts_from = All-insert _ row.0.id row.0 f.smvts l.smvts_from (refl, (row, h, refl));
    smvts_unique = Unique-insert row.0.id row.0 f.smvts l.smvts_unique;
    entries = good.0;
    unique = good.1;
  }
    where
      good : Good (process_schedule_join f.schedules row.1 (some row.2))
      good =
          process_schedule_join-keeps Good f.schedules row.1 row.2 (l.entries, l.unique)
            (λ n g. (
              All-insert (Entry all) row.1.uid row.1 n g.0 (refl, (row, h, refl, inl refl)),
              Unique-insert row.1.uid row.1 n g.1,
            ))
            (λ n g. (
              All-insert (Entry all) row.1.uid row.2 n g.0
                  (sym (same_train row h), (row, h, refl, inr refl)),
              Unique-insert row.1.uid row.2 n g.1,
            ))

  pub found_rows-Loop :
      (f : Found) (rows : List JoinRow)
      → ((row : JoinRow) → In row rows → In row all)
      → Loop all f
      → Loop all (found_rows f rows)
  unfolding found_rows
  found_rows-Loop f [] sub l = l
  found_rows-Loop f (row ∷ rows) sub l =
      found_rows-Loop (found_row f row) rows (λ r h. sub r (inr h))
        (found_row-Loop f row (sub row (inl refl)) l)

-- The map by id has what the map by train has.
pub insert_ids-All :
    (Q : Schedule → Type 0) (inp : Map String Schedule) (out : Map ℕ Schedule)
    → All (λ (e : String × Schedule). Q e.1) inp
    → All (λ (e : ℕ × Schedule). (e.0 ≡ e.1.id) × Q e.1) out
    → All (λ (e : ℕ × Schedule). (e.0 ≡ e.1.id) × Q e.1) (insert_ids inp out)
unfolding insert_ids
insert_ids-All Q [] out h k = k
insert_ids-All Q ((uid, s) ∷ inp) out h k =
    insert_ids-All Q inp (insert s.id s out) h.1 (All-insert _ s.id s out k (refl, h.0))

pub some_of_contains_key :
    {V : Type 0} (k : ℕ) (m : Map ℕ V) → contains_key k m ≡ true → (v : V) × (get k m ≡ some v)
some_of_contains_key k m h = elim (Option-cases (get k m)) [
  | inl e ↦ absurd (cc (ap is_some e))
  | inr r ↦ r
]
