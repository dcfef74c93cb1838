-- ===== src/Zugfuhrer/Query/Groups.antt =====
-- The groups of movements that `get_mvts_passing_through` of tspl-zugfuhrer/src/ctx.rs answers with.
use trainsplorer.Prelude.{
  ℕ, String, ◌≡◌, refl, sym, ap, subst, ◌∙◌, inl, inr, true, Option, none, some, List, [], ◌∷◌,
  ◌++◌, All, All-mono, All-of_In, All-append, In, In-nil, In-select, In-concat_map, In-map,
  In-map_of, arith, nat_eq, string_eq, eq→==, ==→eq, Option-cases, select,
}
use mathlib.Core.Option.{some-injective}
use trainsplorer.Prelude.Maps.{Map, get, insert, contains_key, get-insert, get-All, All-insert}
use trainsplorer.Chrono.{Chrono}
use trainsplorer.Util.Time.{calculate_non_midnight_aware_times}
use trainsplorer.Zugfuhrer.Types.{Train, TrainMvt, ZugDb, MvtQueryResponse}
use trainsplorer.Zugfuhrer.Query.{
  passes, updates_of, or_null, updating, train_of, MvtRow, rows_through, one_or_none, add_to_group,
  add_row, add_rows, get_mvts_passing_through,
}

pub In-or_null {ℓ} : {A : Type ℓ} (a : A) (xs : List A) → In (some a) (or_null xs) → In a xs
In-or_null a [] (inl e) = absurd (cc)
In-or_null a [] (inr i) = In-nil (some a) i
In-or_null a (x ∷ xs) (inl e) = inl (some-injective a x e)
In-or_null a (x ∷ xs) (inr i) =
    let (y, there, e) = In-map (λ y. some y) (some a) xs i in
    inr (subst (λ z. In z xs) (some-injective y a (sym e)) there)

pub In-or_null_of {ℓ} : {A : Type ℓ} (a : A) (xs : List A) → In a xs → In (some a) (or_null xs)
In-or_null_of a [] i = In-nil a i
In-or_null_of a (x ∷ xs) (inl e) = inl (ap (λ y. some y) e)
In-or_null_of a (x ∷ xs) (inr i) = inr (In-map_of (λ y. some y) a xs i)

-- Something always joins.
pub or_null-inhabited {ℓ} : {A : Type ℓ} (xs : List A) → (o : Option A) × In o (or_null xs)
or_null-inhabited [] = (none, inl refl)
or_null-inhabited (x ∷ xs) = (some x, inl refl)

pub updates_of-eq : (id : ℕ) (m : TrainMvt) → updates_of id m ≡ true → m.updates ≡ some id
updates_of-eq id m h = elim (Option-cases m.updates) [
  | inl e ↦ absurd (cc (rw e at h))
  | inr (k, e) ↦ e ∙ ap (λ i. some i) (==→eq k id (rw e at h))
]

-- What a row of the join tells.
pub record IsRow (db : ZugDb) (tpl : String) (start_time end_time date : ℕ) (row : MvtRow)
    : Type 0 where
  pub original_in : In row.0 db.movements
  pub original_passes : passes tpl start_time end_time row.0 ≡ true
  pub train_in : In row.1 db.trains
  pub train_is : row.1.id ≡ row.0.parent_train
  pub on_date : row.1.date ≡ date
  pub update_is : All (λ u. In u db.movements × (u.updates ≡ some row.0.id)) (one_or_none row.2)

-- A group of the answer: a movement of the schedule that passes, and updates of it; its train is
-- known.
pub record IsGroupOf (db : ZugDb) (tpl : String) (start_time end_time : ℕ) (trains : Map ℕ Train)
    (id : ℕ) (group : List TrainMvt) : Type 0 where
  pub original : TrainMvt
  pub updates : List TrainMvt
  pub group_is : group ≡ original ∷ updates
  pub id_is : id ≡ original.id
  pub original_in : In original db.movements
  pub original_passes : passes tpl start_time end_time original ≡ true
  pub updates_are : All (λ u. In u db.movements × (u.updates ≡ some original.id)) updates
  pub train_there : contains_key original.parent_train trains ≡ true

module _ (db : ZugDb) (tpl : String) (start_time end_time : ℕ) where
  abbrev pub Groups : Map ℕ Train → Map ℕ (List TrainMvt) → Type 0
  Groups trains =
      All (λ (e : ℕ × List TrainMvt). IsGroupOf db tpl start_time end_time trains e.0 e.1)

pub contains_key-insert :
    {V : Type 0} (j k : ℕ) (v : V) (m : Map ℕ V)
    → contains_key k m ≡ true
    → contains_key k (insert j v m) ≡ true
contains_key-insert j k v m h = ground (arith, h, get-insert j k v m)

pub contains_key-inserted :
    {V : Type 0} (k : ℕ) (v : V) (m : Map ℕ V) → contains_key k (insert k v m) ≡ true
contains_key-inserted k v m = ground (arith, eq→== k k refl, get-insert k k v m)

pub add_to_group-none :
    (id : ℕ) (m : TrainMvt) (u : Option TrainMvt) (mvts : Map ℕ (List TrainMvt))
    → get id mvts ≡ none
    → add_to_group id m u mvts ≡ insert id (m ∷ one_or_none u) mvts
unfolding add_to_group
add_to_group-none id m u mvts e = rw (e, add_to_group) refl

pub add_to_group-some :
    (id : ℕ) (m : TrainMvt) (u : Option TrainMvt) (group : List TrainMvt)
    (mvts : Map ℕ (List TrainMvt))
    → get id mvts ≡ some group
    → add_to_group id m u mvts ≡ insert id (group ++ one_or_none u) mvts
unfolding add_to_group
add_to_group-some id m u group mvts e = rw (e, add_to_group) refl

module _ (db : ZugDb) (tpl : String) (start_time end_time date : ℕ) where
  pub rows_through-IsRow :
      (row : MvtRow)
      → In row (rows_through db tpl start_time end_time date)
      → IsRow db tpl start_time end_time date row
  unfolding rows_through
  rows_through-IsRow row h =
      let (m, in_m, h1) = In-concat_map _ row _ h in
      let (t, in_t, h2) = In-concat_map _ row _ h1 in
      let (u, in_u, e) = In-map _ row _ h2 in
      let (m_there, m_passes) = In-select _ m _ in_m in
      let (t_there, t_is) = In-select (train_of date m) t _ in_t in
      subst (IsRow db tpl start_time end_time date) (sym e) (record {
        original_in = m_there;
        original_passes = m_passes;
        train_in = t_there;
        train_is = ground (arith, t_is);
        on_date = ground (arith, t_is);
        update_is = joined m u in_u;
      })
    where
      joined :
          (m : TrainMvt) (u : Option TrainMvt)
          → In u (updating db m.id)
          → All (λ v. In v db.movements × (v.updates ≡ some m.id)) (one_or_none u)
      joined m none i = tt
      joined m (some v) i =
          let (there, is) =
            In-select (updates_of m.id) v db.movements
              (In-or_null v (select (updates_of m.id) db.movements) i) in
          ((there, updates_of-eq m.id v is), tt)

  add_to_group-Groups :
      (trains : Map ℕ Train) (m : TrainMvt) (u : Option TrainMvt) (mvts : Map ℕ (List TrainMvt))
      → In m db.movements
      → passes tpl start_time end_time m ≡ true
      → All (λ v. In v db.movements × (v.updates ≡ some m.id)) (one_or_none u)
      → contains_key m.parent_train trains ≡ true
      → Groups db tpl start_time end_time trains mvts
      → Groups db tpl start_time end_time trains (add_to_group m.id m u mvts)
  add_to_group-Groups trains m u mvts there passing joined known h =
      elim (Option-cases (get m.id mvts)) [
        | inl e ↦
            subst (Groups db tpl start_time end_time trains)
              (sym (add_to_group-none m.id m u mvts e))
              (All-insert _ m.id (m ∷ one_or_none u) mvts h (record {
                original = m;
                updates = one_or_none u;
                group_is = refl;
                id_is = refl;
                original_in = there;
                original_passes = passing;
                updates_are = joined;
                train_there = known;
              }))
        | inr (group, e) ↦
            let old = get-All _ m.id group mvts h e in
            subst (Groups db tpl start_time end_time trains)
              (sym (add_to_group-some m.id m u group mvts e))
              (All-insert _ m.id (group ++ one_or_none u) mvts h (record {
                original = old.original;
                id_is = old.id_is;
                original_in = old.original_in;
                original_passes = old.original_passes;
                train_there = old.train_there;
                updates = old.updates ++ one_or_none u;
                group_is = ap (λ g. g ++ one_or_none u) old.group_is;
                updates_are = All-append _ old.updates (one_or_none u) old.updates_are (
                    All-mono _ _ (λ v k. (k.0, k.1 ∙ ap (λ i. some i) old.id_is)) (one_or_none u)
                      joined);
              }))
      ]

  add_row-Groups :
      (r : MvtQueryResponse) (row : MvtRow)
      → IsRow db tpl start_time end_time date row
      → Groups db tpl start_time end_time r.trains r.mvts
      → Groups db tpl start_time end_time (add_row r row).trains (add_row r row).mvts
  unfolding add_row
  add_row-Groups r row k h =
      add_to_group-Groups (insert row.1.id row.1 r.trains) row.0 row.2 r.mvts k.original_in
        k.original_passes k.update_is
        (subst (λ i. contains_key i (insert row.1.id row.1 r.trains) ≡ true) k.train_is
          (contains_key-inserted row.1.id row.1 r.trains))
        (All-mono (λ (e : ℕ × List TrainMvt). IsGroupOf db tpl start_time end_time r.trains e.0 e.1)
          (λ (e : ℕ × List TrainMvt).
            IsGroupOf db tpl start_time end_time (insert row.1.id row.1 r.trains) e.0 e.1)
          (λ e g. record {
            original = g.original;
            updates = g.updates;
            group_is = g.group_is;
            id_is = g.id_is;
            original_in = g.original_in;
            original_passes = g.original_passes;
            updates_are = g.updates_are;
            train_there =
                contains_key-insert row.1.id g.original.parent_train row.1 r.trains g.train_there;
          })
          r.mvts h)

  pub add_rows-Groups :
      (rows : List MvtRow) (r : MvtQueryResponse)
      → All (IsRow db tpl start_time end_time date) rows
      → Groups db tpl start_time end_time r.trains r.mvts
      → Groups db tpl start_time end_time (add_rows r rows).trains (add_rows r rows).mvts
  unfolding add_rows
  add_rows-Groups [] r k h = h
  add_rows-Groups (row ∷ rows) r k h =
      add_rows-Groups rows (add_row r row) k.1 (add_row-Groups r row k.0 h)

abbrev pub from : Chrono → ℕ → ℕ → ℕ
from c ts within_dur = (calculate_non_midnight_aware_times c ts within_dur).0

abbrev pub upto : Chrono → ℕ → ℕ → ℕ
upto c ts within_dur = (calculate_non_midnight_aware_times c ts within_dur).1

module _ (c : Chrono) (db : ZugDb) (tpl : String) (ts within_dur : ℕ) where
  abbrev pub answer : MvtQueryResponse
  answer = get_mvts_passing_through c db tpl ts within_dur

  -- Every group of the answer stands under the id of its first movement, which is a movement of the
  -- schedule that passes the place in the time window; the others are updates of it; and the train of
  -- the first is in the answer.
  pub get_mvts_passing_through-Groups :
      Groups db tpl (from c ts within_dur) (upto c ts within_dur) answer.trains answer.mvts
  unfolding get_mvts_passing_through
  get_mvts_passing_through-Groups =
      add_rows-Groups db tpl (from c ts within_dur) (upto c ts within_dur) (c.date ts)
        (rows_through db tpl (from c ts within_dur) (upto c ts within_dur) (c.date ts))
        (record { mvts = []; trains = [] })
        (All-of_In _ _
          (rows_through-IsRow db tpl (from c ts within_dur) (upto c ts within_dur) (c.date ts)))
        tt

  add_rows-trains :
      (rows : List MvtRow) (r : MvtQueryResponse)
      → All (λ (row : MvtRow). In row.1 db.trains) rows
      → All (λ (e : ℕ × Train). In e.1 db.trains) r.trains
      → All (λ (e : ℕ × Train). In e.1 db.trains) (add_rows r rows).trains
  unfolding add_rows add_row
  add_rows-trains [] r k h = h
  add_rows-trains (row ∷ rows) r k h =
      add_rows-trains rows (add_row r row) k.1 (All-insert _ row.1.id row.1 r.trains h k.0)

  -- Every train of the answer is stored.
  pub get_mvts_passing_through-trains_stored :
      All (λ (e : ℕ × Train). In e.1 db.trains) answer.trains
  unfolding get_mvts_passing_through
  get_mvts_passing_through-trains_stored =
      add_rows-trains
        (rows_through db tpl (from c ts within_dur) (upto c ts within_dur) (c.date ts))
        (record { mvts = []; trains = [] })
        (All-of_In _ _ (λ row i.
          (rows_through-IsRow db tpl (from c ts within_dur) (upto c ts within_dur) (c.date ts) row
            i).train_in))
        tt
