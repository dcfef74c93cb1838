-- ===== src/Updater/Import/Stored.antt =====
-- What the database holds of a schedule's movements after they are inserted.
use trainsplorer.Updater.Engine.{Engine}
use trainsplorer.Prelude.{
  ℕ, subst, String, Perm, All, All-mono, false, ◌||◌, ◌≡◌, refl, sym, ap, ◌∙◌, inl, inr, Bool, true,
  List, [], ◌∷◌, ◌++◌, arith, nat_eq, string_eq, ◌==◌, eq→==, Bool-cases, map, select,
  select-append, IsSorted,
}
use mathlib.Core.List.{append_assoc, append-nil, head-eq_of_cons-eq, tail-eq_of_cons-eq}
use mathlib.Core.List.Perm
use trainsplorer.Prelude.Unique.{AllTold, sorted_unique}
use trainsplorer.Sqlite.{any_row}
use trainsplorer.Fahrplan.Types.{ScheduleMvt, FahrplanDb, dummy, mvt_lt, mvt_eq}
use trainsplorer.Updater.Import.{ok, with_id, insert_mvt, insert_mvts, stored_mvts, mvts_eq}
use trainsplorer.Updater.Import.Valid.{>>=-eq-ok, ok-injective, err≢ok}

-- The same movements, but for their ids and their schedule.
abbrev pub Same : List ScheduleMvt → List ScheduleMvt → Type 0
Same [] [] = Unit
Same (p ∷ ps) (m ∷ ms) =
    (p.tiploc ≡ m.tiploc)
    × (p.action ≡ m.action)
    × (p.time ≡ m.time)
    × (p.day_offset ≡ m.day_offset)
    × Same ps ms
Same _ _ = ⊥

-- What `PartialEq` and `Ord` look at.
abbrev Key : Type 0
Key = String × ℕ × ℕ × ℕ

abbrev key : ScheduleMvt → Key
key m = (m.tiploc, m.action, m.time, m.day_offset)

abbrev of_key : Key → ScheduleMvt
of_key k = record dummy { tiploc = k.0; action = k.1; time = k.2; day_offset = k.3 }

abbrev key_lt : Key → Key → Bool
key_lt a b = mvt_lt (of_key a) (of_key b)

abbrev key_eq : Key → Key → Bool
key_eq a b = mvt_eq (of_key a) (of_key b)

-- Of movements that the order does not tell apart, `PartialEq` says that they are equal: they are at
-- one place.
abbrev pub TiesAgree : List ScheduleMvt → Type 0
TiesAgree ms = All (λ a. All (λ b. (mvt_lt a b || (mvt_lt b a || mvt_eq a b)) ≡ true) ms) ms

key_lt_irrefl : (a : Key) → key_lt a a ≡ false
key_lt_irrefl a = ground arith

key_lt-not_before : (a b c : Key) → key_lt b a ≡ false → key_lt c b ≡ false → key_lt c a ≡ false
key_lt-not_before a b c h k = ground (arith, h, k)

key_eq-eq : (a b : Key) → key_eq a b ≡ true → a ≡ b
key_eq-eq a b h =
    let place : a.0 ≡ b.0 = (string_eq.beq_iff a.0 b.0).0 (ground (arith, h)) in
    let action : a.1 ≡ b.1 = ground (arith, h) in
    let time : a.2 ≡ b.2 = ground (arith, h) in let day : a.3 ≡ b.3 = ground (arith, h) in cc

All-map {ℓ κ} :
    {A : Type ℓ} {B : Type κ} (P : B → Type 0) (f : A → B) (xs : List A)
    → All (λ x. P (f x)) xs
    → All P (map f xs)
All-map P f [] h = tt
All-map P f (x ∷ xs) h = (h.0, All-map P f xs h.1)

keys-AllTold : (ms : List ScheduleMvt) → TiesAgree ms → AllTold key_lt key_eq (map key ms)
keys-AllTold ms h = All-map _ key ms (All-mono _ _ (λ a k. All-map _ key ms k) ms h)

keys-IsSorted : (ms : List ScheduleMvt) → IsSorted mvt_lt ms → IsSorted key_lt (map key ms)
keys-IsSorted [] h = tt
keys-IsSorted (a ∷ []) h = tt
keys-IsSorted (a ∷ (b ∷ ms)) h = (h.0, keys-IsSorted (b ∷ ms) h.1)

keys-Same : (ps ms : List ScheduleMvt) → Same ps ms → map key ps ≡ map key ms
keys-Same [] [] h = refl
keys-Same [] (m ∷ ms) h = absurd h
keys-Same (p ∷ ps) [] h = absurd h
keys-Same (p ∷ ps) (m ∷ ms) (a, b, c, d, rest) =
    let tail = keys-Same ps ms rest in
    let head : key p ≡ key m = cc in ap (λ k. k ∷ map key ps) head ∙ ap (λ l. key m ∷ l) tail

mvts_eq-of_keys : (ps ms : List ScheduleMvt) → map key ps ≡ map key ms → mvts_eq ps ms ≡ true
unfolding mvts_eq
mvts_eq-of_keys [] [] h = refl
mvts_eq-of_keys [] (m ∷ ms) h = absurd (cc)
mvts_eq-of_keys (p ∷ ps) [] h = absurd (cc)
mvts_eq-of_keys (p ∷ ps) (m ∷ ms) h =
    let head : key p ≡ key m = head-eq_of_cons-eq h in
    let rest = mvts_eq-of_keys ps ms (tail-eq_of_cons-eq h) in
    let place : p.tiploc ≡ m.tiploc = ap (λ (k : Key). k.0) head in
    let action : p.action ≡ m.action = ap (λ (k : Key). k.1) head in
    let time : p.time ≡ m.time = ap (λ (k : Key). k.2) head in
    let day : p.day_offset ≡ m.day_offset = ap (λ (k : Key). k.3) head in
    ground (arith, place, action, time, day, rest, string_eq.beq_iff p.tiploc m.tiploc)

pub select-one {ℓ} : {A : Type ℓ} (p : A → Bool) (a : A) → p a ≡ true → select p (a ∷ []) ≡ a ∷ []
unfolding select
select-one p a h = rw h

abbrev pub of_schedule : ℕ → ScheduleMvt → Bool
of_schedule sid m = m.parent_sched == sid

module _ (sq : Engine) where
  pub insert_mvt-ok :
      (db db' : FahrplanDb) (m : ScheduleMvt)
      → insert_mvt sq db m ≡ ok db'
      → db' ≡ record db {
        movements =
            db.movements ++ record m { id = sq.rowids.next (map (λ n. n.id) db.movements) } ∷ [];
      }
  unfolding insert_mvt
  insert_mvt-ok db db' m h = elim (Bool-cases (any_row (with_id m.parent_sched) db.schedules)) [
    | inl y ↦ sym (ok-injective _ db' (rw y at h))
    | inr n ↦ absurd (err≢ok (rw n at h))
  ]

  -- The schedule has what it had, and after that the inserted movements.
  pub insert_mvts-Same :
      (db db' : FahrplanDb) (sid : ℕ) (ms : List ScheduleMvt)
      → insert_mvts sq db sid ms ≡ ok db'
      → (placed : List ScheduleMvt) × Same placed ms
        × (select (of_schedule sid) db'.movements ≡ select (of_schedule sid) db.movements ++ placed)
        × (db'.schedules ≡ db.schedules)
  unfolding insert_mvts
  insert_mvts-Same db db' sid [] h =
      let e = ok-injective db db' h in
      (
        [],
        tt,
        ap (λ d. select (of_schedule sid) d.movements) (sym e) ∙ sym (append-nil _),
        ap (λ d. d.schedules) (sym e),
      )
  insert_mvts-Same db db' sid (m ∷ ms) h =
      let (db1, h1, h2) = >>=-eq-ok (insert_mvt sq db (record m { parent_sched = sid })) _ h in
      let (placed, same, movements_are, schedules_are) = insert_mvts-Same db1 db' sid ms h2 in
      let new : ScheduleMvt = record m {
        parent_sched = sid;
        id = sq.rowids.next (map (λ n. n.id) db.movements);
      } in
      let db1_is = insert_mvt-ok db db1 (record m { parent_sched = sid }) h1 in
      (
        new ∷ placed,
        (refl, refl, refl, refl, same),
        movements_are
            ∙ ap (λ l. l ++ placed)
                (ap (λ d. select (of_schedule sid) d.movements) db1_is
                  ∙ select-append (of_schedule sid) db.movements (new ∷ [])
                  ∙ ap (λ l. select (of_schedule sid) db.movements ++ l)
                      (select-one (of_schedule sid) new (eq→== sid sid refl)))
            ∙ append_assoc (select (of_schedule sid) db.movements) (new ∷ []) placed,
        schedules_are ∙ ap (λ d. d.schedules) db1_is,
      )

  -- However SQLite orders rows that tie: the same movements as some sorted ones, in which those that
  -- tie are equal, are read back as these.
  ordered-Same :
      (placed ms : List ScheduleMvt)
      → Same placed ms
      → IsSorted mvt_lt ms
      → TiesAgree ms
      → mvts_eq (sq.order_by.run placed) ms ≡ true
  ordered-Same placed ms same sorted told =
      let rearranged : Perm (map key ms) (map key (sq.order_by.run placed)) =
        subst (λ l. Perm l (map key (sq.order_by.run placed))) (keys-Same placed ms same)
          (Perm.symm (Perm.map key (sq.order_by.rearranged placed))) in
      mvts_eq-of_keys (sq.order_by.run placed) ms (
        sym (
          sorted_unique key_lt key_lt_irrefl key_lt-not_before key_eq key_eq-eq (map key ms)
            (map key (sq.order_by.run placed)) rearranged (keys-IsSorted ms sorted)
            (keys-IsSorted _ (sq.order_by.sorted placed)) (keys-AllTold ms told)))

  -- Movements that are inserted for a schedule without any are read back as they were.
  pub stored_mvts-Same :
      (db db' : FahrplanDb) (sid : ℕ) (ms : List ScheduleMvt)
      → insert_mvts sq db sid ms ≡ ok db'
      → select (of_schedule sid) db.movements ≡ []
      → IsSorted mvt_lt ms
      → TiesAgree ms
      → mvts_eq (stored_mvts sq db' sid) ms ≡ true
  unfolding stored_mvts
  stored_mvts-Same db db' sid ms h none_yet sorted told =
      let (placed, same, movements_are, schedules_are) = insert_mvts-Same db db' sid ms h in
      let stored_is : select (of_schedule sid) db'.movements ≡ placed =
        movements_are ∙ ap (λ l. l ++ placed) none_yet in
      ap (λ l. mvts_eq (sq.order_by.run l) ms) stored_is ∙ ordered-Same placed ms same sorted told
