-- ===== src/Zugfuhrer/App/Updates.antt =====
-- Movement updates, of tspl-zugfuhrer/src/ctx.rs: the steps of their transactions.
pub mod Outcome
use trainsplorer.Prelude.{
  ℕ, ◌≡◌, refl, sym, ap, subst, ◌∙◌, inl, inr, Bool, true, false, not, ◌&&◌, Option, none, some,
  List, [], ◌∷◌, ◌++◌, All, In, In-nil, In-select, All-of_In, All-select, arith, nat_eq, string_eq,
  ◌==◌, eq→==, ==→eq, Bool-cases, if◌then◌else◌, ltb, length, select, select_none, select-append,
  delete_where, first,
}
use trainsplorer.Prelude.Maps.{is_some}
use trainsplorer.Sqlite.{Rowids, any_row, any_row-of_In}
use trainsplorer.Zugfuhrer.Types.{Train, TrainMvt, DarwinMvtUpdate, TrustMvtUpdate, ZugDb}
use trainsplorer.Zugfuhrer.Errors.{
  ZugResult, ok, err, ◌>>=◌, ok_or, >>=-eq-ok, ok-injective, err≢ok, movements_ambiguous,
  movements_not_found,
}
use trainsplorer.Zugfuhrer.Store.{updates_one_of, cascade, delete_mvts, insert_mvt}
use trainsplorer.Zugfuhrer.Store.Valid.{
  IsValid, MvtsValid, UpdatesOriginal, UpdatesOriginal-delete, updates_one_of-is_some, original,
  cascade-keeps, delete_mvts-MvtsValid, insert_mvt-ok, insert_mvt-IsValid,
}
use trainsplorer.Zugfuhrer.App.{
  App, Broadcast, train_mvt, commit, find_train, only, darwin_target, trust_target, darwin_mvt,
  trust_mvt, darwin_update_of, insert_tmvt, darwin_transaction, trust_transaction,
  process_darwin_mvt_update, process_trust_mvt_update,
}

first-In {ℓ} :
    {A : Type ℓ} (l : List A) (a : A) → ok_or (first l) movements_not_found ≡ ok a → In a l
first-In [] a h = absurd (err≢ok h)
first-In (x ∷ xs) a h = inl (ok-injective a x (sym h))

only-In : (l : List TrainMvt) (m : TrainMvt) → only l ≡ ok m → In m l
unfolding only
only-In l m h = elim (Bool-cases (ltb 1 (length l))) [
  | inl y ↦ absurd (err≢ok (rw y at h))
  | inr n ↦ first-In l m (rw n at h)
]

-- A movement of the schedule is there after a deletion of updates.
original-delete_mvts :
    (p : TrainMvt → Bool) (db : ZugDb) (o : Option ℕ)
    → ((n : TrainMvt) → p n ≡ true → is_some n.updates ≡ true)
    → UpdatesOriginal db.movements o
    → UpdatesOriginal (delete_mvts p db).movements o
unfolding delete_mvts
original-delete_mvts p db o updates h =
    cascade-keeps (λ l. UpdatesOriginal l o)
      (λ gone l. UpdatesOriginal-delete (updates_one_of gone) l o (updates_one_of-is_some gone))
      (length db.movements) _ _ (UpdatesOriginal-delete p db.movements o updates h)

-- What was deleted is not there.
pub select-delete_mvts :
    (p : TrainMvt → Bool) (db : ZugDb) → select p (delete_mvts p db).movements ≡ []
unfolding delete_mvts
select-delete_mvts p db = select_none p _ (
    cascade-keeps (All (λ m. p m ≡ false)) (λ gone l h. All-select _ _ l h) (length db.movements) _
      _ (All-of_In _ _ λ m i. ground (arith, (In-select (λ n. not (p n)) m db.movements i).1)))

darwin_update_of-is_some :
    (id : ℕ) (n : TrainMvt) → darwin_update_of id n ≡ true → is_some n.updates ≡ true
darwin_update_of-is_some id n h = ground arith

module _ (sq : Rowids) where
  insert_tmvt-ok :
      (db : ZugDb) (tmvt : TrainMvt) (r : TrainMvt × ZugDb)
      → insert_tmvt sq db tmvt ≡ ok r
      → (insert_mvt sq db tmvt ≡ ok (r.0.id, r.1)) × (r.0 ≡ record tmvt { id = r.0.id })
  unfolding insert_tmvt
  insert_tmvt-ok db tmvt r h =
      let ((id, db'), h1, h2) = >>=-eq-ok (insert_mvt sq db tmvt) _ h in
      let e : (record tmvt { id = id }, db') ≡ r = ok-injective _ r h2 in
      subst (λ q. (insert_mvt sq db tmvt ≡ ok (q.0.id, q.1)) × (q.0 ≡ record tmvt { id = q.0.id }))
        e (h1, refl)

  -- What a transaction that succeeded has done.
  pub darwin_transaction-ok :
      (db : ZugDb) (tid : ℕ) (upd : DarwinMvtUpdate) (r : TrainMvt × ZugDb)
      → darwin_transaction sq db tid upd ≡ ok r
      → (train : Train) × (t : TrainMvt) × (find_train db tid ≡ ok train)
        × In t db.movements
        × (darwin_target train.id upd t ≡ true)
        × (insert_mvt sq (delete_mvts (darwin_update_of t.id) db) (darwin_mvt train t upd)
            ≡ ok (r.0.id, r.1))
        × (r.0 ≡ record (darwin_mvt train t upd) { id = r.0.id })
  unfolding darwin_transaction
  darwin_transaction-ok db tid upd r h =
      let (train, h1, g1) = >>=-eq-ok (find_train db tid) _ h in
      let (t, h2, g2) = >>=-eq-ok (only (select (darwin_target train.id upd) db.movements)) _ g1 in
      let (there, target) =
        In-select (darwin_target train.id upd) t db.movements (only-In _ t h2) in
      let (inserted, is) =
        insert_tmvt-ok (delete_mvts (darwin_update_of t.id) db) (darwin_mvt train t upd) r g2 in
      (train, t, h1, there, target, inserted, is)

  pub trust_transaction-ok :
      (db : ZugDb) (tid : ℕ) (upd : TrustMvtUpdate) (r : TrainMvt × ZugDb)
      → trust_transaction sq db tid upd ≡ ok r
      → (train : Train) × (t : TrainMvt) × (find_train db tid ≡ ok train)
        × In t db.movements
        × (trust_target db train.id upd t ≡ true)
        × (insert_mvt sq db (trust_mvt train t upd) ≡ ok (r.0.id, r.1))
        × (r.0 ≡ record (trust_mvt train t upd) { id = r.0.id })
  unfolding trust_transaction
  trust_transaction-ok db tid upd r h =
      let (train, h1, g1) = >>=-eq-ok (find_train db tid) _ h in
      let (t, h2, g2) =
        >>=-eq-ok (only (select (trust_target db train.id upd) db.movements)) _ g1 in
      let (there, target) =
        In-select (trust_target db train.id upd) t db.movements (only-In _ t h2) in
      let (inserted, is) = insert_tmvt-ok db (trust_mvt train t upd) r g2 in
      (train, t, h1, there, target, inserted, is)

  pub darwin_transaction-IsValid :
      (db : ZugDb) (tid : ℕ) (upd : DarwinMvtUpdate) (r : TrainMvt × ZugDb)
      → IsValid db
      → darwin_transaction sq db tid upd ≡ ok r
      → IsValid r.1
  unfolding delete_mvts
  darwin_transaction-IsValid db tid upd r v h =
      let (train, t, found, there, target, inserted, is) = darwin_transaction-ok db tid upd r h in
      let gone = darwin_update_of t.id in
      insert_mvt-IsValid sq (delete_mvts gone db) r.1 (darwin_mvt train t upd) r.0.id
        (record {
          train_ids = v.train_ids;
          mvts = delete_mvts-MvtsValid gone db (darwin_update_of-is_some t.id) v.mvts;
        })
        (original-delete_mvts gone db (some t.id) (darwin_update_of-is_some t.id) (
          any_row-of_In (original t.id) t db.movements there
            (ground (arith, target, eq→== t.id t.id refl))))
        inserted

  pub trust_transaction-IsValid :
      (db : ZugDb) (tid : ℕ) (upd : TrustMvtUpdate) (r : TrainMvt × ZugDb)
      → IsValid db
      → trust_transaction sq db tid upd ≡ ok r
      → IsValid r.1
  trust_transaction-IsValid db tid upd r v h =
      let (train, t, found, there, target, inserted, is) = trust_transaction-ok db tid upd r h in
      insert_mvt-IsValid sq db r.1 (trust_mvt train t upd) r.0.id v
        (any_row-of_In (original t.id) t db.movements there
          (ground (arith, target, eq→== t.id t.id refl)))
        inserted
